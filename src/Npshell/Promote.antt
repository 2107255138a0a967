-- ===== src/Npshell/Promote.antt =====
-- The commands of project 1 as those of project 2, which has one more class.
use nycu_np.Npshell.Command.{
  Command, exe_command, pipe_command, file_command, numbered_pipe_command, NpCommandLine,
}
use nycu_np.Prelude.{map, pos}
use nycu_np.Shell.Command as Served

abbrev pub promote : Command → Served.Command
promote (exe_command argv) = Served.exe_command argv
promote pipe_command = Served.pipe_command
promote (file_command name) = Served.file_command name
promote (numbered_pipe_command number include_error) =
    Served.numbered_pipe_command number include_error

-- No user is read from or written to.
abbrev pub promote_line : NpCommandLine → Served.NpCommandLine
promote_line line = record {
  file_name = line.file_name;
  file_mode = line.file_mode;
  np_commands = map promote line.np_commands;
  read_uid = pos 0;
  write_uid = pos 0;
}
