-- ===== src/Shell/Pipes/Close.antt =====
-- What is closed when a pipe is closed.
use nycu_np.Prelude.{◌≡◌, refl, [], ◌∷◌, ◌++◌, true, if◌then◌else◌, is_minus_one, arith}
use nycu_np.Shell.Kernel.{Log, Pipe, running, close, dup2}
use nycu_np.Shell.Pipes.{close_pipe, is_empty, no_pipe, read_from, stdin_fileno}

-- The calls that close the ends of a pipe, the newest first: an end that is -1 is passed over.
abbrev pub closes : Pipe → Log
closes p =
    (if is_minus_one p.output then [] else close p.output ∷ [])
    ++ (if is_minus_one p.input then [] else close p.input ∷ [])

-- Closing a pipe closes each end that is there, in order, and nothing else; the pipe is then
-- the empty one, so that closing it again makes no call.
pub close_pipe-closes : (p : Pipe) (l : Log) → close_pipe p l ≡ running no_pipe (closes p ++ l)
unfolding close_pipe
close_pipe-closes p l = ground arith

-- A pipe that has been closed is empty, and closing it again makes no call at all.
pub close_pipe_twice :
    (p : Pipe) (l : Log)
    → (close_pipe p l ≡ running no_pipe (closes p ++ l))
      × (is_empty no_pipe ≡ true)
      × (close_pipe no_pipe l ≡ running no_pipe l)
unfolding is_empty close_pipe
close_pipe_twice p l = (close_pipe-closes p l, refl, refl)

-- The child's end of a pipe: its standard input, or its standard output and, where asked, error.
pub read_from_lem :
    (p : Pipe) (l : Log)
    → read_from p l ≡ running no_pipe (closes p ++ dup2 p.input stdin_fileno ∷ l)
unfolding read_from
read_from_lem p l = close_pipe-closes p _
