-- ===== src/Lib.antt =====
-- The network programming projects: a shell with pipes, a chat server that runs it for remote
-- users, a SOCKS 4 server, and a web console.
--
-- The parts. A client's line reaches the server (312552017_np_project2/np_single_proc.cpp), which
-- hands it to that user's shell (server/chatServer.cpp: runShellLoop). The shell parses the line
-- (shell/cmdHandler.cpp: parseCommand), runs the built-in commands at once against the server's
-- tables, and starts the programs of each command line with pipes between them (runShell). The
-- pipes are those of the line, numbered pipes to a later line (shell/util.hpp), files, or pipes to
-- another user, which the server keeps. The shell of project 1 (312552017_np_project1) is an earlier
-- one, without a server. The HTTP server of project 4 (312552017_np_project4/cgiserver/cgi_session.cpp)
-- runs a program for each request; the console program talks to remote shells
-- (cgiserver/cgi_application.cpp) through the SOCKS 4 server (socks4server). The HTTP server of
-- project 3 (312552017_np_project3/cgi_server.cpp) does the work of all three in one process.
--
-- The files.
--   Prelude: Booleans, lists, bytes, integers, and ordered maps over the native numbers.
--   Shell/Ring: circular_buffer of shell/util.hpp.
--   Shell/Kernel: the system calls. A process is a function of the log of calls; it goes on with a
--     value, has left, or has done what C++ leaves undefined. What the system answers is a parameter,
--     a function of the log, so that no answer is fixed.
--   Shell/Pipes: shell/pipe.cpp. Shell/Command: shell/cmdType.hpp and cmdType.cpp.
--   Shell/Stream: what the parser uses of std::istringstream.
--   Shell/Parse: parseCommand. The loop over words runs on fuel, one more than the bytes of the line,
--     which is enough since every word has a byte.
--   Shell/Run: runShell. The server's part in it is the record UserPipes.
--   Server/State, Server/Users, Server/Messages, Server/UserPipe: the tables of chatServer.cpp and
--     its operations, in the build without CONFIG_SHM. The sends are the calls that the process makes
--     while it lives: its flags are 0 and no handler is set, so that a peer that has closed its
--     connection ends the process at a send, by SIGPIPE, and no call behind that one is made. Only
--     Server/Simple, where a process has a single peer, takes this from the system (`is_killed`).
--   Server/Session: the built-in commands, runShellLoop, and one ready descriptor of the select loop;
--     Server/Session/Reach: every sequence of them; Server/Session/Granted: the pipes between users of
--     this server are such as the theorem of Shell/Run/Runs asks for.
--   Server/Select: the loop of main of 312552017_np_project2/np_single_proc.cpp, with the set of watched
--     descriptors. What accept and select answer is a parameter. The loop over the descriptors runs on
--     fuel fd_setsize, and its bound is below that.
--   Server/Simple: 312552017_np_project2/np_simple.cpp, each of its processes by what fork answers it. Its
--     loops are modelled for any number of turns.
--   Server/Shared: the operations of chatServer.cpp with CONFIG_SHM on the users in shared memory. A call
--     on the memory is one step; Server/Shared/Calls makes each operation a sequence of steps, which
--     the processes may interleave; Server/Shared/Who and
--     Server/Shared/Agree compare the array with the map of users of the other build; Server/Shared/Welcome is
--     the process of a new client in np_multi_proc.cpp.
--   Server/Fifo: the pipes between users with CONFIG_SHM. The log there is that of all processes.
--   Npshell: project 1's shell (312552017_np_project1/npshell.cpp and shell/), which has its own
--     commands, parser and runShell, and the pipes and the buffer of Shell, whose text is the same.
--     Its loop is modelled for any number of rounds.
--   Socks/Header: the packed header of socks4_util.hpp. Socks/Pattern: convertToRegexPattern. Its
--     loops run on fuel above the length of the text. Socks/Regex: std::regex for the patterns that
--     the conversion yields; `compile` is `none` where a text says more than that.
--   Socks/Firewall: matchFirewallRule and isDestinationIPAddressAllowed; the loop over the file runs on
--     fuel above its length, and each entry takes a byte.
--   Socks/Handler: handleRead and what it calls. A process serves one client, so that the static
--     header of `reply` is the process's own.
--   Socks/Relay: relayTraffic and asyncReadWrite, over the reports of asio.
--   Filters: commands/removetag.cpp, removetag0.cpp and number.cpp.
--   Cgi/Escape, Cgi/Panel, Cgi/Console: the escaping and the two pages of
--     312552017_np_project4/cgiserver/cgi_util.cpp.
--   Cgi/Query: parseHTTPQueryString, with its two patterns; its loop runs on fuel above the length of the
--     query, and each match takes a byte at least.
--   Cgi/Application: cgiserver/cgi_application.cpp, the dialogue with a remote shell as a state machine
--     over what asio reports, and the request to the SOCKS 4 server.
--   Cgi/Session: cgiserver/cgi_session.cpp, the program that a request runs, and the queue of writes.
--   Http: 312552017_np_project3/cgi_server.cpp, with the escaping and the query string of its
--     cgiserver/cgi_util.cpp. Http/Boost: what it uses of Boost's string algorithms and of asio, as a
--     parameter.
--     Http/Session: from the bytes of a request to the page and the dialogues. Http/NpShell: a dialogue
--     with a remote shell, over the reports of asio.
--   Examples: the statements at concrete inputs.
--
-- A `char` array is the text in front of its first NUL. An `int` is an integer; where an extraction
-- from a stream does not fit it, the bound is stored, as the standard says. Undefined behaviour is the
-- outcome `fault`, or `none`: so is a write whose text is destroyed before it is written in full.
--
-- Not modelled: the loops of np_multi_proc.cpp; socket set-up and signal handlers, which are calls of the
-- system; the CGI programs of project 3, which are earlier versions of those of project 4; the accept
-- loop of socks_server.cpp.
pub mod Prelude
pub mod Shell
pub mod Npshell
pub mod Server
pub mod Socks
pub mod Filters
pub mod Cgi
pub mod Http
pub mod Examples
