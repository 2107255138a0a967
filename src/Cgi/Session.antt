-- ===== src/Cgi/Session.antt =====
-- 312552017_np_project4/cgiserver/cgi_session.cpp: a request, the program that answers it, and the
-- queue of texts to write. The sockets, through asio and Boost, are parameters.
pub mod Queue
pub mod Program
use nycu_np.Prelude.{
  ℕ, ℤ, zero, suc, ◌/◌, ◌%◌, Bool, true, false, if◌then◌else◌, List, [], ◌∷◌, ◌++◌, Option, none,
  some, Bytes, codes, to_string,
}
use nycu_np.Shell.Run.{is_zero}

-- The queue `htmlContent`, its front first, the number of writes that have been started and not
-- reported, and the texts that have been handed to the socket, the oldest first.
pub record Session : Type 0 where
  pub html_content : List Bytes
  pub pending : ℕ
  pub handed : List Bytes

-- `doWrite`.
unfoldable pub do_write : List Bytes → Session → Session
do_write [] s = s
do_write (front ∷ rest) s = record s { pending = suc s.pending; handed = s.handed ++ front ∷ [] }

abbrev pub is_empty : List Bytes → Bool
is_empty [] = true
is_empty (front ∷ rest) = false

unfoldable pub write : Bytes → Session → Session
unfolding do_write
write text s =
    let queue = s.html_content ++ text ∷ [] in
    let queued = record s { html_content = queue } in
    let started = do_write queue queued in if is_empty s.html_content then started else queued

-- `pop` of an empty queue is undefined; here it leaves it.
abbrev pub popped : List Bytes → List Bytes
popped [] = []
popped (front ∷ rest) = rest

-- A text that is given to the session, or the report of a write.
pub data Event : Type 0 where
  given : Bytes → Event
  write_done : Event
  write_failed : Event

-- The handler of a write. A report that nothing was started for does not come.
unfoldable pub report : Event → ℕ → Session → Session
unfolding write do_write
report (given text) pending s = write text s
report write_done zero s = s
report write_done (suc pending) s =
    let rest = popped s.html_content in
    do_write rest (record s { html_content = rest; pending = pending })
report write_failed zero s = s
report write_failed (suc pending) s = record s { pending = pending }

unfoldable pub run : List Event → Session → Session
unfolding report
run [] s = s
run (e ∷ es) s = run es (report e s.pending s)

-- The request and its connection. The texts of `target().data()` and `httpReq["Host"].data()` are
-- what is read from there to the next NUL.
pub record Request : Type 0 where
  pub target : Bytes
  pub target_text : Bytes
  pub host_text : Bytes
  pub method : Bytes
  pub version : ℕ
  pub server_addr : Bytes
  pub server_port : ℕ
  pub remote_addr : Bytes
  pub remote_port : ℕ

-- `saveParms` and `addEnv`.
unfoldable pub save_parms : Request → Bytes → List Bytes
save_parms req query =
    (codes "REQUEST_METHOD=" ++ req.method)
    ∷ (codes "REQUEST_URI=" ++ req.target_text)
    ∷ (codes "QUERY_STRING=" ++ query)
    ∷ (codes "SERVER_PROTOCOL=HTTP/"
        ++ to_string (req.version / 10)
        ++ b'.' ∷ to_string (req.version % 10))
    ∷ (codes "HTTP_HOST=" ++ req.host_text)
    ∷ (codes "SERVER_ADDR=" ++ req.server_addr)
    ∷ (codes "SERVER_PORT=" ++ to_string req.server_port)
    ∷ (codes "REMOTE_ADDR=" ++ req.remote_addr)
    ∷ (codes "REMOTE_PORT=" ++ to_string req.remote_port)
    ∷ []

-- What `handleHttpRequest` has the system do. The three `fork_` calls are
-- `notify_fork`, and `stop` is that of the io_context.
pub data Call : Type 0 where
  fork_prepare : Call
  fork_child : Call
  fork_parent : Call
  fork : Call
  waitpid : ℤ → Call
  open_program : Bytes → Call
  stop : Call
  send : Bytes → Call
  dup_socket : ℕ → Call
  fexecve : Bytes → List Bytes → Call
  close_program : Call
  shutdown_send : Call

-- The answers: the pid of `fork`, whether the program can be opened, whether the status line is
-- written, and whether the program can be run.
pub record System : Type 0 where
  pub fork_pid : ℤ
  pub opens : Bool
  pub sends : Bool
  pub executes : Bool

abbrev pub http200 : Bytes
http200 = codes "HTTP/1.1 200 OK\r\n"

-- The handler of the write of the status line; behind a program that runs nothing is done.
abbrev pub execute : System → Bytes → List Bytes → List Call
execute sys path envp =
    dup_socket 0
    ∷ dup_socket 1
    ∷ dup_socket 2
    ∷ fexecve path envp
    ∷ (if sys.executes then [] else close_program ∷ stop ∷ [])

-- `forkCGI`, its calls in their order: those of the parent, or those of the child.
unfoldable pub fork_cgi : System → Bytes → List Bytes → List Call
fork_cgi sys path envp =
    fork_prepare
    ∷ fork
    ∷ (if is_zero sys.fork_pid
        then fork_child
          ∷ open_program path
          ∷ (if sys.opens
              then send http200 ∷ (if sys.sends then execute sys path envp else [])
              else stop ∷ [])
        else fork_parent ∷ waitpid sys.fork_pid ∷ [])

-- The target's parts at its question marks; where there is one part only, the query is empty.
-- (`boost::split` yields one part at least.)
abbrev pub path_of : List Bytes → Bytes
path_of [] = codes "."
path_of (path ∷ rest) = codes "." ++ path

abbrev pub query_of : List Bytes → Bytes
query_of (path ∷ query ∷ rest) = query
query_of _ = []

-- `handleHttpRequest`. The parts are those of `boost::split`, and the lines that it prints about
-- the query are left out.
unfoldable pub handle_http_request : (Bytes → List Bytes) → System → Request → List Call
unfolding fork_cgi save_parms to_string
handle_http_request split sys req =
    let parts = split req.target in fork_cgi sys (path_of parts) (save_parms req (query_of parts))

-- What the read of the request reports; `handleHttpError` shuts the connection down.
pub data RequestRead : Type 0 where
  request_read : Request → RequestRead
  end_of_stream : RequestRead
  read_error : RequestRead

unfoldable pub handle_request_read : (Bytes → List Bytes) → System → RequestRead → List Call
unfolding handle_http_request
handle_request_read split sys (request_read req) = handle_http_request split sys req
handle_request_read split sys end_of_stream = shutdown_send ∷ []
handle_request_read split sys read_error = []
