-- ===== src/Server/Session/Invariant.antt =====
-- What a request keeps true of the server, where each of its calls does.
use nycu_np.Prelude.{
  ℕ, Bool, true, false, if◌then◌else◌, List, [], ◌∷◌, Option, none, some, Bytes, ℤ, pos, ◌≡◌, refl,
  codes,
}
use nycu_np.Server.Messages.Serving.{name-IsServing}
use nycu_np.Server.Messages.{name, who, tell, yell}
use nycu_np.Server.Session.{
  Session, exit_shell, print_value, set_variable, unchanged, rename, builtins, user_pipes,
  run_parsed, parsed, run_shell, after_shell, store_shell, run_shell_loop,
}
use nycu_np.Server.State.{UserInfo, Server, find_user, get_serving_user_id, deref, put_user}
use nycu_np.Server.UserPipe.{write_user_pipe, read_user_pipe}
use nycu_np.Server.Tables.{IsServing, IsSameUser, put_user-IsServing}
use nycu_np.Server.UserPipe.Serving.{write_user_pipe-IsServing, read_user_pipe-IsServing, deref-eq}
use nycu_np.Server.Users.{restore_stdio, send_raw_message, set_serving_user_env}
use nycu_np.Shell.Command.{NpCommandLine}
use nycu_np.Shell.Kernel.{Pipe, Kernel, Log, Outcome, running, ◌>>◌}
use nycu_np.Shell.Parse.Host.{IsClosed, HostHolds, parse_command_host}
use nycu_np.Shell.Parse.{parse_command}
use nycu_np.Shell.Pipes.{close_pipe}
use nycu_np.Shell.Run.Host.{KeepsHost, run_lines_host}
use nycu_np.Shell.Run.Post.{Post, Post-bind, Post-seq}
use nycu_np.Shell.Run.{prompt}

-- The environment is no part of the tables.
env-IsServing :
    (f : ℕ → Bytes → Bytes) (sv : Server) → IsServing sv → IsServing (record sv { env_table = f })
env-IsServing f sv v = record {
  consistent = record {
    ids_ascend = v.consistent.ids_ascend;
    socks_ascend = v.consistent.socks_ascend;
    sock_leads = v.consistent.sock_leads;
    user_there = v.consistent.user_there;
  };
  all_connected = v.all_connected;
}

-- The calls that change the tables, or a record in them.
pub record Keeps (P : Server → Type 0) : Type 0 where
  pub sets_env : (f : ℕ → Bytes → Bytes) (sv : Server) → P sv → P (record sv { env_table = f })
  pub renames :
      (id : ℕ) (wanted : Bytes) (sv : Server) (l : Log)
      → P sv
      → Post (λ sv' l'. P sv') (name id wanted sv l)
  pub writes :
      (k : Kernel) (id : ℕ) (uid : ℤ) (text : Bytes) (curr : Pipe) (sv : Server) (l : Log)
      → P sv
      → Post (λ r l'. P r.0) (write_user_pipe k id uid text curr sv l)
  pub reads :
      (k : Kernel) (id : ℕ) (uid : ℤ) (text : Bytes) (curr : Pipe) (sv : Server) (l : Log)
      → P sv
      → Post (λ r l'. P r.0) (read_user_pipe k id uid text curr sv l)
  pub stores :
      (id : ℕ) (u w : UserInfo) (sv : Server)
      → find_user sv id ≡ some u
      → IsSameUser u w
      → P sv
      → P (put_user id w sv)

pub IsServing-Keeps : Keeps IsServing
IsServing-Keeps = record {
  sets_env = env-IsServing;
  renames = name-IsServing;
  writes = λ k id uid text curr sv l v. write_user_pipe-IsServing k id uid text curr sv v l;
  reads = λ k id uid text curr sv l v. read_user_pipe-IsServing k id uid text curr sv v l;
  stores = λ id u w sv there same v. put_user-IsServing id u w sv there same v;
}

module _ (P : Server → Type 0) (keeps : Keeps P) where
  abbrev Serving : Session → Log → Type 0
  Serving s l = P s.server

  abbrev Tables : Server → Log → Type 0
  Tables sv l = P sv

  abbrev Looped : Server × Bool → Log → Type 0
  Looped r l = P r.0

  abbrev Goes : Outcome Session → Type 0
  Goes m = Post Serving m

  unchanged-Serving :
      (act : Server → Log → Outcome (Unit {0})) (s : Session) (l : Log)
      → P s.server
      → Goes (unchanged act s l)
  unfolding unchanged
  unchanged-Serving act s l v = Post-seq Serving (act s.server l) _ (λ r l'. v)

  exit_shell-Serving : (s : Session) (l : Log) → P s.server → Goes (exit_shell s l)
  unfolding exit_shell
  exit_shell-Serving s l v = Post-seq Serving (close_pipe s.shell.eol l) _ λ eol l₁.
      Post-seq Serving (close_pipe s.shell.prev_pipe l₁) _
        λ prev l₂. Post-seq Serving (close_pipe s.shell.curr_pipe l₂) _ λ curr l₃. v

  print_value-Serving :
      (value : Bytes) (s : Session) (l : Log) → P s.server → Goes (print_value value s l)
  unfolding print_value
  print_value-Serving [] s l v = v
  print_value-Serving (c ∷ cs) s l v = v

  rename-Serving :
      (id : ℕ) (wanted : Bytes) (s : Session) (l : Log) → P s.server → Goes (rename id wanted s l)
  unfolding rename
  rename-Serving id wanted s l v =
      Post-bind Tables Serving (name id wanted s.server l) _ (keeps.renames id wanted s.server l v)
        (λ sv l' w. w)

  set_variable-Serving :
      (id : ℕ) (env var : Bytes) (s : Session) (l : Log)
      → P s.server
      → Goes (set_variable id env var s l)
  unfolding set_variable
  set_variable-Serving id env var s l v = unfold set_serving_user_env in keeps.sets_env _ s.server v

  -- Every built-in command keeps the tables in order.
  builtins-IsClosed : (id : ℕ) → IsClosed (builtins id) Goes
  unfolding builtins
  builtins-IsClosed id = record {
    exit = λ m h. Post-bind Serving Serving m _ h exit_shell-Serving;
    printenv = λ env m h. Post-bind Serving Serving m _ h (λ s l v. print_value-Serving _ s l v);
    setenv = λ env var m h.
        Post-bind Serving Serving m _ h (λ s l v. set_variable-Serving id env var s l v);
    who = λ m h. Post-bind Serving Serving m _ h (λ s l v. unchanged-Serving (who id) s l v);
    tell = λ uid message m h.
        Post-bind Serving Serving m _ h (λ s l v. unchanged-Serving (tell id uid message) s l v);
    yell = λ message m h.
        Post-bind Serving Serving m _ h (λ s l v. unchanged-Serving (yell id message) s l v);
    name =
        λ new_name m h. Post-bind Serving Serving m _ h (λ s l v. rename-Serving id new_name s l v);
  }

  user_pipes-KeepsHost : (k : Kernel) (id : ℕ) → KeepsHost (user_pipes k id) P
  unfolding user_pipes
  user_pipes-KeepsHost k id = record {
    reads = λ me uid curr text other sv l v. keeps.reads k id uid text curr sv l v;
    writes = λ me uid curr text other sv l v. keeps.writes k id uid text curr sv l v;
  }

  module _ (k : Kernel) (uninit : ℤ) where
    run_parsed-Serving :
        (fd id : ℕ) (text : Bytes) (lines : List NpCommandLine) (s : Session) (l : Log)
        → P s.server
        → Goes (run_parsed k fd id text lines s l)
    unfolding run_parsed
    run_parsed-Serving fd id text lines s l v =
        Post-bind (λ r l'. P r.0) Serving _ _
          (run_lines_host k (user_pipes k id) P (user_pipes-KeepsHost k id) (pos id) text lines
            s.server s.shell l v)
          λ r l₁ w. Post-seq Serving (prompt (pos fd) r.1 l₁) _ (λ done l₂. w)

    parsed-Serving :
        (fd id : ℕ) (text : Bytes) (r : Option (List NpCommandLine × Outcome Session))
        → HostHolds Goes r
        → Goes (parsed k fd id text r)
    unfolding parsed
    parsed-Serving fd id text none h = tt
    parsed-Serving fd id text (some (lines, after)) h =
        Post-bind Serving Serving after _ h (run_parsed-Serving fd id text lines)

    run_shell-Serving :
        (fd id : ℕ) (text : Bytes) (s : Session) (l : Log)
        → P s.server
        → Goes (run_shell k uninit fd id text s l)
    unfolding run_shell
    run_shell-Serving fd id text s l v =
        parsed-Serving fd id text (parse_command (builtins id) uninit text (running s l))
          (parse_command_host (builtins id) uninit Goes (builtins-IsClosed id) text (running s l) v)

    after_shell-Serving :
        (fd id : ℕ) (s : Session) (l : Log) → P s.server → Post Looped (after_shell fd id s l)
    unfolding after_shell
    after_shell-Serving fd id s l v = Post-seq Looped (restore_stdio s.server l) _ λ done l₁.
        Post-bind (λ u l'. find_user s.server id ≡ some u) Looped _ _
          (deref-eq (find_user s.server id) l₁) λ u l₂ there. ended s.shell.is_running u there l₂
      where
        stored : (u : UserInfo) → find_user s.server id ≡ some u → P (store_shell id s u)
        stored u there =
            keeps.stores id u (record u { shell = s.shell }) s.server there
              (record { sock = refl; is_connected = refl }) v

        ended :
            (running : Bool) (u : UserInfo)
            → find_user s.server id ≡ some u
            → (l' : Log)
            → Post Looped (
                (if running
                    then (send_raw_message fd (codes "% ")
                        >> (λ l''. Outcome.running (store_shell id s u, true) l''))
                    else (λ l''. Outcome.running (store_shell id s u, false) l''))
                  l')
        ended true u there l' = stored u there
        ended false u there l' = stored u there

    pub run_shell_loop-Serving :
        (fd : ℕ) (text : Bytes) (sv : Server) (l : Log)
        → P sv
        → Post Looped (run_shell_loop k uninit fd text sv l)
    unfolding run_shell_loop
    run_shell_loop-Serving fd text sv l v =
        Post-seq Looped (deref (find_user sv (get_serving_user_id sv fd)) _) _ λ u l₁.
          Post-bind Serving Looped
            (run_shell k uninit fd (get_serving_user_id sv fd) text
              (record { server = sv; shell = u.shell }) l₁)
            _
            (run_shell-Serving fd (get_serving_user_id sv fd) text
              (record { server = sv; shell = u.shell }) l₁ v)
            (λ s l₂ w. after_shell-Serving fd (get_serving_user_id sv fd) s l₂ w)
