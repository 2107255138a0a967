-- ===== src/Server/Fifo/Open.antt =====
-- The file between two users, opened by the one who writes and by the one who reads.
use nycu_np.Prelude.{
  ℕ, ◌≤◌, ◌==◌, Bool, true, false, if◌then◌else◌, if_true, if_false, [], ◌∷◌, Option, none, some,
  ◌&&◌, Bytes, pos, equal, equal_iff, ==_iff, Bool-cases, ◌⊎◌, inl, inr, ◌≡◌, refl, sym, ap, ◌∙◌,
  arith,
}
use nycu_np.Server.Fifo.{
  FifoServer, set_pipe, fifo, opened, open_user_pipe, found_user, handle_user_pipe,
}
use nycu_np.Server.Shared.{Shared, in_array, put}
use mathlib.Core.Path.{fun_ext}
use nycu_np.Server.UserPipe.{writing, reading, above_max_conn}
use nycu_np.Shell.Kernel.{
  Kernel, Log, Pipe, create_truncate, create_append, read_write, read_nonblock, access, mkfifo,
  open_file, unlink, running,
}
use nycu_np.Shell.Pipes.{open_fifo, write_mode, read_mode}

-- The last call that has made or removed a file: whether it is there since then. A `mkfifo` that fails
-- changes nothing, and an `open` that may create the file says nothing; `makes` is whether the newest
-- call, a `mkfifo`, succeeds.
abbrev pub last_change : (Log → Bool) → Bytes → Log → Option Bool
last_change makes name [] = none
last_change makes name (mkfifo m ∷ l) =
    if equal m name && makes (mkfifo m ∷ l) then some true else last_change makes name l
last_change makes name (unlink m ∷ l) =
    if equal m name then some false else last_change makes name l
last_change makes name (open_file m create_truncate ∷ l) =
    if equal m name then none else last_change makes name l
last_change makes name (open_file m create_append ∷ l) =
    if equal m name then none else last_change makes name l
last_change makes name (_ ∷ l) = last_change makes name l

-- What POSIX documents of `mkfifo`, `unlink` and `access`, where nobody else touches the files: a file
-- that a `mkfifo` has made is there, and one that was removed is not.
abbrev pub KeepsFiles : Kernel → Type 0
KeepsFiles k =
    (name : Bytes) (l : Log) (there : Bool)
    → last_change k.makes_fifo name l ≡ some there
    → k.file_exists (access name ∷ l) ≡ there

pub record IsPlace (s : Shared) (id : ℕ) : Type 0 where
  pub at_least : 1 ≤ id
  pub at_most : id ≤ 30
  pub is_there : (s.users id).is_connected ≡ true

put_self : {A : Type 0} (i : ℕ) (f : ℕ → A) → put i (f i) f ≡ f
put_self i f = fun_ext (λ j. at (Bool-cases (j == i)))
  where
    at : {j : ℕ} → ((j == i) ≡ true) ⊎ ((j == i) ≡ false) → put i (f i) f j ≡ f j
    at {j} (inl same) = if_true (j == i) _ _ same ∙ ap f (sym ((==_iff j i).0 same))
    at {j} (inr other) = if_false (j == i) _ _ other

pub set_pipe_self : (id uid : ℕ) (st : FifoServer) → set_pipe id uid (st.user_pipes id uid) st ≡ st
set_pipe_self id uid st =
    ap (λ row. record st { user_pipes = put id row st.user_pipes })
      (put_self uid (st.user_pipes id))
    ∙ ap (λ f. record st { user_pipes = f }) (put_self id st.user_pipes)

within_max : (m : ℕ) → m ≤ 30 → above_max_conn (pos m) ≡ false
within_max m h = ground arith

place-in_array : (s : Shared) (id : ℕ) → IsPlace s id → in_array id ≡ true
place-in_array s id p = ground (arith, p.at_least, p.at_most)

module _ (k : Kernel) (id uid : ℕ) (st : FifoServer) (l : Log) (place : IsPlace st.shared uid) where
  pub handle_writing :
      handle_user_pipe k writing id (pos uid) st l
      ≡ open_user_pipe k (fifo id uid) write_mode uid id st l
  unfolding handle_user_pipe found_user
  handle_writing =
      rw (within_max uid place.at_most, place-in_array st.shared uid place, place.is_there) refl

  pub handle_reading :
      handle_user_pipe k reading id (pos uid) st l
      ≡ open_user_pipe k (fifo uid id) read_mode id uid st l
  unfolding handle_user_pipe found_user
  handle_reading =
      rw (within_max uid place.at_most, place-in_array st.shared uid place, place.is_there) refl

pub set_pipe_get :
    (id uid : ℕ) (p : Pipe) (st : FifoServer) → (set_pipe id uid p st).user_pipes id uid ≡ p
set_pipe_get id uid p st =
    ap (λ (row : ℕ → Pipe). row uid) (if_true (id == id) _ _ ((==_iff id id).1 refl))
    ∙ if_true (uid == uid) _ _ ((==_iff uid uid).1 refl)

pub equal_self : (name : Bytes) → equal name name ≡ true
equal_self name = (equal_iff name name).1 refl

-- The calls of a write that makes the file, and of a read that finds it.
abbrev pub made : Bytes → Log → Log
made name l = open_file name read_write ∷ mkfifo name ∷ access name ∷ l

abbrev pub found : Bytes → Log → Log
found name l = open_file name read_nonblock ∷ access name ∷ l

module _ (k : Kernel) (name : Bytes) (a b : ℕ) (st : FifoServer) (l : Log) where
  pub open_taken :
      k.file_exists (access name ∷ l) ≡ true
      → open_user_pipe k name write_mode a b st l ≡ running (st, opened false) (access name ∷ l)
  unfolding open_user_pipe open_fifo
  open_taken there =
      rw there (ap (λ st'. running (st', opened false) (access name ∷ l)) (set_pipe_self a b st))

  pub open_missing :
      k.file_exists (access name ∷ l) ≡ false
      → open_user_pipe k name read_mode a b st l ≡ running (st, opened false) (access name ∷ l)
  unfolding open_user_pipe open_fifo
  open_missing absent =
      rw absent (ap (λ st'. running (st', opened false) (access name ∷ l)) (set_pipe_self a b st))

  pub open_made :
      k.file_exists (access name ∷ l) ≡ false
      → open_user_pipe k name write_mode a b st l
        ≡ running
            (
              set_pipe a b (record (st.user_pipes a b) { output = k.open_fd (made name l) }) st,
              opened true,
            )
            (made name l)
  unfolding open_user_pipe open_fifo
  open_made absent = rw absent refl

  pub open_found :
      k.file_exists (access name ∷ l) ≡ true
      → open_user_pipe k name read_mode a b st l
        ≡ running
            (
              set_pipe a b (record (st.user_pipes a b) { input = k.open_fd (found name l) }) st,
              opened true,
            )
            (found name l)
  unfolding open_user_pipe open_fifo
  open_found there = rw there refl
