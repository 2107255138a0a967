-- ===== src/Server/Fifo/Drain.antt =====
-- What the loop of `readFIFO_writePipe` copies, and when it does not end.
use nycu_np.Prelude.{
  c_text, has, ℕ, zero, suc, ◌==◌, ==_iff, true, false, if◌then◌else◌, if_true, List, [], ◌∷◌, ◌++◌,
  append-nil, append_assoc, Bytes, ℤ, pos, All, length, map, replicate, some, ◌≡◌, refl, sym, ap,
  ◌∙◌, ◌<◌, ◌≤◌, ◌-◌, leb, length-append, arith, lt→ltb,
}
use nycu_np.Server.Fifo.{
  Read, got, failed, Reads, has_end, drain, drained, through, read_fifo_write_pipe,
}
use nycu_np.Server.Shared.Mail.{concat}
use nycu_np.Shell.Kernel.{Log, write, read, pipe, close, dup2, running, bind_outcome}

-- The bytes that have been written to a descriptor, the oldest first.
abbrev pub bytes_to : ℕ → Log → Bytes
bytes_to fd [] = []
bytes_to fd (write (pos n) text ∷ l) = if n == fd then bytes_to fd l ++ text else bytes_to fd l
bytes_to fd (_ ∷ l) = bytes_to fd l

-- A text that a read yields whole: shorter than the array, and without a NUL.
pub record IsText (text : Bytes) : Type 0 where
  pub fits : length text < 1024
  pub no_nul : All (λ c. (c == 0) ≡ false) text

c_text-whole : (text : Bytes) → All (λ c. (c == 0) ≡ false) text → c_text text ≡ text
unfolding c_text
c_text-whole [] h = refl
c_text-whole (c ∷ text) h = rw h.0 (ap (◌∷◌ c) (c_text-whole text h.1))

has_end-IsText : (text : Bytes) → IsText text → has_end text ≡ true
has_end-IsText text t = rw (lt→ltb (length text) 1024 t.fits) refl

-- The log after the texts have been copied.
abbrev pub copied : ℤ → ℕ → List Bytes → Log → Log
copied fd out [] l = l
copied fd out (text ∷ texts) l = copied fd out texts (write (pos out) text ∷ read fd ∷ l)

pub bytes_to-copied :
    (fd : ℤ) (out : ℕ) (texts : List Bytes) (l : Log)
    → bytes_to out (copied fd out texts l) ≡ bytes_to out l ++ concat texts
bytes_to-copied fd out [] l = sym (append-nil (bytes_to out l))
bytes_to-copied fd out (text ∷ texts) l =
    bytes_to-copied fd out texts (write (pos out) text ∷ read fd ∷ l)
    ∙ ap (λ t. t ++ concat texts) (if_true (out == out) _ _ ((==_iff out out).1 refl))
    ∙ append_assoc (bytes_to out l) text (concat texts)

drain-copied :
    (fd : ℤ) (out : ℕ) (texts : List Bytes) (more : List Read) (l : Log)
    → (room : ℕ) → All IsText texts
    → length (concat texts) ≤ room
    → drain fd (pos out) room (map got texts ++ more) l
      ≡ drain fd (pos out) (room - length (concat texts)) more (copied fd out texts l)
unfolding drain
drain-copied fd out [] more l room t fits =
    let whole : room ≡ room - 0 = omega arith in ap (λ n. drain fd (pos out) n more l) whole
drain-copied fd out (text ∷ texts) more l room t fits =
    let all = length-append text (concat texts) in
    let small : leb (length text) room ≡ true = ground (arith, all) in
    let left : room - length text - length (concat texts) ≡ room - length (text ++ concat texts) =
      omega (arith, all, fits) in
    rw (has_end-IsText text t.0, c_text-whole text t.0.no_nul, small)
      (drain-copied fd out texts more (write (pos out) text ∷ read fd ∷ l) (room - length text) t.1
          (omega (arith, all, fits))
        ∙ ap
            (λ n.
              drain fd (pos out) n more (copied fd out texts (write (pos out) text ∷ read fd ∷ l)))
            left)

-- The log after `readFIFO_writePipe`: the descriptor has become the read end of the pipe.
abbrev pub passed_on : ℤ → ℕ → ℕ → List Bytes → Log → Log
passed_on fd in_end out_end texts l =
    close (pos in_end)
    ∷ dup2 (pos in_end) fd
    ∷ close (pos out_end)
    ∷ read fd
    ∷ copied fd out_end texts (pipe ∷ l)

-- Where `pipe` succeeds, and the reads yield texts that the pipe has room for and then fail: the loop ends, and the pipe has got
-- the texts, in their order.
pub read_fifo_write_pipe-copies :
    (r : Reads) (fd : ℤ) (in_end out_end : ℕ) (texts : List Bytes) (more : List Read) (l : Log)
    → r.pipe_ends (pipe ∷ l) ≡ some (in_end, out_end)
    → r.yields (pipe ∷ l) ≡ map got texts ++ failed ∷ more
    → All IsText texts
    → length (concat texts) ≤ r.capacity
    → read_fifo_write_pipe r fd l ≡ running true (passed_on fd in_end out_end texts l)
unfolding read_fifo_write_pipe through drained
read_fifo_write_pipe-copies r fd in_end out_end texts more l made yields t room =
    ap (λ ends. through r fd ends (pipe ∷ l)) made
    ∙ ap
        (λ reads.
          bind_outcome (drain fd (pos out_end) r.capacity reads (pipe ∷ l))
            (drained fd (in_end, out_end)))
        yields
    ∙ ap (λ m. bind_outcome m (drained fd (in_end, out_end)))
        (drain-copied fd out_end texts (failed ∷ more) (pipe ∷ l) r.capacity t room
          ∙ (unfold drain in refl))

-- At the end of the input of the FIFO, however often it is read, the loop goes on: no number of
-- reads ends it.
drain-goes_on :
    (n : ℕ) (fd : ℤ) (out room : ℕ) (l : Log)
    → (l' : Log) × (drain fd (pos out) room (replicate n (got [])) l ≡ running false l')
unfolding drain c_text has
drain-goes_on zero fd out room l = (l, refl)
drain-goes_on (suc n) fd out room l =
    let fits : leb 0 room ≡ true = ground arith in
    let whole : room - 0 ≡ room = omega arith in
    rw (fits, whole) (drain-goes_on n fd out room (write (pos out) [] ∷ read fd ∷ l))
