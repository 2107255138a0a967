-- ===== src/Shell/Parse/Total.antt =====
-- The loop of the parser ends: every round reads at least one byte of the line.
use mathlib.Core.Option
use nycu_np.Prelude.{
  ℕ, zero, suc, ◌≤◌, ◌<◌, Bool, List, [], ◌∷◌, Option, none, some, Bytes, length, ℤ, ◌≡◌, refl,
  arith, ap, is_space, inl, inr, Bool-cases,
}
use nycu_np.Shell.Command.{NpCommandLine}
use nycu_np.Shell.Parse.Cases.{interpret-cases}
use nycu_np.Shell.Parse.{
  Builtins, Parsing, add_pair, interpret, parse_loop, parse_next, start, finish, parse_command,
  parse_printenv, parse_setenv, parse_tell, parse_yell, parse_name, parse_file, parse_numbered,
  parse_write, parse_read, emplace_line,
}
use nycu_np.Shell.Stream.{
  Stream, drop_spaces, word, after_word, take_word, read_word, read_int, read_line_ws, after_line,
  after_digits, after_sign, take_int, int_after_spaces, take_line, is_negative,
}

drop_spaces-le : (s : Bytes) → length (drop_spaces s) ≤ length s
unfolding drop_spaces
drop_spaces-le [] = omega arith
drop_spaces-le (c ∷ cs) = ground (arith, drop_spaces-le cs)

after_word-le : (s : Bytes) → length (after_word s) ≤ length s
unfolding after_word
after_word-le [] = omega arith
after_word-le (c ∷ cs) = ground (arith, after_word-le cs)

after_digits-le : (s : Bytes) → length (after_digits s) ≤ length s
unfolding after_digits
after_digits-le [] = omega arith
after_digits-le (c ∷ cs) = ground (arith, after_digits-le cs)

after_line-le : (s : Bytes) → length (after_line s) ≤ length s
unfolding after_line
after_line-le [] = omega arith
after_line-le (c ∷ cs) = ground (arith, after_line-le cs)

after_sign-le : (s : Bytes) → length (after_sign s) ≤ length s
unfolding after_sign
after_sign-le [] = omega arith
after_sign-le (c ∷ cs) = ground arith

-- What is left after an extraction is no longer than before.
abbrev Shrinks : Stream → Stream → Type 0
Shrinks s t = length t.rest ≤ length s.rest

take_word-le : (s : Bytes) → length (take_word s).0.rest ≤ length s
unfolding take_word
take_word-le [] = omega arith
take_word-le (c ∷ cs) = after_word-le (c ∷ cs)

read_word-Shrinks : (s : Stream) → Shrinks s (read_word s).0
unfolding read_word
read_word-Shrinks s = ground (arith, take_word-le (drop_spaces s.rest), drop_spaces-le s.rest)

take_line-le : (s : Bytes) → length (take_line s).0.rest ≤ length s
unfolding take_line
take_line-le [] = omega arith
take_line-le (c ∷ cs) = after_line-le (c ∷ cs)

read_line_ws-Shrinks : (s : Stream) → Shrinks s (read_line_ws s).0
unfolding read_line_ws
read_line_ws-Shrinks s = ground (arith, take_line-le (drop_spaces s.rest), drop_spaces-le s.rest)

take_int-le : (minus : Bool) (t : Bytes) → length (take_int minus t).0.rest ≤ length t
unfolding take_int
take_int-le minus t = ground (arith, after_digits-le t)

int_after_spaces-le : (old : ℤ) (s : Bytes) → length (int_after_spaces old s).0.rest ≤ length s
unfolding int_after_spaces
int_after_spaces-le old [] = omega arith
int_after_spaces-le old (c ∷ cs) =
    omega (arith, take_int-le (is_negative (c ∷ cs)) (after_sign (c ∷ cs)), after_sign-le (c ∷ cs))

read_int-Shrinks : (old : ℤ) (s : Stream) → Shrinks s (read_int old s).0
unfolding read_int
read_int-Shrinks old s =
    ground (arith, int_after_spaces-le old (drop_spaces s.rest), drop_spaces-le s.rest)

-- A word that is read takes a byte at least.
abbrev IsShorter : ℕ → Stream × Option Bytes → Type 0
IsShorter n (t, none) = Unit
IsShorter n (t, some w) = length t.rest < n

IsShorter-mono : {m n : ℕ} (r : Stream × Option Bytes) → m ≤ n → IsShorter m r → IsShorter n r
IsShorter-mono (t, none) h k = tt
IsShorter-mono (t, some w) h k = omega arith

take_word-IsShorter : (s : Bytes) → IsShorter (length s) (take_word (drop_spaces s))
unfolding take_word drop_spaces after_word
take_word-IsShorter [] = tt
take_word-IsShorter (c ∷ cs) = elim (Bool-cases (is_space c)) [
  | inl space ↦
      rw space (IsShorter-mono (take_word (drop_spaces cs)) (omega arith) (take_word-IsShorter cs))
  | inr other ↦ rw (other, other) (omega (arith, after_word-le cs))
]

read_word-IsShorter : (s : Stream) → IsShorter (length s.rest) (read_word s)
unfolding read_word
read_word-IsShorter s = ground (arith, take_word-IsShorter s.rest)

module _ {H : Type 0} (b : Builtins H) (uninit : ℤ) where
  interpret-Shrinks : (word : Bytes) (s : Parsing H) → Shrinks s.iss (interpret b uninit word s).iss
  unfolding parse_printenv parse_setenv parse_tell parse_yell parse_name parse_file parse_numbered
      parse_write parse_read add_pair emplace_line
  interpret-Shrinks word s =
      interpret-cases b uninit (λ t. Shrinks s.iss t.iss) word s (omega arith)
        (read_word-Shrinks s.iss)
        (omega (arith, read_word-Shrinks s.iss, read_word-Shrinks (read_word s.iss).0))
        (omega arith)
        (omega
          (arith, read_int-Shrinks uninit s.iss, read_line_ws-Shrinks (read_int uninit s.iss).0))
        (read_line_ws-Shrinks s.iss) (read_line_ws-Shrinks s.iss) (omega arith)
        (read_word-Shrinks s.iss) (omega arith) (omega arith) (omega arith) (omega arith)

  -- The loop runs to its end on any fuel above the number of bytes that are left.
  pub parse_loop_total :
      (fuel : ℕ) (s : Parsing H)
      → length s.iss.rest < fuel
      → (t : Parsing H) × (parse_loop b uninit fuel s ≡ some t)
  unfolding parse_loop
  parse_loop_total zero s h = elim h [ ]
  parse_loop_total (suc fuel) s h =
      step (read_word s.iss) (read_word-IsShorter s.iss) (parse_loop_total fuel)
    where
      step :
          (r : Stream × Option Bytes)
          → IsShorter (length s.iss.rest) r
          → ((u : Parsing H)
              → length u.iss.rest < fuel
              → (t : Parsing H) × (parse_loop b uninit fuel u ≡ some t))
          → (t : Parsing H) × (parse_next b uninit (parse_loop b uninit fuel) s r ≡ some t)
      step (iss, none) _ go = (record s { iss = iss }, refl)
      step (iss, some word) shorter go =
          go (interpret b uninit word (record s { iss = iss }))
            (omega (arith, interpret-Shrinks word (record s { iss = iss }), shorter))

  -- Every line is parsed: the fuel that the parser is given is enough, whatever the line and the
  -- state of the shell and the server.
  pub parse_command_total :
      (command : Bytes) (host : H)
      → (r : List NpCommandLine × H) × (parse_command b uninit command host ≡ some r)
  unfolding parse_command start
  parse_command_total command host =
      let (t, e) =
        parse_loop_total (suc (length command)) (start b uninit command host) (omega arith) in
      (finish b uninit t, ap (Option.map (finish b uninit)) e)
