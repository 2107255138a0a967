-- ===== src/Npshell/Session/EndOfInput.antt =====
-- The shell behind the end of its input.
use nycu_np.Npshell.Parse.{parse_command}
use nycu_np.Npshell.Run.{run_lines}
use nycu_np.Npshell.Session.{Getenv, prompt, run_shell, rounds}
use nycu_np.Prelude.{
  ℕ, zero, suc, Bool, true, false, ◌&&◌, if_true, [], ◌∷◌, ◌++◌, replicate, codes, pos, ◌≡◌, refl,
  ap, ◌∙◌,
}
use nycu_np.Shell.Kernel.{Kernel, Log, Proc, running, cout, bind_outcome, emit, pure}
use nycu_np.Shell.Run.{Shell}
use nycu_np.Shell.Stream.{Stream, get_line, read_word}

abbrev pub prompts : ℕ → Log → Log
prompts n l = replicate n (cout (codes "% ")) ++ l

-- The stream behind a read at its end.
abbrev pub ended : Stream
ended = record { rest = []; failed = true }

abbrev at_end : Bool → Stream
at_end failed = record { rest = []; failed = failed }

prompt-on :
    (sh : Shell) (l : Log)
    → sh.is_running ≡ true
    → prompt (pos 0) sh l ≡ running tt (cout (codes "% ") ∷ l)
unfolding prompt
prompt-on sh l on =
    ap (λ p. p l)
      (if_true (sh.is_running && true) (emit (cout (codes "% "))) (pure tt) (rw on refl))

run_shell-ended :
    (k : Kernel) (getenv : Getenv) (sh : Shell) (failed : Bool) (l : Log)
    → sh.is_running ≡ true
    → run_shell k getenv (pos 0) (sh, at_end failed) l ≡ running (sh, ended) (cout (codes "% ") ∷ l)
unfolding run_shell parse_command run_lines read_word get_line
run_shell-ended k getenv sh false l on =
    ap (λ m. bind_outcome (bind_outcome m λ _ l'. running sh l') λ sh' l'. running (sh', ended) l')
      (prompt-on sh l on)
run_shell-ended k getenv sh true l on =
    ap (λ m. bind_outcome (bind_outcome m λ _ l'. running sh l') λ sh' l'. running (sh', ended) l')
      (prompt-on sh l on)

one_round :
    (n : ℕ) (k : Kernel) (getenv : Getenv) (sh : Shell) (failed : Bool) (l : Log)
    → sh.is_running ≡ true
    → rounds (suc n) k getenv (sh, at_end failed) l
      ≡ rounds n k getenv (sh, ended) (cout (codes "% ") ∷ l)
unfolding rounds
one_round n k getenv sh failed l on =
    ap (λ (p : Proc (Shell × Stream)). p l) (if_true sh.is_running _ _ on)
    ∙ ap (λ m. bind_outcome m (rounds n k getenv)) (run_shell-ended k getenv sh failed l on)

prompts-suc : (n : ℕ) (l : Log) → prompts n (cout (codes "% ") ∷ l) ≡ prompts (suc n) l
prompts-suc zero l = refl
prompts-suc (suc n) l = ap (◌∷◌ (cout (codes "% "))) (prompts-suc n l)

rounds-prompts :
    (n : ℕ) (k : Kernel) (getenv : Getenv) (sh : Shell) (l : Log)
    → sh.is_running ≡ true
    → rounds n k getenv (sh, ended) l ≡ running (sh, ended) (prompts n l)
unfolding rounds
rounds-prompts zero k getenv sh l on = refl
rounds-prompts (suc n) k getenv sh l on =
    one_round n k getenv sh true l on
    ∙ rounds-prompts n k getenv sh (cout (codes "% ") ∷ l) on
    ∙ ap (running (sh, ended)) (prompts-suc n l)

-- A shell that is running, at the end of its input, never ends: after any number of rounds it is
-- still running, unchanged, and has done nothing but print as many prompts.
rounds-ended :
    (n : ℕ) (k : Kernel) (getenv : Getenv) (sh : Shell) (failed : Bool) (l : Log)
    → sh.is_running ≡ true
    → rounds (suc n) k getenv (sh, record { rest = []; failed = failed }) l
      ≡ running (sh, ended) (prompts (suc n) l)
rounds-ended n k getenv sh failed l on =
    one_round n k getenv sh failed l on
    ∙ rounds-prompts n k getenv sh (cout (codes "% ") ∷ l) on
    ∙ ap (running (sh, ended)) (prompts-suc n l)
