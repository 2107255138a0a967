-- ===== src/Filters/Lines.antt =====
-- The numbered lines.
use nycu_np.Prelude.{
  ℕ, zero, suc, ◌+◌, ◌<◌, false, ◌==◌, List, [], ◌∷◌, ◌++◌, Bytes, All, length, to_string, ◌≡◌,
  refl, arith, ap, ap₂, ◌∙◌, length-append,
}
use nycu_np.Filters.{four_wide, number_loop, number}
use nycu_np.Shell.Stream.{line_of, after_line}

abbrev pub IsLine : Bytes → Type 0
IsLine w = All (λ c. (c == b'\n') ≡ false) w

abbrev pub unlines : List Bytes → Bytes
unlines [] = []
unlines (w ∷ ws) = w ++ (10 ∷ unlines ws)

abbrev pub numbered : ℕ → List Bytes → Bytes
numbered n [] = []
numbered n (w ∷ ws) = four_wide (to_string (n + 1)) ++ (32 ∷ (w ++ (10 ∷ numbered (n + 1) ws)))

line_of-append : (w t : Bytes) → IsLine w → line_of (w ++ (10 ∷ t)) ≡ w
unfolding line_of
line_of-append [] t h = refl
line_of-append (c ∷ w) t h = rw h.0 (ap (◌∷◌ c) (line_of-append w t h.1))

after_line-append : (w t : Bytes) → IsLine w → after_line (w ++ (10 ∷ t)) ≡ t
unfolding after_line
after_line-append [] t h = refl
after_line-append (c ∷ w) t h = rw h.0 (after_line-append w t h.1)

number_loop_step :
    (fuel n : ℕ) (w t : Bytes)
    → IsLine w
    → number_loop (suc fuel) n (w ++ (10 ∷ t))
      ≡ four_wide (to_string (n + 1)) ++ (32 ∷ (w ++ (10 ∷ number_loop fuel (n + 1) t)))
unfolding number_loop
number_loop_step fuel n w t h = shape w (
    ap₂ (λ l r. four_wide (to_string (n + 1)) ++ (32 ∷ (l ++ (10 ∷ number_loop fuel (n + 1) r))))
      (line_of-append w t h) (after_line-append w t h))
  where
    whole : Bytes → Bytes
    whole s =
        four_wide (to_string (n + 1))
        ++ (32 ∷ (line_of s ++ (10 ∷ number_loop fuel (n + 1) (after_line s))))

    shape :
        (v : Bytes) {r : Bytes}
        → whole (v ++ (10 ∷ t)) ≡ r
        → number_loop (suc fuel) n (v ++ (10 ∷ t)) ≡ r
    shape [] e = e
    shape (c ∷ v) e = e

number_loop-numbered :
    (fuel n : ℕ) (ws : List Bytes)
    → All IsLine ws
    → length (unlines ws) < fuel
    → number_loop fuel n (unlines ws) ≡ numbered n ws
number_loop-numbered zero n ws h k = absurd (omega arith)
number_loop-numbered (suc fuel) n [] h k = unfold number_loop in refl
number_loop-numbered (suc fuel) n (w ∷ ws) h k =
    number_loop_step fuel n w (unlines ws) h.0
    ∙ ap (λ r. four_wide (to_string (n + 1)) ++ (32 ∷ (w ++ (10 ∷ r))))
        (number_loop-numbered fuel (n + 1) ws h.1
          (omega (arith, length-append w (10 ∷ unlines ws))))

-- Of an input whose every line ends in a line end, each line is written behind its number, counted
-- from 1 and at least four wide, and a space; the loop reads the input to its end.
pub number-unlines : (ws : List Bytes) → All IsLine ws → number (unlines ws) ≡ numbered 0 ws
unfolding number
number-unlines ws h = number_loop-numbered (suc (length (unlines ws))) 0 ws h (omega arith)
