-- ===== src/Socks/Pattern/Expand.antt =====
-- The replacing loops are a pass over the text.
use nycu_np.Prelude.{
  ℕ, zero, suc, ◌+◌, ◌<◌, true, false, if◌then◌else◌, ◌==◌, [], ◌∷◌, ◌++◌, Bytes, take, drop,
  length, ◌≡◌, refl, arith, ap, ap₂, sym, ◌∙◌, append_assoc, Bool-cases, inl, inr, length-append,
}
use nycu_np.Socks.Pattern.{
  find_at, find_from, replace_at, replace_found, replace_loop, convert_to_regex_pattern,
}

-- Each `c` becomes the two bytes.
unfoldable pub expand : ℕ → ℕ → ℕ → Bytes → Bytes
expand c a b [] = []
expand c a b (x ∷ s) = (if x == c then a ∷ b ∷ [] else x ∷ []) ++ expand c a b s

drop-length : (pre t : Bytes) → drop (length pre) (pre ++ t) ≡ t
drop-length [] t = refl
drop-length (x ∷ pre) t = drop-length pre t

drop-length_suc : (pre : Bytes) (x : ℕ) (t : Bytes) → drop (length pre + 1) (pre ++ x ∷ t) ≡ t
drop-length_suc [] x t = refl
drop-length_suc (y ∷ pre) x t = rw (one_more (length pre)) (drop-length_suc pre x t)
  where
    one_more : (n : ℕ) → suc n + 1 ≡ suc (n + 1)
    one_more n = omega arith

take-length : (pre t : Bytes) → take (length pre) (pre ++ t) ≡ pre
take-length [] t = refl
take-length (x ∷ pre) t = ap (◌∷◌ x) (take-length pre t)

module _ (c a b : ℕ) where
  -- What is found at the end of `pre`, and what the loop does then.
  resume : ℕ → Bytes → Bytes → Bytes
  resume fuel pre t =
      replace_found (replace_loop fuel c a b) a b (pre ++ t) (find_at c t (length pre))

  replace_loop-resume :
      (fuel : ℕ) (pre t : Bytes)
      → replace_loop (suc fuel) c a b (length pre) (pre ++ t) ≡ resume fuel pre t
  unfolding replace_loop find_from resume
  replace_loop-resume fuel pre t =
      ap (λ d. replace_found (replace_loop fuel c a b) a b (pre ++ t) (find_at c d (length pre)))
        (drop-length pre t)

  -- Past a byte that is not replaced.
  resume-miss :
      (fuel : ℕ) (pre t : Bytes) (x : ℕ)
      → (x == c) ≡ false
      → resume fuel pre (x ∷ t) ≡ resume fuel (pre ++ x ∷ []) t
  unfolding resume find_at
  resume-miss fuel pre t x miss = rw miss (
      ap₂ (λ s i. replace_found (replace_loop fuel c a b) a b s (find_at c t i))
        (sym (append_assoc pre (x ∷ []) t)) (sym (length-append pre (x ∷ []))))

  -- Past the two bytes that stand in for one.
  resume-hit :
      (fuel : ℕ) (pre t : Bytes) (x : ℕ)
      → (x == c) ≡ true
      → resume (suc fuel) pre (x ∷ t) ≡ resume fuel (pre ++ a ∷ b ∷ []) t
  unfolding resume find_at replace_found replace_at
  resume-hit fuel pre t x hit = rw hit (
      ap₂ (λ i s. replace_loop (suc fuel) c a b i s) (sym (length-append pre (a ∷ b ∷ [])))
        (ap₂ (λ l r. l ++ (a ∷ b ∷ r)) (take-length pre (x ∷ t)) (drop-length_suc pre x t)
          ∙ sym (append_assoc pre (a ∷ b ∷ []) t))
      ∙ replace_loop-resume fuel (pre ++ a ∷ b ∷ []) t)

  resume-expand :
      (fuel : ℕ) (pre t : Bytes) → length t < suc fuel → resume fuel pre t ≡ pre ++ expand c a b t
  resume-expand fuel pre [] h = unfold resume replace_found find_at expand in refl
  resume-expand zero pre (x ∷ t) h = absurd (omega arith)
  resume-expand (suc fuel) pre (x ∷ t) h = elim (Bool-cases (x == c)) [
    | inl hit ↦
        resume-hit fuel pre t x hit
        ∙ resume-expand fuel (pre ++ a ∷ b ∷ []) t (omega arith)
        ∙ append_assoc pre (a ∷ b ∷ []) (expand c a b t)
        ∙ unfold expand in rw hit
    | inr miss ↦
        resume-miss (suc fuel) pre t x miss
        ∙ resume-expand (suc fuel) (pre ++ x ∷ []) t (omega arith)
        ∙ append_assoc pre (x ∷ []) (expand c a b t)
        ∙ unfold expand in rw miss
  ]

  replace_loop-expand : (s : Bytes) → replace_loop (suc (length s)) c a b 0 s ≡ expand c a b s
  replace_loop-expand s =
      replace_loop-resume (length s) [] s ∙ resume-expand (length s) [] s (omega arith)

-- The conversion, its two loops with their positions, is one pass for the dots and one for the
-- stars, on every text.
pub convert_to_regex_pattern-expand :
    (str : Bytes)
    → convert_to_regex_pattern str ≡ expand b'*' b'.' b'*' (expand b'.' b'\\' b'.' str)
unfolding convert_to_regex_pattern
convert_to_regex_pattern-expand str =
    ap (λ d. replace_loop (suc (length d)) b'*' b'.' b'*' 0 d)
      (replace_loop-expand b'.' b'\\' b'.' str)
    ∙ replace_loop-expand b'*' b'.' b'*' (expand b'.' b'\\' b'.' str)
