-- ===== src/Cgi/Escape/Safe.antt =====
-- Nothing that is printed ends the script's string.
use nycu_np.Prelude.{
  ℕ, zero, suc, ◌+◌, ◌-◌, ◌/◌, ◌%◌, Bool, true, false, ◌||◌, ltb, ◌==◌, [], ◌∷◌, ◌++◌, Bytes, codes,
  to_string, decimal_onto, is_alnum, is_digit, is_alpha, All, All-append, ◌≡◌, refl, arith,
  Bool-cases, inl, inr,
}
use nycu_np.Cgi.Escape.{char_text, print_escape}

-- A letter, a digit, or one of `&`, `#`, `;` and `-`: no quote, no angle bracket, no backslash and
-- no line end.
abbrev pub is_safe : ℕ → Bool
is_safe c = is_alnum c || c == b'&' || c == b'#' || c == b';' || c == b'-'

abbrev pub IsSafe : Bytes → Type 0
IsSafe s = All (λ c. is_safe c ≡ true) s

digit_safe : (n : ℕ) → is_safe (b'0' + n % 10) ≡ true
unfolding is_alnum is_digit is_alpha
digit_safe n = ground arith

either : (b : Bool) (s t : Bytes) → IsSafe s → IsSafe t → IsSafe (elim b [ true ↦ s | false ↦ t ])
either true s t h k = h
either false s t h k = k

decimal_onto-IsSafe : (fuel n : ℕ) (out : Bytes) → IsSafe out → IsSafe (decimal_onto fuel n out)
unfolding decimal_onto
decimal_onto-IsSafe zero n out h = h
decimal_onto-IsSafe (suc fuel) n out h =
    either (n / 10 == 0) ((b'0' + n % 10) ∷ out)
      (decimal_onto fuel (n / 10) ((b'0' + n % 10) ∷ out)) (digit_safe n, h)
      (decimal_onto-IsSafe fuel (n / 10) ((b'0' + n % 10) ∷ out) (digit_safe n, h))

to_string-IsSafe : (n : ℕ) → IsSafe (to_string n)
unfolding to_string
to_string-IsSafe n = decimal_onto-IsSafe (suc n) n [] tt

char_text-IsSafe : (c : ℕ) → IsSafe (char_text c)
unfolding is_alnum is_digit is_alpha
char_text-IsSafe c = elim (Bool-cases (ltb c 128)) [
  | inl ascii ↦ rw ascii (to_string-IsSafe c)
  | inr other ↦ rw other (refl, to_string-IsSafe (256 - c))
]

reference-IsSafe : (c : ℕ) → IsSafe (codes "&#" ++ char_text c ++ codes ";")
unfolding is_alnum is_digit is_alpha
reference-IsSafe c = (
  refl,
  (
    refl,
    All-append (λ c. is_safe c ≡ true) (char_text c) (codes ";") (char_text-IsSafe c) (refl, tt),
  ),
)

-- Whatever a shell or a user writes, its escaped text has letters, digits, `&`, `#`, `;` and `-`
-- only.
pub print_escape-IsSafe : (content : Bytes) → IsSafe (print_escape content)
unfolding print_escape
print_escape-IsSafe [] = tt
print_escape-IsSafe (c ∷ content) = elim (Bool-cases (is_alnum c)) [
  | inl plain ↦ rw plain (ground arith, print_escape-IsSafe content)
  | inr other ↦ rw other (
      All-append (λ d. is_safe d ≡ true) (codes "&#" ++ char_text c ++ codes ";")
        (print_escape content) (reference-IsSafe c) (print_escape-IsSafe content))
]
