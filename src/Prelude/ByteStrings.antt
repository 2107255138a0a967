-- ===== src/Prelude/ByteStrings.antt =====
-- Byte strings: a `std::string` is the list of its bytes.
use Prim.Native.Char.{code}
use Prim.Native.Nat.{ℕ, zero, suc, ◌+◌, ◌/◌, ◌%◌}
use Prim.Native.String.{String}
use mathlib.Core.Bool.{Bool, true, false, ◌&&◌, ◌||◌}
use mathlib.Core.List.{List, [], ◌∷◌}
use mathlib.Core.Logic.{◌↔◌}
use mathlib.Core.Option.{Option, none, some}
use mathlib.Core.Path.{◌≡◌}
use native.Mathlib.Omega.{arith}
use nycu_np.Prelude.Tests.{◌==◌, leb, if◌then◌else◌}

abbrev pub Bytes : Type 0
Bytes = List ℕ

-- The bytes of an ASCII literal.
abbrev pub codes : String → Bytes
codes String.[] = []
codes (String.◌∷◌ c s) = code c ∷ codes s

-- `operator==` of `std::string`.
unfoldable pub equal : Bytes → Bytes → Bool
equal [] [] = true
equal [] (d ∷ w) = false
equal (c ∷ v) [] = false
equal (c ∷ v) (d ∷ w) = c == d && equal v w

-- The test decides equality.
pub equal_iff : (v w : Bytes) → (equal v w ≡ true) ↔ (v ≡ w)
unfolding equal
equal_iff [] [] = ground arith
equal_iff [] (d ∷ w) = ground arith
equal_iff (c ∷ v) [] = ground arith
equal_iff (c ∷ v) (d ∷ w) = ground (equal_iff v w, arith)

-- `isspace`, `isdigit`, `isalpha` and `isalnum` of the C locale.
unfoldable pub is_space : ℕ → Bool
is_space c = c == 32 || (leb 9 c && leb c 13)

unfoldable pub is_digit : ℕ → Bool
is_digit c = leb b'0' c && leb c b'9'

unfoldable pub is_alpha : ℕ → Bool
is_alpha c = (leb b'a' c && leb c b'z') || (leb b'A' c && leb c b'Z')

unfoldable pub is_alnum : ℕ → Bool
unfolding is_digit is_alpha
is_alnum c = is_digit c || is_alpha c

-- `std::to_string` of a number that is not negative; each round writes one digit, so that
-- fuel above the number is enough.
unfoldable pub decimal_onto : ℕ → ℕ → Bytes → Bytes
decimal_onto zero n out = out
decimal_onto (suc fuel) n out =
    let digit = b'0' + n % 10 in
    elim (n / 10 == 0) [ true ↦ digit ∷ out | false ↦ decimal_onto fuel (n / 10) (digit ∷ out) ]

unfoldable pub to_string : ℕ → Bytes
unfolding decimal_onto
to_string n = decimal_onto (suc n) n []

-- What stands behind a prefix.
abbrev pub strip_prefix : Bytes → Bytes → Option Bytes
strip_prefix [] text = some text
strip_prefix (p ∷ ps) [] = none
strip_prefix (p ∷ ps) (c ∷ cs) = let rest = strip_prefix ps cs in if p == c then rest else none

-- The text of an array of `char`: what stands in front of its first NUL.
unfoldable pub c_text : Bytes → Bytes
c_text [] = []
c_text (c ∷ cs) = if c == 0 then [] else c ∷ c_text cs

unfoldable pub has : ℕ → Bytes → Bool
has c [] = false
has c (d ∷ text) = d == c || has c text
