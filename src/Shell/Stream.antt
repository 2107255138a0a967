-- ===== src/Shell/Stream.antt =====
-- `std::istringstream` as the parser of a command line uses it: what is left of the text, and
-- whether an extraction has failed, after which every other one fails.
use nycu_np.Prelude.{
  ℕ, zero, suc, ◌+◌, ◌-◌, ◌*◌, ◌^◌, Bool, true, false, ◌||◌, [], ◌∷◌, Option, none, some, Bytes,
  is_space, is_digit, ltb, ◌==◌, if◌then◌else◌, ℤ, pos, negsuc,
}

pub record Stream : Type 0 where
  pub rest : Bytes
  pub failed : Bool

unfoldable pub drop_spaces : Bytes → Bytes
unfolding is_space
drop_spaces [] = []
drop_spaces (c ∷ cs) = let rest = drop_spaces cs in if is_space c then rest else c ∷ cs

unfoldable pub word : Bytes → Bytes
unfolding is_space
word [] = []
word (c ∷ cs) = if is_space c then [] else c ∷ word cs

unfoldable pub after_word : Bytes → Bytes
unfolding is_space
after_word [] = []
after_word (c ∷ cs) = let rest = after_word cs in if is_space c then c ∷ cs else rest

unfoldable pub take_word : Bytes → Stream × Option Bytes
unfolding word after_word
take_word [] = (record { rest = []; failed = true }, none)
take_word (c ∷ cs) = (record { rest = after_word (c ∷ cs); failed = false }, some (word (c ∷ cs)))

-- `iss >> s` for a string `s`; `none` is a failure, which leaves `s` as it was.
unfoldable pub read_word : Stream → Stream × Option Bytes
unfolding take_word drop_spaces
read_word s = if s.failed then (s, none) else take_word (drop_spaces s.rest)

-- The value of a string that was empty before `iss >> s`.
abbrev pub or_empty : Option Bytes → Bytes
or_empty none = []
or_empty (some w) = w

-- The value of a run of digits, on top of the digits read before it.
unfoldable pub digits_value : ℕ → Bytes → ℕ
unfolding is_digit
digits_value n [] = n
digits_value n (c ∷ cs) =
    let more = digits_value (n * 10 + (c - b'0')) cs in if is_digit c then more else n

unfoldable pub after_digits : Bytes → Bytes
unfolding is_digit
after_digits [] = []
after_digits (c ∷ cs) = let rest = after_digits cs in if is_digit c then rest else c ∷ cs

abbrev pub starts_with_digit : Bytes → Bool
starts_with_digit [] = false
starts_with_digit (c ∷ cs) = is_digit c

abbrev pub negate : ℕ → ℤ
negate zero = pos zero
negate (suc n) = negsuc n

abbrev pub is_negative : Bytes → Bool
is_negative [] = false
is_negative (c ∷ cs) = c == b'-'

unfoldable pub after_sign : Bytes → Bytes
after_sign [] = []
after_sign (c ∷ cs) = if c == b'-' || c == b'+' then cs else c ∷ cs

abbrev pub signed : Bool → ℕ → ℤ
signed minus n = if minus then negate n else pos n

-- `std::atoi`. A value that does not fit an `int` is undefined there; here it is the number.
unfoldable pub atoi : Bytes → ℤ
unfolding digits_value after_sign drop_spaces
atoi s = let t = drop_spaces s in signed (is_negative t) (digits_value 0 (after_sign t))

abbrev pub int_mod : ℕ
int_mod = 2 ^ 31

-- The bound that `iss >> n` stores where the number does not fit an `int`.
abbrev pub int_limit : Bool → ℤ
int_limit true = negsuc (int_mod - 1)
int_limit false = pos (int_mod - 1)

abbrev pub fits_int : Bool → ℕ → Bool
fits_int true n = ltb n (int_mod + 1)
fits_int false n = ltb n int_mod

-- `iss >> n` past the spaces: no digits store 0 and fail, and so does a number out of range,
-- which stores the bound.
unfoldable pub take_int : Bool → Bytes → Stream × ℤ
take_int minus t =
    let n = digits_value 0 t in
    if starts_with_digit t
    then (if fits_int minus n
        then (record { rest = after_digits t; failed = false }, signed minus n)
        else (record { rest = after_digits t; failed = true }, int_limit minus))
    else (record { rest = t; failed = true }, pos 0)

unfoldable pub int_after_spaces : ℤ → Bytes → Stream × ℤ
unfolding take_int digits_value after_digits is_digit after_sign
int_after_spaces old [] = (record { rest = []; failed = true }, old)
int_after_spaces old (c ∷ cs) = take_int (is_negative (c ∷ cs)) (after_sign (c ∷ cs))

-- `iss >> n` for an `int`. Where the stream has failed or is at its end, `n` keeps its old value.
unfoldable pub read_int : ℤ → Stream → Stream × ℤ
unfolding int_after_spaces drop_spaces
read_int old s = if s.failed then (s, old) else int_after_spaces old (drop_spaces s.rest)

unfoldable pub line_of : Bytes → Bytes
line_of [] = []
line_of (c ∷ cs) = if c == b'\n' then [] else c ∷ line_of cs

unfoldable pub after_line : Bytes → Bytes
after_line [] = []
after_line (c ∷ cs) = let rest = after_line cs in if c == b'\n' then cs else rest

unfoldable pub take_line : Bytes → Stream × Bytes
unfolding line_of after_line
take_line [] = (record { rest = []; failed = true }, [])
take_line (c ∷ cs) = (record { rest = after_line (c ∷ cs); failed = false }, line_of (c ∷ cs))

-- `std::getline(in, s)` for an empty `s`.
unfoldable pub get_line : Stream → Stream × Bytes
unfolding take_line
get_line s = if s.failed then (s, []) else take_line s.rest

-- `std::getline(iss >> std::ws, s)` for an empty `s`.
unfoldable pub read_line_ws : Stream → Stream × Bytes
unfolding take_line drop_spaces
read_line_ws s = if s.failed then (s, []) else take_line (drop_spaces s.rest)
