-- ===== src/Socks/Pattern.antt =====
-- `convertToRegexPattern` of socks4_util.cpp.
pub mod Expand
pub mod Glob
use nycu_np.Prelude.{
  ℕ, zero, suc, ◌+◌, if◌then◌else◌, ◌==◌, List, [], ◌∷◌, ◌++◌, Option, none, some, Bytes, take,
  drop, length,
}

-- `find` from a position on, in what stands there.
find_at : ℕ → Bytes → ℕ → Option ℕ
find_at c [] i = none
find_at c (x ∷ s) i = if x == c then some i else find_at c s (i + 1)

find_from : ℕ → Bytes → ℕ → Option ℕ
unfolding find_at
find_from c s pos = find_at c (drop pos s) pos

-- `str.replace(pos, 1, text)`.
replace_at : ℕ → Bytes → Bytes → Bytes
replace_at pos text s = take pos s ++ (text ++ drop (pos + 1) s)

-- The loop that replaces each `c` from a position on by two bytes, and moves past them; fuel above
-- the length is enough.
replace_found : (ℕ → Bytes → Bytes) → ℕ → ℕ → Bytes → Option ℕ → Bytes
unfolding replace_at
replace_found go a b s none = s
replace_found go a b s (some pos) = go (pos + 2) (replace_at pos (a ∷ b ∷ []) s)

replace_loop : ℕ → ℕ → ℕ → ℕ → ℕ → Bytes → Bytes
unfolding replace_found find_from
replace_loop zero c a b pos s = s
replace_loop (suc fuel) c a b pos s =
    replace_found (replace_loop fuel c a b) a b s (find_from c s pos)

unfoldable pub convert_to_regex_pattern : Bytes → Bytes
unfolding replace_loop
convert_to_regex_pattern str =
    let dotted = replace_loop (suc (length str)) b'.' b'\\' b'.' 0 str in
    replace_loop (suc (length dotted)) b'*' b'.' b'*' 0 dotted
