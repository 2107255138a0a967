-- ===== src/Filters.antt =====
-- 312552017_np_project2/commands: the programs that filter their input, as functions from the
-- bytes read to the bytes written.
pub mod Tags
pub mod Lines
use nycu_np.Prelude.{
  ℕ, zero, suc, ◌+◌, ◌-◌, Bool, true, false, not, ◌&&◌, ◌||◌, if◌then◌else◌, ◌==◌, List, [], ◌∷◌,
  ◌++◌, Bytes, codes, length, replicate, to_string, is_alpha,
}
use nycu_np.Shell.Stream.{line_of, after_line}

-- The loop of removetag.cpp.
unfoldable pub removetag_loop : Bool → Bytes → Bytes
removetag_loop in_tag [] = []
removetag_loop in_tag (c ∷ s) =
    let inside = removetag_loop true s in
    let outside = removetag_loop false s in
    if c == b'<'
    then inside
    else if c == b'>'
    then outside
    else if in_tag
    then inside
    else c ∷ outside

abbrev pub removetag : Bytes → Bytes
removetag s = removetag_loop false s

-- What removetag0.cpp writes, in order: a byte to the output, or a message to the error output.
pub data Written : Type 0 where
  put : ℕ → Written
  report : Bytes → Written

abbrev pub illegal_tag_msg : Bytes → Bytes
illegal_tag_msg tag_name = codes "Error: illegal tag \"" ++ tag_name ++ codes "\"\n"

-- The loop of removetag0.cpp; `tag_name` is never cleared.
unfoldable pub removetag0_loop : Bool → Bool → Bytes → Bytes → List Written
unfolding is_alpha
removetag0_loop in_tag is_illegal tag_name [] = []
removetag0_loop in_tag is_illegal tag_name (c ∷ s) =
    let open_tag = removetag0_loop true is_illegal tag_name s in
    let close_tag = removetag0_loop false is_illegal tag_name s in
    let inside =
      removetag0_loop true (is_illegal || (not (is_alpha c) && not (c == b'/')))
        (tag_name ++ c ∷ []) s in
    let reported =
      report (illegal_tag_msg tag_name) ∷ put c ∷ removetag0_loop false false tag_name s in
    let outside = put c ∷ removetag0_loop false is_illegal tag_name s in
    if c == b'<'
    then open_tag
    else if c == b'>'
    then close_tag
    else if in_tag
    then inside
    else if is_illegal
    then reported
    else outside

abbrev pub removetag0 : Bytes → List Written
removetag0 s = removetag0_loop false false [] s

-- `setw(4) << setfill(' ')`.
abbrev pub four_wide : Bytes → Bytes
four_wide s = replicate (4 - length s) 32 ++ s

-- The loop of number.cpp, where `lineno` lines have been read; fuel above the length is enough,
-- since each line takes a byte.
unfoldable pub number_loop : ℕ → ℕ → Bytes → Bytes
unfolding line_of after_line
number_loop zero lineno s = []
number_loop (suc fuel) lineno [] = []
number_loop (suc fuel) lineno (c ∷ s) =
    four_wide (to_string (lineno + 1))
    ++ (32 ∷ (line_of (c ∷ s) ++ (10 ∷ number_loop fuel (lineno + 1) (after_line (c ∷ s)))))

unfoldable pub number : Bytes → Bytes
unfolding number_loop
number s = number_loop (suc (length s)) 0 s
