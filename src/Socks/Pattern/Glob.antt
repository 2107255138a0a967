-- ===== src/Socks/Pattern/Glob.antt =====
-- A rule of the firewall is a pattern of its own: `*` stands for any text, and every other byte for
-- itself.
use mathlib.Core.Option
use nycu_np.Prelude.{
  ℕ, Bool, true, false, not, ◌&&◌, ◌||◌, if◌then◌else◌, ◌==◌, List, [], ◌∷◌, Option, some, Bytes,
  ◌≡◌, refl, arith, ap, ◌∙◌, Bool-cases, inl, inr, All, is_digit, is_alpha, is_alnum,
}
use nycu_np.Socks.Pattern.Expand.{expand, convert_to_regex_pattern-expand}
use nycu_np.Socks.Pattern.{convert_to_regex_pattern}
use nycu_np.Socks.Regex.{Part, one, star, lit, any, regex_match, compile, cons_part, is_meta}

-- The text that `*` stands for has no line end.
pub glob : Bytes → Bytes → Bool
glob [] [] = true
glob [] (x ∷ s) = false
glob (c ∷ r) [] = c == b'*' && glob r []
glob (c ∷ r) (x ∷ s) =
    let skip = glob (c ∷ r) s in
    let here = glob r (x ∷ s) in
    let next = glob r s in
    if c == b'*' then here || (not (x == b'\n' || x == b'\r') && skip) else (x == c && next)

-- The bytes of a rule: letters, digits, dots and stars.
abbrev pub is_rule_byte : ℕ → Bool
is_rule_byte c = is_alnum c || c == b'.' || c == b'*'

part_of : ℕ → Part
part_of c = if c == b'*' then star any else one (lit c)

parts_of : Bytes → List Part
parts_of [] = []
parts_of (c ∷ r) = part_of c ∷ parts_of r

-- The two passes, as one.
converted : Bytes → Bytes
unfolding expand
converted r = expand b'*' b'.' b'*' (expand b'.' b'\\' b'.' r)

starts_with_star : Bytes → Bool
starts_with_star [] = false
starts_with_star (c ∷ s) = c == b'*'

converted-starts : (r : Bytes) → starts_with_star (converted r) ≡ false
unfolding converted expand starts_with_star
converted-starts [] = refl
converted-starts (c ∷ r) = elim (Bool-cases (c == b'.')) [
  | inl dot ↦ rw dot refl
  | inr other ↦ elim (Bool-cases (c == b'*')) [
    | inl is_star ↦ rw (other, is_star) refl
    | inr plain ↦ rw (other, plain, plain) refl
  ]
]

-- The bytes of a rule but for its dots and stars mean themselves.
plain_byte :
    (c : ℕ)
    → is_rule_byte c ≡ true
    → (c == b'.') ≡ false
    → (c == b'*') ≡ false
    → (c == b'\\') ≡ false × is_meta c ≡ false
unfolding is_alnum is_digit is_alpha
plain_byte c ok dot is_star = ground (arith)

compile-plain :
    (c : ℕ) (t : Bytes) (ps : List Part)
    → (c == b'.') ≡ false
    → (c == b'\\') ≡ false × is_meta c ≡ false
    → starts_with_star t ≡ false
    → compile t ≡ some ps
    → compile (c ∷ t) ≡ some (one (lit c) ∷ ps)
unfolding compile starts_with_star
compile-plain c [] ps dot (escape, meta) h e =
    rw (meta, dot) (ap (cons_part (some (one (lit c)))) e)
compile-plain c (d ∷ t) ps dot (escape, meta) h e =
    rw (meta, escape, h, dot) (ap (cons_part (some (one (lit c)))) e)

dot_is : (c : ℕ) → (c == b'.') ≡ true → c ≡ b'.'
dot_is c e = ground arith

-- What the compiled pattern begins with, for each kind of byte, whatever follows.
compile_step :
    (c : ℕ) (r : Bytes) (ps : List Part)
    → is_rule_byte c ≡ true
    → compile (converted r) ≡ some ps
    → compile (converted (c ∷ r)) ≡ some (part_of c ∷ ps)
compile_step c r ps ok e = elim (Bool-cases (c == b'.')) [
  | inl dot ↦
      rw (dot_is c dot)
        (unfold converted expand compile part_of in ap (cons_part (some (one (lit b'.')))) e)
  | inr other ↦ elim (Bool-cases (c == b'*')) [
    | inl is_star ↦
        unfold converted expand compile part_of in
        rw (other, is_star) (ap (cons_part (some (star any))) e)
    | inr plain ↦
        unfold converted expand part_of in
        rw (other, plain)
          (unfold converted expand in
            compile-plain c (converted r) ps other (plain_byte c ok other plain)
              (converted-starts r) e)
  ]
]

compile-parts :
    (rule : Bytes)
    → All (λ c. is_rule_byte c ≡ true) rule
    → compile (converted rule) ≡ some (parts_of rule)
unfolding parts_of
compile-parts [] ok = unfold converted expand compile parts_of in refl
compile-parts (c ∷ r) ok = compile_step c r (parts_of r) ok.0 (compile-parts r ok.1)

match-glob : (r s : Bytes) → regex_match (parts_of r) s ≡ glob r s
unfolding regex_match parts_of part_of glob
match-glob [] [] = refl
match-glob [] (x ∷ s) = refl
match-glob (c ∷ r) [] = ground (arith, match-glob r [])
match-glob (c ∷ r) (x ∷ s) =
    ground (arith, match-glob r (x ∷ s), match-glob r s, match-glob (c ∷ r) s)

-- The verdict on a rule and an address, by `std::regex` on the converted rule.
unfoldable pub verdict : Bytes → Bytes → Option Bool
verdict rule ip = Option.map (λ ps. regex_match ps ip) (compile (convert_to_regex_pattern rule))

-- A rule of letters, digits, dots and stars always converts to a pattern that `std::regex` takes,
-- and an address matches it exactly when it matches the rule as a glob: a dot of the rule for itself
-- only, and a star for any text without a line end.
pub verdict-glob :
    (rule ip : Bytes)
    → All (λ c. is_rule_byte c ≡ true) rule
    → verdict rule ip ≡ some (glob rule ip)
unfolding verdict
verdict-glob rule ip ok =
    ap (λ p. Option.map (λ ps. regex_match ps ip) (compile p))
      (convert_to_regex_pattern-expand rule)
    ∙ unfold converted in
      ap (Option.map (λ ps. regex_match ps ip)) (compile-parts rule ok)
      ∙ ap some (match-glob rule ip)
