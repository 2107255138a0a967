-- ===== src/Socks/Firewall/Rules.antt =====
-- A rules file that is written out is read back, rule by rule.
use nycu_np.Prelude.{
  ℕ, zero, suc, ◌<◌, Bool, true, false, not, ◌&&◌, ◌||◌, if◌then◌else◌, ◌==◌, List, [], ◌∷◌, ◌++◌,
  none, some, Bytes, length, All, is_space, is_alnum, is_digit, is_alpha, ◌≡◌, ◌≢◌, refl, arith, ap,
  ap₂, ◌∙◌, Bool-cases, inl, inr, length-append,
}
use nycu_np.Shell.Stream.{Stream, read_word, drop_spaces, word, after_word, take_word}
use nycu_np.Socks.Firewall.{
  match_firewall_rule, take_char, read_char, read_entry, or_later, try_entry, rules_loop,
  is_destination_ip_address_allowed,
}
use nycu_np.Socks.Pattern.Glob.{glob, is_rule_byte, verdict-glob}

pub record Rule : Type 0 where
  pub permit : Bytes
  pub type : ℕ
  pub pattern : Bytes

-- Each part is there and has no space in it, and the pattern is made of the bytes of a rule.
pub record IsRule (r : Rule) : Type 0 where
  pub has_permit : r.permit ≢ []
  pub permit_word : All (λ c. is_space c ≡ false) r.permit
  pub type_byte : is_space r.type ≡ false
  pub has_pattern : r.pattern ≢ []
  pub pattern_bytes : All (λ c. is_rule_byte c ≡ true) r.pattern

-- A line for each rule.
abbrev pub conf_text : List Rule → Bytes
conf_text [] = []
conf_text (r ∷ rs) = r.permit ++ (32 ∷ r.type ∷ 32 ∷ (r.pattern ++ (10 ∷ conf_text rs)))

-- A rule of type `c` is about connecting, and any other about binding.
abbrev pub is_about : Rule → Bool → Bool
is_about r command = if command then r.type == b'c' else not (r.type == b'c')

abbrev pub permits : List Rule → Bytes → Bool → Bool
permits [] ip command = false
permits (r ∷ rs) ip command =
    let later = permits rs ip command in (is_about r command && glob r.pattern ip) || later

abbrev fresh : Bytes → Stream
fresh t = record { rest = t; failed = false }

word-append :
    (w : Bytes) (d : ℕ) (t : Bytes)
    → All (λ c. is_space c ≡ false) w
    → is_space d ≡ true
    → word (w ++ d ∷ t) ≡ w
unfolding word
word-append [] d t h k = rw k refl
word-append (c ∷ w) d t h k = rw h.0 (ap (◌∷◌ c) (word-append w d t h.1 k))

after_word-append :
    (w : Bytes) (d : ℕ) (t : Bytes)
    → All (λ c. is_space c ≡ false) w
    → is_space d ≡ true
    → after_word (w ++ d ∷ t) ≡ d ∷ t
unfolding after_word
after_word-append [] d t h k = rw k refl
after_word-append (c ∷ w) d t h k = rw h.0 (after_word-append w d t h.1 k)

drop_spaces-append :
    (lead s : Bytes) → All (λ c. is_space c ≡ true) lead → drop_spaces (lead ++ s) ≡ drop_spaces s
unfolding drop_spaces
drop_spaces-append [] s h = refl
drop_spaces-append (c ∷ lead) s h = rw h.0 (drop_spaces-append lead s h.1)

take_word-append :
    (w : Bytes) (d : ℕ) (t : Bytes)
    → w ≢ []
    → All (λ c. is_space c ≡ false) w
    → is_space d ≡ true
    → take_word (drop_spaces (w ++ d ∷ t)) ≡ (fresh (d ∷ t), some w)
unfolding take_word drop_spaces
take_word-append [] d t ne h k = absurd (ne refl)
take_word-append (c ∷ w) d t ne h k = rw h.0 (
    ap₂ (λ r v. (fresh r, some v)) (after_word-append (c ∷ w) d t h k)
      (word-append (c ∷ w) d t h k))

-- A word behind spaces and in front of one more is read, and that space stays.
read_word-append :
    (lead w : Bytes) (d : ℕ) (t : Bytes)
    → All (λ c. is_space c ≡ true) lead
    → w ≢ []
    → All (λ c. is_space c ≡ false) w
    → is_space d ≡ true
    → read_word (fresh (lead ++ (w ++ d ∷ t))) ≡ (fresh (d ∷ t), some w)
unfolding read_word
read_word-append lead w d t spaces ne h k =
    ap take_word (drop_spaces-append lead (w ++ d ∷ t) spaces) ∙ take_word-append w d t ne h k

read_char_behind :
    (c : ℕ) (t : Bytes) → is_space c ≡ false → read_char (fresh (32 ∷ c ∷ t)) ≡ (fresh t, some c)
unfolding read_char take_char drop_spaces is_space
read_char_behind c t h = rw h refl

space : is_space 32 ≡ true
unfolding is_space
space = refl

line_end : is_space 10 ≡ true
unfolding is_space
line_end = refl

rule_byte_no_space : (c : ℕ) → is_rule_byte c ≡ true → is_space c ≡ false
unfolding is_space is_alnum is_digit is_alpha
rule_byte_no_space c h = ground arith

rule_bytes_no_space :
    (w : Bytes) → All (λ c. is_rule_byte c ≡ true) w → All (λ c. is_space c ≡ false) w
rule_bytes_no_space [] h = tt
rule_bytes_no_space (c ∷ w) h = (rule_byte_no_space c h.0, rule_bytes_no_space w h.1)

read_entry-conf_text :
    (lead : Bytes) (r : Rule) (rs : List Rule)
    → All (λ c. is_space c ≡ true) lead
    → IsRule r
    → read_entry (fresh (lead ++ conf_text (r ∷ rs)))
      ≡ (fresh (10 ∷ conf_text rs), some (r.type, r.pattern))
unfolding read_entry
read_entry-conf_text lead r rs spaces v =
    rw
      (
        read_word-append lead r.permit 32 (r.type ∷ 32 ∷ (r.pattern ++ (10 ∷ conf_text rs))) spaces
            v.has_permit v.permit_word space,
        read_char_behind r.type (32 ∷ (r.pattern ++ (10 ∷ conf_text rs))) v.type_byte,
        read_word-append (32 ∷ []) r.pattern 10 (conf_text rs) (space, tt) v.has_pattern
            (rule_bytes_no_space r.pattern v.pattern_bytes) line_end,
      )
      refl

read_entry_end :
    (lead : Bytes)
    → All (λ c. is_space c ≡ true) lead
    → read_entry (fresh (lead ++ [])) ≡ (record { rest = []; failed = true }, none)
unfolding read_entry read_word read_char drop_spaces
read_entry_end lead spaces = rw (drop_spaces-append lead [] spaces) (unfold take_word in refl)

-- A rule about the request decides by its pattern, and any other rule does not match.
match_firewall_rule-glob :
    (r : Rule) (ip : Bytes) (command : Bool)
    → IsRule r
    → match_firewall_rule r.type r.pattern command ip
      ≡ some (is_about r command && glob r.pattern ip)
unfolding match_firewall_rule
match_firewall_rule-glob r ip true v = elim (Bool-cases (r.type == b'c')) [
  | inl connects ↦ rw connects (verdict-glob r.pattern ip v.pattern_bytes)
  | inr binds ↦ rw binds refl
]
match_firewall_rule-glob r ip false v = elim (Bool-cases (r.type == b'c')) [
  | inl connects ↦ rw connects refl
  | inr binds ↦ rw binds (verdict-glob r.pattern ip v.pattern_bytes)
]

or_later-some : (b later : Bool) → or_later (some b) (some later) ≡ some (b || later)
or_later-some true later = refl
or_later-some false later = refl

module _ (ip : Bytes) (command : Bool) where
  rules_loop-permits :
      (fuel : ℕ) (lead : Bytes) (rules : List Rule)
      → All (λ c. is_space c ≡ true) lead
      → All IsRule rules
      → length (lead ++ conf_text rules) < fuel
      → rules_loop fuel ip command (fresh (lead ++ conf_text rules))
        ≡ some (permits rules ip command)
  unfolding rules_loop
  rules_loop-permits zero lead rules spaces v h = absurd (omega arith)
  rules_loop-permits (suc fuel) lead [] spaces v h = rw (read_entry_end lead spaces) refl
  rules_loop-permits (suc fuel) lead (r ∷ rs) spaces v h =
      ap (try_entry (rules_loop fuel ip command) ip command)
        (read_entry-conf_text lead r rs spaces v.0)
      ∙ ap₂ or_later (match_firewall_rule-glob r ip command v.0) (
          rules_loop-permits fuel (10 ∷ []) rs (line_end, tt) v.1
            (omega (
              arith,
              length-append lead (conf_text (r ∷ rs)),
              length-append r.permit (32 ∷ r.type ∷ 32 ∷ (r.pattern ++ (10 ∷ conf_text rs))),
              length-append r.pattern (10 ∷ conf_text rs),
            )))
      ∙ or_later-some (is_about r command && glob r.pattern ip) (permits rs ip command)

-- For a rules file with a line for each rule, whose parts have no spaces and whose patterns are
-- made of letters, digits, dots and stars, the whole file is read, and a destination is allowed
-- exactly when the pattern of some rule about the request matches it as a glob.
pub is_destination_ip_address_allowed-permits :
    (rules : List Rule) (ip : Bytes) (command : Bool)
    → All IsRule rules
    → is_destination_ip_address_allowed (some (conf_text rules)) ip command
      ≡ some (permits rules ip command)
unfolding is_destination_ip_address_allowed
is_destination_ip_address_allowed-permits rules ip command v =
    rules_loop-permits ip command (suc (length (conf_text rules))) [] rules tt v (omega arith)
