-- ===== src/Shell/Parse/Pieces.antt =====
-- Words and bars, each behind a space: what the loop of the parser makes of them.
use nycu_np.Prelude.{
  ℕ, zero, suc, ◌<◌, Bool, true, false, ◌||◌, List, [], ◌∷◌, ◌++◌, some, Bytes, ℤ, ◌≡◌, refl, ◌≢◌,
  arith, All, codes, ap, ap₂, ◌∙◌, length, equal, is_space, length-append,
}
use nycu_np.Shell.Command.{pipe_command}
use nycu_np.Shell.Parse.{Builtins, Parsing, add_pair, interpret, parse_loop, parse_next, first_is}
use nycu_np.Shell.Stream.{Stream, read_word, word, after_word, drop_spaces, take_word}

-- The words and first bytes that the parser does not take as a program or an argument.
abbrev pub is_special : Bytes → Bool
is_special w =
    equal w (codes "exit")
    || equal w (codes "printenv")
    || equal w (codes "setenv")
    || equal w (codes "who")
    || equal w (codes "tell")
    || equal w (codes "yell")
    || equal w (codes "name")
    || first_is b'|' w
    || first_is b'!' w
    || first_is b'>' w
    || first_is b'<' w

pub record IsPlain (w : Bytes) : Type 0 where
  pub has_byte : w ≢ []
  pub no_space : All (λ c. is_space c ≡ false) w
  pub ordinary : is_special w ≡ false

pub data Piece : Type 0 where
  arg : Bytes → Piece
  bar : Piece

abbrev pub spell : Piece → Bytes
spell (arg w) = w
spell bar = codes "|"

-- Each piece stands behind a space.
abbrev pub text : List Piece → Bytes
text [] = []
text (p ∷ ps) = 32 ∷ (spell p ++ text ps)

abbrev pub IsPlainPiece : Piece → Type 0
IsPlainPiece (arg w) = IsPlain w
IsPlainPiece bar = Unit

word-append :
    (w : Bytes) (ps : List Piece) → All (λ c. is_space c ≡ false) w → word (w ++ text ps) ≡ w
unfolding word
word-append [] [] h = refl
word-append [] (p ∷ ps) h = refl
word-append (c ∷ w) ps h = rw h.0 (ap (◌∷◌ c) (word-append w ps h.1))

after_word-append :
    (w : Bytes) (ps : List Piece)
    → All (λ c. is_space c ≡ false) w
    → after_word (w ++ text ps) ≡ text ps
unfolding after_word
after_word-append [] [] h = refl
after_word-append [] (p ∷ ps) h = refl
after_word-append (c ∷ w) ps h = rw h.0 (after_word-append w ps h.1)

take_word-append :
    (w : Bytes) (ps : List Piece)
    → w ≢ []
    → All (λ c. is_space c ≡ false) w
    → take_word (drop_spaces (w ++ text ps)) ≡ (record { rest = text ps; failed = false }, some w)
unfolding take_word drop_spaces
take_word-append [] ps ne h = absurd (ne refl)
take_word-append (c ∷ w) ps ne h = rw h.0 (
    ap₂ (λ r v. (record { rest = r; failed = false }, some v)) (after_word-append (c ∷ w) ps h)
      (word-append (c ∷ w) ps h))

read_word-text :
    (w : Bytes) (ps : List Piece)
    → w ≢ []
    → All (λ c. is_space c ≡ false) w
    → read_word (record { rest = 32 ∷ (w ++ text ps); failed = false })
      ≡ (record { rest = text ps; failed = false }, some w)
unfolding read_word
read_word-text w ps ne h = take_word-append w ps ne h

read_word-piece :
    (p : Piece) (ps : List Piece)
    → IsPlainPiece p
    → read_word (record { rest = text (p ∷ ps); failed = false })
      ≡ (record { rest = text ps; failed = false }, some (spell p))
read_word-piece (arg w) ps h = read_word-text w ps h.has_byte h.no_space
read_word-piece bar ps h = read_word-text (codes "|") ps (λ e. cc) (unfold is_space in (refl, tt))

equal-first : (w : Bytes) (c : ℕ) (r : Bytes) → equal w (c ∷ r) ≡ true → first_is c w ≡ true
unfolding equal
equal-first [] c r e = cc
equal-first (d ∷ w) c r e = ground arith

abbrev pub fresh : Bytes → Stream
fresh t = record { rest = t; failed = false }

unfoldable pub at_end : Stream
at_end = record { rest = []; failed = true }

module _ {H : Type 0} (b : Builtins H) (uninit : ℤ) where
  -- What a piece does to the state of the parser.
  abbrev pub apply : Piece → Parsing H → Parsing H
  apply (arg w) s = record s { argv = s.argv ++ w ∷ [] }
  apply bar s = add_pair b uninit pipe_command s

  abbrev pub feed : List Piece → Parsing H → Parsing H
  feed [] s = s
  feed (p ∷ ps) s = feed ps (apply p s)

  interpret-piece :
      (p : Piece) (s : Parsing H) → IsPlainPiece p → interpret b uninit (spell p) s ≡ apply p s
  unfolding interpret
  interpret-piece (arg w) s h = plain w h.ordinary
    where
      plain :
          (w : Bytes)
          → is_special w ≡ false
          → interpret b uninit w s ≡ record s { argv = s.argv ++ w ∷ [] }
      plain w o = ground (arith, equal-first w b'|' [], equal-first w b'>' [])
  interpret-piece bar s h = unfold interpret equal in refl

  apply-iss :
      (p : Piece) (s : Parsing H) (iss : Stream)
      → apply p (record s { iss = iss }) ≡ record (apply p s) { iss = iss }
  unfolding add_pair
  apply-iss (arg w) s iss = refl
  apply-iss bar s iss = refl

  feed-iss :
      (ps : List Piece) (s : Parsing H) (iss : Stream)
      → feed ps (record s { iss = iss }) ≡ record (feed ps s) { iss = iss }
  feed-iss [] s iss = refl
  feed-iss (p ∷ ps) s iss = ap (feed ps) (apply-iss p s iss) ∙ feed-iss ps (apply p s) iss

  pub parse_loop-text :
      (ps : List Piece) (fuel : ℕ) (s : Parsing H)
      → All IsPlainPiece ps
      → length (text ps) < fuel
      → parse_loop b uninit fuel (record s { iss = fresh (text ps) })
        ≡ some (record (feed ps s) { iss = at_end })
  unfolding parse_loop parse_next
  parse_loop-text ps zero s h lt = absurd (omega arith)
  parse_loop-text [] (suc fuel) s h lt = unfold parse_loop read_word take_word at_end in refl
  parse_loop-text (p ∷ ps) (suc fuel) s h lt =
      ap (parse_next b uninit (parse_loop b uninit fuel) (record s { iss = fresh (text (p ∷ ps)) }))
        (read_word-piece p ps h.0)
      ∙ ap (parse_loop b uninit fuel) (
          interpret-piece p (record s { iss = fresh (text ps) }) h.0
          ∙ apply-iss p s (fresh (text ps)))
      ∙ parse_loop-text ps fuel (apply p s) h.1 (omega (arith, length-append (spell p) (text ps)))
