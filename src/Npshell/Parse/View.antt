-- ===== src/Npshell/Parse/View.antt =====
-- What the parser of project 2 does, seen through a function of the host, where the parser of
-- project 1 does it, on lines without the words that only the second one has.
use mathlib.Core.Option
use nycu_np.Npshell.Command.{
  Command, pipe_command, file_command, numbered_pipe_command, NpCommandLine, moved_from,
}
use nycu_np.Npshell.Parse as First
use nycu_np.Npshell.Promote.{promote, promote_line}
use nycu_np.Prelude.{
  ℕ, zero, suc, Bool, true, false, not, ◌&&◌, ◌||◌, if◌then◌else◌, if_true, List, [], ◌∷◌, ◌++◌,
  map, map-append, Option, none, some, Bytes, codes, equal, length, ℤ, ◌≡◌, refl, ap, subst, ◌∙◌,
}
use nycu_np.Shell.Command as Served
use nycu_np.Npshell.Parse.Cases.{interpret-cases}
use nycu_np.Shell.Parse as Second
use nycu_np.Shell.Stream.{Stream, read_word, or_empty, atoi}

-- A word that the parser of project 1 has a branch for, or takes as a word of a program, as that
-- of project 2 does.
abbrev pub is_shared : Bytes → Bool
is_shared word = not (
    equal word (codes "who")
    || equal word (codes "tell")
    || equal word (codes "yell")
    || equal word (codes "name")
    || Second.first_is b'>' word && not (equal word (codes ">"))
    || Second.first_is b'<' word)

-- The words that can still be read from a stream.
pub data Reads : Stream → Bytes → Type 0 where
  here : {s : Stream} {w : Bytes} → (read_word s).1 ≡ some w → Reads s w
  there : {s : Stream} {w : Bytes} → Reads (read_word s).0 w → Reads s w

abbrev pub IsShared : Stream → Type 0
IsShared s = (w : Bytes) → Reads s w → is_shared w ≡ true

read_word-failed : (s : Stream) → s.failed ≡ true → read_word s ≡ (s, none)
unfolding read_word
read_word-failed s failed = if_true s.failed (s, none) _ failed

-- Nothing is read from a stream that has failed.
pub Reads-failed : {s : Stream} {w : Bytes} → Reads s w → s.failed ≡ true → ⊥
Reads-failed {s} (here read) failed = let nothing = ap (λ r. r.1) (read_word-failed s failed) in cc
Reads-failed {s} (there later) failed =
    Reads-failed later (ap (λ r. r.0.failed) (read_word-failed s failed) ∙ failed)

-- What the test says of the branches that only project 2 has.
none_of :
    (w t y n g l : Bool)
    → not (w || t || y || n || g || l) ≡ true
    → (w ≡ false) × (t ≡ false) × (y ≡ false) × (n ≡ false) × (g ≡ false) × (l ≡ false)
none_of false false false false false false h = (refl, refl, refl, refl, refl, refl)
none_of _ _ _ _ _ _ h = absurd cc

if_lift {ℓ κ} :
    {A : Type ℓ} {B : Type κ} (f : A → B) (c : Bool) {x y : B} {x' y' : A}
    → x ≡ f x'
    → y ≡ f y'
    → (if c then x else y) ≡ f (if c then x' else y')
if_lift f true e e' = e
if_lift f false e e' = e'

shared_only :
    (word : Bytes)
    → is_shared word ≡ true
    → (equal word (codes "who") ≡ false)
      × (equal word (codes "tell") ≡ false)
      × (equal word (codes "yell") ≡ false)
      × (equal word (codes "name") ≡ false)
      × ((Second.first_is b'>' word && not (equal word (codes ">"))) ≡ false)
      × (Second.first_is b'<' word ≡ false)
shared_only word shared = none_of _ _ _ _ _ _ shared

-- A branch behind `>` and the numbered pipes that a shared word does not reach.
skip_write {ℓ} :
    {A : Type ℓ} (e n g : Bool) (x y z w : A)
    → (g && not e) ≡ false
    → (if e then x else if n then y else if g then z else w) ≡ (if e then x else if n then y else w)
skip_write true n g x y z w h = refl
skip_write false n false x y z w h = refl
skip_write false n true x y z w h = absurd cc

abbrev pub promote_result :
    {G H : Type 0} → (G → H) → List NpCommandLine × G → List Served.NpCommandLine × H
promote_result f (lines, host) = (map promote_line lines, f host)

-- What the built-in commands that both have do on one side, they do on the other, seen through `f`.
pub record IsView {G H : Type 0} (f : G → H) (a : First.Builtins G) (b : Second.Builtins H)
    : Type 0 where
  pub exit : (g : G) → b.exit (f g) ≡ f (a.exit g)
  pub printenv : (var : Bytes) (g : G) → b.printenv var (f g) ≡ f (a.printenv var g)
  pub setenv : (var value : Bytes) (g : G) → b.setenv var value (f g) ≡ f (a.setenv var value g)

module _ {G H : Type 0} (f : G → H) (a : First.Builtins G) (b : Second.Builtins H)
    (view : IsView f a b) (uninit : ℤ) where
  abbrev lift : First.Parsing G → Second.Parsing H
  lift s = record {
    iss = s.iss;
    argv = s.argv;
    line = promote_line s.line;
    ret = map promote_line s.ret;
    host = f s.host;
  }

  add_pair-lift :
      (c : Command) (s : First.Parsing G)
      → Second.add_pair b uninit (promote c) (lift s) ≡ lift (First.add_pair a c s)
  unfolding First.add_pair Second.add_pair
  add_pair-lift c s = simp map-append

  parse_printenv-lift :
      (s : First.Parsing G)
      → Second.parse_printenv b uninit (lift s) ≡ lift (First.parse_printenv a s)
  unfolding First.parse_printenv Second.parse_printenv
  parse_printenv-lift s = rw (view.printenv (or_empty (read_word s.iss).1) s.host) refl

  parse_setenv-lift :
      (s : First.Parsing G) → Second.parse_setenv b uninit (lift s) ≡ lift (First.parse_setenv a s)
  unfolding First.parse_setenv Second.parse_setenv
  parse_setenv-lift s =
      let read = read_word s.iss in
      rw (view.setenv (or_empty read.1) (or_empty (read_word read.0).1) s.host) refl

  parse_file-lift :
      (s : First.Parsing G) → Second.parse_file b uninit (lift s) ≡ lift (First.parse_file a s)
  unfolding First.parse_file Second.parse_file
  parse_file-lift s =
      add_pair-lift (file_command (or_empty (read_word s.iss).1))
        (record s { iss = (read_word s.iss).0 })

  emplace_line-lift :
      (s : First.Parsing G) → Second.emplace_line b uninit (lift s) ≡ lift (First.emplace_line a s)
  unfolding First.emplace_line Second.emplace_line Served.moved_from moved_from
  emplace_line-lift s = simp map-append

  parse_numbered-lift :
      (word : Bytes) (s : First.Parsing G)
      → Second.parse_numbered b uninit word (lift s) ≡ lift (First.parse_numbered a word s)
  unfolding First.parse_numbered Second.parse_numbered
  parse_numbered-lift word s =
      ap (Second.emplace_line b uninit) (
        add_pair-lift
          (numbered_pipe_command (atoi (Second.after_first word)) (Second.first_is b'!' word)) s)
      ∙ emplace_line-lift _

  interpret-lift :
      (word : Bytes) (s : First.Parsing G)
      → is_shared word ≡ true
      → Second.interpret b uninit word (lift s) ≡ lift (First.interpret a word s)
  unfolding First.interpret Second.interpret
  interpret-lift word s shared =
      let (who, tell, yell, name, write, read) = shared_only word shared in
      rw (who, tell, yell, name, read)
        (if_lift lift (equal word (codes "exit")) (rw (view.exit s.host) refl) (
          if_lift lift (equal word (codes "printenv")) (parse_printenv-lift s) (
            if_lift lift (equal word (codes "setenv")) (parse_setenv-lift s) (
              if_lift lift (equal word (codes "|")) (add_pair-lift pipe_command s) (
                skip_write (equal word (codes ">"))
                  (Second.first_is b'|' word || Second.first_is b'!' word)
                  (Second.first_is b'>' word) (Second.parse_file b uninit (lift s))
                  (Second.parse_numbered b uninit word (lift s))
                  (Second.parse_write b uninit word (lift s))
                  (lift (record s { argv = s.argv ++ word ∷ [] })) write
                ∙ if_lift lift (equal word (codes ">")) (parse_file-lift s) (
                    if_lift lift (Second.first_is b'|' word || Second.first_is b'!' word)
                      (parse_numbered-lift word s) refl))))))

  after_one : (s : Stream) → IsShared s → IsShared (read_word s).0
  after_one s shared w reads = shared w (there reads)

  interpret-IsShared :
      (word : Bytes) (s : First.Parsing G)
      → IsShared s.iss
      → IsShared (First.interpret a word s).iss
  unfolding First.parse_printenv First.parse_setenv First.parse_file First.parse_numbered
      First.add_pair First.emplace_line
  interpret-IsShared word s shared =
      let one = after_one s.iss shared in
      interpret-cases a (λ t. IsShared t.iss) word s shared one (after_one (read_word s.iss).0 one)
        shared one shared shared

  -- After a word is read, it and the words behind it are shared.
  parse_loop-lift :
      (fuel : ℕ) (s : First.Parsing G)
      → IsShared s.iss
      → Second.parse_loop b uninit fuel (lift s) ≡ Option.map lift (First.parse_loop a fuel s)
  unfolding First.parse_loop Second.parse_loop First.parse_next Second.parse_next
  parse_loop-lift zero s shared = refl
  parse_loop-lift (suc fuel) s shared = round (read_word s.iss) refl (parse_loop-lift fuel)
    where
      round :
          (r : Stream × Option Bytes)
          → read_word s.iss ≡ r
          → ((t : First.Parsing G)
              → IsShared t.iss
              → Second.parse_loop b uninit fuel (lift t)
                ≡ Option.map lift (First.parse_loop a fuel t))
          → Second.parse_next b uninit (Second.parse_loop b uninit fuel) (lift s) r
            ≡ Option.map lift (First.parse_next a (First.parse_loop a fuel) s r)
      round (iss, none) read go = refl
      round (iss, some word) read go =
          let t = record s { iss = iss } in
          let behind = subst (λ r. IsShared r.0) read (after_one s.iss shared) in
          ap (Second.parse_loop b uninit fuel)
            (interpret-lift word t (shared word (here (ap (λ r. r.1) read))))
          ∙ go (First.interpret a word t) (interpret-IsShared word t behind)

  add_last-lift :
      (argv : List Bytes) (s : First.Parsing G)
      → Second.add_last b uninit argv (lift s) ≡ lift (First.add_last a argv s)
  unfolding First.add_last Second.add_last
  add_last-lift [] s = refl
  add_last-lift (w ∷ ws) s = simp map-append

  emitted-lift :
      (cs : List Command) (s : First.Parsing G)
      → Second.emitted b uninit (map promote cs) (lift s) ≡ map promote_line (First.emitted a cs s)
  unfolding First.emitted Second.emitted
  emitted-lift [] s = refl
  emitted-lift (c ∷ cs) s = simp map-append

  finish-lift :
      (s : First.Parsing G) → Second.finish b uninit (lift s) ≡ promote_result f (First.finish a s)
  unfolding First.finish Second.finish
  finish-lift s =
      let t = First.add_last a s.argv s in
      ap (λ u. (Second.emitted b uninit u.line.np_commands u, u.host)) (add_last-lift s.argv s)
      ∙ ap (λ ls. (ls, f t.host)) (emitted-lift t.line.np_commands t)

  -- The second parser does, seen through `f`, what the first one does.
  pub parse_command-view :
      (command : Bytes) (host : G)
      → IsShared (record { rest = command; failed = false })
      → Second.parse_command b uninit command (f host)
        ≡ Option.map (promote_result f) (First.parse_command a command host)
  unfolding First.parse_command Second.parse_command First.start Second.start
  parse_command-view command host shared =
      ap (Option.map (Second.finish b uninit))
        (parse_loop-lift (suc (length command)) (First.start a command host) shared)
      ∙ finished (First.parse_loop a (suc (length command)) (First.start a command host))
    where
      finished :
          (r : Option (First.Parsing G))
          → Option.map (Second.finish b uninit) (Option.map lift r)
            ≡ Option.map (promote_result f) (Option.map (First.finish a) r)
      finished none = refl
      finished (some s) = ap some (finish-lift s)
