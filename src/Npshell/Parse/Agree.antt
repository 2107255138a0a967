-- ===== src/Npshell/Parse/Agree.antt =====
-- The parsers of the two projects, on lines without the words that only the second one has, each
-- with its own program's built-in commands.
use mathlib.Core.Option
use nycu_np.Npshell.Command.{NpCommandLine}
use nycu_np.Npshell.Parse as First
use nycu_np.Prelude.{false, List, [], ◌∷◌, Option, Bytes, ℤ, ◌≡◌, refl, sym, ◌∙◌}
use nycu_np.Shell.Parse as Second
use nycu_np.Npshell.Parse.View.{IsShared, promote_result, IsView, parse_command-view}

-- A call of a built-in command that both have, with its arguments.
pub data Effect : Type 0 where
  exits : Effect
  prints : Bytes → Effect
  sets : Bytes → Bytes → Effect

-- The built-in commands that only note what they are called with, the newest first.
abbrev noted : First.Builtins (List Effect)
noted = record {
  exit = λ es. exits ∷ es;
  printenv = λ var es. prints var ∷ es;
  setenv = λ var value es. sets var value ∷ es;
}

-- The noted calls, done by either program.
abbrev pub first_does : {G : Type 0} → First.Builtins G → G → List Effect → G
first_does a g [] = g
first_does a g (exits ∷ es) = a.exit (first_does a g es)
first_does a g (prints var ∷ es) = a.printenv var (first_does a g es)
first_does a g (sets var value ∷ es) = a.setenv var value (first_does a g es)

abbrev pub second_does : {H : Type 0} → Second.Builtins H → H → List Effect → H
second_does b h [] = h
second_does b h (exits ∷ es) = b.exit (second_does b h es)
second_does b h (prints var ∷ es) = b.printenv var (second_does b h es)
second_does b h (sets var value ∷ es) = b.setenv var value (second_does b h es)

second_does-IsView : {H : Type 0} (b : Second.Builtins H) (h : H) → IsView (second_does b h) noted b
second_does-IsView b h = record {
  exit = λ es. refl;
  printenv = λ var es. refl;
  setenv = λ var value es. refl;
}

-- The second parser with the built-in commands of the first program.
abbrev as_second : {G : Type 0} → First.Builtins G → Second.Builtins G
as_second a = record {
  exit = a.exit;
  printenv = a.printenv;
  setenv = a.setenv;
  who = λ g. g;
  tell = λ uid msg g. g;
  yell = λ msg g. g;
  name = λ new_name g. g;
}

first_does-IsView :
    {G : Type 0} (a : First.Builtins G) (g : G) → IsView (first_does a g) noted (as_second a)
first_does-IsView a g = record {
  exit = λ es. refl;
  printenv = λ var es. refl;
  setenv = λ var value es. refl;
}

same-IsView : {G : Type 0} (a : First.Builtins G) → IsView (λ g. g) a (as_second a)
same-IsView a = record { exit = λ g. refl; printenv = λ var g. refl; setenv = λ var value g. refl }

-- A line without the words that only project 2 has is parsed by both parsers alike, each with its own
-- program's built-in commands: the same lines of the same commands, that ask for no user, and the
-- same calls of the built-in commands, with the same arguments and in the same order.
pub parse_command-promote :
    {G H : Type 0} (a : First.Builtins G) (b : Second.Builtins H) (uninit : ℤ) (command : Bytes)
    (g : G) (h : H)
    → IsShared (record { rest = command; failed = false })
    → (parsed : Option (List NpCommandLine × List Effect)) × (Option.map
          (promote_result (λ t. t))
          (First.parse_command a command g)
        ≡ Option.map (promote_result (first_does a g)) parsed)
      × (Second.parse_command b uninit command h
          ≡ Option.map (promote_result (second_does b h)) parsed)
parse_command-promote a b uninit command g h shared = (
  First.parse_command noted command [],
  sym (parse_command-view (λ t. t) a (as_second a) (same-IsView a) uninit command g shared)
      ∙ parse_command-view (first_does a g) noted (as_second a) (first_does-IsView a g) uninit
          command [] shared,
  parse_command-view (second_does b h) noted b (second_does-IsView b h) uninit command [] shared,
)
