-- ===== src/Prelude/OrderedMap.antt =====
-- `std::map` with numbers for keys: the pairs in ascending order of the keys, which is the order
-- in which the program iterates.
use Prim.Native.Nat.{ℕ, suc, ◌<◌, ◌≤◌}
use mathlib.Core.List.{List, [], ◌∷◌}
use mathlib.Core.Option.{Option, none, some}
use mathlib.Core.Path.{◌≡◌, refl}
use native.Mathlib.Omega.{arith}
use nycu_np.Prelude.Tests.{◌==◌, ltb, if◌then◌else◌}

module _ {V : Type 0} where
  abbrev pub lookup : ℕ → List (ℕ × V) → Option V
  lookup k [] = none
  lookup k ((j, v) ∷ m) = if j == k then some v else lookup k m

  abbrev pub insert : ℕ → V → List (ℕ × V) → List (ℕ × V)
  insert k v [] = (k, v) ∷ []
  insert k v ((j, w) ∷ m) =
      if j == k
      then (k, v) ∷ m
      else (if ltb k j then (k, v) ∷ (j, w) ∷ m else (j, w) ∷ insert k v m)

  abbrev pub erase : ℕ → List (ℕ × V) → List (ℕ × V)
  erase k [] = []
  erase k ((j, v) ∷ m) = if j == k then m else (j, v) ∷ erase k m

  -- The keys ascend, from `lo` on.
  abbrev pub IsSorted : ℕ → List (ℕ × V) → Type 0
  IsSorted lo [] = Unit {0}
  IsSorted lo ((j, v) ∷ m) = (lo ≤ j) × IsSorted (suc j) m

  pub IsSorted-mono : (m : List (ℕ × V)) (lo hi : ℕ) → lo ≤ hi → IsSorted hi m → IsSorted lo m
  IsSorted-mono [] lo hi h s = tt
  IsSorted-mono ((j, v) ∷ m) lo hi h s = (omega arith, s.1)

  pub insert-IsSorted :
      (lo k : ℕ) (v : V) (m : List (ℕ × V)) → lo ≤ k → IsSorted lo m → IsSorted lo (insert k v m)
  insert-IsSorted lo k v [] h s = (h, tt)
  insert-IsSorted lo k v ((j, w) ∷ m) h s =
      ground (arith, insert-IsSorted (suc j) k v m, IsSorted-mono m (suc k) (suc j))

  pub erase-IsSorted : (lo k : ℕ) (m : List (ℕ × V)) → IsSorted lo m → IsSorted lo (erase k m)
  erase-IsSorted lo k [] s = tt
  erase-IsSorted lo k ((j, w) ∷ m) s =
      ground (arith, erase-IsSorted (suc j) k m, IsSorted-mono m lo (suc j))

  pub lookup_below : (lo k : ℕ) (m : List (ℕ × V)) → IsSorted lo m → k < lo → lookup k m ≡ none
  lookup_below lo k [] s h = refl
  lookup_below lo k ((j, w) ∷ m) s h = ground (arith, lookup_below (suc j) k m s.1)

  pub lookup-insert :
      (k j : ℕ) (v : V) (m : List (ℕ × V))
      → lookup j (insert k v m) ≡ (if k == j then some v else lookup j m)
  lookup-insert k j v [] = refl
  lookup-insert k j v ((i, w) ∷ m) = ground (arith, lookup-insert k j v m)

  pub lookup-erase :
      (lo k j : ℕ) (m : List (ℕ × V))
      → IsSorted lo m
      → lookup j (erase k m) ≡ (if k == j then none else lookup j m)
  lookup-erase lo k j [] s = ground arith
  lookup-erase lo k j ((i, w) ∷ m) s =
      ground (arith, lookup-erase (suc i) k j m, lookup_below (suc i) k m s.1)
