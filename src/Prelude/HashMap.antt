-- ===== src/Prelude/HashMap.antt =====
-- `HashMap<K, V>` with keys that are numbers (`Uuid`, `usize`), as an association list. The source
-- iterates over a map in an order that the standard library leaves open: here it is the list's.
pub mod Shuffle
use Prim.Native.Nat.{ℕ}
use mathlib.Core.Path.{◌≡◌, refl}
use mathlib.Core.Option.{Option, none, some}
use mathlib.Core.List.{List, [], ◌∷◌}
use native.Mathlib.Omega.{arith}
use grass.Prelude.Tests.{◌==◌, if◌then◌else◌}

abbrev pub HashMap {ℓ} : Type ℓ → Type ℓ
HashMap V = List (ℕ × V)

module _ {ℓ} {V : Type ℓ} where
  unfoldable pub get : HashMap V → ℕ → Option V
  get [] k = none
  get ((j, v) ∷ m) k = if j == k then some v else get m k

  -- An insertion under a key that is there replaces its value.
  unfoldable pub insert : HashMap V → ℕ → V → HashMap V
  insert [] k v = (k, v) ∷ []
  insert ((j, w) ∷ m) k v = if j == k then (k, v) ∷ m else (j, w) ∷ insert m k v

  unfoldable pub remove : HashMap V → ℕ → HashMap V
  remove [] k = []
  remove ((j, w) ∷ m) k = let rest = remove m k in if j == k then rest else (j, w) ∷ rest

  pub get-insert :
      (m : HashMap V) (k j : ℕ) (v : V)
      → get (insert m k v) j ≡ (if k == j then some v else get m j)
  unfolding get insert
  get-insert [] k j v = refl
  get-insert ((i, w) ∷ m) k j v = ground (arith, get-insert m k j v)

  pub get-remove :
      (m : HashMap V) (k j : ℕ) → get (remove m k) j ≡ (if k == j then none else get m j)
  unfolding get remove
  get-remove [] k j = ground arith
  get-remove ((i, w) ∷ m) k j = ground (arith, get-remove m k j)
