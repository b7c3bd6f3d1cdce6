-- ===== src/Prelude/HashMap/Shuffle.antt =====
-- Maps with the same entries in another order, where every key has one entry.
use Prim.Native.Nat.{ℕ}
use mathlib.Core.Path.{◌≡◌, refl, ap, ◌∙◌}
use mathlib.Core.Bool.{false, Bool-set}
use mathlib.Core.List.{[], ◌∷◌, map, Perm, Permᴰ}
use mathlib.Core.List.Perm
use mathlib.Core.Logic.{∥∥₁_elim, ∥∥₁_prop, inl, inr}
use native.Mathlib.Omega.{arith}
use grass.Prelude.Tests.{◌==◌, Bool-cases, ==_iff, is_some}
use grass.Prelude.Lists.{All}
use grass.Prelude.HashMap.{HashMap, get, insert, remove}

module _ {ℓ} {V : Type ℓ} where
  -- No entry has the key.
  abbrev pub Lacks : ℕ → HashMap V → Type 0
  Lacks k = All (λ e. (e.0 == k) ≡ false)

  abbrev pub IsDistinct : HashMap V → Type 0
  IsDistinct [] = Unit
  IsDistinct (e ∷ m) = Lacks e.0 m × IsDistinct m

  remove-Lacks : (m : HashMap V) (k : ℕ) → Lacks k m → remove m k ≡ m
  unfolding remove
  remove-Lacks [] k h = refl
  remove-Lacks ((j, v) ∷ m) k h = rw (remove, h.0) (ap (λ x. (j, v) ∷ x) (remove-Lacks m k h.1))

  Lacks-remove : (m : HashMap V) (j k : ℕ) → Lacks j m → Lacks j (remove m k)
  unfolding remove
  Lacks-remove [] j k h = tt
  Lacks-remove ((i, v) ∷ m) j k h = elim (Bool-cases (i == k)) [
    | inl hit ↦ rw (remove, hit) (Lacks-remove m j k h.1)
    | inr miss ↦ rw (remove, miss) (h.0, Lacks-remove m j k h.1)
  ]

  pub IsDistinct-remove : (m : HashMap V) (k : ℕ) → IsDistinct m → IsDistinct (remove m k)
  unfolding remove
  IsDistinct-remove [] k h = tt
  IsDistinct-remove ((i, v) ∷ m) k h = elim (Bool-cases (i == k)) [
    | inl hit ↦ rw (remove, hit) (IsDistinct-remove m k h.1)
    | inr miss ↦ rw (remove, miss) (Lacks-remove m i k h.0, IsDistinct-remove m k h.1)
  ]

  Lacks-insert :
      (m : HashMap V) (j k : ℕ) (v : V) → (k == j) ≡ false → Lacks j m → Lacks j (insert m k v)
  unfolding insert
  Lacks-insert [] j k v apart h = (apart, tt)
  Lacks-insert ((i, w) ∷ m) j k v apart h = elim (Bool-cases (i == k)) [
    | inl hit ↦ rw hit (apart, h.1)
    | inr miss ↦ rw miss (h.0, Lacks-insert m j k v apart h.1)
  ]

  pub IsDistinct-insert : (m : HashMap V) (k : ℕ) (v : V) → IsDistinct m → IsDistinct (insert m k v)
  unfolding insert
  IsDistinct-insert [] k v h = (tt, tt)
  IsDistinct-insert ((i, w) ∷ m) k v h = elim (Bool-cases (i == k)) [
    | inl hit ↦ rw hit (rw ((==_iff i k).0 hit) at h.0, h.1)
    | inr miss ↦ rw miss (Lacks-insert m i k v (ground arith) h.0, IsDistinct-insert m k v h.1)
  ]

  Lacks-map : (f : V → V) (m : HashMap V) (k : ℕ) → Lacks k m → Lacks k (map (λ e. (e.0, f e.1)) m)
  Lacks-map f [] k h = tt
  Lacks-map f (e ∷ m) k h = (h.0, Lacks-map f m k h.1)

  pub IsDistinct-map :
      (f : V → V) (m : HashMap V) → IsDistinct m → IsDistinct (map (λ e. (e.0, f e.1)) m)
  IsDistinct-map f [] h = tt
  IsDistinct-map f (e ∷ m) h = (Lacks-map f m e.0 h.0, IsDistinct-map f m h.1)

  -- An insertion is an entry before what else there is.
  insert-remove :
      (m : HashMap V) (k : ℕ) (v : V) → IsDistinct m → Perm (insert m k v) ((k, v) ∷ remove m k)
  unfolding insert remove
  insert-remove [] k v h = Perm.refl _
  insert-remove ((i, w) ∷ m) k v h = elim (Bool-cases (i == k)) [
    | inl hit ↦
        rw (hit, remove) (rw (remove-Lacks m k (rw ((==_iff i k).0 hit) at h.0)) (Perm.refl _))
    | inr miss ↦
        rw (miss, remove)
          (Perm.trans (Perm.cons (i, w) (insert-remove m k v h.1))
            (Perm.swap (k, v) (i, w) (remove m k)))
  ]

  remove-Permᴰ : (k : ℕ) {m n : HashMap V} → Permᴰ m n → Perm (remove m k) (remove n k)
  unfolding remove
  remove-Permᴰ k Permᴰ.nil = Perm.refl []
  remove-Permᴰ k (Permᴰ.cons {a = a} {b = b} e d) = rw (← e) (elim (Bool-cases (a.0 == k)) [
    | inl hit ↦ rw (remove, hit) (remove-Permᴰ k d)
    | inr miss ↦ rw (remove, miss) (Perm.cons a (remove-Permᴰ k d))
  ])
  remove-Permᴰ k (Permᴰ.swap {a = a} {b = b} {l = l} e e') =
      rw (← e, ← e')
        (elim (Bool-cases (a.0 == k)) [
          | inl hit ↦ rw (remove, hit) (Perm.refl _)
          | inr miss ↦ elim (Bool-cases (b.0 == k)) [
            | inl hit ↦ rw (remove, miss, hit) (Perm.refl _)
            | inr miss' ↦ rw (remove, miss, miss') (Perm.swap b a (remove l k))
          ]
        ])
  remove-Permᴰ k (Permᴰ.trans d d') = Perm.trans (remove-Permᴰ k d) (remove-Permᴰ k d')

  pub remove-Perm : (m n : HashMap V) (k : ℕ) → Perm m n → Perm (remove m k) (remove n k)
  remove-Perm m n k p = ∥∥₁_elim p ∥∥₁_prop (λ d. remove-Permᴰ k d)

  pub insert-Perm :
      (m n : HashMap V) (k : ℕ) (v : V)
      → IsDistinct m
      → IsDistinct n
      → Perm m n
      → Perm (insert m k v) (insert n k v)
  insert-Perm m n k v h h' p =
      Perm.trans (insert-remove m k v h)
        (Perm.trans (Perm.cons (k, v) (remove-Perm m n k p)) (Perm.symm (insert-remove n k v h')))

  has-Permᴰ : (k : ℕ) {m n : HashMap V} → Permᴰ m n → is_some (get m k) ≡ is_some (get n k)
  unfolding get
  has-Permᴰ k Permᴰ.nil = refl
  has-Permᴰ k (Permᴰ.cons {a = a} e d) = rw (← e) (ground (arith, has-Permᴰ k d))
  has-Permᴰ k (Permᴰ.swap {a = a} {b = b} e e') = rw (← e, ← e') (ground arith)
  has-Permᴰ k (Permᴰ.trans d d') = has-Permᴰ k d ∙ has-Permᴰ k d'

  pub has-Perm : (m n : HashMap V) (k : ℕ) → Perm m n → is_some (get m k) ≡ is_some (get n k)
  has-Perm m n k p = ∥∥₁_elim p (Bool-set _ _) (λ d. has-Permᴰ k d)
