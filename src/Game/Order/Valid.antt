-- ===== src/Game/Order/Valid.antt =====
-- A valid game stays valid when its clients are listed in another order.
use grass.Prelude.{is_some, ℕ, ◌≡◌, subst, sym, List, [], ◌∷◌, All, some, ap, ◌∙◌}
use grass.Prelude.HashMap.{HashMap}
use mathlib.Core.List.{Perm, Permᴰ}
use mathlib.Core.Logic.{∥∥₁_elim}
use grass.State.{Game, PartialClient}
use grass.Game.Invariant.{IsValid, IsMember}
use grass.Game.Members.Laws.{with_clients}

All-prop :
    {A : Type 0} (P : A → Type 0) → ((a : A) → IsProp (P a)) → (xs : List A) → IsProp (All P xs)
All-prop P h [] = hlevel
All-prop P h (x ∷ xs) = hlevel (h x, All-prop P h xs)

All-Permᴰ : {A : Type 0} (P : A → Type 0) {xs ys : List A} → Permᴰ xs ys → All P xs → All P ys
All-Permᴰ P Permᴰ.nil h = h
All-Permᴰ P (Permᴰ.cons e d) h = (subst P e h.0, All-Permᴰ P d h.1)
All-Permᴰ P (Permᴰ.swap e e') h = (subst P e' h.1.0, (subst P e h.0, h.1.1))
All-Permᴰ P (Permᴰ.trans d d') h = All-Permᴰ P d' (All-Permᴰ P d h)

IsMember-prop : (e : ℕ × PartialClient) → IsProp (IsMember e)
IsMember-prop e = hlevel

pub IsValid-Perm :
    (g : Game) (clients clients' : HashMap PartialClient)
    → IsValid g
    → g.connected_clients ≡ some clients
    → Perm clients clients'
    → IsValid (with_clients clients' g)
IsValid-Perm g clients clients' v here same = record {
  hosting = ap is_some (sym here) ∙ v.hosting;
  host_wired = v.host_wired;
  self_wired = v.self_wired;
  members =
      ∥∥₁_elim same (All-prop IsMember IsMember-prop clients')
        (λ d. All-Permᴰ IsMember d (rw here at v.members));
  closed = v.closed;
}
