-- ===== src/Game/Invariant.antt =====
-- The invariant of a game: a host has a table of clients and nobody else has, local players have their
-- channels, every client stands under its own id, and a game that has started is closed to others.
use grass.Prelude.{
  ℕ, ◌≡◌, true, Option, none, some, [], ◌∷◌, ◌==◌, not, ◌||◌, is_some, All, Bool-cases, inl, inr,
}
use grass.Prelude.HashMap.{HashMap, insert, remove}
use grass.State.{Game, PartialClient}
use grass.Game.Delivery.{IsWired}

abbrev pub IsMember : ℕ × PartialClient → Type 0
IsMember e = (e.1.id ≡ e.0) × IsWired e.1

abbrev pub Members : Option (HashMap PartialClient) → Type 0
Members none = Unit
Members (some m) = All IsMember m

pub record IsValid (g : Game) : Type 0 where
  pub hosting : is_some g.connected_clients ≡ g.is_host
  pub host_wired : IsWired g.partial_host
  pub self_wired : IsWired g.partial_client
  pub members : Members g.connected_clients
  pub closed : (not g.is_started || not g.public) ≡ true

module _ {κ} {V : Type 0} (P : ℕ × V → Type κ) where
  pub All-insert : (m : HashMap V) (k : ℕ) (v : V) → All P m → P (k, v) → All P (insert m k v)
  unfolding insert
  All-insert [] k v h p = (p, tt)
  All-insert ((j, w) ∷ m) k v h p = elim (Bool-cases (j == k)) [
    | inl hit ↦ rw hit (p, h.1)
    | inr miss ↦ rw miss (h.0, All-insert m k v h.1 p)
  ]

  pub All-remove : (m : HashMap V) (k : ℕ) → All P m → All P (remove m k)
  unfolding remove
  All-remove [] k h = tt
  All-remove ((j, w) ∷ m) k h = elim (Bool-cases (j == k)) [
    | inl hit ↦ rw hit (All-remove m k h.1)
    | inr miss ↦ rw miss (h.0, All-remove m k h.1)
  ]

pub AllWired_of_Members : (m : HashMap PartialClient) → All IsMember m → All (λ e. IsWired e.1) m
AllWired_of_Members [] h = tt
AllWired_of_Members ((k, p) ∷ m) h = (h.0.1, AllWired_of_Members m h.1)

pub IsValid-IsWired :
    {g : Game} {m : HashMap PartialClient}
    → IsValid g
    → g.connected_clients ≡ some m
    → All (λ e. IsWired e.1) m
IsValid-IsWired {m} v e = AllWired_of_Members m (rw e at v.members)
