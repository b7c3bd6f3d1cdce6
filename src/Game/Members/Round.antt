-- ===== src/Game/Members/Round.antt =====
-- A registration followed by the removal of the same client.
use grass.Prelude.{
  ℕ, ◌≡◌, ◌∙◌, refl, sym, ap, true, Option, none, some, Bool-cases, inl, inr, ◌==◌, ==_iff,
}
use grass.Prelude.HashMap.{HashMap, get, insert, remove, get-insert, get-remove}
use grass.State.{GameState, PartialClient, Context, Game}
use grass.Game.Delivery.{IsWired}
use grass.Game.Invariant.{IsValid}
use grass.Game.Members.{register, unregister}
use grass.Game.Members.Laws.{register_lem, unregister_lem, with_clients, welcome}
use grass.Game.Steps.{register-IsValid}

-- The client of that id in a game.
abbrev pub member : Game → ℕ → Option PartialClient
member g id = elim g.connected_clients [ none ↦ none | some m ↦ get m id ]

get-remove-insert :
    (m : HashMap PartialClient) (k j : ℕ) (p : PartialClient)
    → get m k ≡ none
    → get (remove (insert m k p) k) j ≡ get m j
get-remove-insert m k j p fresh = elim (Bool-cases (k == j)) [
  | inl hit ↦
      get-remove (insert m k p) k j ∙ rw hit (sym (ap (get m) (sym ((==_iff k j).0 hit)) ∙ fresh))
  | inr miss ↦ get-remove (insert m k p) k j ∙ rw miss (get-insert m k j p ∙ rw miss refl)
]

module _ (p : PartialClient) (c : Context) (s : GameState) (clients : HashMap PartialClient) where
  -- A newcomer that registers with a host's valid open game and is then taken out of it leaves the game
  -- with the clients that it had; the newcomer has a channel if it is local.
  pub unregister-register :
      (j : ℕ)
      → IsValid s.game
      → s.game.is_host ≡ true
      → s.game.public ≡ true
      → s.game.connected_clients ≡ some clients
      → IsWired p
      → get clients p.id ≡ none
      → member (unregister p.id c (register p c s).1).1.game j ≡ member s.game j
  unregister-register j v host open_ some_clients wired fresh =
      let joined = register_lem p c s clients v host open_ some_clients wired in
      let valid = register-IsValid c s v p wired in
      rw
        (
          joined,
          unregister_lem p.id c
              (record {
                game = with_clients (insert clients p.id p) s.game;
                world = welcome s.game p clients s.world;
              })
              (insert clients p.id p) (rw joined at valid) host refl,
          some_clients,
        )
        (get-remove-insert clients p.id j p fresh)
