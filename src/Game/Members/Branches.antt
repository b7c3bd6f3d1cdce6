-- ===== src/Game/Members/Branches.antt =====
-- `Game::register` on every branch, against a description by cases.
use grass.Prelude.{◌≡◌, ◌∙◌, true, some, none, arith, if◌then◌else◌, Bool-cases, inl, inr}
use grass.Prelude.HashMap.{HashMap, insert}
use grass.State.{GameState, PartialClient, Context}
use grass.Exec.{ok}
use grass.Game.Delivery.{IsWired}
use grass.Game.Invariant.{IsValid}
use grass.Game.Members.{register}
use grass.Game.Members.Laws.{register_lem, register_refused, welcome, with_clients}

-- A registration of a client that has a channel if it is local, in a host's valid game: an open game
-- takes the client in, which is told of everybody, and everybody is told of it; a closed one refuses and
-- sends nothing.
pub register-welcome :
    (p : PartialClient) (c : Context) (s : GameState) (clients : HashMap PartialClient)
    → IsValid s.game
    → s.game.is_host ≡ true
    → s.game.connected_clients ≡ some clients
    → IsWired p
    → register p c s ≡ (
        if s.game.public
        then (
          ok (some tt),
          record {
            game = with_clients (insert clients p.id p) s.game;
            world = welcome s.game p clients s.world;
          },
        )
        else (ok none, s))
register-welcome p c s clients v host some_clients wired = elim (Bool-cases s.game.public) [
  | inl open_ ↦ register_lem p c s clients v host open_ some_clients wired ∙ (simp open_)
  | inr shut ↦ register_refused p c s (ground arith) ∙ (simp shut)
]
