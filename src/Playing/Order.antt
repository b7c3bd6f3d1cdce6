-- ===== src/Playing/Order.antt =====
-- The calls of a game whose map of clients is iterated in another order.
use grass.Prelude.{◌≡◌, subst, sym, true, some, ◌∙◌, ap, is_some}
use grass.Prelude.HashMap.{HashMap}
use grass.Prelude.HashMap.Shuffle.{IsDistinct}
use mathlib.Core.List.{Perm}
use grass.State.{Context, GameState, World, PartialClient}
use grass.Game.Delivery.Alike.{Alike}
use grass.Game.Invariant.{IsValid}
use grass.Game.Members.{register, unregister, shutdown}
use grass.Game.Members.Laws.{with_clients}
use grass.Game.Start.{start}
use grass.Game.CodeTest.{prepare_code_test, validate_code_test}
use grass.Game.Order.{Shuffled, Matches}
use grass.Game.Order.Valid.{IsValid-Perm}
use grass.Game.Order.Members.{register-Matches, unregister-Matches, shutdown-Matches, start-Matches}
use grass.Game.Order.Submission.{prepare-Matches, validate-Matches}
use grass.Playing.{
  Call, to_register, to_unregister, to_shutdown, to_start, to_prepare, to_validate, IsProper,
}

-- The two runs of a call match.
abbrev pub Matched : Call → Context → GameState → GameState → Type 0
Matched (to_register p) c s s' = Matches (register p c s) (register p c s')
Matched (to_unregister id) c s s' = Matches (unregister id c s) (unregister id c s')
Matched to_shutdown c s s' = Matches (shutdown c s) (shutdown c s')
Matched (to_start n) c s s' = Matches (start n c s) (start n c s')
Matched (to_prepare i) c s s' = Matches (prepare_code_test i c s) (prepare_code_test i c s')
Matched (to_validate id i code result) c s s' =
    Matches (validate_code_test id i code result c s) (validate_code_test id i code result c s')

module _ (call : Call) (c : Context) (proper : IsProper call) where
  listed :
      (s : GameState) (w' : World)
      → IsValid s.game
      → Alike s.world w'
      → (clients clients' : HashMap PartialClient) → s.game.connected_clients ≡ some clients
      → Perm clients clients'
      → IsDistinct clients
      → IsDistinct clients'
      → Matched call c s (record { game = with_clients clients' s.game; world = w' })
  listed s w' v alike clients clients' here same distinct distinct' = go call proper
    where
      v' : IsValid (with_clients clients' s.game)
      v' = IsValid-Perm s.game clients clients' v here same

      host : s.game.is_host ≡ true
      host = sym v.hosting ∙ ap is_some here

      go :
          (k : Call)
          → IsProper k
          → Matched k c s (record { game = with_clients clients' s.game; world = w' })
      go (to_register p) q =
          register-Matches c s clients clients' w' v v' host here same distinct distinct' alike p
            q.0
      go (to_unregister id) q =
          unregister-Matches c s clients clients' w' v v' host here same distinct distinct' alike id
      go to_shutdown q =
          shutdown-Matches c s clients clients' w' v v' host here same distinct distinct' alike
      go (to_start n) q =
          start-Matches c s clients clients' w' v v' host here same distinct distinct' alike n
      go (to_prepare i) q =
          prepare-Matches c s clients clients' w' v v' host here same distinct distinct' alike i
      go (to_validate id i code result) q =
          validate-Matches c s clients clients' w' v v' host here same distinct distinct' alike id i
            code result

  -- Let two host's games, the first of them valid, differ at most in the order in which their maps list the clients, each
  -- client under a key of its own, and two worlds at most in the order of messages within a channel. Then every call on
  -- them, by a newcomer with a channel if it is local and without a table if it is a registration, has the same outcome
  -- in both, and leads again to such games and such worlds: the order in which a map is iterated is never seen beyond the
  -- order of messages.
  pub call-Matched :
      (s s' : GameState)
      → IsValid s.game
      → Shuffled s.game s'.game
      → Alike s.world s'.world
      → Matched call c s s'
  call-Matched s s' v x alike =
      subst (λ g. Matched call c s (record { game = g; world = s'.world })) (sym x.there)
        (listed s s'.world v alike x.clients x.clients' x.here x.same x.distinct x.distinct')
