-- ===== src/Game/Order/Members.antt =====
-- `register`, `unregister`, `shutdown` and `start`, for a host's valid games that differ in the order of their clients.
use grass.Prelude.{
  ℕ, ◌≡◌, refl, true, none, some, [], Bool-cases, inl, inr, if◌then◌else◌, arith, is_some, ◌==◌,
  length,
}
use grass.Prelude.HashMap.{HashMap, get, insert, remove}
use grass.Prelude.HashMap.Shuffle.{
  IsDistinct, IsDistinct-insert, IsDistinct-remove, IsDistinct-map, insert-Perm, remove-Perm,
  has-Perm,
}
use mathlib.Core.List.{Perm}
use mathlib.Core.List.Perm
use grass.Models.Task.{Uuid}
use grass.Models.Response.{DefaultModel}
use grass.Models.Default.{Payload, event}
use grass.State.{World, Context, GameState, PartialClient}
use grass.Game.Delivery.{IsWired}
use grass.Game.Delivery.Alike.{Alike}
use grass.Game.Delivery.Shuffle.{
  broadcast-Alike, dismiss_all-Alike, introduce_all-Alike, deliver-Alike,
}
use grass.Game.Invariant.{IsValid}
use grass.Game.Members.{register, unregister, shutdown}
use grass.Game.Members.Laws.{
  introduce_all, with_clients, register_lem, register_refused, unregister_lem, joined,
}
use grass.Game.Start.{start}
use grass.Game.Start.Laws.{chosen}
use grass.Models.Event.{Event}
use grass.Game.Delivery.{broadcast}
use grass.Game.Order.Farewell.{shutdown-farewell, Respects-farewell}
use grass.Game.Start.Branches.{start-start_cases}
use grass.Game.Progress.{all_with_progress, with_progress}
use grass.Game.Order.{Shuffled, Matches, Matches-if}

module _ (c : Context) (s : GameState) (clients clients' : HashMap PartialClient) (w' : World)
    (v : IsValid s.game) (v' : IsValid (with_clients clients' s.game))
    (host : s.game.is_host ≡ true) (here : s.game.connected_clients ≡ some clients)
    (same : Perm clients clients') (distinct : IsDistinct clients) (distinct' : IsDistinct clients')
    (alike : Alike s.world w') where
  abbrev s' : GameState
  s' = record { game = with_clients clients' s.game; world = w' }

  pub unchanged : Shuffled s.game (with_clients clients' s.game)
  unchanged = record {
    clients = clients;
    clients' = clients';
    here = here;
    there = refl;
    same = same;
    distinct = distinct;
    distinct' = distinct';
  }

  abbrev left_event : Uuid → DefaultModel Payload
  left_event id = event (Event.disconnected_client s.game.game_id id)

  left :
      (id : Uuid)
      → Alike
          (if is_some (get clients id)
            then broadcast (remove clients id) s.game.partial_host none (left_event id) s.world
            else s.world)
          (if is_some (get clients' id)
            then broadcast (remove clients' id) s.game.partial_host none (left_event id) w'
            else w')
  left id = elim (Bool-cases (is_some (get clients' id))) [
    | inl there ↦
        rw (has-Perm clients clients' id same, there)
          (broadcast-Alike none (left_event id) (remove clients id) (remove clients' id)
            s.game.partial_host s.world w' (remove-Perm clients clients' id same) alike)
    | inr away ↦ rw (has-Perm clients clients' id same, away) alike
  ]

  pub unregister-Matches : (id : Uuid) → Matches (unregister id c s) (unregister id c s')
  unregister-Matches id =
      rw (unregister_lem id c s clients v host here, unregister_lem id c s' clients' v' host refl)
        (record {
          outcome = refl;
          game = record {
            clients = remove clients id;
            clients' = remove clients' id;
            here = refl;
            there = refl;
            same = remove-Perm clients clients' id same;
            distinct = IsDistinct-remove clients id distinct;
            distinct' = IsDistinct-remove clients' id distinct';
          };
          world = left id;
        })

  pub register-Matches :
      (p : PartialClient) → IsWired p → Matches (register p c s) (register p c s')
  unfolding introduce_all
  register-Matches p wired = elim (Bool-cases s.game.public) [
    | inl open_ ↦
        rw
          (
            register_lem p c s clients v host open_ here wired,
            register_lem p c s' clients' v' host open_ refl wired,
          )
          (record {
            outcome = refl;
            game = record {
              clients = insert clients p.id p;
              clients' = insert clients' p.id p;
              here = refl;
              there = refl;
              same = insert-Perm clients clients' p.id p distinct distinct' same;
              distinct = IsDistinct-insert clients p.id p distinct;
              distinct' = IsDistinct-insert clients' p.id p distinct';
            };
            world =
                broadcast-Alike none (joined s.game p.id p.nickname) clients clients'
                  s.game.partial_host _ _ same
                  (deliver-Alike p
                    (joined s.game s.game.partial_host.id s.game.partial_host.nickname) _ _
                    (introduce_all-Alike s.game p clients clients' s.world w' same alike));
          })
    | inr closed ↦
        rw (register_refused p c s (ground arith), register_refused p c s' (ground arith))
          (record { outcome = refl; game = unchanged; world = alike })
  ]

  pub shutdown-Matches : Matches (shutdown c s) (shutdown c s')
  shutdown-Matches =
      let gone = dismiss_all-Alike clients clients' s.world w' same alike in
      rw (shutdown-farewell c s clients v host here, shutdown-farewell c s' clients' v' host refl)
        (record {
          outcome =
              (Respects-farewell s.game.game_id s.game.partial_host v.host_wired).outcome c _ _
                gone;
          game = record {
            clients = [];
            clients' = [];
            here = refl;
            there = refl;
            same = Perm.refl [];
            distinct = tt;
            distinct' = tt;
          };
          world =
              (Respects-farewell s.game.game_id s.game.partial_host v.host_wired).world c _ _ gone;
        })

  pub start-Matches : (n : ℕ) → Matches (start n c s) (start n c s')
  start-Matches n =
      rw
        (
          start-start_cases n c s clients v host here,
          start-start_cases n c s' clients' v' host refl,
        )
        (Matches-if s.game.is_started (record { outcome = refl; game = unchanged; world = alike })
          (Matches-if (length (chosen c n) == n)
            (record {
              outcome = refl;
              game = record {
                clients = all_with_progress (chosen c n) clients;
                clients' = all_with_progress (chosen c n) clients';
                here = refl;
                there = refl;
                same = Perm.map (λ e. (e.0, with_progress (chosen c n) e.1)) same;
                distinct = IsDistinct-map (with_progress (chosen c n)) clients distinct;
                distinct' = IsDistinct-map (with_progress (chosen c n)) clients' distinct';
              };
              world =
                  broadcast-Alike none (event (Event.start n))
                    (all_with_progress (chosen c n) clients)
                    (all_with_progress (chosen c n) clients')
                    (with_progress (chosen c n) s.game.partial_host) s.world w'
                    (Perm.map (λ e. (e.0, with_progress (chosen c n) e.1)) same) alike;
            })
            (record {
              outcome = refl;
              game = record {
                clients = clients;
                clients' = clients';
                here = here;
                there = refl;
                same = same;
                distinct = distinct;
                distinct' = distinct';
              };
              world = alike;
            })))
