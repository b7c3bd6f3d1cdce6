-- ===== src/Game/Order.antt =====
-- A game whose map of clients is iterated in another order: its methods send the same messages, and to everybody but a
-- newcomer in the same order.
pub mod Farewell
pub mod Members
pub mod Valid
pub mod Submission
use grass.Prelude.{
  ℕ, String, ◌≡◌, refl, sym, ap, subst, ◌∙◌, Bool, true, false, Option, none, some, List, [], ◌∷◌,
  Bool-cases, Option-cases, inl, inr, if◌then◌else◌, arith, is_some, ◌==◌, length,
}
use grass.Prelude.HashMap.{HashMap, get, insert, remove}
use grass.Prelude.HashMap.Shuffle.{
  IsDistinct, IsDistinct-insert, IsDistinct-remove, insert-Perm, remove-Perm, has-Perm,
}
use mathlib.Core.List.{Perm}
use mathlib.Core.List.Perm
use grass.Models.Task.{Uuid, GameTask}
use grass.Models.Error.{BoxError}
use grass.Models.Response.{DefaultModel, ResponseData, ResponseOpCode}
use grass.Models.Default.{Payload, event}
use grass.State.{World, Context, Game, GameState, PartialClient}
use grass.Exec.{Exec, Outcome, ok, err, ◌>>=◌, ◌>>◌}
use grass.Exec.Services.{pool_get, redis_del, game_key}
use grass.Exec.Sockets.{lift}
use grass.Game.Delivery.{IsWired, deliver}
use grass.Game.Delivery.Alike.{Alike, Alike-refl}
use grass.Game.Delivery.Shuffle.{
  broadcast-Alike, dismiss_all-Alike, introduce_all-Alike, deliver-Alike,
}
use grass.Game.Invariant.{IsValid, IsValid-IsWired}
use grass.Game.Messages.{send_message, check_host}
use grass.Game.Members.{register, unregister, shutdown}
use grass.Game.Members.Laws.{
  introduce_all, with_clients, register_lem, register_refused, unregister_lem, dismiss_all,
  dismiss-dismiss_all, joined,
}
use grass.Game.Start.{start}
use grass.Game.Start.Laws.{chosen}
use grass.Models.Event.{Event}
use grass.Game.Delivery.{broadcast}
use grass.Game.Order.Farewell.{shutdown-farewell, Respects-farewell, Respects}
use grass.Game.Start.Branches.{start-start_cases}
use grass.Game.Progress.{all_with_progress, with_progress}

-- The games differ in the order of their clients alone, and no key has two entries.
pub record Shuffled (g g' : Game) : Type 0 where
  pub clients : HashMap PartialClient
  pub clients' : HashMap PartialClient
  pub here : g.connected_clients ≡ some clients
  pub there : g' ≡ with_clients clients' g
  pub same : Perm clients clients'
  pub distinct : IsDistinct clients
  pub distinct' : IsDistinct clients'

-- Two runs of a method have the same outcome, and lead to such games and to worlds that differ at most in the order of
-- the messages within a channel.
pub record Matches {A : Type 0} (x y : Outcome BoxError A × GameState) : Type 0 where
  pub outcome : x.0 ≡ y.0
  pub game : Shuffled x.1.game y.1.game
  pub world : Alike x.1.world y.1.world

pub Matches-if :
    {A : Type 0} (b : Bool) {x x' y y' : Outcome BoxError A × GameState}
    → Matches x x'
    → Matches y y'
    → Matches (if b then x else y) (if b then x' else y')
Matches-if true h h' = h
Matches-if false h h' = h'
