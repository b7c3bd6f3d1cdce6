-- ===== src/Tests/Orders.antt =====
-- The order of a game's clients, at a game with two clients.
use grass.Prelude.{refl, [], ◌∷◌}
use mathlib.Core.List.Perm
use grass.State.{Game, GameState}
use grass.Game.Invariant.{IsValid}
use grass.Game.Delivery.Alike.{Alike-refl}
use grass.Game.Members.Laws.{with_clients}
use grass.Game.Order.{Shuffled}
use grass.Playing.{to_start}
use grass.Playing.Order.{Matched, call-Matched}
use grass.Tests.{shard, player, lobby, world}

abbrev crowd : Game
crowd = with_clients ((2, player 2) ∷ (3, player 3) ∷ []) lobby

-- The same, with the clients in the other order.
abbrev crowd' : Game
crowd' = with_clients ((3, player 3) ∷ (2, player 2) ∷ []) lobby

abbrev in_world : Game → GameState
in_world g = record { game = g; world = world lobby }

crowd-IsValid : IsValid crowd
crowd-IsValid = record {
  hosting = refl;
  host_wired = refl;
  self_wired = refl;
  members = ((refl, refl), ((refl, refl), tt));
  closed = refl;
}

crowds : Shuffled crowd crowd'
crowds = record {
  clients = (2, player 2) ∷ (3, player 3) ∷ [];
  clients' = (3, player 3) ∷ (2, player 2) ∷ [];
  here = refl;
  there = refl;
  same = Perm.swap (3, player 3) (2, player 2) [];
  distinct = ((refl, tt), (tt, tt));
  distinct' = ((refl, tt), (tt, tt));
}

call-Matched_example : Matched (to_start 1) shard (in_world crowd) (in_world crowd')
call-Matched_example =
    call-Matched (to_start 1) shard tt (in_world crowd) (in_world crowd') crowd-IsValid crowds
      (Alike-refl (world lobby))
