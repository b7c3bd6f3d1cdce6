-- ===== src/Tests/Runs.antt =====
-- The theorems on whole runs, at a small shard.
use grass.Exec.Sockets.{with_get_mut, set_socket, await}
use grass.Exec.{◌>>=◌, pure}
use grass.Prelude.{
  All, String, refl, subst, ◌≡◌, none, some, List, [], ◌∷◌, true, false, str_eq, is_some,
  if◌then◌else◌,
}
use grass.State.{World, Context, Message, text, ping}
use grass.Connection.{open_connection, Timing, in_time, on_message}
use grass.Connection.Writer.{write_loop}
use grass.Connection.Handshake.{Stream, sec_websocket_protocol, serve}
use grass.Shard.{
  action, IsResumed, IsFresh, Started, opening, handling, so_far, goes_on_from, Shard, Run, begins,
  goes_on, here, next,
}
use grass.Shard.Safety.{IsFresh-Sound, reached-Sound, TypedMessage, written-TypedMessage}
use grass.Shard.Isolation.{run-face}
use grass.Apart.Isolated.{face}
use grass.Sound.{Sound}
use grass.Sound.Served.{serve-Sound}
use grass.Sound.Connections.{Keeps-on_message}
use grass.Tests.{shard}

abbrev dawn : World
dawn = record {
  sockets = λ id. none;
  channels = λ k. record { closed = false; accepted = [] };
  redis = record { entries = λ key. none; faults = [] };
  clock = 0;
}

abbrev chat : List (Message String × Timing)
chat = (text "fun", in_time) ∷ (ping "now", in_time) ∷ []

dawn-IsFresh : IsFresh dawn
dawn-IsFresh = record { unconnected = λ id. refl; unsent = λ k. refl }

-- While another task holds no guard, client 2 pings.
abbrev busy : Context
busy = record shard { elsewhere = λ v. some (on_message 2 in_time (ping "now") shard v).1 }

-- Client 1 connects; before it is greeted, client 2 connects too. Then client 1 goes on, and client 2.
abbrev one : Started
one = record { task = opening 1 "peer" 1; context = shard; begun = dawn; history = [] }

abbrev morning : World
morning = (so_far one).1

abbrev two : Started
two = record { task = opening 2 "other" 2; context = shard; begun = morning; history = [] }

abbrev noon : World
noon = (so_far two).1

abbrev one_later : Started
one_later = goes_on_from noon one

abbrev afternoon : World
afternoon = (so_far one_later).1

abbrev two_later : Started
two_later = goes_on_from afternoon two

abbrev evening : World
evening = (so_far two_later).1

one_later-IsResumed : IsResumed one_later
unfolding action open_connection with_get_mut set_socket await pure ◌>>=◌
one_later-IsResumed = refl

two_later-IsResumed : IsResumed two_later
unfolding action open_connection with_get_mut set_socket await pure ◌>>=◌
two_later-IsResumed = refl

-- Then client 1 pings.
abbrev pinging : Started
pinging = record { task = handling 1 (ping "now"); context = shard; begun = evening; history = [] }

abbrev night : Shard
night = record { world = (so_far pinging).1; tasks = pinging ∷ two_later ∷ one_later ∷ [] }

abbrev day : Run (record { world = dawn; tasks = [] }) night
day =
    next
      (next
        (next (next (next here (begins [] one refl)) (begins (one ∷ []) two refl))
          (goes_on noon (two ∷ []) [] one one_later-IsResumed))
        (goes_on afternoon [] (one_later ∷ []) two two_later-IsResumed))
      (begins (two_later ∷ one_later ∷ []) pinging refl)

reached-Sound_example : Sound night.world
reached-Sound_example = reached-Sound dawn night dawn-IsFresh day

-- A peer that names the protocol "grass".
abbrev stream : Stream
stream = record {
  peer_addr = some "peer";
  request = some (λ name. if str_eq name sec_websocket_protocol then some "grass" else none);
  response = λ name. none;
  accepts = λ response. is_some (response sec_websocket_protocol);
}

module _ {x y : World} where
  same : some x ≡ some y → x ≡ y
  same e = cc

serve-Sound_example : Sound (serve stream 4 4 chat busy dawn).1
serve-Sound_example =
    serve-Sound stream 4 4 chat busy dawn (tt, (tt, tt))
      (λ w v e sound. subst Sound (same e) (
        (Keeps-on_message 2 in_time (ping "now") tt).at shard w
          (λ x y e' h. subst Sound (same e') h) sound))
      (IsFresh-Sound dawn dawn-IsFresh)

written-TypedMessage_example :
    All TypedMessage (write_loop (true ∷ []) (night.world.channels 1).accepted)
written-TypedMessage_example = written-TypedMessage dawn night 1 (true ∷ []) dawn-IsFresh day

-- Client 2 connects and goes on, while the task that opens client 1 stands still halfway.
abbrev two_alone : Started
two_alone = goes_on_from noon two

two_alone-IsResumed : IsResumed two_alone
unfolding action open_connection with_get_mut set_socket await pure ◌>>=◌
two_alone-IsResumed = refl

abbrev visit :
    Run
      (record { world = morning; tasks = one ∷ [] })
      (record { world = (so_far two_alone).1; tasks = two_alone ∷ one ∷ [] })
visit =
    next (next here (begins (one ∷ []) two refl))
      (goes_on noon [] (one ∷ []) two two_alone-IsResumed)

run-face_example : face ((so_far two_alone).1.sockets 1) ≡ face (morning.sockets 1)
run-face_example = run-face 1 visit ((tt, refl), refl)
