-- ===== src/Game/Start/Laws.antt =====
-- What starting a game does: the branch that starts it, the one that spoils it, and the refusals.
use Prim.Native.Nat.{min}
use grass.Prelude.{
  ℕ, ◌+◌, ◌<◌, ◌≡◌, ◌≢◌, refl, Bool, true, false, none, some, List, [], ◌∷◌, ltb, length, arith,
  if◌then◌else◌,
}
use grass.Prelude.HashMap.{HashMap, get, insert, get-insert}
use grass.Models.Task.{GameTask}
use grass.Models.Error.{BoxError, client, game_already_started, internal_server_error}
use grass.Models.Event.{Event}
use grass.Models.Default.{event}
use grass.State.{Game, GameState, PartialClient, Context}
use grass.Exec.{ok, err, ◌>>=◌}
use grass.Game.Messages.{check_host}
use grass.Game.Progress.{progress_from, fresh_progress, with_progress, all_with_progress}
use grass.Game.Delivery.{AllWired, broadcast, send_global-broadcast}
use grass.Game.Invariant.{IsValid, IsValid-IsWired}
use grass.Game.Members.{register}
use grass.Game.Members.Laws.{register_refused}
use grass.Game.Start.{start}

all_with_progress-wired :
    (tasks : List GameTask) (clients : HashMap PartialClient)
    → AllWired clients
    → AllWired (all_with_progress tasks clients)
all_with_progress-wired tasks [] h = tt
all_with_progress-wired tasks ((id, p) ∷ rest) h = (h.0, all_with_progress-wired tasks rest h.1)

get-progress_from :
    (i : ℕ) (ts : List GameTask) (m : HashMap Bool) (k : ℕ)
    → get (progress_from i ts m) k
      ≡ (if ltb k i then get m k else if ltb k (i + length ts) then some false else get m k)
unfolding progress_from
get-progress_from i [] m k = ground arith
get-progress_from i (t ∷ ts) m k =
    ground (arith, get-progress_from (i + 1) ts (insert m i false) k, get-insert m i k false)

-- A fresh table has an entry for each task, at its position, and none is done.
pub get-fresh_progress :
    (tasks : List GameTask) (k : ℕ)
    → get (fresh_progress tasks) k ≡ (if ltb k (length tasks) then some false else none)
unfolding fresh_progress get
get-fresh_progress tasks k = ground (arith, get-progress_from 0 tasks [] k)

-- The tasks that the context's random choice gives.
abbrev pub chosen : Context → ℕ → List GameTask
chosen c n = c.choose_multiple c.available_tasks n

abbrev pub opened : Context → ℕ → Game → Game
opened c n g = record g { public = false; is_started = true; tasks = chosen c n }

abbrev pub started : Context → ℕ → HashMap PartialClient → Game → Game
started c n clients g = record (opened c n g) {
  connected_clients = some (all_with_progress (chosen c n) clients);
  partial_host = with_progress (chosen c n) g.partial_host;
}

module _ (n : ℕ) (c : Context) (s : GameState) (host : s.game.is_host ≡ true) where
  -- A host's valid game that has not started, and for which enough tasks are chosen, starts: it is closed to
  -- newcomers, has the tasks, gives every player a fresh table, and tells everybody.
  pub start_lem :
      (clients : HashMap PartialClient)
      → IsValid s.game
      → s.game.is_started ≡ false
      → s.game.connected_clients ≡ some clients
      → length (chosen c n) ≡ n
      → start n c s ≡ (
        ok tt,
        record {
          game = started c n clients s.game;
          world =
              broadcast
                (all_with_progress (chosen c n) clients)
                (with_progress (chosen c n) s.game.partial_host)
                none
                (event (Event.start n))
                s.world;
        },
      )
  unfolding start check_host ◌>>=◌
  start_lem clients v idle some_clients enough = ground (
    arith,
    send_global-broadcast {F = BoxError} c (event (Event.start n)) none
        (record s { game = started c n clients s.game }) (all_with_progress (chosen c n) clients)
        host refl (all_with_progress-wired (chosen c n) clients (IsValid-IsWired v some_clients))
        v.host_wired,
  )

  -- A host's start of a game that has started is refused and changes nothing.
  pub start_again : s.game.is_started ≡ true → start n c s ≡ (err (client game_already_started), s)
  unfolding start check_host ◌>>=◌
  start_again on = ground arith

  -- A start that gets too few tasks fails after it has marked the game as started and closed.
  pub start_short :
      s.game.is_started ≡ false
      → length (chosen c n) ≢ n
      → start n c s ≡ (
        err (
            client (
              internal_server_error
                "Internal server error, requested task count could not be filled")),
        record s { game = opened c n s.game },
      )
  unfolding start check_host ◌>>=◌
  start_short idle few = ground arith

-- What the crate rand documents of `choose_multiple`: as many as asked for, or all that there are.
abbrev pub ChoosesAll : Context → Type 0
ChoosesAll c = (ts : List GameTask) (n : ℕ) → length (c.choose_multiple ts n) ≡ min n (length ts)

-- A host's first start with a count above the number of tasks fails, where the random choice gives as many
-- tasks as there are, and it spoils the game: from then on every start
-- is refused because the game is said to have started, and every newcomer is refused too.
pub start_spoils :
    (n m : ℕ) (c : Context) (s : GameState) (p : PartialClient)
    → ChoosesAll c
    → s.game.is_host ≡ true
    → s.game.is_started ≡ false
    → length c.available_tasks < n
    → let t = (start n c s).1 in
      ((start n c s).0
        ≡ err (
            client (
              internal_server_error
                "Internal server error, requested task count could not be filled")))
      × (start m c t ≡ (err (client game_already_started), t))
      × (register p c t ≡ (ok none, t))
start_spoils n m c s p chooses host idle few =
    let short : length (chosen c n) ≢ n = omega (arith, chooses c.available_tasks n) in
    let spoilt = start_short n c s host idle short in
    rw spoilt (
      refl,
      start_again m c (record s { game = opened c n s.game }) host refl,
      register_refused p c (record s { game = opened c n s.game }) (rw host),
    )
