-- ===== src/Playing/Marks.antt =====
-- What has been recorded of a host's progress stays.
use grass.Prelude.{
  ℕ, ◌≡◌, refl, Bool, true, false, Option, none, some, List, [], ◌∷◌, ◌==◌, arith, inl, inr,
  Bool-cases, ltb, length,
}
use grass.Prelude.HashMap.{HashMap, get, insert, get-insert}
use grass.Models.Task.{Uuid, GameTask}
use grass.Game.Progress.{with_progress}
use grass.Game.Start.Laws.{get-fresh_progress}
use grass.State.{Context, Game, GameState, PartialClient}
use grass.Exec.{◌>>=◌, ignore}
use grass.Exec.Sockets.{lift}
use grass.Game.Invariant.{IsValid}
use grass.Game.Messages.{check_host}
use grass.Game.Members.{register, unregister, shutdown}
use grass.Game.Start.{start}
use grass.Game.Steps.{game-send_global}
use grass.Game.CodeTest.Ends.{validate_code_test-ends}
use grass.Sound.Owned.{self-prepare}
use grass.Playing.{
  Call, to_register, to_unregister, to_shutdown, to_start, to_prepare, to_validate, game_after,
  Turn, play, AllProper, call-IsValid,
}

abbrev pub mark : Option Bool → Bool
mark none = false
mark (some done) = done

-- Whether a player's table says that a task is done.
abbrev pub is_done_by : PartialClient → ℕ → Bool
is_done_by p k = elim p.task_progress [ none ↦ false | some m ↦ mark (get m k) ]

-- In a fresh table nothing is done.
pub fresh_undone :
    (tasks : List GameTask) (i : ℕ) (p : PartialClient)
    → is_done_by (with_progress tasks p) i ≡ false
fresh_undone tasks i p = elim (Bool-cases (ltb i (length tasks))) [
  | inl below ↦ rw (get-fresh_progress, below) refl
  | inr above ↦ rw (get-fresh_progress, above) refl
]

-- The game has started, and its host has done the task.
record HasDone (k : ℕ) (g : Game) : Type 0 where
  on : g.is_started ≡ true
  done : is_done_by g.partial_host k ≡ true

module _ (c : Context) (s : GameState) where
  host-register : (p : PartialClient) → (register p c s).1.game.partial_host ≡ s.game.partial_host
  unfolding register ignore lift ◌>>=◌
  host-register p = grind (arith, game-send_global)

  on-register : (p : PartialClient) → (register p c s).1.game.is_started ≡ s.game.is_started
  unfolding register ignore lift ◌>>=◌
  on-register p = grind (arith, game-send_global)

  host-unregister : (id : Uuid) → (unregister id c s).1.game.partial_host ≡ s.game.partial_host
  unfolding unregister ignore ◌>>=◌
  host-unregister id = grind (arith, game-send_global)

  on-unregister : (id : Uuid) → (unregister id c s).1.game.is_started ≡ s.game.is_started
  unfolding unregister ignore ◌>>=◌
  on-unregister id = grind (arith, game-send_global)

  host-shutdown : (shutdown c s).1.game.partial_host ≡ s.game.partial_host
  unfolding shutdown check_host lift ◌>>=◌
  host-shutdown = ground arith

  on-shutdown : (shutdown c s).1.game.is_started ≡ s.game.is_started
  unfolding shutdown check_host lift ◌>>=◌
  on-shutdown = ground arith

  started-start : (n : ℕ) → s.game.is_started ≡ true → (start n c s).1 ≡ s
  unfolding start check_host ◌>>=◌
  started-start n on = ground arith

mark-insert :
    (m : HashMap Bool) (i k : ℕ) → mark (get m k) ≡ true → mark (get (insert m i true) k) ≡ true
mark-insert m i k h = elim (Bool-cases (i == k)) [
  | inl hit ↦ rw (get-insert, hit) refl
  | inr miss ↦ rw (get-insert, miss) h
]

same_host :
    (k : ℕ) (g g' : Game)
    → g'.partial_host ≡ g.partial_host
    → g'.is_started ≡ g.is_started
    → HasDone k g
    → HasDone k g'
same_host k g g' host on h = record { on = rw on h.on; done = rw host h.done }

call-HasDone :
    (k : ℕ) (call : Call) (c : Context) (s : GameState)
    → IsValid s.game
    → HasDone k s.game
    → HasDone k (game_after call c s)
call-HasDone k (to_register p) c s v h =
    same_host k s.game (register p c s).1.game (host-register c s p) (on-register c s p) h
call-HasDone k (to_unregister id) c s v h =
    same_host k s.game (unregister id c s).1.game (host-unregister c s id) (on-unregister c s id) h
call-HasDone k to_shutdown c s v h =
    same_host k s.game (shutdown c s).1.game (host-shutdown c s) (on-shutdown c s) h
call-HasDone k (to_start n) c s v h = rw (game_after, started-start c s n h.on) h
call-HasDone k (to_prepare i) c s v h = rw (game_after, self-prepare c s i) h
call-HasDone k (to_validate id i code result) c s v h =
    elim (validate_code_test-ends id i c s code result v) [
      | inl same ↦ rw same h
      | inr r ↦
          rw r.credited (record { on = h.on; done = mark-insert r.table i k (rw r.kept at h.done) })
    ]

play-HasDone :
    (k : ℕ) (turns : List Turn) (g : Game)
    → AllProper turns
    → IsValid g
    → HasDone k g
    → HasDone k (play turns g)
play-HasDone k [] g proper v h = h
play-HasDone k ((c, w, call) ∷ turns) g proper v h =
    let s : GameState = record { game = g; world = w } in
    play-HasDone k turns (game_after call c s) proper.1 (call-IsValid call c s proper.0 v)
      (call-HasDone k call c s v h)

-- A task that the host's table says is done stays done, whatever methods are called on the valid game, in
-- whatever order and whatever happens elsewhere in between, and the game stays started. The game has
-- started, and those who register have a channel where they are local, and no table.
pub play-is_done_by :
    (k : ℕ) (turns : List Turn) (g : Game)
    → AllProper turns
    → IsValid g
    → g.is_started ≡ true
    → is_done_by g.partial_host k ≡ true
    → (is_done_by (play turns g).partial_host k ≡ true) × ((play turns g).is_started ≡ true)
play-is_done_by k turns g proper v on done =
    let h = play-HasDone k turns g proper v (record { on = on; done = done }) in (h.done, h.on)
