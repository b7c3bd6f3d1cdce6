-- ===== src/Playing.antt =====
-- A game as it is played: calls of its methods, one after another, in whatever worlds they find.
pub mod Marks
pub mod Room
pub mod Refines
pub mod Order
use grass.Prelude.{ℕ, String, ◌≡◌, refl, true, none, some, List, [], ◌∷◌, All, ◌||◌, not}
use grass.Models.Task.{Uuid}
use grass.State.{Context, World, Game, GameState, PartialClient, SandboxResponse}
use grass.Game.Delivery.{IsWired}
use grass.Game.Invariant.{IsValid}
use grass.Game.Messages.{new_game}
use grass.Game.Members.{register, unregister, shutdown}
use grass.Game.Start.{start}
use grass.Game.CodeTest.{prepare_code_test, validate_code_test}
use grass.Game.Steps.{start-IsValid, register-IsValid, unregister-IsValid, shutdown-IsValid}
use grass.Game.Tables.{IsTracked}
use grass.Game.Tables.Steps.{
  start-IsTracked, register-IsTracked, unregister-IsTracked, shutdown-IsTracked,
}
use grass.Game.Tables.Submissions.{validate_code_test-IsTracked}
use grass.Sound.Owned.{validate_code_test-own, self-prepare}

-- The methods that the rest of the program calls on a game that stands in the map.
pub data Call : Type 0 where
  to_register : PartialClient → Call
  to_unregister : Uuid → Call
  to_shutdown : Call
  to_start : ℕ → Call
  to_prepare : ℕ → Call
  to_validate : Uuid → ℕ → String → SandboxResponse → Call

abbrev pub game_after : Call → Context → GameState → Game
game_after (to_register p) c s = (register p c s).1.game
game_after (to_unregister id) c s = (unregister id c s).1.game
game_after to_shutdown c s = (shutdown c s).1.game
game_after (to_start n) c s = (start n c s).1.game
game_after (to_prepare i) c s = (prepare_code_test i c s).1.game
game_after (to_validate id i code result) c s = (validate_code_test id i code result c s).1.game

-- A newcomer has a channel if it is local, and no table yet.
abbrev pub IsProper : Call → Type 0
IsProper (to_register p) = IsWired p × (p.task_progress ≡ none)
IsProper call = Unit

abbrev pub Turn : Type 0
Turn = Context × World × Call

abbrev pub play : List Turn → Game → Game
play [] g = g
play ((c, w, call) ∷ turns) g = play turns (game_after call c (record { game = g; world = w }))

abbrev pub AllProper : List Turn → Type 0
AllProper = All (λ t. IsProper t.2)

pub call-IsValid :
    (call : Call) (c : Context) (s : GameState)
    → IsProper call
    → IsValid s.game
    → IsValid (game_after call c s)
call-IsValid (to_register p) c s proper v = register-IsValid c s v p proper.0
call-IsValid (to_unregister id) c s proper v = unregister-IsValid c s v id
call-IsValid to_shutdown c s proper v = shutdown-IsValid c s v
call-IsValid (to_start n) c s proper v = start-IsValid c s v n
call-IsValid (to_prepare i) c s proper v = rw (game_after, self-prepare c s i) v
call-IsValid (to_validate id i code result) c s proper v =
    (validate_code_test-own id i code result c s v).0

pub call-IsTracked :
    (call : Call) (c : Context) (s : GameState)
    → IsProper call
    → IsValid s.game
    → IsTracked s.game
    → IsTracked (game_after call c s)
call-IsTracked (to_register p) c s proper v t = register-IsTracked c s v t p proper.0 proper.1
call-IsTracked (to_unregister id) c s proper v t = unregister-IsTracked c s v t id
call-IsTracked to_shutdown c s proper v t = shutdown-IsTracked c s v t
call-IsTracked (to_start n) c s proper v t = start-IsTracked c s v t n
call-IsTracked (to_prepare i) c s proper v t = rw (game_after, self-prepare c s i) t
call-IsTracked (to_validate id i code result) c s proper v t =
    validate_code_test-IsTracked id i code result c s v t

play_keeps :
    (turns : List Turn) (g : Game)
    → AllProper turns
    → IsValid g
    → IsTracked g
    → IsValid (play turns g) × IsTracked (play turns g)
play_keeps [] g proper v t = (v, t)
play_keeps ((c, w, call) ∷ turns) g proper v t =
    let s : GameState = record { game = g; world = w } in
    play_keeps turns (game_after call c s) proper.1 (call-IsValid call c s proper.0 v)
      (call-IsTracked call c s proper.0 v t)

module _ (id : String) (self : PartialClient) (wired : IsWired self)
    (blank : self.task_progress ≡ none) where
  pub new-IsValid : IsValid (new_game true id self self)
  new-IsValid = record {
    hosting = refl;
    host_wired = wired;
    self_wired = wired;
    members = tt;
    closed = refl;
  }

  pub new-IsTracked : IsTracked (new_game true id self self)
  new-IsTracked = record {
    host_table = rw blank tt;
    tables = tt;
    host_blank = λ idle. blank;
    blank = λ idle. tt;
  }

module _ (turns : List Turn) (id : String) (self : PartialClient) (wired : IsWired self)
    (blank : self.task_progress ≡ none) (proper : AllProper turns) where
  played :
      IsValid (play turns (new_game true id self self))
      × IsTracked (play turns (new_game true id self self))
  played =
      play_keeps turns (new_game true id self self) proper (new-IsValid id self wired blank)
        (new-IsTracked id self wired blank)

  -- A new game of a host that has a channel stays valid whatever methods are called on it, in whatever order
  -- and whatever happens elsewhere in between, if those who register have a channel where they are local,
  -- and no table yet.
  pub play-IsValid : IsValid (play turns (new_game true id self self))
  play-IsValid = played.0

  -- Whatever methods are called on it, in whatever order, each table of progress in a host's game has an
  -- entry for every index below the number of the game's tasks and for no other index, and there is no
  -- table before the game has started. The host and those who register have no table at first, and a
  -- channel where they are local.
  pub play-IsTracked : IsTracked (play turns (new_game true id self self))
  play-IsTracked = played.1
