-- ===== src/Sound/Owned.antt =====
-- The methods of a game keep it valid and its player's own.
use grass.Prelude.{ℕ, String, ◌≡◌, refl, arith, ◌∙◌, ap, inl, inr}
use grass.Models.Task.{Uuid}
use grass.State.{Game, GameState, PartialClient, Context, SandboxResponse}
use grass.Exec.{◌>>=◌, ignore, map_err}
use grass.Exec.Sockets.{lift}
use grass.Game.Messages.{check_host, get_task_indexed}
use grass.Game.Delivery.{IsWired}
use grass.Game.Invariant.{IsValid}
use grass.Game.Members.{register, unregister, shutdown}
use grass.Game.Start.{start}
use grass.Game.CodeTest.{find_task, prepare_code_test, validate_code_test}
use grass.Game.Steps.{game-send_global, start-IsValid, unregister-IsValid, register-IsValid}
use grass.Game.CodeTest.Ends.{validate_code_test-ends}
use grass.Sound.{OwnGame}
use grass.Sound.Rules.{KeepsGame}

module _ (c : Context) (s : GameState) where
  self-register :
      (p : PartialClient) → (register p c s).1.game.partial_client ≡ s.game.partial_client
  unfolding register ignore lift ◌>>=◌
  self-register p = grind (arith, game-send_global)

  self-unregister : (id : Uuid) → (unregister id c s).1.game.partial_client ≡ s.game.partial_client
  unfolding unregister ignore ◌>>=◌
  self-unregister id = grind (arith, game-send_global)

  self-start : (n : ℕ) → (start n c s).1.game.partial_client ≡ s.game.partial_client
  unfolding start check_host ignore ◌>>=◌
  self-start n = grind (arith, game-send_global)

  self-shutdown : (shutdown c s).1.game.partial_client ≡ s.game.partial_client
  unfolding shutdown check_host lift ◌>>=◌
  self-shutdown = ground arith

  pub self-prepare : (i : ℕ) → (prepare_code_test i c s).1.game ≡ s.game
  unfolding prepare_code_test check_host find_task get_task_indexed map_err ◌>>=◌
  self-prepare i = ground arith

-- A validation may only put a player with a channel in the host's place.
pub validate_code_test-own :
    (id : Uuid) (i : ℕ) (code : String) (result : SandboxResponse) (c : Context) (s : GameState)
    → IsValid s.game
    → IsValid (validate_code_test id i code result c s).1.game
      × ((validate_code_test id i code result c s).1.game.partial_client ≡ s.game.partial_client)
validate_code_test-own id i code result c s v =
    elim (validate_code_test-ends id i c s code result v) [
      | inl same ↦ rw same (v, refl)
      | inr done ↦ rw (done.credited) (
        record {
          hosting = v.hosting;
          host_wired = v.host_wired;
          self_wired = v.self_wired;
          members = v.members;
          closed = v.closed;
        },
        refl,
      )
    ]

module _ {id : Uuid} {g h : Game} where
  own_again : OwnGame id g → IsValid h → h.partial_client ≡ g.partial_client → OwnGame id h
  own_again o v e = record { valid = v; own = ap (λ (p : PartialClient). p.id) e ∙ o.own }

pub start-KeepsGame : (n : ℕ) → KeepsGame (start n)
start-KeepsGame n = record {
  at = λ c s id o. own_again o (start-IsValid c s o.valid n) (self-start c s n);
}

pub unregister-KeepsGame : (x : Uuid) → KeepsGame (unregister x)
unregister-KeepsGame x = record {
  at = λ c s id o. own_again o (unregister-IsValid c s o.valid x) (self-unregister c s x);
}

pub register-KeepsGame : (p : PartialClient) → IsWired p → KeepsGame (register p)
register-KeepsGame p wired = record {
  at = λ c s id o. own_again o (register-IsValid c s o.valid p wired) (self-register c s p);
}

pub prepare_code_test-KeepsGame : (i : ℕ) → KeepsGame (prepare_code_test i)
prepare_code_test-KeepsGame i = record { at = λ c s id o. rw (self-prepare c s i) o }

pub validate_code_test-KeepsGame :
    (x : Uuid) (i : ℕ) (code : String) (result : SandboxResponse)
    → KeepsGame (validate_code_test x i code result)
validate_code_test-KeepsGame x i code result = record {
  at = λ c s id o.
      let (v, same) = validate_code_test-own x i code result c s o.valid in own_again o v same;
}
