-- ===== src/Handlers/Hosting.antt =====
-- The host's socket with another game in it, as the handlers leave it that work on the host's game
-- (src/service/websocket/client/game/models/request.rs).
use grass.Prelude.{ℕ, ◌≡◌, refl, sym, ap, fun_ext, ◌∙◌, some, Bool-cases, inl, inr, ==_iff, ◌==◌}
use grass.Models.Task.{Uuid}
use grass.State.{World, SocketClient, Game, update}

pub update-same : {V : Type 0} (f : ℕ → V) (k : ℕ) {v : V} → f k ≡ v → update f k v ≡ f
update-same f k {v} e = fun_ext (λ j. elim (Bool-cases (k == j)) [
  | inl hit ↦ rw hit (sym e ∙ ap f ((==_iff k j).0 hit))
  | inr miss ↦ rw miss refl
])

-- The host's socket with another game in it.
abbrev pub with_host_game : Uuid → SocketClient → Game → World → World
with_host_game host_id h g w = record w {
  sockets = update w.sockets host_id (some (record h { game = some g }));
}

pub with_host_game-same :
    (host_id : Uuid) (h : SocketClient) (g : Game) (w : World)
    → w.sockets host_id ≡ some h
    → h.game ≡ some g
    → with_host_game host_id h g w ≡ w
with_host_game-same host_id h g w here hosts =
    ap (λ f. record w { sockets = f })
      (update-same w.sockets host_id (here ∙ ap (λ x. some (record h { game = x })) hosts))
