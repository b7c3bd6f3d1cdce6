-- ===== src/Game/Steps.antt =====
-- Every method keeps the invariant of its game, however it ends.
use grass.Prelude.{
  ℕ, ◌≡◌, refl, true, false, Option, none, some, List, [], ◌∷◌, arith, All, sym, ◌⊎◌, Option-cases,
  Bool-cases, length, ◌==◌, inl, inr,
}
use grass.Prelude.HashMap.{HashMap, insert, remove}
use grass.Models.Task.{Uuid, GameTask}
use grass.Models.Response.{DefaultModel}
use grass.Models.Default.{Payload}
use grass.State.{Game, GameState, PartialClient, Context}
use grass.Exec.{◌>>=◌, ignore}
use grass.Exec.Sockets.{lift}
use grass.Game.Messages.{check_host, send_global}
use grass.Game.Progress.{all_with_progress}
use grass.Game.Delivery.{IsWired}
use grass.Game.Invariant.{IsValid, IsMember, IsValid-IsWired, All-insert, All-remove}
use grass.Game.Members.{register, unregister, shutdown}
use grass.Game.Members.Laws.{with_clients, dismiss-dismiss_all, register_lem, register_refused}
use grass.Game.Start.Laws.{chosen, opened, started, start_lem, start_again, start_short}
use grass.Game.Start.{start}
use grass.Models.Default.{event}
use grass.Models.Event.{Event}

module _ (g : Game) (v : IsValid g) (host : g.is_host ≡ true) where
  pub with_clients-IsValid :
      (m : HashMap PartialClient) → All IsMember m → IsValid (with_clients m g)
  with_clients-IsValid m h = record {
    hosting = sym host;
    host_wired = v.host_wired;
    self_wired = v.self_wired;
    members = h;
    closed = v.closed;
  }

pub members_at :
    (g : Game) (m : HashMap PartialClient)
    → IsValid g
    → g.connected_clients ≡ some m
    → (g.is_host ≡ true) × All IsMember m
members_at g m v e = (ground (arith, v.hosting), rw e at v.members)

module _ (c : Context) (s : GameState) where
  pub game-send_global :
      (m : DefaultModel Payload) (skip : Option (List Uuid))
      → (send_global m skip c s).1.game ≡ s.game
  unfolding send_global check_host lift ◌>>=◌
  game-send_global m skip = ground arith

  pub unregister-guest : (id : Uuid) → s.game.is_host ≡ false → (unregister id c s).1.game ≡ s.game
  unfolding unregister ◌>>=◌
  unregister-guest id h = ground arith

  pub register-guest :
      (p : PartialClient) → s.game.is_host ≡ false → (register p c s).1.game ≡ s.game
  unfolding register ◌>>=◌
  register-guest p h = ground arith

  pub start-guest : (n : ℕ) → s.game.is_host ≡ false → (start n c s).1.game ≡ s.game
  unfolding start check_host ◌>>=◌
  start-guest n h = ground arith

  pub shutdown-guest : s.game.is_host ≡ false → (shutdown c s).1.game ≡ s.game
  unfolding shutdown check_host ◌>>=◌
  shutdown-guest h = ground arith

module _ (c : Context) (s : GameState) (m : HashMap PartialClient) (host : s.game.is_host ≡ true)
    (some_m : s.game.connected_clients ≡ some m) where
  pub unregister-host : (id : Uuid) → (unregister id c s).1.game ≡ with_clients (remove m id) s.game
  unfolding unregister ignore ◌>>=◌
  unregister-host id = ground (
    arith,
    game-send_global c (record s { game = with_clients (remove m id) s.game })
        (event (Event.disconnected_client s.game.game_id id)) none,
  )

  pub shutdown-host :
      IsValid s.game → (shutdown c s).1.game ≡ record (with_clients [] s.game) { shutdown = true }
  unfolding shutdown check_host lift ◌>>=◌
  shutdown-host v = ground (arith, dismiss-dismiss_all m c s.world (IsValid-IsWired v some_m))

  pub start-host :
      (n : ℕ)
      → IsValid s.game
      → ((start n c s).1.game ≡ s.game)
        ⊎ ((start n c s).1.game ≡ opened c n s.game)
        ⊎ ((start n c s).1.game ≡ started c n m s.game)
  start-host n v = elim (Bool-cases s.game.is_started) [
    | inl on ↦ inl (rw (start_again n c s host on))
    | inr idle ↦ elim (Bool-cases (length (chosen c n) == n)) [
      | inl enough ↦ inr (inr (rw (start_lem n c s host m v idle some_m (ground arith))))
      | inr few ↦ inr (inl (rw (start_short n c s host idle (ground arith))))
    ]
  ]

pub all_with_progress-members :
    (tasks : List GameTask) (m : HashMap PartialClient)
    → All IsMember m
    → All IsMember (all_with_progress tasks m)
all_with_progress-members tasks [] h = tt
all_with_progress-members tasks ((k, p) ∷ m) h = (h.0, all_with_progress-members tasks m h.1)

module _ (c : Context) (s : GameState) (v : IsValid s.game) where
  -- However a start of a valid game ends, the game is valid after it.
  pub start-IsValid : (n : ℕ) → IsValid (start n c s).1.game
  start-IsValid n = elim (Option-cases s.game.connected_clients) [
    | inl lost ↦ rw (start-guest c s n (ground (arith, v.hosting))) v
    | inr (m, some_m) ↦
        let (host, members) = members_at s.game m v some_m in
        elim (start-host c s m host some_m n v) [
          | inl same ↦ rw same v
          | inr (inl short) ↦ rw short (record {
            hosting = v.hosting;
            host_wired = v.host_wired;
            self_wired = v.self_wired;
            members = v.members;
            closed = refl;
          })
          | inr (inr done) ↦ rw done (record {
            hosting = sym host;
            host_wired = v.host_wired;
            self_wired = v.self_wired;
            members = all_with_progress-members (chosen c n) m members;
            closed = refl;
          })
        ]
  ]

  -- However the removal of a player from a valid game ends, the game is valid after it.
  pub unregister-IsValid : (id : Uuid) → IsValid (unregister id c s).1.game
  unregister-IsValid id = elim (Option-cases s.game.connected_clients) [
    | inl lost ↦ rw (unregister-guest c s id (ground (arith, v.hosting))) v
    | inr (m, some_m) ↦
        let (host, members) = members_at s.game m v some_m in
        rw (unregister-host c s m host some_m id)
          (with_clients-IsValid s.game v host (remove m id) (All-remove IsMember m id members))
  ]

  -- However a shutdown of a valid game ends, the game is valid after it.
  pub shutdown-IsValid : IsValid (shutdown c s).1.game
  shutdown-IsValid = elim (Option-cases s.game.connected_clients) [
    | inl lost ↦ rw (shutdown-guest c s (ground (arith, v.hosting))) v
    | inr (m, some_m) ↦
        let (host, members) = members_at s.game m v some_m in
        let w = with_clients-IsValid s.game v host [] tt in
        rw (shutdown-host c s m host some_m v) (record {
          hosting = w.hosting;
          host_wired = w.host_wired;
          self_wired = w.self_wired;
          members = w.members;
          closed = w.closed;
        })
  ]

  -- A registration of a player who has a channel if it is local keeps a valid game valid, however it ends.
  pub register-IsValid : (p : PartialClient) → IsWired p → IsValid (register p c s).1.game
  register-IsValid p wired = elim (Option-cases s.game.connected_clients) [
    | inl lost ↦ rw (register-guest c s p (ground (arith, v.hosting))) v
    | inr (m, some_m) ↦
        let (host, members) = members_at s.game m v some_m in
        elim (Bool-cases s.game.public) [
          | inl open_ ↦ rw (register_lem p c s m v host open_ some_m wired) (
              with_clients-IsValid s.game v host (insert m p.id p)
                (All-insert IsMember m p.id p members (refl, wired)))
          | inr shut ↦ rw (register_refused p c s (rw (host, shut))) v
        ]
  ]
