-- ===== src/Waiting/Exact.antt =====
-- Exactly when leaving a game, a request to start it, or one for a task waits for ever on a lock of the map
-- of which its own task holds a guard.
use grass.Prelude.{
  String, ◌≡◌, refl, sym, ap, ◌∙◌, Bool, true, false, not, ◌&&◌, ◌==◌, Option, none, some, [],
  arith, inl, inr, Bool-cases, Option-cases, ==_refl,
}
use grass.Models.Task.{Uuid}
use grass.State.{Context, World, Game, SocketClient}
use grass.Exec.{deadlocked, unwrap, expect, ◌>>=◌}
use grass.Exec.Sockets.{with_get_mut, set_socket}
use grass.Exec.Ends.{is_deadlocked}
use grass.Client.{with_client_mut}
use grass.Game.Members.{drop_game}
use grass.Handlers.Play.{handle_leave, handle_start, handle_task, start_game, take_game}
use grass.Models.Request.{TaskRequest}
use grass.Handlers.Play.Tasks.{reads_again, request_waits, request_step}
use grass.Handlers.Play.Laws.{handle_leave-deadlocked}
use grass.Waiting.{is_droppable, IsFree, Always}
use grass.Waiting.Free.{game_droppable}
use grass.Waiting.Requests.{handle_leave_ends, handle_start_ends, Ends-host_task}

-- The game of the socket, if it has one, can be dropped under the guard of the socket.
abbrev pub can_drop : Context → Uuid → Option SocketClient → Bool
can_drop c id none = true
can_drop c id (some s) = game_droppable c.lock_of id s.game

-- A game that cannot be dropped is a guest's of a local host behind the same lock.
stuck_cases :
    (c : Context) (id : Uuid) (g : Game)
    → is_droppable c.lock_of id g ≡ false
    → (g.is_host ≡ false)
      × (g.partial_host.is_local ≡ true)
      × (c.lock_of g.partial_host.id ≡ c.lock_of id)
stuck_cases c id g stuck = (ground arith, ground arith, ground arith)

stuck_game :
    (c : Context) (id : Uuid) (o : Option SocketClient)
    → can_drop c id o ≡ false
    → (s : SocketClient) × (g : Game) × (o ≡ some s)
      × (s.game ≡ some g)
      × (is_droppable c.lock_of id g ≡ false)
stuck_game c id o stuck = elim (Option-cases o) [
  | inl away ↦ absurd (ground arith)
  | inr (s, here) ↦ elim (Option-cases s.game) [
    | inl idle ↦ absurd (ground arith)
    | inr (g, playing) ↦ (s, g, here, playing, sym (rw (here, playing) refl) ∙ stuck)
  ]
]

module _ (id : Uuid) (d : String) (r : TaskRequest) (c : Context) (w : World) (s : SocketClient)
    (g : Game) (unheld : c.held ≡ []) (here : w.sockets id ≡ some s) (playing : s.game ≡ some g)
    (parsed : c.serde.task_request d ≡ some r) where
  -- Where no guard is held, a client in a game that asks for a task waits for ever exactly when the socket of
  -- its host lies behind the lock of its own, as it does for the host itself, and another task waits to write
  -- at that lock. Guards that other tasks hold are not considered.
  pub handle_task-is_deadlocked :
      is_deadlocked (handle_task id (some d) c w).0
      ≡ (c.lock_of id == c.lock_of g.partial_host.id && c.queued (c.lock_of g.partial_host.id))
  handle_task-is_deadlocked =
      let again = reads_again id d r c w s g unheld here playing parsed in
      elim (Bool-cases again) [
        | inl stuck ↦
            ap (λ x. is_deadlocked x.0)
              (request_waits id d r c w s g unheld here playing parsed stuck)
            ∙ sym stuck
        | inr calm ↦
            ap (λ x. is_deadlocked x.0)
              (request_step id d r c w s g unheld here playing parsed calm)
            ∙ (Ends-host_task {R = Always} s r.task_index (w.sockets g.partial_host.id)).at _ w tt
            ∙ sym calm
      ]

module _ (id : Uuid) (c : Context) (w : World) (unheld : c.held ≡ []) where
  start-deadlocked :
      (d : Option String) (s : SocketClient) (g : Game)
      → w.sockets id ≡ some s
      → s.game ≡ some g
      → g.is_host ≡ false
      → g.partial_host.is_local ≡ true
      → c.lock_of g.partial_host.id ≡ c.lock_of id
      → (handle_start id d c w).0 ≡ deadlocked
  unfolding handle_start with_client_mut with_get_mut start_game take_game set_socket drop_game
      expect ◌>>=◌
  start-deadlocked d s g here playing guest near same =
      rw (unheld, here, unwrap, playing, guest, near, same, ==_refl) refl

  pub can_drop-IsFree : can_drop c id (w.sockets id) ≡ true → IsFree c.lock_of id w
  can_drop-IsFree ok_ s g here playing = sym (rw (here, playing) refl) ∙ ok_

  -- Where no guard is held, leaving a game waits for ever exactly when the socket has a game that cannot be dropped
  -- under the guard of the socket, a guest's whose host is local and lies behind the same lock; and a request to start
  -- a game, with any data, waits for ever in exactly the same cases.
  pub handle_leave-is_deadlocked :
      (d : Option String)
      → (is_deadlocked (handle_leave id c w).0 ≡ not (can_drop c id (w.sockets id)))
        × (is_deadlocked (handle_start id d c w).0 ≡ not (can_drop c id (w.sockets id)))
  handle_leave-is_deadlocked d = elim (Bool-cases (can_drop c id (w.sockets id))) [
    | inl free ↦ (
      handle_leave_ends id c w unheld (can_drop-IsFree free) ∙ ap not (sym free),
      handle_start_ends id c w unheld (can_drop-IsFree free) d ∙ ap not (sym free),
    )
    | inr stuck ↦
        let (s, g, here, playing, fixed) = stuck_game c id (w.sockets id) stuck in
        let (guest, near, same) = stuck_cases c id g fixed in
        (
          ap is_deadlocked (handle_leave-deadlocked id c w s g unheld here playing guest near same)
              ∙ ap not (sym stuck),
          ap is_deadlocked (start-deadlocked d s g here playing guest near same)
              ∙ ap not (sym stuck),
        )
  ]
