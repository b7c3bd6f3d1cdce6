-- ===== src/Playing/Refines.antt =====
-- The methods of a host's game do to it what the calls do to its room.
use grass.Prelude.{
  ℕ, String, ◌≡◌, refl, sym, ap, fun_ext, ◌∙◌, Bool, true, false, none, some, List, [], ◌∷◌, ◌==◌,
  ◌&&◌, ◌||◌, not, is_some, length, get_elem?, arith, Bool-cases, Option-cases, inl, inr,
}
use grass.Prelude.HashMap.{HashMap, get}
use grass.Models.Task.{Uuid, GameTask}
use grass.State.{Context, Game, GameState, PartialClient, SandboxResponse}
use grass.Game.Delivery.{IsWired}
use grass.Game.Invariant.{IsValid}
use grass.Game.Messages.{new_game}
use grass.Game.Members.Laws.{register_lem, register_refused}
use grass.Game.Progress.{with_progress}
use grass.Game.Start.Laws.{chosen, start_lem, start_again, start_short}
use grass.Game.Steps.{unregister-host, shutdown-host}
use grass.Game.Tables.{IsTracked}
use grass.Game.CodeTest.{validate_code_test, finish_task}
use grass.Game.CodeTest.Accepts.{task_accepts, validate_code_test-refused, task_accepts-passes}
use grass.Game.CodeTest.Ends.{validate_code_test-ends}
use grass.Game.CodeTest.Record.{validate_code_test-accepts, credit_host}
use grass.Sound.Owned.{self-prepare}
use grass.Playing.{
  Call, to_register, to_unregister, to_shutdown, to_start, to_prepare, to_validate, IsProper,
  AllProper, Turn, game_after, play, call-IsValid, call-IsTracked, new-IsValid, new-IsTracked,
}
use grass.Playing.Marks.{is_done_by, fresh_undone}
use grass.Playing.Room.Laws.{
  has_client-insert, has_client-remove, nobody, admitted-open, admitted-shut, begun-again,
  begun-enough, begun-few, credited-accepted, credited-idle, has_client-all_with_progress,
  credited-refused, is_done_by-finish_task,
}
use grass.Playing.Room.{Room, room, has_client, credited, act, acts, empty_room}

-- The game is still its host's, and its room is as the call should make it.
record Refined (call : Call) (c : Context) (s : GameState) : Type 0 where
  host : (game_after call c s).is_host ≡ true
  same : room (game_after call c s) ≡ act call c (room s.game)

module _ (c : Context) (s : GameState) (host : s.game.is_host ≡ true) (v : IsValid s.game)
    (m : HashMap PartialClient) (some_m : s.game.connected_clients ≡ some m) where
  register-Refined : (p : PartialClient) → IsWired p → Refined (to_register p) c s
  register-Refined p wired = elim (Bool-cases s.game.public) [
    | inl open_ ↦
        let e = ap (λ x. x.1.game) (register_lem p c s m v host open_ some_m wired) in
        record {
          host = ap (λ g. g.is_host) e ∙ host;
          same =
              ap room e
              ∙ ap (λ f. record (room s.game) { members = f })
                  (has_client-insert m p.id p
                    ∙ sym (ap (λ o j. p.id == j || has_client o j) some_m))
              ∙ sym (admitted-open p.id (room s.game) open_);
        }
    | inr shut ↦
        let e = ap (λ x. x.1.game) (register_refused p c s (rw (host, shut))) in
        record {
          host = ap (λ g. g.is_host) e ∙ host;
          same = ap room e ∙ sym (admitted-shut p.id (room s.game) shut);
        }
  ]

  unregister-Refined : (id : Uuid) → Refined (to_unregister id) c s
  unregister-Refined id =
      let e = unregister-host c s m host some_m id in
      record {
        host = ap (λ g. g.is_host) e ∙ host;
        same =
            ap room e
            ∙ ap (λ f. record (room s.game) { members = f })
                (has_client-remove m id ∙ sym (ap (λ o j. not (id == j) && has_client o j) some_m));
      }

  shutdown-Refined : Refined to_shutdown c s
  shutdown-Refined =
      let e = shutdown-host c s m host some_m v in
      record {
        host = ap (λ g. g.is_host) e ∙ host;
        same = ap room e ∙ ap (λ f. record (room s.game) { members = f; is_over = true }) nobody;
      }

  abbrev played_room : List GameTask → (Uuid → Bool) → (ℕ → Bool) → Room
  played_room tasks members done = record (room s.game) {
    members = members;
    is_open = false;
    is_started = true;
    is_played = true;
    tasks = tasks;
    done = done;
  }

  start-Refined : (n : ℕ) → Refined (to_start n) c s
  start-Refined n = elim (Bool-cases s.game.is_started) [
    | inl on ↦
        let e = ap (λ x. x.1.game) (start_again n c s host on) in
        record {
          host = ap (λ g. g.is_host) e ∙ host;
          same = ap room e ∙ sym (begun-again n (chosen c n) (room s.game) on);
        }
    | inr idle ↦ elim (Bool-cases (length (chosen c n) == n)) [
      | inl enough ↦
          let e = ap (λ x. x.1.game) (start_lem n c s host m v idle some_m (ground arith)) in
          record {
            host = ap (λ g. g.is_host) e ∙ host;
            same =
                ap room e
                ∙ (ap
                      (λ f.
                        played_room (chosen c n) f
                          (is_done_by (with_progress (chosen c n) s.game.partial_host)))
                      (has_client-all_with_progress (chosen c n) m ∙ sym (ap has_client some_m))
                    ∙ ap (played_room (chosen c n) (has_client s.game.connected_clients))
                        (fun_ext (λ i. fresh_undone (chosen c n) i s.game.partial_host))
                    ∙ sym (begun-enough n (chosen c n) (room s.game) idle enough));
          }
      | inr few ↦
          let e = ap (λ x. x.1.game) (start_short n c s host idle (ground arith)) in
          record {
            host = ap (λ g. g.is_host) e ∙ host;
            same = ap room e ∙ sym (begun-few n (chosen c n) (room s.game) idle few);
          }
    ]
  ]

module _ (id : Uuid) (i : ℕ) (code : String) (result : SandboxResponse) (c : Context)
    (s : GameState) (host : s.game.is_host ≡ true) (v : IsValid s.game) (m : HashMap PartialClient)
    (some_m : s.game.connected_clients ≡ some m) where
  unplayed :
      s.game.partial_host.task_progress ≡ none
      → (validate_code_test id i code result c s).1.game ≡ s.game
  unplayed idle = elim (validate_code_test-ends id i c s code result v) [
    | inl same ↦ same
    | inr r ↦ let kept = r.kept in absurd (ground arith)
  ]

  accepted :
      (table : HashMap Bool)
      → s.game.is_started ≡ true
      → s.game.partial_host.task_progress ≡ some table
      → task_accepts c id code result (get_elem? s.game.tasks i) ≡ true
      → (validate_code_test id i code result c s).1.game ≡ credit_host i table s.game
  accepted table on kept passes = elim (Option-cases (get_elem? s.game.tasks i)) [
    | inl out ↦ absurd (ground arith)
    | inr (t, at) ↦
        let (ran, agree, private) = task_accepts-passes c id code result t (rw at at passes) in
        ap (λ x. x.1.game)
          (validate_code_test-accepts id i t c s m table code result v host on at some_m kept ran
            agree private)
  ]

  room-credit_host :
      (table : HashMap Bool)
      → s.game.partial_host.task_progress ≡ some table
      → room (credit_host i table s.game)
        ≡ record (room s.game) { done = λ k. i == k || is_done_by s.game.partial_host k }
  room-credit_host table kept =
      let p = s.game.partial_host in
      ap (λ b. record (room s.game) { is_played = b; done = is_done_by (finish_task i table p) })
        (sym (ap is_some kept))
      ∙ ap (λ f. record (room s.game) { done = f }) (is_done_by-finish_task i table p kept)

  validate-Refined : IsTracked s.game → Refined (to_validate id i code result) c s
  validate-Refined tracked =
      let started_of : (table : HashMap Bool)
          → s.game.partial_host.task_progress ≡ some table
          → s.game.is_started ≡ true =
        λ table kept. elim (Bool-cases s.game.is_started) [
          | inl on ↦ on
          | inr off ↦ let idle = tracked.host_blank off in absurd (ground arith)
        ] in
      elim (Bool-cases (task_accepts c id code result (get_elem? s.game.tasks i))) [
        | inr fails ↦
            let e = ap (λ x. x.game) (validate_code_test-refused id i code result c s host fails) in
            record {
              host = ap (λ g. g.is_host) e ∙ host;
              same =
                  ap room e
                  ∙ sym (
                      ap (λ b. credited i b (room s.game)) fails
                      ∙ credited-refused i (room s.game));
            }
        | inl passes ↦ elim (Option-cases s.game.partial_host.task_progress) [
          | inl idle ↦
              let e = unplayed idle in
              record {
                host = ap (λ g. g.is_host) e ∙ host;
                same = ap room e ∙ sym (credited-idle i _ (room s.game) (ap is_some idle));
              }
          | inr (table, kept) ↦
              let e = accepted table (started_of table kept) kept passes in
              record {
                host = ap (λ g. g.is_host) e ∙ host;
                same =
                    ap room e
                    ∙ room-credit_host table kept
                    ∙ sym (
                        ap (λ b. credited i b (room s.game)) passes
                        ∙ credited-accepted i (room s.game) (ap is_some kept));
              }
        ]
      ]

module _ (c : Context) (s : GameState) (host : s.game.is_host ≡ true) (v : IsValid s.game) where
  clients_of : (m : HashMap PartialClient) × (s.game.connected_clients ≡ some m)
  clients_of = elim (Option-cases s.game.connected_clients) [
    | inl lost ↦ absurd (ground (arith, v.hosting))
    | inr found ↦ found
  ]

  call-Refined : (call : Call) → IsProper call → IsTracked s.game → Refined call c s
  call-Refined (to_register p) proper t =
      let (m, some_m) = clients_of in register-Refined c s host v m some_m p proper.0
  call-Refined (to_unregister id) proper t =
      let (m, some_m) = clients_of in unregister-Refined c s host v m some_m id
  call-Refined to_shutdown proper t =
      let (m, some_m) = clients_of in shutdown-Refined c s host v m some_m
  call-Refined (to_start n) proper t =
      let (m, some_m) = clients_of in start-Refined c s host v m some_m n
  call-Refined (to_prepare i) proper t =
      let e = self-prepare c s i in record { host = ap (λ g. g.is_host) e ∙ host; same = ap room e }
  call-Refined (to_validate id i code result) proper t =
      let (m, some_m) = clients_of in validate-Refined id i code result c s host v m some_m t

play-acts :
    (turns : List Turn) (g : Game)
    → AllProper turns
    → g.is_host ≡ true
    → IsValid g
    → IsTracked g
    → room (play turns g) ≡ acts turns (room g)
play-acts [] g proper host v t = refl
play-acts ((c, w, call) ∷ turns) g proper host v t =
    let s : GameState = record { game = g; world = w } in
    let step = call-Refined c s host v call proper.0 t in
    play-acts turns (game_after call c s) proper.1 step.host (call-IsValid call c s proper.0 v)
      (call-IsTracked call c s proper.0 v t)
    ∙ ap (acts turns) step.same

room-new_game :
    (id : String) (self : PartialClient)
    → self.task_progress ≡ none
    → room (new_game true id self self) ≡ empty_room
unfolding get
room-new_game id self blank = rw blank refl

-- A new game of a host, whatever methods are called on it and in whatever worlds, is as its room: who is in it, whether it
-- is open, started, played or over, which tasks it has and which of them the host has done follow from the calls
-- and from what the sandbox and the choice of tasks answer, and from nothing that happens to channels, to Redis or
-- to other sockets. The host and those who register have no table at first, and a channel where they are local.
pub play-room :
    (turns : List Turn) (id : String) (self : PartialClient)
    → AllProper turns
    → IsWired self
    → self.task_progress ≡ none
    → room (play turns (new_game true id self self)) ≡ acts turns empty_room
play-room turns id self proper wired blank =
    play-acts turns (new_game true id self self) proper refl (new-IsValid id self wired blank)
      (new-IsTracked id self wired blank)
    ∙ ap (acts turns) (room-new_game id self blank)
