-- ===== src/Service/Running/Laws.antt =====
-- How a run ends.
use grass.Prelude.{
  ℕ, zero, suc, String, ◌≡◌, refl, ◌∙◌, ap, true, Option, none, some, List, [], ◌∷◌, ◌++◌, map, ltb,
  if◌then◌else◌, arith,
}
use grass.Service.{Poll, ready, pending, Ending, normal, finish_run}
use grass.Service.Drive.{drive}
use grass.Service.Either.{drive_select-either, either, first_answer}
use grass.Service.Setup.{Service, Platform}
use grass.Service.Middleware.{MiddlewareManager}
use grass.Service.Running.{
  Joined, finished, Arrival, connected, refused, waiting, Server, accept_loop, poll_server,
  server_task, Published, published, quiet, Subscriber, subscription, poll_subscriber,
  presence_task, error_channel, finish_poll, finish_select, listen, subscribe, taken, run,
}

-- The error channel is as `Service::new` makes it: its receiver is there, its sender is held, and nothing
-- has been sent.
pub record IsArmed (s : Service) : Type 0 where
  pub receiver : s.error_receiver ≡ some tt
  pub sender : s.error_sender ≡ some tt
  pub unsent : s.sent ≡ none

-- Both tasks are waited for, and the first end of either is a normal end.
abbrev pub closing : Poll Joined → Poll Joined → Poll Ending
closing (ready x) q = ready normal
closing pending (ready y) = ready normal
closing pending pending = pending

finish_poll-either : (p q : Poll Joined) → finish_poll (either p q) ≡ closing p q
unfolding finish_run
finish_poll-either (ready x) q = refl
finish_poll-either pending (ready y) = refl
finish_poll-either pending pending = refl

-- The receiver of a oneshot channel waits while nothing has been sent and the sender is held.
abbrev pub Waits : Platform → Type 0
Waits p = p.poll_receiver none true ≡ pending

error_channel-taken :
    (p : Platform) (s : Service)
    → Waits p
    → IsArmed s
    → (error_channel p).poll (taken s) ≡ (pending, taken s)
error_channel-taken p s wait armed = rw (armed.unsent, armed.sender, wait) refl

module _ (E : Type 0) (p : Platform) (m : MiddlewareManager E) (n : ℕ) (arrivals : List Arrival)
    (events : List Published) (s : Service) where
  -- A run of a service whose error channel is as it was made ends normally once the listener's task or
  -- the reader's has ended, in whatever way, and goes on until then: it does not panic, and it ends
  -- neither with an error nor by leaving the process. A receiver waits while its sender is held.
  pub run_lem :
      Waits p
      → IsArmed s
      → (run p m n arrivals events s).0
        ≡ some (
            closing
              (drive server_task n (listen p s arrivals))
              (drive presence_task n (subscribe p s events)))
  unfolding run
  run_lem wait armed =
      let a = listen p s arrivals in
      let b = subscribe p s events in
      let selected =
        drive_select-either server_task presence_task (error_channel p) n a b (taken s)
          (error_channel-taken p s wait armed) in
      rw armed.receiver (
        ap (λ x. finish_select x) selected
        ∙ ap some (finish_poll-either (drive server_task n a) (drive presence_task n b)))

-- A listener to which this comes before its first error.
abbrev pub arrival : Option String → Arrival
arrival none = waiting
arrival (some addr) = connected addr

abbrev pub waits : List (Option String) → ℕ
waits [] = 0
waits (none ∷ rest) = suc (waits rest)
waits (some addr ∷ rest) = waits rest

abbrev failing : List (Option String) → List Arrival → List String → Server
failing calm rest done = record {
  bindable = true;
  arrivals = map arrival calm ++ refused ∷ rest;
  spawned = done;
}

abbrev fails_at : ℕ → ℕ → Poll Joined
fails_at k n = if ltb k n then ready finished else pending

module _ (rest : List Arrival) where
  awaited :
      (n : ℕ)
      → ((calm : List (Option String)) (done : List String)
          → drive server_task n (failing calm rest done) ≡ fails_at (waits calm) n)
      → (calm : List (Option String)) (done : List String)
      → first_answer server_task n (accept_loop done (map arrival calm ++ refused ∷ rest))
        ≡ fails_at (waits calm) (suc n)
  unfolding accept_loop
  awaited n ih [] done = ground arith
  awaited n ih (some addr ∷ calm) done = awaited n ih calm (done ++ addr ∷ [])
  awaited n ih (none ∷ calm) done = ground (arith, ih calm done)

  drive-failing :
      (n : ℕ) (calm : List (Option String)) (done : List String)
      → drive server_task n (failing calm rest done) ≡ fails_at (waits calm) n
  unfolding drive poll_server
  drive-failing zero calm done = ground arith
  drive-failing (suc n) calm done = awaited n (drive-failing n) calm done

-- What a subscription brings that is never lost.
abbrev pub event : Option String → Published
event none = quiet
event (some m) = published m

abbrev lasting : List (Option String) → Subscriber
lasting events = record { connects = true; events = map event events }

subscribed :
    (n : ℕ)
    → ((events : List (Option String)) → drive presence_task n (lasting events) ≡ pending)
    → (events : List (Option String))
    → first_answer presence_task n (subscription (map event events)) ≡ pending
unfolding subscription
subscribed n ih [] = ih []
subscribed n ih (none ∷ events) = ih events
subscribed n ih (some m ∷ events) = subscribed n ih events

pub drive-lasting :
    (n : ℕ) (events : List (Option String)) → drive presence_task n (lasting events) ≡ pending
unfolding drive poll_subscriber
drive-lasting zero events = refl
drive-lasting (suc n) events = subscribed n (drive-lasting n) events

-- A run of a service whose address can be bound and whose subscription lasts ends, and ends normally, at
-- the poll in which the first accept fails: with as many polls before it as the listener has had to wait,
-- whoever has connected by then, and not before. The error channel is as it was made, and its receiver waits while its sender is held.
pub run-refused :
    (E : Type 0) (p : Platform) (m : MiddlewareManager E) (n : ℕ) (calm : List (Option String))
    (rest : List Arrival) (events : List (Option String)) (s : Service)
    → Waits p
    → IsArmed s
    → p.is_bindable s.host_addr ≡ true
    → p.is_redis_addr s.redis_addr ≡ true
    → p.is_reachable s.redis_addr ≡ true
    → (run p m n (map arrival calm ++ refused ∷ rest) (map event events) s).0
      ≡ some (if ltb (waits calm) n then ready normal else pending)
run-refused E p m n calm rest events s wait armed bindable well_formed reachable =
    run_lem E p m n (map arrival calm ++ refused ∷ rest) (map event events) s wait armed
    ∙ rw (bindable, well_formed, reachable, drive-failing rest n calm [], drive-lasting n events)
        (ground arith)
