-- ===== src/Service/Running.antt =====
-- `Service::run` (src/service.rs): the task that listens, the one that reads from Redis, and the selection
-- that waits for the first of them to end, or for a critical error. The tasks and the selection are polled
-- again and again; what has come in by then is a list.
pub mod Laws
use grass.Prelude.{
  ℕ, String, Bool, true, false, Option, none, some, List, [], ◌∷◌, ◌++◌, is_some, ◌&&◌,
  if◌then◌else◌,
}
use grass.Service.{
  Poll, ready, pending, Future, Received, received, canceled, Ending, finish_run, select,
}
use grass.Service.Drive.{drive_select}
use grass.Service.Setup.{Service, Platform}
use grass.Service.Middleware.{MiddlewareManager}

-- How a spawned task ends, for the one that waits for it.
pub data Joined : Type 0 where
  finished : Joined
  task_panicked : Joined

-- What `listener.accept().await` gives: the peer of a new connection, an error, or nothing yet.
pub data Arrival : Type 0 where
  connected : String → Arrival
  refused : Arrival
  waiting : Arrival

-- The listener's task: whether its address can be bound, what arrives, and the peers for which a task
-- that runs `accept_connection` has been spawned, in order.
pub record Server : Type 0 where
  pub bindable : Bool
  pub arrivals : List Arrival
  pub spawned : List String

-- `while let Ok((stream, _)) = listener.accept().await`, up to where it waits or ends.
unfoldable pub accept_loop : List String → List Arrival → Poll Joined × Server
accept_loop done [] = (pending, record { bindable = true; arrivals = []; spawned = done })
accept_loop done (connected addr ∷ rest) = accept_loop (done ++ addr ∷ []) rest
accept_loop done (refused ∷ rest) =
    (ready finished, record { bindable = true; arrivals = rest; spawned = done })
accept_loop done (waiting ∷ rest) =
    (pending, record { bindable = true; arrivals = rest; spawned = done })

unfoldable pub poll_server : Server → Poll Joined × Server
poll_server s = if s.bindable then accept_loop s.spawned s.arrivals else (ready task_panicked, s)

abbrev pub server_task : Future Server Joined
server_task = record { poll = poll_server }

-- What a subscription to Redis brings: a message, the loss of the connection, or nothing yet.
pub data Published : Type 0 where
  published : String → Published
  lost : Published
  quiet : Published

pub data ControlFlow : Type 0 where
  continue_on : ControlFlow
  break_off : ControlFlow

-- The handler of a message, the body of which is a comment.
abbrev pub on_published : String → ControlFlow
on_published message = continue_on

-- The reader's task: whether a connection can be opened, and what it brings.
pub record Subscriber : Type 0 where
  pub connects : Bool
  pub events : List Published

-- `con.subscribe(..).unwrap()`
unfoldable pub subscription : List Published → Poll Joined × Subscriber
subscription [] = (pending, record { connects = true; events = [] })
subscription (published m ∷ rest) =
    let later = subscription rest in
    elim (on_published m) [
      | continue_on ↦ later
      | break_off ↦ (ready finished, record { connects = true; events = rest })
    ]
subscription (lost ∷ rest) = (ready task_panicked, record { connects = true; events = rest })
subscription (quiet ∷ rest) = (pending, record { connects = true; events = rest })

unfoldable pub poll_subscriber : Subscriber → Poll Joined × Subscriber
poll_subscriber r = if r.connects then subscription r.events else (ready task_panicked, r)

abbrev pub presence_task : Future Subscriber Joined
presence_task = record { poll = poll_subscriber }

-- The receiver of the error channel, whose sender the service holds or has dropped.
abbrev pub error_channel : Platform → Future Service Received
error_channel p = record { poll = λ s. (p.poll_receiver s.sent (is_some s.error_sender), s) }

abbrev pub finish_poll : Poll (Option Received) → Poll Ending
finish_poll (ready o) = ready (finish_run o)
finish_poll pending = pending

abbrev pub finish_select : Option (Poll (Option Received)) → Option (Poll Ending)
finish_select none = none
finish_select (some p) = some (finish_poll p)

-- The listener's task of a service, before it has run.
abbrev pub listen : Platform → Service → List Arrival → Server
listen p s arrivals = record {
  bindable = p.is_bindable s.host_addr;
  arrivals = arrivals;
  spawned = [];
}

-- The reader's task of a service, before it has run.
abbrev pub subscribe : Platform → Service → List Published → Subscriber
subscribe p s events = record {
  connects = p.is_redis_addr s.redis_addr && p.is_reachable s.redis_addr;
  events = events;
}

-- The service while it runs: the receiver is taken.
abbrev pub taken : Service → Service
taken s = record s { error_receiver = none }

-- The run of a service, which does not use its middleware, up to `n` polls of its selection; `none` is a panic.
unfoldable pub run :
    {E : Type 0}
    → Platform
    → MiddlewareManager E
    → ℕ
    → List Arrival
    → List Published
    → Service
    → Option (Poll Ending) × Service
run p middleware n arrivals events s = elim s.error_receiver [
  | none ↦ (none, s)
  | some rx ↦ (
    finish_select (
        drive_select server_task presence_task (error_channel p) n
          (select (listen p s arrivals) (subscribe p s events) (taken s))),
    taken s,
  )
]
