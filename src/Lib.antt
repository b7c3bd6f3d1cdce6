-- ===== src/Lib.antt =====
-- Grass, a server for programming contests over websockets. A client connects, names itself, creates or
-- joins a game, and the host starts it; then every player asks for tasks and submits code, which a sandbox
-- runs on the public tests of the task and then on the private ones. Everything that a shard of the service
-- keeps stands in one map from ids to sockets: a socket holds the client's view of its game, and the host's
-- view is the one that has the players, the tasks and the progress. Redis holds, for each game, which
-- shard and which client hosts it.
--
-- The parts, and the code that each is about:
-- - Models: the data of messages (src/service/websocket/client/models.rs and client/game/models/), one
--   constructor for each struct. Models/Wire says what serialising leaves out.
-- - State: the structs `Game`, `PartialClient`, `SocketClient` and `RedisGame`, the world that the tasks of
--   a shard share, and the context: what is called but not implemented here.
-- - Exec: how code runs, as a function of the context and the state to an outcome (a result, an error, a
--   panic, a wait for ever) and a state. Exec/Sockets is the map (a `DashMap`) with its locks, Exec/Services
--   the channels and Redis, Exec/Keeps the rules for invariants.
-- - Game: src/service/websocket/client/game.rs and game/partial_client.rs. Game/Messages has the senders
--   and constructors, Game/Members `register`, `unregister`, `shutdown` and `drop`, Game/Start and
--   Game/Progress `start`, Game/CodeTest `validate_code_test` and what it calls, and Game/Judge its loops
--   over outputs and its reports. Game/Delivery and Game/Invariant are the plain description of what is
--   sent and of a valid game.
-- - Client: src/service/websocket/client.rs, but for `on_message`, which is in Connection.
-- - Handlers: `Request::handle_message` (client/game/models/request.rs), one function for each op code, and
--   client/message_handler.rs, in Handlers/Dispatch. Handlers/Join/Race has two joins at the same time.
-- - Connection: `on_message`, and `accept_connection` of src/service/websocket.rs: its handshake
--   (Connection/Handshake), its reader and its writer (Connection/Writer).
-- - Sound: the invariant of the shard, and that every request and connection keeps it. Models/Typed says
--   when op codes fit, which is part of it.
-- - Waiting: which requests wait for ever on a lock of the map because of a guard of their own task; the
--   rules are in Exec/Ends. Waiting/Exact says exactly when leaving and starting a game do, and asking for a
--   task.
-- - Apart: what a connection does to the sockets, with the rules of Exec/Keeps, and what it leaves of
--   another's socket (Apart/Isolated). Game/Still says of the methods of a game that they leave the sockets
--   alone, and which fields of the game they leave.
-- - Playing: a game as any sequence of calls of its methods, and what holds through all of them.
--   Game/Tables has the tables of progress. Playing/Room is the abstract room that a game implements, and
--   Playing/Order is about the order of a game's clients, with Game/Order and Game/Delivery/Shuffle.
-- - Shard: the tasks of a shard, which take turns, and what holds of every world they reach: Shard/Safety of
--   what is stored and sent, and Shard/Isolation of what they do to each other.
-- - Service: src/service.rs with src/service/task_loader.rs and src/service/extended_select.rs.
--   Service/Setup is `Service::new`, Service/Running `Service::run`, and Service/Middleware the middleware
--   that it is given (src/middleware.rs) and does not use.
-- - Startup: src/main.rs.
-- - Session: the requests of two clients one after another, from the first join to a submission that
--   passes.
-- - Tests: a small shard on which the theorems are tried.
--
-- How the model meets the code:
-- - A method of a game that stands in the map runs on the game and the world together (`GameState`); the
--   changed game is put back into its socket.
-- - What runs while a guard of the map is held is one step, and so is a call of Redis, and the drop of a
--   client or a game, with the notice of a time-out before it. Between these, at every `await` of the model, the context's `elsewhere` says which
--   world the task goes on from, or that it has not gone on yet (the outcome `suspended`). Theorems on
--   invariants assume that what happens elsewhere keeps the invariant; theorems on single requests, that
--   nothing does, but for the one in Handlers/Join/Race.
-- - In Shard nothing is assumed. A task that has begun is kept with the worlds that it has gone on from, one
--   for each time that it gave way (the world's `clock` counts these; it is not part of the program), and a
--   step lets any one task go on from the world as it is then. So tasks overlap in every way, also where the
--   program would order two parts of one connection: a message may be handled while its connection is still
--   being opened. A handler that is cut off is one that never goes on, and the notice of it is a task of its
--   own. A task that waits for ever on a lock never goes on either, and its guards do not hinder the others:
--   the model then has more runs than the program, so that what holds in all of its runs holds there.
-- - A task that asks for a lock in conflict with one of its own guards never goes on (the outcome
--   `deadlocked`); `lock_of` says which lock is whose, and `queued` whether another task waits to write at a
--   lock that this one reads. Guards of other tasks only delay a task here: two tasks that wait for each
--   other are not modelled.
-- - Redis is a map of texts and a list of faults, one for each coming call; past its end calls succeed.
-- - A channel is everything that it has accepted; a full channel is waited for, so only a receiver that is
--   gone makes a send fail.
-- - An id is a number, and the id of a new socket is given. JSON is the context's `serde`: a message that
--   is sent is kept as data, with the private test cases taken out as the attribute in game/task.rs says.
-- - A `HashMap` is an association list, in whose order the loops run. The standard library leaves that
--   order open; Playing/Order is about lists with the same entries in other orders.
-- - The sandbox, the random choice of tasks and the ids of games are functions of the context.
-- - The reader of a connection is the list of what the peer sends; each message says whether its handler
--   is in time or cut off, and then what it had done. Lists are finite and every loop is a structural
--   recursion, so there is no fuel. `ℕ` stands for `usize`, whose numbers here only count list entries.
-- - The service and its tasks are polled a given number of times; what has come in by each poll is a list.
--   The theorems hold for every number, so none is too small. When the service has ended, the drop of the
--   tokio runtime in `main` waits for the worker that reads from Redis. That reader blocks its worker, so
--   the runtime is taken to have another one for the listener.
--
-- Not modelled: src/service/redis_pool.rs (a copy of r2d2-redis, behind the actions of Exec/Services),
-- src/build.rs (it generates the client of the sandbox), and logging.
pub mod Prelude
pub mod Models
pub mod State
pub mod Exec
pub mod Game
pub mod Client
pub mod Handlers
pub mod Connection
pub mod Sound
pub mod Waiting
pub mod Apart
pub mod Playing
pub mod Shard
pub mod Service
pub mod Startup
pub mod Session
pub mod Tests
