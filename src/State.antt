-- ===== src/State.antt =====
-- The state that the tasks of one shard share, and what they call but do not implement.
-- `Game`, `PartialClient`, `SocketClient` and `RedisGame` are the structs of
-- src/service/websocket/client/game.rs, game/partial_client.rs, src/service/websocket/client.rs and
-- game/redis_game.rs. The handles that every struct clones (`sockets`, `redis_pool`) are the `World`.
pub mod Sets
use grass.Prelude.HashMap.{HashMap}
use grass.Prelude.{ℕ, String, Bool, Option, List, ◌==◌, if◌then◌else◌, str_eq}
use grass.Models.Task.{Uuid, GameTask}
use grass.Models.Request.{
  Request, JoinRequest, StartRequest, TaskRequest, CompileRequest, IdentifyRequest, ExistsRequest,
}
use grass.Models.Response.{DefaultModel}
use grass.Models.Default.{Payload}

-- tungstenite's `Message`, by the form of its text; bytes are held as text.
pub data Message (T : Type 0) : Type 0 where
  text : T → Message T
  binary : String → Message T
  ping : String → Message T
  pong : String → Message T
  close : Message T

abbrev pub Outgoing : Type 0
Outgoing = Message (DefaultModel Payload)

-- A tokio channel to the task that writes to the socket: everything it has accepted, in order.
-- `closed` says that the receiver is gone.
pub record Channel : Type 0 where
  pub closed : Bool
  pub accepted : List Outgoing

abbrev pub SocketSender : Type 0
SocketSender = ℕ

pub record PartialClient : Type 0 where
  pub id : Uuid
  pub nickname : String
  pub shard_id : String
  pub is_local : Bool
  pub write_channel : Option SocketSender
  pub task_progress : Option (HashMap Bool)

pub record Game : Type 0 where
  pub partial_client : PartialClient
  pub is_host : Bool
  pub game_id : String
  pub partial_host : PartialClient
  pub connected_clients : Option (HashMap PartialClient)
  pub shutdown : Bool
  pub is_started : Bool
  pub public : Bool
  pub tasks : List GameTask

pub record SocketClient : Type 0 where
  pub id : Uuid
  pub addr : String
  pub send_channel : SocketSender
  pub game : Option Game
  pub nickname : Option String
  pub performed_safe_shutdown : Bool

pub record RedisGame : Type 0 where
  pub shard_id : String
  pub host_id : Uuid

-- The Redis server behind the pool. `faults` says of each coming call whether it fails; where the
-- list ends, calls succeed.
pub record Redis : Type 0 where
  pub entries : String → Option String
  pub faults : List Bool

-- `clock` is not part of the program: it counts how often the task that runs has given way since it began.
pub record World : Type 0 where
  pub sockets : Uuid → Option SocketClient
  pub channels : SocketSender → Channel
  pub redis : Redis
  pub clock : ℕ

-- A method of a game that stands in the map: the game is out of the world while the method runs.
pub record GameState : Type 0 where
  pub game : Game
  pub world : World

abbrev pub update {ℓ} : {V : Type ℓ} → (ℕ → V) → ℕ → V → ℕ → V
update f k v j = if k == j then v else f j

abbrev pub update_key {ℓ} : {V : Type ℓ} → (String → V) → String → V → String → V
update_key f k v j = if str_eq k j then v else f j

-- The messages of the sandbox service (Protobufs/sandbox.proto, a submodule), by their use; the language
-- of a request is always Rust and is left out.
pub record SandboxRequest : Type 0 where
  pub user_id : String
  pub code : String
  pub stdin : List String

pub record SandboxResponse : Type 0 where
  pub success : Bool
  pub stdout : List String
  pub stderr : List String

-- What serde_json and the derived `Deserialize` make of a text: `none` where they fail.
pub record Serde : Type 0 where
  pub default_model : String → Option (DefaultModel String)
  pub request : String → Option Request
  pub join_request : String → Option JoinRequest
  pub start_request : String → Option StartRequest
  pub task_request : String → Option TaskRequest
  pub compile_request : String → Option CompileRequest
  pub identify_request : String → Option IdentifyRequest
  pub create_request : String → Option (Unit {0})
  pub exists_request : String → Option ExistsRequest
  pub redis_game : String → Option RedisGame
  pub redis_game_text : RedisGame → String

-- A guard of the `DashMap` that a task holds, by the lock that it is a guard of.
pub data Guard : Type 0 where
  read : ℕ → Guard
  write : ℕ → Guard

-- What a handler is given: the shard's constants, the services, the locks that it holds, and what the
-- other tasks do to the world between two of its guards: the world that it goes on from, if it goes on.
-- `queued` says of a lock that this task holds whether another task waits to write there.
pub record Context : Type 0 where
  pub shard_id : String
  pub available_tasks : List GameTask
  pub choose_multiple : List GameTask → ℕ → List GameTask
  pub nanoid : String
  pub uuid_text : Uuid → String
  pub sandbox : SandboxRequest → Option SandboxResponse
  pub serde : Serde
  pub lock_of : Uuid → ℕ
  pub held : List Guard
  pub queued : ℕ → Bool
  pub elsewhere : World → Option World
