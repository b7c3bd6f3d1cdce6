-- ===== src/Service/Setup.antt =====
-- `Service::new` and the fields of a service (src/service.rs), and `load_tasks`
-- (src/service/task_loader.rs).
use grass.Prelude.{String, Bool, Option, none, some, List, if◌then◌else◌}
use grass.Models.Task.{GameTask}
use grass.State.{World}
use grass.Exec.{Exec, pure, panic, unwrap, expect, ◌>>=◌, ◌>>◌}
use grass.Exec.Services.{pool_get}
use grass.Service.{CriticalError, Received, Poll}

-- What the system and the crates redis and toml answer: whether an address is well formed as one of a Redis
-- server, whether the server there can be reached, whether an address can be listened on, the text of a
-- file, and the tasks that the derived `Deserialize` of `FileTaskList` reads from it.
pub record Platform : Type 0 where
  pub is_redis_addr : String → Bool
  pub is_reachable : String → Bool
  pub is_bindable : String → Bool
  pub read_to_string : String → Option String
  pub task_list : String → Option (List GameTask)
  -- What the receiver of a oneshot channel answers, by what has been sent and whether its sender is held.
  pub poll_receiver : Option CriticalError → Bool → Poll Received

-- The two ends of the oneshot channel for critical errors, while the service holds them, and what has
-- been sent. The sockets and the pool are in the `World`.
pub record Service : Type 0 where
  pub shard_id : String
  pub host_addr : String
  pub redis_addr : String
  pub available_tasks : List GameTask
  pub error_sender : Option (Unit {0})
  pub error_receiver : Option (Unit {0})
  pub sent : Option CriticalError

-- `Client::open(addr)` and its `unwrap` or `expect`; `RedisConnectionManager::new` does the same.
unfoldable pub open_client : {E : Type 0} → Platform → String → Exec World E (Unit {0})
unfolding pure panic
open_client p addr = if p.is_redis_addr addr then pure tt else panic

unfoldable pub load_tasks : {E : Type 0} → Platform → String → Exec World E (List GameTask)
load_tasks p toml = unwrap (p.task_list toml)

-- The pool opens its connections when it is built.
unfoldable pub new_service :
    {E : Type 0} → Platform → String → String → String → String → Exec World E Service
unfolding ◌>>=◌
new_service p shard_id host_addr game_loading_path redis_addr = do
  open_client p redis_addr
  expect pool_get
  file ← unwrap (p.read_to_string game_loading_path)
  tasks ← load_tasks p file
  pure (record {
    shard_id = shard_id;
    host_addr = host_addr;
    redis_addr = redis_addr;
    available_tasks = tasks;
    error_sender = some tt;
    error_receiver = some tt;
    sent = none;
  })
