-- ===== src/Tests/Starts.antt =====
-- The theorems on the start of the program and on its end.
use grass.Prelude.{◌≡◌, refl, sym, ap, true, none, some, List, [], ◌∷◌, str_eq, if◌then◌else◌}
use grass.Models.Error.{ClientError}
use grass.State.{World}
use grass.Exec.{ok}
use grass.Handlers.Join.{handle_join}
use grass.Handlers.Join.Laws.{answered, hosting}
use grass.Service.{received, canceled, pending, ready, normal}
use grass.Service.Middleware.{new_middleware_manager, shard_payload_interceptor}
use grass.Service.Running.{Arrival, run, connected, refused, waiting, published}
use grass.Service.Setup.{Platform}
use grass.Startup.{Machine, main, prepare, host_addr, default_config}
use grass.Startup.Laws.{prepare_lem, main-refused, handle_join-prepare, made, reset}
use grass.Tests.{shard, lobby, world, socket, doubling}

abbrev platform : Platform
platform = record {
  is_redis_addr = λ addr. true;
  is_reachable = λ addr. true;
  is_bindable = λ addr. true;
  read_to_string = λ path. if str_eq path "./tasks.toml" then some "tasks" else none;
  task_list = λ toml. some (doubling ∷ []);
  poll_receiver = λ sent held. elim sent [
    | some e ↦ ready (received e)
    | none ↦ if held then pending else ready canceled
  ];
}

-- A machine with no configuration but for the reset.
abbrev machine : Machine
machine = record {
  env_config = none;
  env_debug = some (record { should_reset_redis = true });
  new_uuid = "north";
  platform = platform;
}

host_addr-default : host_addr default_config ≡ "0.0.0.0:50000"
unfolding host_addr
host_addr-default = refl

abbrev late : List Arrival
late = connected "peer" ∷ waiting ∷ refused ∷ connected "late" ∷ []

main-refused_example :
    ((run platform
        (new_middleware_manager (shard_payload_interceptor {E = ClientError}))
        2
        late
        (published "news" ∷ [])
        (made machine (doubling ∷ []))).0
      ≡ some (ready normal))
    × (main {E = ClientError} machine 2 late (published "news" ∷ []) shard (world lobby)
        ≡ (ok pending, reset machine (world lobby)))
main-refused_example =
    main-refused ClientError machine "tasks" (doubling ∷ []) shard (world lobby) refl refl refl refl
      2 (some "peer" ∷ none ∷ []) (connected "late" ∷ []) (some "news" ∷ []) refl refl refl

abbrev fresh : World
fresh = record (world lobby) { redis = (reset machine (world lobby)).redis }

fresh-redis : fresh.redis ≡ (prepare {E = ClientError} machine shard (world lobby)).1.redis
fresh-redis = sym (
    ap (λ x. x.1.redis)
      (prepare_lem ClientError machine "tasks" (doubling ∷ []) shard (world lobby) refl refl refl
        refl))

handle_join-prepare_example : handle_join 3 (some "monkey") shard fresh ≡ (
  ok tt,
  answered
      (socket 3 none)
      "monkey"
      true
      true
      (hosting shard 3 (socket 3 none) "player" "monkey" fresh),
)
handle_join-prepare_example =
    handle_join-prepare ClientError machine "tasks" (doubling ∷ []) shard (world lobby) refl refl
      refl refl 3 "monkey" shard fresh (socket 3 none) "player" refl
      (record { unheld = refl; alone = λ v. refl; healthy = refl }) fresh-redis refl refl refl refl
      refl
