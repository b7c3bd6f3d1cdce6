-- ===== src/Service/Middleware.antt =====
-- What is meant to handle the messages of other shards: `MiddlewareManager` (src/service.rs) and the one
-- interceptor (src/middleware.rs), the body of which is a comment.
use grass.Prelude.{String}
use grass.State.{World}
use grass.Exec.{Exec, pure}

-- A function of the shard's id and of a payload; the sockets and the pool are in the `World`.
abbrev pub ShardingMiddleware : Type 0 → Type 0
ShardingMiddleware E = String → Unit {0} → Exec World E (Unit {0})

pub record MiddlewareManager (E : Type 0) : Type 0 where
  pub function : ShardingMiddleware E

abbrev pub new_middleware_manager : {E : Type 0} → ShardingMiddleware E → MiddlewareManager E
new_middleware_manager fun = record { function = fun }

unfoldable pub shard_payload_interceptor : {E : Type 0} → ShardingMiddleware E
unfolding pure
shard_payload_interceptor shard_id payload = pure tt
