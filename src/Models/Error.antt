-- ===== src/Models/Error.antt =====
-- src/service/websocket/client/error.rs. `BoxError` is what the source boxes as `dyn Error`: one of these
-- errors, a failure of the pool or of a Redis command, or a closed channel.
use grass.Prelude.{String}

pub data ClientError : Type 0 where
  invalid_message : String → ClientError
  client_does_not_exist : String → ClientError
  already_in_game : String → ClientError
  not_in_game : String → ClientError
  internal_server_error : String → ClientError
  not_game_host : String → ClientError
  no_data_with_op_code : String → ClientError
  compilation_error : String → ClientError
  out_of_range_task : ClientError
  no_game_was_found : ClientError
  game_not_started : ClientError
  game_already_started : ClientError
  client_not_identified : ClientError
  invalid_game_id : ClientError
  invalid_op_code : ClientError
  parsing_error : ClientError
  send_error : ClientError

pub data BoxError : Type 0 where
  client : ClientError → BoxError
  pool_error : BoxError
  command_error : BoxError
  channel_closed : BoxError
