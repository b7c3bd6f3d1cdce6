-- ===== src/Startup/Laws.antt =====
-- What the program finds and leaves when it starts.
use grass.Prelude.{
  String, ◌≡◌, refl, true, false, none, some, List, [], if◌then◌else◌, Bool-cases, inl, inr, ℕ, ◌∙◌,
  ap, ltb, map, ◌++◌, ◌∷◌, Option,
}
use grass.Models.Task.{Uuid, GameTask}
use grass.State.{World, Context, SocketClient, update_key}
use grass.Exec.{ok, pure, ◌>>=◌, expect, unwrap}
use grass.Exec.Services.{pool_get, redis_set}
use grass.Service.Middleware.{MiddlewareManager, new_middleware_manager, shard_payload_interceptor}
use grass.Service.Setup.{Service, open_client, load_tasks, new_service}
use grass.Service.{Poll, ready, pending, Ending, normal}
use grass.Service.Drive.{drive}
use grass.Service.Running.{
  Arrival, Published, Joined, run, refused, listen, subscribe, server_task, presence_task,
}
use grass.Service.Running.Laws.{
  Waits, IsArmed, closing, run_lem, run-refused, drive-lasting, arrival, event, waits,
}
use grass.Startup.{
  Machine, Config, config_or_default, host_addr, resets, reset_redis, prepare, drop_runtime, main,
}
use grass.Handlers.Join.{handle_join}
use grass.Handlers.Join.Laws.{Quiet, answered, hosting, handle_join-hosts}

abbrev pub config : Machine → Config
config m = config_or_default m.env_config

-- The service that the program runs.
abbrev pub made : Machine → List GameTask → Service
made m tasks = record {
  shard_id = m.new_uuid;
  host_addr = host_addr (config m);
  redis_addr = (config m).redis_addr;
  available_tasks = tasks;
  error_sender = some tt;
  error_receiver = some tt;
  sent = none;
}

-- Redis after the start.
abbrev pub reset : Machine → World → World
reset m w =
    if resets m.env_debug
    then record w {
      redis = record (w.redis) { entries = update_key w.redis.entries "GAME:monkey" (some "") };
    }
    else w

made-IsArmed : (m : Machine) (tasks : List GameTask) → IsArmed (made m tasks)
made-IsArmed m tasks = record { receiver = refl; sender = refl; unsent = refl }

abbrev middleware : {E : Type 0} → MiddlewareManager E
middleware = new_middleware_manager shard_payload_interceptor

reset-monkey :
    (m : Machine) (w : World)
    → resets m.env_debug ≡ true
    → (reset m w).redis.entries "GAME:monkey" ≡ some ""
reset-monkey m w on = rw on refl

-- The program ends as its reader does.
abbrev pub ends_with : Poll Joined → Poll Ending
ends_with (ready x) = ready normal
ends_with pending = pending

drop_runtime-closing :
    (server reader : Poll Joined) → drop_runtime reader (closing server reader) ≡ ends_with reader
drop_runtime-closing (ready x) (ready y) = refl
drop_runtime-closing (ready x) pending = refl
drop_runtime-closing pending (ready y) = refl
drop_runtime-closing pending pending = refl

module _ (E : Type 0) (m : Machine) (toml : String) (tasks : List GameTask) (c : Context)
    (w : World) (healthy : w.redis.faults ≡ [])
    (well_formed : m.platform.is_redis_addr (config m).redis_addr ≡ true)
    (there : m.platform.read_to_string "./tasks.toml" ≡ some toml)
    (parsed : m.platform.task_list toml ≡ some tasks) where
  pub prepare_lem : prepare {E = E} m c w ≡ (ok (made m tasks), reset m w)
  unfolding prepare reset_redis new_service open_client load_tasks pool_get redis_set expect ◌>>=◌
  prepare_lem = elim (Bool-cases (resets m.env_debug)) [
    | inl on ↦ rw (on, well_formed, healthy, there, unwrap, parsed) refl
    | inr off ↦ rw (off, well_formed, healthy, there, unwrap, parsed) refl
  ]

  pub main_lem :
      (n : ℕ) (arrivals : List Arrival) (events : List Published)
      → Waits m.platform
      → main {E = E} m n arrivals events c w ≡ (
        ok (ends_with (drive presence_task n (subscribe m.platform (made m tasks) events))),
        reset m w,
      )
  unfolding main pure ◌>>=◌
  main_lem n arrivals events wait =
      let server = drive server_task n (listen m.platform (made m tasks) arrivals) in
      let reader = drive presence_task n (subscribe m.platform (made m tasks) events) in
      rw
        (
          prepare_lem,
          run_lem E m.platform middleware n arrivals events (made m tasks) wait
              (made-IsArmed m tasks),
          unwrap,
        )
        (ap (λ x. (ok x, reset m w)) (drop_runtime-closing server reader))

  -- Where moreover the address of the program can be bound and its subscription lasts, its service ends,
  -- and ends normally, at the poll in which the first accept fails: with as many polls before it as the
  -- listener has had to wait, whoever has connected by then, and not before. But the program does not end,
  -- however long it has been going on. Redis is in order, the address is well formed and can be reached, the
  -- tasks can be read, and the receiver of the error channel waits while its sender is held and has sent
  -- nothing.
  pub main-refused :
      (n : ℕ) (calm : List (Option String)) (rest : List Arrival) (events : List (Option String))
      → Waits m.platform
      → m.platform.is_bindable (host_addr (config m)) ≡ true
      → m.platform.is_reachable (config m).redis_addr ≡ true
      → let came = map arrival calm ++ refused ∷ rest in
        ((run m.platform (middleware {E = E}) n came (map event events) (made m tasks)).0
          ≡ some (if ltb (waits calm) n then ready normal else pending))
        × (main {E = E} m n came (map event events) c w ≡ (ok pending, reset m w))
  main-refused n calm rest events wait bindable reachable = (
    run-refused E m.platform middleware n calm rest events (made m tasks) wait
        (made-IsArmed m tasks) bindable well_formed reachable,
    main_lem n (map arrival calm ++ refused ∷ rest) (map event events) wait
        ∙ rw (well_formed, reachable, drive-lasting n events) refl,
  )

  -- Once the program has started with a reset, the first client that joins the game monkey hosts it. Redis
  -- was in order before, its address is well formed and the tasks can be read; since then Redis has stayed
  -- as it was. The client has a name, is in no game and has an open channel, no guard is held and no
  -- other task runs.
  pub handle_join-prepare :
      (id : Uuid) (d : String) (c' : Context) (u : World) (s : SocketClient) (name : String)
      → resets m.env_debug ≡ true
      → Quiet c' u
      → u.redis ≡ (prepare {E = E} m c w).1.redis
      → c'.serde.join_request d ≡ some (record { game_id = "monkey" })
      → u.sockets id ≡ some s
      → s.game ≡ none
      → s.nickname ≡ some name
      → (u.channels s.send_channel).closed ≡ false
      → handle_join id (some d) c' u
        ≡ (ok tt, answered s "monkey" true true (hosting c' id s name "monkey" u))
  handle_join-prepare id d c' u s name on quiet kept asked here idle named open_ =
      let entries =
        ap (λ r. r.entries "GAME:monkey") kept
        ∙ ap (λ x. x.1.redis.entries "GAME:monkey") prepare_lem
        ∙ reset-monkey m w on in
      handle_join-hosts id d (record { game_id = "monkey" }) c' u quiet asked s name here idle named
        entries open_
