-- ===== src/Tests/Programs.antt =====
-- The whole program at concrete runs.
use mathlib.Core.List.{foldl}
use wingstation.Prelude.{
  ◌≢◌, ◌⊎◌, ℕ, Str, bytes, str_eq, true, false, List, [], ◌∷◌, ◌++◌, none, some, ◌≡◌, refl, inl,
  any, arith,
}
use wingstation.Prelude.Int.{pos}
use wingstation.Go.Result.{ok}
use wingstation.Go.Map.{insert}
use wingstation.Go.Strings.{trim_suffix, trim_prefix, has_prefix}
use wingstation.Go.Runtime.Insertion.{forward}
use wingstation.Cache.{new}
use wingstation.Config.{Config, load, env_int, env_bool, env_duration}
use wingstation.Docker.Client.{new_read_only_client, new_exec_client}
use wingstation.Server.Templates.{page_name, parse_templates}
use wingstation.Server.Setup.{Server, new_server, wired, start_server, with_templates}
use wingstation.Server.Watch.{
  checks, message, goes_on, to_end, watch_step, DockerMessage, handle_docker_event,
}
use wingstation.Main.{exits, serves, start, site_of}
use wingstation.Main.Configured.{load-read_only, load-listens}
use wingstation.Main.End.{acts, server_returns, signalled, main}
use wingstation.Main.End.Exit.{exit_status, first_end, main-first_end}
use wingstation.Main.Run.Shown.{IsSearchReply, start-IsSearchReply}
use wingstation.Server.Routes.{registered}
use wingstation.Server.Http.{Request}
use wingstation.Main.Run.Follows.{start-handle_docker_event}
use wingstation.Go.Strconv.{itoa, itoa_ℤ, digits_onto, parse_bool}
use wingstation.Main.Run.{
  Action, asks, list_ends, sweeps_at, turns, joins, leaves, takes, first_program, act, hub_of,
  and_rests, in_a_row,
}
use wingstation.Main.Run.Invariant.{IsRunning, start-IsRunning}
use wingstation.Tests.Listing.{first_input}
use wingstation.Tests.Web.{find, configured, answers, get_request}
use wingstation.Tests.Platform.{platform, server, getenv, no_duration}
use wingstation.Tests.Loops.{shown, first_fetched}
use wingstation.Main.Run.Delivers.{reached, start-StillWaits}
use wingstation.Server.Broker.{Channel, subscribe}
use wingstation.Server.Broker.Places.{channel_at}
use wingstation.Server.Watch.Delivery.{StillWaits}
use wingstation.Server.Events.{event_text, concat}

abbrev cfg : Config
cfg = configured false true

starts_up : start platform cfg ≡ serves (server cfg true) (new (pos 100))
unfolding start new_read_only_client new_exec_client new_server parse_templates str_eq forward
    insert page_name trim_suffix trim_prefix has_prefix
starts_up = refl

-- A client joins, asks for the list, a listing from before ends, an event comes and the client
-- leaves.
abbrev actions : List Action
actions =
    joins
    ∷ asks (get_request (bytes "/api/containers") [] none) answers
    ∷ list_ends first_input
    ∷ turns checks
    ∷ turns (message (record { action = bytes "start"; actor_id = bytes "w" }))
    ∷ list_ends first_input
    ∷ turns (goes_on first_input)
    ∷ takes 0
    ∷ sweeps_at (pos 30)
    ∷ leaves 0
    ∷ []

start-IsRunning_example : IsRunning platform (
    foldl
      (act platform (server cfg true))
      (first_program platform (server cfg true) (new (pos 100)))
      actions)
start-IsRunning_example =
    start-IsRunning platform cfg (server cfg true) (new (pos 100)) actions starts_up refl
      (tt, (tt, (tt, (tt, (tt, (tt, ((omega arith, (omega arith, tt)), (tt, (tt, (tt, tt))))))))))

-- A search and an event of Docker.
abbrev search_request : Request
search_request = get_request (bytes "/api/containers") [] none

start-IsSearchReply_example :
    IsSearchReply
      (site_of platform (server cfg true))
      search_request.query
      ((server cfg true).http_server.handler answers search_request
        (foldl
          (act platform (server cfg true))
          (first_program platform (server cfg true) (new (pos 100)))
          actions).world).0
unfolding registered find str_eq
start-IsSearchReply_example =
    start-IsSearchReply platform cfg (server cfg true) (new (pos 100)) actions search_request
      answers (bytes "GET /api/containers") starts_up refl
      (tt, (tt, (tt, (tt, (tt, (tt, ((omega arith, (omega arith, tt)), (tt, (tt, (tt, tt))))))))))
      (omega arith, (omega arith, tt)) (inl refl) refl

abbrev stopped_message : DockerMessage
stopped_message = record { action = bytes "die"; actor_id = bytes "w" }

start-handle_docker_event_example :
    let g =
      foldl
        (act platform (server cfg true))
        (first_program platform (server cfg true) (new (pos 100)))
        (and_rests actions first_input) in
    handle_docker_event (site_of platform (server cfg true)) stopped_message (hub_of g) first_input
    ≡ ok (
        hub_of (
          foldl
            (act platform (server cfg true))
            g
            (in_a_row (checks ∷ message stopped_message ∷ to_end first_input))))
start-handle_docker_event_example =
    start-handle_docker_event platform cfg (server cfg true) (new (pos 100)) actions stopped_message
      first_input first_input starts_up refl refl
      (tt, (tt, (tt, (tt, (tt, (tt, ((omega arith, (omega arith, tt)), (tt, (tt, (tt, tt))))))))))
      (omega arith, (omega arith, tt)) (omega arith, (omega arith, tt))

-- `yes` is not one of the spellings of true.
abbrev quiet : Config
quiet = load getenv no_duration

starts_quiet : start platform quiet ≡ serves (server quiet false) (new (pos 5_000_000_000))
unfolding start new_read_only_client new_exec_client new_server parse_templates str_eq forward
    insert page_name trim_suffix trim_prefix has_prefix load env_bool env_duration parse_bool any
starts_quiet = refl

main-first_end_example :
    ((code : ℕ) × (start platform quiet ≡ exits code)
      × (code ≢ 0)
      × (exit_status
            (main platform getenv no_duration
              (acts joins ∷ server_returns none ∷ acts (turns checks) ∷ signalled ∷ [])).1
          ≡ some code))
    ⊎ (exit_status
          (main platform getenv no_duration
            (acts joins ∷ server_returns none ∷ acts (turns checks) ∷ signalled ∷ [])).1
        ≡ first_end (acts joins ∷ server_returns none ∷ acts (turns checks) ∷ signalled ∷ []))
unfolding load env_int str_eq
main-first_end_example =
    main-first_end platform getenv no_duration
      (acts joins ∷ server_returns none ∷ acts (turns checks) ∷ signalled ∷ []) refl
      (tt, (tt, (tt, (tt, tt))))

load-read_only_example :
    (foldl
      (act platform (server quiet false))
      (first_program platform (server quiet false) (new (pos 5_000_000_000)))
      (asks (get_request (bytes "/ws/terminal") (bytes "0123456789abcdef") none) answers
        ∷ actions)).world.execs
    ≡ []
unfolding any str_eq
load-read_only_example =
    load-read_only platform getenv no_duration (server quiet false) (new (pos 5_000_000_000))
      (asks (get_request (bytes "/ws/terminal") (bytes "0123456789abcdef") none) answers ∷ actions)
      starts_quiet refl

load-listens_example :
    (start_server (server quiet false)).1
    ≡ getenv (bytes "WINGSTATION_HOST") ++ b':' ∷ getenv (bytes "WINGSTATION_PORT")
unfolding str_eq itoa_ℤ itoa digits_onto
load-listens_example =
    load-listens platform getenv no_duration (server quiet false) (new (pos 5_000_000_000))
      (pos 9090) starts_quiet (λ p. cc) refl refl

abbrev cfg_server : Server (List Str)
cfg_server = server cfg true

abbrev fresh_channel : Channel
fresh_channel = record { buffer = []; closed = false; registered = true }

joined_channel :
    channel_at 0
      (reached platform cfg cfg_server (new (pos 100)) (joins ∷ []) first_input).broker.channels
    ≡ some fresh_channel
unfolding act first_program subscribe channel_at wired watch_step
joined_channel = refl

start-StillWaits_example :
    StillWaits 0
      (foldl
        (act platform cfg_server)
        (reached platform cfg cfg_server (new (pos 100)) (joins ∷ []) first_input)
        (in_a_row (checks ∷ message stopped_message ∷ to_end first_input))).broker
      ([] ++ event_text (bytes "containers") (concat (bytes "container_list" ∷ [])) ∷ [])
unfolding site_of with_templates
start-StillWaits_example =
    start-StillWaits platform cfg cfg_server (new (pos 100)) (joins ∷ []) first_input
      stopped_message first_input shown (bytes "container_list" ∷ []) 0 fresh_channel starts_up refl
      refl (tt, tt) (omega arith, (omega arith, tt)) (omega arith, (omega arith, tt)) first_fetched
      refl joined_channel refl refl
