-- ===== src/Tests/Loops.antt =====
-- The streams, the event goroutine, the terminal and the template helpers at concrete inputs.
use mathlib.Core.List.{foldl}
use wingstation.Prelude.{
  bytes, str_eq, true, false, List, [], ◌∷◌, ◌++◌, none, some, ◌≡◌, ◌≢◌, refl, ap, inr, map, any,
  arith, ℕ, ◌*◌, ◌/◌,
}
use wingstation.Prelude.Int.{ℤ, pos, negsuc, ◌+ℤ◌}
use wingstation.Go.Strings.{contains, to_lower, is_ascii, has_prefix, lower_byte}
use wingstation.Go.Result.{ok, err}
use wingstation.Cache.{new}
use wingstation.Docker.Models.{Container}
use wingstation.Service.Listing.{ListInput, list_containers, finish_list, invalidate_cache, fetched}
use wingstation.Service.Listing.Visible.{visible-IsListing}
use wingstation.Service.Listing.Race.{finish_list-stale}
use wingstation.Server.Events.{event_text}
use wingstation.Server.Events.Decode.{decode_stream}
use wingstation.Server.Http.{written}
use wingstation.Server.Stream.{handle_sse, message, request_done}
use wingstation.Server.Stream.Laws.{decode-handle_sse}
use wingstation.Server.Broker.{new_broker, broadcast, each}
use wingstation.Server.Terminal.{handle_terminal_ws}
use wingstation.Server.Terminal.Session.{
  Event, exec_read, ws_text, ws_binary, ws_failed, session_calls, run_session, new_session,
}
use wingstation.Server.Terminal.Guard.{
  stdins, typed, handle_terminal_ws-running, session_calls-typed,
}
use wingstation.Server.Terminal.Gone.{session_calls-ws_failed, LeavesOpen}
use wingstation.Server.Watch.{
  Hub, DockerMessage, targeted_update, checks, stop_seen, tick, updating, returned, watch_step,
  go_on,
}
use wingstation.Server.Watch.Loop.{watch_step-returned, at_end}
use wingstation.Server.Helpers.{is_sensitive_key, Floats, mask_value, format_uptime}
use wingstation.Server.Helpers.Mask.{mask_value-hides}
use wingstation.Server.Helpers.Uptime.{
  minute, IsExact, uptime_minutes, shown_minutes, uptime_minutes-format_uptime,
}
use wingstation.Tests.Data.{plain, answered}
use wingstation.Tests.Listing.{first_input}
use wingstation.Tests.Server.{events, events-IsSendable}
use wingstation.Tests.Web.{site, get_request, terminal_answers}

decode-handle_sse_example :
    decode_stream (
      written
        (handle_sse
          (pos 3000)
          (get_request (bytes "/events") [] none)
          (map message (map (λ e. event_text e.0 e.1) events) ++ request_done ∷ [])).calls)
    ≡ events
decode-handle_sse_example =
    decode-handle_sse (pos 3000) (get_request (bytes "/events") [] none) events [] refl
      events-IsSendable

-- What the daemon answers twice: once with a long wait.
abbrev later_input : ListInput
later_input = record { asked = pos 50; answer = err (bytes "gone"); stored = pos 51 }

abbrev pub shown : List Container
shown = (visible-IsListing plain answered (omega arith, (omega arith, tt))).0

pub first_fetched : fetched plain first_input ≡ ok shown
first_fetched = (visible-IsListing plain answered (omega arith, (omega arith, tt))).1

finish_list-stale_example :
    (list_containers plain
      (finish_list plain (invalidate_cache (new (pos 100))) first_input).1
      later_input).0
    ≡ ok shown
unfolding new ◌+ℤ◌
finish_list-stale_example =
    finish_list-stale plain (new (pos 100)) first_input later_input shown first_fetched
      (omega arith)

abbrev hub : Hub
hub = record { cache = new (pos 100); broker = new_broker }

abbrev started_message : DockerMessage
started_message = record { action = bytes "start"; actor_id = bytes "0123456789abcdef" }

-- A broker that is stopped, without clients.
abbrev stopped_hub : Hub
stopped_hub = record hub { broker = record { channels = []; stopped = true } }

watch_step-returned_example :
    foldl
      (watch_step site (pos 5000))
      (at_end site (pos 5000) (updating started_message, stopped_hub) first_input)
      (stop_seen ∷ checks ∷ tick ∷ [])
    ≡ (returned, (at_end site (pos 5000) (updating started_message, stopped_hub) first_input).1)
unfolding watch_step go_on targeted_update broadcast str_eq each
watch_step-returned_example =
    watch_step-returned site (pos 5000) (updating started_message) stopped_hub first_input
      (tick ∷ []) (λ p. cc) refl

handle_terminal_ws-running_example :
    (bytes "0123456789abcdef" ≢ []) × (terminal_answers.state ≡ ok (some true))
unfolding handle_terminal_ws str_eq
handle_terminal_ws-running_example =
    handle_terminal_ws-running site.parse_resize terminal_answers
      (get_request (bytes "/ws/terminal") (bytes "0123456789abcdef") none) (λ p. cc)

abbrev session_events : List Event
session_events =
    ws_text (bytes "ls") true
    ∷ ws_binary (bytes "resize")
    ∷ exec_read (bytes "web") true false
    ∷ ws_text (bytes "exit") false
    ∷ ws_text (bytes "late") true
    ∷ []

session_calls-typed_example :
    stdins site.parse_resize (session_calls site.parse_resize session_events)
    ≡ typed site.parse_resize session_events
session_calls-typed_example = session_calls-typed site.parse_resize session_events

session_calls-ws_failed_example :
    (session_calls site.parse_resize
        ((ws_text (bytes "ls") true ∷ []) ++ ws_failed ∷ exec_read (bytes "$ ") true false ∷ [])
      ≡ (run_session site.parse_resize new_session (ws_text (bytes "ls") true ∷ [])).asked)
    × LeavesOpen site.parse_resize (
        session_calls site.parse_resize
          ((ws_text (bytes "ls") true ∷ []) ++ ws_failed ∷ exec_read (bytes "$ ") true false ∷ []))
session_calls-ws_failed_example =
    session_calls-ws_failed site.parse_resize (ws_text (bytes "ls") true ∷ [])
      (exec_read (bytes "$ ") true false ∷ []) (tt, tt) ((refl, refl), tt)

mask_value-hides_example :
    mask_value plain (bytes "DB_PASSWORD") (bytes "hunter2xyz")
    ≡ mask_value plain (bytes "DB_PASSWORD") (bytes "huABCDEFyz")
unfolding is_sensitive_key any contains to_lower is_ascii has_prefix lower_byte
mask_value-hides_example =
    mask_value-hides plain (bytes "DB_PASSWORD") refl (bytes "hunter2xyz") (bytes "huABCDEFyz")
      (inr (record { same_length = refl; same_start = refl; same_end = refl }))

abbrev in_units : ℕ → ℤ → ℤ
in_units unit (pos n) = pos (n / unit)
in_units unit (negsuc n) = negsuc (n / unit)

-- Whole hours and whole minutes.
abbrev pub whole_floats : Floats
whole_floats = record {
  hours = in_units 3_600_000_000_000;
  minutes = in_units 60_000_000_000;
  one_decimal = λ b u. [];
  two_decimals = λ b u. [];
  float = ℤ;
  nothing = pos 0;
  percent = λ a b. a;
}

whole_floats-IsExact : IsExact whole_floats
whole_floats-IsExact = record {
  hours_exact = λ m. ap pos (omega arith);
  minutes_exact = λ m. ap pos (omega arith);
}

uptime_minutes-format_uptime_example :
    uptime_minutes (format_uptime whole_floats (pos (1507 * minute))) ≡ some (shown_minutes 1507)
uptime_minutes-format_uptime_example =
    uptime_minutes-format_uptime whole_floats 1507 whole_floats-IsExact
