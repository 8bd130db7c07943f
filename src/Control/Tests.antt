-- ===== src/Control/Tests.antt =====
-- A request that is answered, a line that is refused, and a server that is stopped.
use xray_e2e_prober.Base.{
  ◌≡◌, refl, String, true, false, none, some, [], ◌∷◌, ◌==◌, nat_eq, string_eq, if◌then◌else◌, ok,
  err, arith, All,
}
use xray_e2e_prober.Control.Protocol.{
  Json, boolean, text, object, end, field, JsonLibrary, Failure, control_error, Handler, success,
  request,
}
use xray_e2e_prober.Control.Exchange.{returned, server_of, request_roundtrip}
use xray_e2e_prober.Control.Server.{
  reading, running, ControlServer, accept, move, has_task, close, discard_task, begin_stop,
  is_drained, end_stop,
}
use xray_e2e_prober.Control.Stopped.{
  here, next, accepts, closes, discards, stopped, IsOver, stop_quiets,
}

abbrev ping : Json
ping = object (field "command" (text "ping") (field "params" (object end) end))

abbrev pong : Json
pong = object (field "pong" (boolean true) end)

-- Enough of JSON for one request and its response.
abbrev json : JsonLibrary
json = record {
  dumps = λ j. elim j [
    | object (field k v rest) ↦ (if k == "command" then 1 ∷ [] else 2 ∷ [])
    | _ ↦ []
  ];
  loads = λ bytes. elim bytes [
    | [] ↦ none
    | b ∷ bs ↦ (if b == 1 then some ping else some (success pong))
  ];
  is_zero = λ t. t == "0";
}

abbrev redact : Failure → String
redact e = "redacted"

abbrev handler : Handler
handler command params =
    if command == "ping" then ok pong else err (control_error "unknown command")

request_roundtrip_example :
    request json redact (λ j. "?") (some (server_of json redact false handler)) "ping" end
    ≡ returned json redact (handler "ping" end)
request_roundtrip_example =
    request_roundtrip json redact handler (λ j. "?") "ping" end
      record { line = refl; back = refl; small = omega arith }
      record { line = refl; back = refl; small = omega arith }

abbrev busy : ControlServer
busy = record {
  listening = true;
  socket_exists = true;
  stopping = false;
  handlers =
      record { id = 1; phase = running; cancelled = false }
      ∷ record { id = 2; phase = reading; cancelled = false }
      ∷ [];
  draining = none;
}

-- A connection comes during the stop and is still closing at its end.
abbrev stopping_server : ControlServer
stopping_server =
    discard_task 2 (close 2 (discard_task 1 (close 1 (accept 3 (begin_stop none busy)))))

stop_quiets_example :
    ((end_stop stopping_server).stopping ≡ true)
    × ((end_stop stopping_server).listening ≡ false)
    × All (λ k. IsOver k.phase) (end_stop stopping_server).handlers
unfolding begin_stop accept close discard_task end_stop move has_task is_drained
stop_quiets_example =
    stop_quiets busy (end_stop stopping_server)
      (next
        (next
          (next (next (next (next here (accepts 3 refl)) (closes 1 refl)) (discards 1 refl))
            (closes 2 refl))
          (discards 2 refl))
        (stopped (1 ∷ 2 ∷ []) refl refl))
      refl
