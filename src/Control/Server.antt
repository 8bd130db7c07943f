-- ===== src/Control/Server.antt =====
-- src/xray_e2e_prober/control.py: the life of a `ControlServer`. A step is what a task does between
-- two awaits. A task that is cancelled goes on until the cancellation reaches it, and a command that
-- shields its work goes on longer.
use xray_e2e_prober.Base.{
  ℕ, Bool, true, false, not, ◌&&◌, ◌||◌, Option, none, some, List, [], ◌∷◌, map, keep, all,
  if◌then◌else◌, ◌==◌, nat_eq, option_eq, member, Result, ok, ◌>>◌, reject,
}
use xray_e2e_prober.Control.Protocol.{Failure, control_error}

-- What `_handle` waits for: the request, the command, or the end of the connection; or it has ended.
pub data Phase : Type 0 where
  reading running closing ended : Phase

pub record Task : Type 0 where
  pub id : ℕ
  pub phase : Phase
  pub cancelled : Bool

-- `draining` are the tasks that a `stop` under way waits for, where there is one.
pub record ControlServer : Type 0 where
  pub listening : Bool
  pub socket_exists : Bool
  pub stopping : Bool
  pub handlers : List Task
  pub draining : Option (List ℕ)

abbrev pub new_server : Bool → ControlServer
new_server socket_exists = record {
  listening = false;
  socket_exists = socket_exists;
  stopping = false;
  handlers = [];
  draining = none;
}

-- `start`; whether another daemon answers on the socket is an argument.
unfoldable pub start : Bool → ControlServer → Result Failure ControlServer
start available s = do
  reject (s.socket_exists && available) (control_error "another daemon owns the control socket")
  ok (record s { stopping = false; socket_exists = true; listening = true })

-- The first step of `_handle`: the task is noted, and where the server stops it closes at once.
unfoldable pub accept : ℕ → ControlServer → ControlServer
accept id s = record s {
  handlers =
      record { id = id; phase = if s.stopping then closing else reading; cancelled = false }
      ∷ s.handlers;
}

abbrev pub moved : Phase → Task → Task
moved phase k = record k { phase = phase }

unfoldable pub move : ℕ → Phase → List Task → List Task
move id phase [] = []
move id phase (k ∷ tasks) =
    let rest = move id phase tasks in if k.id == id then moved phase k ∷ rest else k ∷ rest

abbrev pub is_reading : Phase → Bool
is_reading reading = true
is_reading _ = false

abbrev pub is_closing : Phase → Bool
is_closing closing = true
is_closing _ = false

abbrev pub is_open : Phase → Bool
is_open reading = true
is_open running = true
is_open _ = false

abbrev pub is_ended : Phase → Bool
is_ended ended = true
is_ended _ = false

-- Whether the task with the id is there and satisfies the test.
unfoldable pub has_task : (Task → Bool) → ℕ → List Task → Bool
has_task p id [] = false
has_task p id (k ∷ tasks) = (k.id == id && p k) || has_task p id tasks

-- The request was read, and its command begins.
unfoldable pub begin_command : ℕ → ControlServer → ControlServer
begin_command id s = record s { handlers = move id running s.handlers }

-- The response is written, or an exception or the cancellation arrives: the connection is closed.
unfoldable pub close : ℕ → ControlServer → ControlServer
close id s = record s { handlers = move id closing s.handlers }

-- The connection is closed, and the task no longer noted.
unfoldable pub discard_task : ℕ → ControlServer → ControlServer
discard_task id s = record s { handlers = keep (λ k. not (k.id == id)) s.handlers }

-- A cancellation during the wait for the closed connection ends the task, which stays noted.
unfoldable pub end_interrupted : ℕ → ControlServer → ControlServer
end_interrupted id s = record s { handlers = move id ended s.handlers }

abbrev pub is_current : Option ℕ → ℕ → Bool
is_current none id = false
is_current (some current) id = current == id

abbrev pub cancel : Option ℕ → Task → Task
cancel current k = record k { cancelled = not (is_current current k.id) || k.cancelled }

-- `stop` up to its `gather`, called from a connection's own task or from elsewhere.
unfoldable pub begin_stop : Option ℕ → ControlServer → ControlServer
begin_stop current s = record s {
  stopping = true;
  listening = false;
  handlers = map (cancel current) s.handlers;
  draining =
      some (keep (λ id. not (is_current current id)) (map {A = Task} (λ k. k.id) s.handlers));
}

-- Whether the `gather` is over: all tasks that it waits for have ended.
unfoldable pub is_drained : List ℕ → List Task → Bool
is_drained ids tasks = all (λ k. is_ended k.phase || not (member k.id ids)) tasks

-- The rest of `stop`.
unfoldable pub end_stop : ControlServer → ControlServer
end_stop s = record s { socket_exists = false; draining = none }
