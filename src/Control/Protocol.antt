-- ===== src/Control/Protocol.antt =====
-- src/xray_e2e_prober/control.py: `ControlServer._handle` between the line it reads and the line it
-- writes, `request` and `control_available`. A stream is what the other side sends until it closes it.
use xray_e2e_prober.Base.{
  ℕ, suc, ◌*◌, String, Bool, true, false, not, ◌||◌, Option, none, some, List, [], ◌∷◌, ◌++◌,
  if◌then◌else◌, ltb, ◌==◌, nat_eq, string_eq, length, Result, ok, err, ◌>>=◌, ◌>>◌, reject,
}

-- JSON values. A number is its text; an object holds no key twice.
mutual
  pub data Json : Type 0 where
    null : Json
    boolean : Bool → Json
    number : String → Json
    text : String → Json
    array : Items → Json
    object : Fields → Json

  pub data Items : Type 0 where
    nil : Items
    cons : Json → Items → Items

  pub data Fields : Type 0 where
    end : Fields
    field : String → Json → Fields → Fields

-- `fields.get(key)`
unfoldable pub get : String → Fields → Option Json
get key end = none
get key (field name value fields) = if name == key then some value else get key fields

-- `json.dumps` with its separators and UTF-8, and `json.loads`, which may raise a JSONDecodeError, and
-- which numbers are zero.
pub record JsonLibrary : Type 0 where
  pub dumps : Json → List ℕ
  pub loads : List ℕ → Option Json
  pub is_zero : String → Bool

abbrev pub max_control_message : ℕ
max_control_message = 4 * 1024 * 1024

abbrev pub newline : ℕ
newline = 10

-- What ends a call besides a result.
pub data Failure : Type 0 where
  control_error : String → Failure
  timed_out value_error decode_error attribute_error connection_error : Failure

-- What the other side sends: nothing in time, a connection that breaks, or bytes and an end.
pub data Stream : Type 0 where
  silent broken : Stream
  sent : List ℕ → Stream

-- The bytes up to the first newline and with it, or all of them.
unfoldable pub first_line : List ℕ → List ℕ
first_line [] = []
first_line (b ∷ bs) = let rest = first_line bs in if b == newline then b ∷ [] else b ∷ rest

unfoldable pub ends_with_newline : List ℕ → Bool
ends_with_newline [] = false
ends_with_newline (b ∷ []) = b == newline
ends_with_newline (b ∷ c ∷ bs) = ends_with_newline (c ∷ bs)

-- `reader.readline()` with the limit of the stream: of a longer line it raises a ValueError.
unfoldable pub read_line : Stream → Result Failure (List ℕ)
read_line silent = err timed_out
read_line broken = err connection_error
read_line (sent bytes) =
    if ltb (suc (suc max_control_message)) (length (first_line bytes))
    then err value_error
    else ok (first_line bytes)

abbrev pub is_empty : List ℕ → Bool
is_empty [] = true
is_empty (b ∷ bs) = false

abbrev pub or_decode_error : Option Json → Result Failure Json
or_decode_error none = err decode_error
or_decode_error (some j) = ok j

abbrev pub invalid_request : Failure
invalid_request = control_error "invalid control request"

abbrev pub fields_of : Json → Result Failure Fields
fields_of (object fields) = ok fields
fields_of _ = err invalid_request

abbrev pub command_of : Option Json → Result Failure String
command_of (some (text command)) = ok command
command_of _ = err invalid_request

-- `request.get("params", {})`
abbrev pub params_of : Option Json → Result Failure Fields
params_of none = ok end
params_of (some (object fields)) = ok fields
params_of (some _) = err (control_error "invalid control params")

abbrev pub Handler : Type 0
Handler = String → Fields → Result Failure Json

abbrev pub success : Json → Json
success result = object (field "ok" (boolean true) (field "result" result end))

abbrev pub failure : String → Json
failure error = object (field "ok" (boolean false) (field "error" (text error) end))

module _ (json : JsonLibrary) (redact_text : Failure → String) where
  unfoldable pub answer : Handler → Stream → Result Failure Json
  answer handler stream = do
    raw ← read_line stream
    reject (is_empty raw || ltb max_control_message (length raw) || not (ends_with_newline raw))
        invalid_request
    request ← or_decode_error (json.loads raw)
    fields ← fields_of request
    command ← command_of (get "command" fields)
    params ← params_of (get "params" fields)
    handler command params

  abbrev pub response_of : Result Failure Json → Json
  response_of (ok result) = success result
  response_of (err e) = failure (redact_text e)

  abbrev pub line_of : Json → List ℕ
  line_of j = json.dumps j ++ newline ∷ []

  -- `_handle`: what it writes, which is nothing once the server is stopping.
  unfoldable pub handle : Bool → Handler → Stream → List ℕ
  handle stopping handler stream =
      if stopping then [] else line_of (response_of (answer handler stream))

  -- The payload of `request`; None and an empty dictionary both give an empty one.
  abbrev pub payload : String → Fields → Json
  payload command params =
      object (field "command" (text command) (field "params" (object params) end))

  -- Whether Python takes a value for true.
  abbrev pub is_truthy : Option Json → Bool
  is_truthy none = false
  is_truthy (some null) = false
  is_truthy (some (boolean b)) = b
  is_truthy (some (number t)) = not (json.is_zero t)
  is_truthy (some (text t)) = not (t == "")
  is_truthy (some (array nil)) = false
  is_truthy (some (array (cons j js))) = true
  is_truthy (some (object end)) = false
  is_truthy (some (object (field k j js))) = true

  abbrev pub or_null : Option Json → Json
  or_null none = null
  or_null (some j) = j

  abbrev pub response_fields : Json → Result Failure Fields
  response_fields (object fields) = ok fields
  response_fields _ = err attribute_error

  -- `str(response.get("error", ...))`; the text of a value that is no text is an argument.
  abbrev pub error_text : (Json → String) → Option Json → String
  error_text str none = "daemon command failed"
  error_text str (some (text t)) = t
  error_text str (some j) = str j

  -- `request`, from the line that it reads.
  unfoldable pub result_of : (Json → String) → Stream → Result Failure Json
  result_of str stream = do
    raw ← read_line stream
    reject (is_empty raw || ltb max_control_message (length raw))
        (control_error "invalid daemon response")
    response ← or_decode_error (json.loads raw)
    fields ← response_fields response
    reject (not (is_truthy (get "ok" fields))) (control_error (error_text str (get "error" fields)))
    ok (or_null (get "result" fields))

  -- `request` to a server that answers what it writes; None is a socket that takes no connection.
  unfoldable pub request :
      (Json → String) → Option (List ℕ → Stream) → String → Fields → Result Failure Json
  request str none command params = err (control_error "daemon control socket is unavailable")
  request str (some server) command params =
      result_of str (server (line_of (payload command params)))

  abbrev pub pong_of : Json → Result Failure Bool
  pong_of (object end) = ok false
  pong_of (object fields) = ok (is_truthy (get "pong" fields))
  pong_of j = if is_truthy (some j) then err attribute_error else ok false

  abbrev pub available_of : Result Failure Json → Result Failure Bool
  available_of (ok result) = pong_of result
  available_of (err (control_error t)) = ok false
  available_of (err timed_out) = ok false
  available_of (err decode_error) = ok false
  available_of (err connection_error) = ok false
  available_of (err value_error) = err value_error
  available_of (err attribute_error) = err attribute_error

  -- `control_available`
  unfoldable pub control_available :
      (Json → String) → Option (List ℕ → Stream) → Result Failure Bool
  control_available str server = available_of (request str server "ping" end)
