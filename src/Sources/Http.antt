-- ===== src/Sources/Http.antt =====
-- src/xray_e2e_prober/sources.py: `_fetch_http` with its redirects, and `_read_limited`. A fetch
-- returns its result and the requests that it made, in order. The outer timeout is a failure of the
-- client at any request or chunk.
use xray_e2e_prober.Base.{
  ℕ, zero, suc, ◌+◌, String, Bool, false, not, ◌&&◌, ◌||◌, Option, none, some, List, [], ◌∷◌, ◌++◌,
  if◌then◌else◌, ltb, leb, ◌==◌, string_eq, nat_eq, option_eq, length, member, Dict, insert, Result,
  ok, err, ◌>>=◌, ◌>>◌, reject,
}
use xray_e2e_prober.Sources.Config.{
  FetchError, invalid_url, not_http, plain_http, redirect_limit, no_location, unsupported_scheme,
  redirected_to_plain, bad_status, too_large, request_failed, value_error, client_error, Source,
  Secrets, resolved_headers, given, text_of, Url, Port, bad_port, no_port, port_of, is_http,
  UrlLibrary, origin_of,
}

pub data Body : Type 0 where
  complete broken : Body
  chunk : List ℕ → Body → Body

pub record Response : Type 0 where
  pub status_code : ℕ
  pub url : String
  pub location : Option String
  pub content_type : Option String
  pub content_length : Option String
  pub body : Body

pub data Reply : Type 0 where
  transport_failed other_failure : Reply
  answered : Response → Reply

pub record Request : Type 0 where
  pub url : String
  pub headers : Dict String

pub record SourcePayload : Type 0 where
  pub content : List ℕ
  pub content_type : Option String
  pub origin : String
  pub documents : List (List ℕ)

abbrev pub redirect_statuses : List ℕ
redirect_statuses = 301 ∷ 302 ∷ 303 ∷ 307 ∷ 308 ∷ []

abbrev pub exceeds : Option ℕ → ℕ → Bool
exceeds none limit = false
exceeds (some n) limit = ltb limit n

abbrev pub declared_length : (String → Option ℕ) → Option String → Option ℕ
declared_length decimal none = none
declared_length decimal (some t) = if t == "" then none else decimal t

unfoldable pub read_chunks : ℕ → List ℕ → Body → Result FetchError (List ℕ)
read_chunks limit content complete = ok content
read_chunks limit content broken = err request_failed
read_chunks limit content (chunk c body) =
    let onward = read_chunks limit (content ++ c) body in
    if ltb limit (length content + length c) then err too_large else onward

-- `_read_limited`
unfoldable pub read_limited : (String → Option ℕ) → Response → ℕ → Result FetchError (List ℕ)
read_limited decimal r limit = do
  reject (exceeds (declared_length decimal r.content_length) limit) too_large
  read_chunks limit [] r.body

-- A response either ends the fetch or sends it on.
pub data Turn : Type 0 where
  stop : Result FetchError SourcePayload → Turn
  follow : String → Turn

abbrev pub turned : Result FetchError String → Turn
turned (err e) = stop (err e)
turned (ok url) = follow url

abbrev pub or_value_error : {A : Type 0} → Option A → Result FetchError A
or_value_error none = err value_error
or_value_error (some a) = ok a

abbrev pub Outcome : Type 0
Outcome = Result FetchError SourcePayload × List Request

abbrev pub carry : Request → (String → Outcome) → Turn → Outcome
carry request go (stop r) = (r, request ∷ [])
carry request go (follow url) = let out = go url in (out.0, request ∷ out.1)

abbrev pub with_value : {A : Type 0} → Result FetchError A → (A → Outcome) → Outcome
with_value (err e) k = (err e, [])
with_value (ok a) k = k a

abbrev pub base_headers : String → Dict String
base_headers user_agent = ("User-Agent", user_agent) ∷ []

-- `{**base_headers, **resolved_headers}`
unfoldable pub merged : Dict String → Dict String → Dict String
merged headers [] = headers
merged headers ((key, value) ∷ rest) = merged (insert key value headers) rest

module _ (lib : UrlLibrary) (secrets : Secrets) (client : ℕ → Request → Reply) (user_agent : String)
    (source : Source) where
  -- The URL that a redirect leads to, if the policy admits it.
  unfoldable pub redirect_target : ℕ → Response → Result FetchError String
  redirect_target count r = do
    reject (leb source.max_redirects count) redirect_limit
    reject (not (given r.location)) no_location
    url ← or_value_error (lib.urljoin r.url (text_of r.location))
    target ← or_value_error (lib.urlsplit url)
    reject (not (is_http target)) unsupported_scheme
    reject (target.scheme == "http" && not source.allow_insecure_http) redirected_to_plain
    ok url

  unfoldable pub payload_of : Response → Result FetchError SourcePayload
  payload_of r = do
    reject (ltb r.status_code 200 || leb 300 r.status_code) bad_status
    content ← read_limited lib.decimal r source.max_bytes
    origin ← origin_of lib (lib.urlsplit r.url)
    ok record { content = content; content_type = r.content_type; origin = origin; documents = [] }

  abbrev pub turn : ℕ → Reply → Turn
  turn count transport_failed = stop (err request_failed)
  turn count other_failure = stop (err client_error)
  turn count (answered r) =
      if member r.status_code redirect_statuses
      then turned (redirect_target count r)
      else stop (payload_of r)

  -- The configured headers go to the configured origin only.
  abbrev pub request_headers : String → Dict String → String → Dict String
  request_headers original headers origin =
      if origin == original then headers else base_headers user_agent

  -- The loop over `range(max_redirects + 1)`.
  unfoldable pub fetch_loop : ℕ → ℕ → String → Dict String → String → Outcome
  fetch_loop zero count original headers url = (err request_failed, [])
  fetch_loop (suc left) count original headers url =
      with_value (origin_of lib (lib.urlsplit url)) λ origin.
        let request : Request = record {
          url = url;
          headers = request_headers original headers origin;
        } in
        carry request (fetch_loop left (suc count) original headers)
          (turn count (client count request))

  abbrev pub checked_port : Port → Result FetchError (Unit {0})
  checked_port bad_port = err invalid_url
  checked_port no_port = ok tt
  checked_port (port_of n) = ok tt

  abbrev pub or_invalid : Option Url → Result FetchError Url
  or_invalid none = err invalid_url
  or_invalid (some u) = ok u

  -- The tests before the first request.
  unfoldable pub check_location : String → Result FetchError (Unit {0})
  check_location location = do
    u ← or_invalid (lib.urlsplit location)
    checked_port u.port
    reject (not (is_http u) || not (given u.hostname)) not_http
    reject (u.scheme == "http" && not source.allow_insecure_http) plain_http

  -- `_fetch_http`
  unfoldable pub fetch_http : String → Outcome
  fetch_http location = with_value (check_location location) λ checked.
      with_value (resolved_headers secrets source) λ configured.
        with_value (origin_of lib (lib.urlsplit location)) λ original.
          fetch_loop (suc source.max_redirects) 0 original
            (merged (base_headers user_agent) configured) location
