-- ===== src/Sources/Config.antt =====
-- src/xray_e2e_prober/sources.py: the resolved settings of a source, `_resolved_headers`,
-- `_secret_reference`, `_location`, and `_origin`.
use Prim.Native.String.{◌++◌}
use xray_e2e_prober.Base.{
  ℕ, String, Bool, false, not, ◌&&◌, ◌||◌, Option, none, some, [], ◌∷◌, if◌then◌else◌, ◌==◌,
  string_eq, nat_eq, Dict, insert, Result, ok, err, ◌>>=◌, ◌>>◌, reject,
}

-- `SourceFetchError` with its messages, and the exceptions that it lets pass: a ValueError,
-- an OSError, and one of the client's that is no failure of the transport.
pub data FetchError : Type 0 where
  secret_unavailable invalid_secret_reference unsupported_kind invalid_url : FetchError
  not_http plain_http redirect_limit no_location unsupported_scheme redirected_to_plain : FetchError
  bad_status too_large request_failed local_unreadable : FetchError
  value_error os_error client_error : FetchError

pub record SecretReference : Type 0 where
  pub file : Option String
  pub env : Option String

-- A configured header: a literal, or a file that holds the value.
pub data HeaderValue : Type 0 where
  literal : String → HeaderValue
  value_file : String → HeaderValue

pub record Source : Type 0 where
  pub kind : String
  pub location : Option String
  pub location_ref : Option SecretReference
  pub headers : Dict HeaderValue
  pub headers_ref : Dict SecretReference
  pub allow_insecure_http : Bool
  pub max_bytes : ℕ
  pub max_redirects : ℕ

-- What the environment gives: the text of a secret's file, under the base directory or not, and the
-- variables.
pub record Secrets : Type 0 where
  pub from_file : String → Result FetchError String
  pub under_base : String → String
  pub variable : String → Option String

-- `if value:` on a text that may be missing.
abbrev pub given : Option String → Bool
given none = false
given (some t) = not (t == "")

abbrev pub text_of : Option String → String
text_of none = ""
text_of (some t) = t

abbrev pub or_unavailable : Option String → Result FetchError String
or_unavailable none = err secret_unavailable
or_unavailable (some t) = ok t

module _ (secrets : Secrets) where
  unfoldable pub secret_reference : SecretReference → Result FetchError String
  secret_reference r =
      if given r.file
      then secrets.from_file (secrets.under_base (text_of r.file))
      else if given r.env
      then or_unavailable (secrets.variable (text_of r.env))
      else err invalid_secret_reference

  abbrev pub header_value : HeaderValue → Result FetchError String
  header_value (literal t) = ok t
  header_value (value_file path) = secrets.from_file path

  unfoldable pub literal_headers : Dict HeaderValue → Dict String → Result FetchError (Dict String)
  literal_headers [] headers = ok headers
  literal_headers ((key, value) ∷ rest) headers =
      header_value value >>= λ t. literal_headers rest (insert key t headers)

  unfoldable pub secret_headers :
      Dict SecretReference → Dict String → Result FetchError (Dict String)
  secret_headers [] headers = ok headers
  secret_headers ((key, reference) ∷ rest) headers =
      secret_reference reference >>= λ t. secret_headers rest (insert key t headers)

  -- `_resolved_headers`
  unfoldable pub resolved_headers : Source → Result FetchError (Dict String)
  resolved_headers s = literal_headers s.headers [] >>= secret_headers s.headers_ref

  abbrev pub location_of : Option String → Option SecretReference → Result FetchError String
  location_of (some t) reference = ok t
  location_of none (some reference) = secret_reference reference
  location_of none none = ok ""

-- The port of a parsed URL: `.port` raises a ValueError, is None, or is a number.
pub data Port : Type 0 where
  bad_port no_port : Port
  port_of : ℕ → Port

pub record Url : Type 0 where
  pub scheme : String
  pub hostname : Option String
  pub port : Port

abbrev pub is_http : Url → Bool
is_http u = u.scheme == "http" || u.scheme == "https"

abbrev pub default_port : String → ℕ
default_port scheme = if scheme == "https" then 443 else 80

-- What of Python and its library the texts of URLs go through: `urlsplit` and `urljoin`, which may
-- raise a ValueError, the number that decimal digits stand for, and the digits of a number.
pub record UrlLibrary : Type 0 where
  pub urlsplit : String → Option Url
  pub urljoin : String → String → Option String
  pub decimal : String → Option ℕ
  pub str : ℕ → String

module _ (lib : UrlLibrary) where
  unfoldable pub suffix : String → Port → Result FetchError String
  suffix scheme bad_port = err invalid_url
  suffix scheme no_port = ok ""
  suffix scheme (port_of n) =
      ok (if not (n == 0) && not (n == default_port scheme) then ":" ++ lib.str n else "")

  -- `_origin`
  unfoldable pub origin_of : Option Url → Result FetchError String
  origin_of none = err invalid_url
  origin_of (some u) = do
    port ← suffix u.scheme u.port
    reject (not (is_http u) || not (given u.hostname)) invalid_url
    ok (((u.scheme ++ "://") ++ text_of u.hostname) ++ port)
