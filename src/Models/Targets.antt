-- ===== src/Models/Targets.antt =====
-- src/xray_e2e_prober/models.py: `ThroughputConfig`, `TargetConfig` and `TargetSetConfig` with the
-- validators over several fields. `urlsplit` is an argument. Seconds are kept in milliseconds.
use xray_e2e_prober.Base.{
  ℕ, String, Bool, true, false, not, ◌&&◌, ◌||◌, Option, none, some, List, [], ◌∷◌, any, map, count,
  if◌then◌else◌, ltb, ◌==◌, nat_eq, string_eq, unique, member, Result, ok, err, ◌>>◌, reject,
}

pub data Direction : Type 0 where
  download upload : Direction

pub data Method : Type 0 where
  get post : Method

pub data MatchKind : Type 0 where
  exact regex : MatchKind

pub record BodyMatcher : Type 0 where
  pub kind : MatchKind
  pub value : String

pub record ThroughputConfig : Type 0 where
  pub direction : Direction
  pub expected_bytes : ℕ
  pub interval_ms : ℕ

pub record TargetConfig : Type 0 where
  pub target_id : String
  pub url : String
  pub method : Method
  pub expected_statuses : List ℕ
  pub timeout_ms : Option ℕ
  pub body : Option BodyMatcher
  pub throughput : Option ThroughputConfig
  pub max_body_bytes : ℕ
  pub follow_redirects : Bool
  pub max_redirects : ℕ
  pub enabled : Bool

pub data ModelError : Type 0 where
  url_not_absolute url_userinfo bad_status body_with_throughput post_without_upload : ModelError
  wrong_method upload_redirects redirects_disabled duplicate_target quorum_too_large : ModelError
  duplicate_default duplicate_source duplicate_target_set duplicate_assertion : ModelError
  duplicate_assignment unknown_default unknown_target_set unknown_assertion : ModelError
  unknown_source throughput_timeout : ModelError

-- The parts of a URL that the prober reads.
pub record SplitUrl : Type 0 where
  pub scheme : String
  pub netloc : String
  pub username : Option String
  pub password : Option String

abbrev pub is_some' {ℓ} : {A : Type ℓ} → Option A → Bool
is_some' none = false
is_some' (some a) = true

-- `TargetConfig.valid_url`
unfoldable pub valid_url : (String → SplitUrl) → String → Result ModelError String
valid_url urlsplit value = do
  let parsed = urlsplit value
  reject (not (member parsed.scheme ("http" ∷ "https" ∷ [])) || parsed.netloc == "")
      url_not_absolute
  reject (is_some' parsed.username || is_some' parsed.password) url_userinfo
  ok value

-- `TargetConfig.valid_status_codes`
unfoldable pub valid_status_codes : List ℕ → Result ModelError (List ℕ)
valid_status_codes values =
    if any (λ value. ltb value 100 || ltb 599 value) values then err bad_status else ok values

abbrev pub is_get : Method → Bool
is_get get = true
is_get post = false

abbrev pub is_upload : Direction → Bool
is_upload upload = true
is_upload download = false

abbrev pub expected_method : Direction → Method
expected_method upload = post
expected_method download = get

abbrev pub same_method : Method → Method → Bool
same_method get get = true
same_method post post = true
same_method _ _ = false

-- The tests of `valid_redirect_policy` that depend on the throughput.
unfoldable pub valid_throughput :
    Option ThroughputConfig → TargetConfig → Result ModelError (Unit {0})
valid_throughput none t = reject (not (is_get t.method)) post_without_upload
valid_throughput (some tp) t = do
  reject (not (same_method t.method (expected_method tp.direction))) wrong_method
  reject (is_upload tp.direction && t.follow_redirects) upload_redirects

-- `TargetConfig.valid_redirect_policy`: an enabled redirect policy gets five redirects by default.
unfoldable pub valid_redirect_policy : TargetConfig → Result ModelError TargetConfig
unfolding valid_throughput
valid_redirect_policy t = do
  reject (is_some' t.throughput && is_some' t.body) body_with_throughput
  valid_throughput t.throughput t
  reject (not t.follow_redirects && ltb 0 t.max_redirects) redirects_disabled
  ok (if t.follow_redirects && t.max_redirects == 0 then record t { max_redirects = 5 } else t)

pub record TargetSetConfig : Type 0 where
  pub target_set_id : String
  pub targets : List TargetConfig
  pub quorum : ℕ
  pub enabled : Bool

-- An enabled target that counts for the quorum.
abbrev pub is_health : TargetConfig → Bool
is_health t = t.enabled && not (is_some' t.throughput)

-- `TargetSetConfig.valid_quorum`
unfoldable pub valid_quorum : TargetSetConfig → Result ModelError TargetSetConfig
valid_quorum s = do
  reject (not (unique (map (λ t. t.target_id) s.targets))) duplicate_target
  reject (ltb (count is_health s.targets) s.quorum) quorum_too_large
  ok s
