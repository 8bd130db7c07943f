-- ===== src/Sources/Requests.antt =====
-- Which requests a fetch makes, with which headers, and how much it reads.

use xray_e2e_prober.Base.{
  ℕ, zero, suc, ◌+◌, ◌≤◌, String, ◌≡◌, refl, ap, ◌∙◌, subst, true, false, not, ◌&&◌, ◌||◌, Option,
  none, some, List, [], ◌++◌, ltb, leb, ◌==◌, string_eq, nat_eq, Bool-cases, Result-cases, inl, inr,
  ◌⊎◌, All, length, length-append, member, Dict, Result, ok, err, reject, >>=-eq-ok, beq→eq, arith,
}
use xray_e2e_prober.Sources.Config.{
  FetchError, not_http, redirect_limit, no_location, unsupported_scheme, redirected_to_plain,
  bad_status, too_large, Source, Secrets, resolved_headers, given, text_of, Url, is_http,
  UrlLibrary, origin_of,
}
use xray_e2e_prober.Sources.Http

-- What is read never passes the limit.
read_chunks_bound :
    (limit : ℕ) (content : List ℕ) (body : Http.Body) {all : List ℕ}
    → length content ≤ limit
    → Http.read_chunks limit content body ≡ ok all
    → length all ≤ limit
unfolding Http.read_chunks
read_chunks_bound limit content Http.complete le e = ground (arith, e, le)
read_chunks_bound limit content Http.broken le e = cc (e)
read_chunks_bound limit content (Http.chunk c body) le e =
    elim (Bool-cases (ltb limit (length content + length c))) [
      | inl over ↦ cc (rw over at e)
      | inr fits ↦
          read_chunks_bound limit (content ++ c) body
            (rw (length-append content c) (ground (arith, fits))) (rw fits at e)
    ]

module _ (lib : UrlLibrary) (secrets : Secrets) (client : ℕ → Http.Request → Http.Reply)
    (user_agent : String) (source : Source) where
  abbrev pub IsAdmitted : Url → Type 0
  IsAdmitted u = (u.scheme ≡ "https") ⊎ ((u.scheme ≡ "http") × (source.allow_insecure_http ≡ true))

  abbrev pub Leads : String → Type 0
  Leads url = (u : Url) × (lib.urlsplit url ≡ some u) × IsAdmitted u

  -- An admitted URL, and the configured headers only where its origin is the configured one.
  pub record IsSafe (original : String) (headers : Dict String) (request : Http.Request)
      : Type 0 where
    pub admitted : Leads request.url
    pub sent :
        ((origin_of lib (lib.urlsplit request.url) ≡ ok original) × (request.headers ≡ headers))
        ⊎ (request.headers ≡ Http.base_headers user_agent)

  abbrev pub Fits : Result FetchError Http.SourcePayload → Type 0
  Fits (ok p) = length p.content ≤ source.max_bytes
  Fits (err e) = Unit

  abbrev IsGoodTurn : Http.Turn → Type 0
  IsGoodTurn (Http.stop r) = Fits r
  IsGoodTurn (Http.follow url) = Leads url

  payload_small :
      (r : Http.Response) (p : Http.SourcePayload)
      → Http.payload_of lib secrets client user_agent source r ≡ ok p
      → length p.content ≤ source.max_bytes
  unfolding Http.payload_of Http.read_limited
  payload_small r p e =
      let (_, _, e1) =
        >>=-eq-ok (reject (ltb r.status_code 200 || leb 300 r.status_code) bad_status) _ e in
      let (content, got, e2) = >>=-eq-ok (Http.read_limited lib.decimal r source.max_bytes) _ e1 in
      let (_, _, chunks) =
        >>=-eq-ok
          (reject
            (Http.exceeds (Http.declared_length lib.decimal r.content_length) source.max_bytes)
            too_large)
          _ got in
      let (origin, _, e3) = >>=-eq-ok (origin_of lib (lib.urlsplit r.url)) _ e2 in
      let same : content ≡ p.content = ground (arith, e3) in
      subst (λ c. length c ≤ source.max_bytes) same
        (read_chunks_bound source.max_bytes [] r.body (omega arith) chunks)

  payload_of-Fits :
      (r : Http.Response) → Fits (Http.payload_of lib secrets client user_agent source r)
  payload_of-Fits r = elim (Result-cases (Http.payload_of lib secrets client user_agent source r)) [
    | inr (e, failed) ↦ rw failed tt
    | inl (p, e) ↦ rw e (payload_small r p e)
  ]

  IsAdmitted-of :
      (u : Url)
      → not (is_http u) ≡ false
      → (u.scheme == "http" && not source.allow_insecure_http) ≡ false
      → IsAdmitted u
  IsAdmitted-of u http allowed = elim (Bool-cases (u.scheme == "http")) [
    | inl plain ↦ inr (beq→eq u.scheme "http" plain, ground (arith, plain, allowed))
    | inr other ↦ inl (beq→eq u.scheme "https" (ground (arith, other, http)))
  ]

  redirect_target-Leads :
      (count : ℕ) (r : Http.Response) (url : String)
      → Http.redirect_target lib secrets client user_agent source count r ≡ ok url
      → Leads url
  unfolding Http.redirect_target
  redirect_target-Leads count r url e =
      let (_, _, e1) = >>=-eq-ok (reject (leb source.max_redirects count) redirect_limit) _ e in
      let (_, _, e2) = >>=-eq-ok (reject (not (given r.location)) no_location) _ e1 in
      let (joined, _, e3) =
        >>=-eq-ok (Http.or_value_error (lib.urljoin r.url (text_of r.location))) _ e2 in
      let (target, split, e4) = >>=-eq-ok (Http.or_value_error (lib.urlsplit joined)) _ e3 in
      let (_, http, e5) = >>=-eq-ok (reject (not (is_http target)) unsupported_scheme) _ e4 in
      let (_, allowed, e6) =
        >>=-eq-ok
          (reject (target.scheme == "http" && not source.allow_insecure_http) redirected_to_plain) _
          e5 in
      let same : joined ≡ url = ground (arith, e6) in
      subst Leads same (
        target,
        split_of (lib.urlsplit joined) target split,
        IsAdmitted-of target (ground (arith, http)) (ground (arith, allowed)),
      )
    where
      split_of : (o : Option Url) (u : Url) → Http.or_value_error o ≡ ok u → o ≡ some u
      split_of none u e = cc (e)
      split_of (some v) u e = ground (arith, e)

  turn-IsGoodTurn :
      (count : ℕ) (reply : Http.Reply)
      → IsGoodTurn (Http.turn lib secrets client user_agent source count reply)
  turn-IsGoodTurn count Http.transport_failed = tt
  turn-IsGoodTurn count Http.other_failure = tt
  turn-IsGoodTurn count (Http.answered r) =
      elim (Bool-cases (member r.status_code Http.redirect_statuses)) [
        | inr final ↦ rw final (payload_of-Fits r)
        | inl moved ↦
            rw moved
              (elim (Result-cases
                (Http.redirect_target lib secrets client user_agent source count r)) [
                  | inl (url, e) ↦ rw e (redirect_target-Leads count r url e)
                  | inr (failure, e) ↦ rw e tt
                ])
      ]

  -- What holds of a fetch from the limits on.
  pub record IsBounded (original : String) (headers : Dict String) (limit : ℕ) (out : Http.Outcome)
      : Type 0 where
    pub safe : All (IsSafe original headers) out.1
    pub few : length out.1 ≤ limit
    pub small : Fits out.0

  failed-IsBounded :
      (original : String) (headers : Dict String) (limit : ℕ) (e : FetchError)
      → IsBounded original headers limit (err e, [])
  failed-IsBounded original headers limit e = record { safe = tt; few = omega arith; small = tt }

  sent_headers :
      (original origin : String) (headers : Dict String) (url : String)
      → origin_of lib (lib.urlsplit url) ≡ ok origin
      → ((origin_of lib (lib.urlsplit url) ≡ ok original)
          × (Http.request_headers lib secrets client user_agent source original headers origin
              ≡ headers))
        ⊎ (Http.request_headers lib secrets client user_agent source original headers origin
            ≡ Http.base_headers user_agent)
  sent_headers original origin headers url e = elim (Bool-cases (origin == original)) [
    | inl same ↦ inl (e ∙ ap ok (beq→eq origin original same), rw same refl)
    | inr other ↦ inr (rw other refl)
  ]

  carry-IsBounded :
      (original : String) (headers : Dict String) (left : ℕ) (request : Http.Request)
      (go : String → Http.Outcome) (t : Http.Turn)
      → IsSafe original headers request
      → IsGoodTurn t
      → ((url : String) → Leads url → IsBounded original headers left (go url))
      → IsBounded original headers (suc left) (Http.carry request go t)
  carry-IsBounded original headers left request go (Http.stop r) s good more = record {
    safe = (s, tt);
    few = omega arith;
    small = good;
  }
  carry-IsBounded original headers left request go (Http.follow url) s good more =
      let v = more url good in
      record { safe = (s, v.safe); few = omega (arith, v.few); small = v.small }

  fetch_loop-IsBounded :
      (left count : ℕ) (original : String) (headers : Dict String) (url : String)
      → Leads url
      → IsBounded original headers left
          (Http.fetch_loop lib secrets client user_agent source left count original headers url)
  unfolding Http.fetch_loop
  fetch_loop-IsBounded zero count original headers url good = failed-IsBounded original headers 0 _
  fetch_loop-IsBounded (suc left) count original headers url good =
      elim (Result-cases (origin_of lib (lib.urlsplit url))) [
        | inr (e, failed) ↦ rw failed (failed-IsBounded original headers (suc left) e)
        | inl (origin, found) ↦
            let request : Http.Request = record {
              url = url;
              headers =
                  Http.request_headers lib secrets client user_agent source original headers origin;
            } in
            rw found (
              carry-IsBounded original headers left request _ _
                record { admitted = good; sent = sent_headers original origin headers url found }
                (turn-IsGoodTurn count (client count request))
                (λ next leads. fetch_loop-IsBounded left (suc count) original headers next leads))
      ]

  -- What a fetch over HTTP does with every client: no request, or the location has an origin and the
  -- configured headers could be resolved.
  abbrev pub IsDisciplined : String → Http.Outcome → Type 0
  IsDisciplined location out =
      ((e : FetchError) × (out ≡ (err e, [])))
      ⊎ ((original : String) × (configured : Dict String) × (origin_of lib (lib.urlsplit location)
            ≡ ok original)
          × (resolved_headers secrets source ≡ ok configured)
          × IsBounded original (Http.merged (Http.base_headers user_agent) configured)
              (suc source.max_redirects) out)

  check_location-Leads :
      (location : String)
      → Http.check_location lib secrets client user_agent source location ≡ ok tt
      → Leads location
  unfolding Http.check_location
  check_location-Leads location e =
      let (u, split, e1) =
        >>=-eq-ok (Http.or_invalid lib secrets client user_agent source (lib.urlsplit location)) _
          e in
      let (_, _, e2) =
        >>=-eq-ok (Http.checked_port lib secrets client user_agent source u.port) _ e1 in
      let (_, http, allowed) =
        >>=-eq-ok (reject (not (is_http u) || not (given u.hostname)) not_http) _ e2 in
      (
        u,
        split_of (lib.urlsplit location) u split,
        IsAdmitted-of u (ground (arith, http)) (ground (arith, allowed)),
      )
    where
      split_of :
          (o : Option Url) (u : Url)
          → Http.or_invalid lib secrets client user_agent source o ≡ ok u
          → o ≡ some u
      split_of none u e = cc (e)
      split_of (some v) u e = ground (arith, e)

  -- With every client and every answer, a fetch over HTTP returns. Either it fails without a request,
  -- or every request is for a URL that is HTTPS, or HTTP where that is allowed, and carries the
  -- configured headers only if the text of its origin is that of the location, else those of the
  -- application alone; at most max_redirects + 1 requests are made, and a payload has at most max_bytes bytes.
  pub fetch_http_requests :
      (location : String)
      → IsDisciplined location (Http.fetch_http lib secrets client user_agent source location)
  unfolding Http.fetch_http
  fetch_http_requests location =
      elim (Result-cases (Http.check_location lib secrets client user_agent source location)) [
        | inr (e, failed) ↦ inl (e, rw failed refl)
        | inl (u, checked) ↦ elim (Result-cases (resolved_headers secrets source)) [
          | inr (e, failed) ↦ inl (e, rw (checked, failed) refl)
          | inl (configured, resolved) ↦
              elim (Result-cases (origin_of lib (lib.urlsplit location))) [
                | inr (e, failed) ↦ inl (e, rw (checked, resolved, failed) refl)
                | inl (original, found) ↦ inr (
                  original,
                  configured,
                  found,
                  resolved,
                  rw (checked, resolved, found)
                      (fetch_loop-IsBounded (suc source.max_redirects) 0 original
                        (Http.merged (Http.base_headers user_agent) configured) location
                        (check_location-Leads location checked)),
                )
              ]
        ]
      ]
