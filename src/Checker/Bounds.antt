-- ===== src/Checker/Bounds.antt =====
-- The request loop ends, follows no more redirects than allowed, and reads a bounded body.
use xray_e2e_prober.Base.{
  ℕ, zero, suc, ◌+◌, ◌≤◌, ◌<◌, String, ◌≡◌, refl, inl, inr, Bool, true, false, not, ◌&&◌, Option,
  none, some, List, [], ◌∷◌, ltb, leb, nat_eq, member, length, Result, ok, err, >>=-eq-ok, reject,
  arith, Bool-cases,
}
use xray_e2e_prober.Checker.Failures.{Failure, plain, too_many_redirects, invalid_response}
use xray_e2e_prober.Checker.Request
use xray_e2e_prober.Checker.Request.{
  Response, Answer, raised, responded, Client, ResponseData, Plan, differs_from, read_chunks,
  check_declared, body_read, read_response, finish, request_loop, request,
}

module _ (client : Client) (redirect_url : String → String → Result Failure String) (p : Plan) where
  -- A body that was read is within the limit and is what the chunks hold, if it is retained.
  read_chunks-le :
      (cs : List (List ℕ)) (n : ℕ) (body : List ℕ) (got : ℕ × List ℕ)
      → n ≤ p.body_limit
      → read_chunks p n body cs ≡ ok got
      → got.0 ≤ p.body_limit
  unfolding read_chunks
  read_chunks-le [] n body got le e = ground (arith, e)
  read_chunks-le (c ∷ cs) n body got le e = elim (Bool-cases (ltb p.body_limit (n + length c))) [
    | inl large ↦ cc (rw large at e)
    | inr fits ↦ read_chunks-le cs (n + length c) _ got (ground (arith, fits)) (rw fits at e)
  ]

  -- What is promised of a returned response.
  pub record IsBounded (d : ResponseData) : Type 0 where
    pub redirects : d.redirect_count ≤ p.max_redirects
    pub bytes : d.bytes_read ≤ p.body_limit
    pub exact :
        (n : ℕ)
        → p.expected_body_bytes ≡ some n
        → (member d.status_code p.accepted_statuses && p.read_body) ≡ true
        → d.bytes_read ≡ n

  abbrev pub Promised : Result Failure ResponseData → Type 0
  Promised (err e) = Unit {0}
  Promised (ok d) = IsBounded d

  not_rejected : (b : Bool) (e : Failure) (u : Unit {0}) → reject b e ≡ ok u → b ≡ false
  not_rejected b e u h = ground (arith, h)

  read_response_bounds :
      (r : Response) (d : ResponseData)
      → read_response p r ≡ ok d
      → (d.status_code ≡ r.status)
        × (d.bytes_read ≤ p.body_limit)
        × ((n : ℕ)
            → p.expected_body_bytes ≡ some n
            → (member r.status p.accepted_statuses && p.read_body) ≡ true
            → d.bytes_read ≡ n)
  unfolding read_response
  read_response_bounds r d e =
      elim (Bool-cases (member r.status p.accepted_statuses && p.read_body)) [
        | inr skipped ↦
            let e' = rw skipped at e in
            (ground (arith, e'), ground (arith, e'), λ n x t. cc (skipped))
        | inl read ↦
            let (_, _, e1) = >>=-eq-ok (check_declared p r.declared_length) _ (rw read at e) in
            let (_, _, e2) = >>=-eq-ok (reject (not r.is_identity) (plain invalid_response)) _ e1 in
            let (got, g, e3) = >>=-eq-ok (read_chunks p 0 [] r.chunks) _ e2 in
            let (u, exact, e4) =
              >>=-eq-ok (reject (differs_from p.expected_body_bytes got.0) (plain invalid_response))
                _ e3 in
            let fits = read_chunks-le r.chunks 0 [] got (omega arith) g in
            let same = not_rejected (differs_from p.expected_body_bytes got.0) _ u exact in
            (
              ground (arith, e4),
              ground (arith, e4, fits),
              λ n x t. ground (arith, e4, rw x at same),
            )
      ]

  promise :
      (x : Result Failure ResponseData) → ((d : ResponseData) → x ≡ ok d → IsBounded d) → Promised x
  promise (err e) f = tt
  promise (ok d) f = f d refl

  finish_bounds :
      (count : ℕ) (r : Response) (d : ResponseData)
      → finish client redirect_url p count r ≡ ok d
      → IsBounded d
  unfolding finish
  finish_bounds count r d e =
      let (u, few, e1) =
        >>=-eq-ok (reject (ltb p.max_redirects count) (plain too_many_redirects)) _ e in
      let (got, g, e2) = >>=-eq-ok (read_response p r) _ e1 in
      let (status, bytes, exact) = read_response_bounds r got g in
      let fits = not_rejected (ltb p.max_redirects count) _ u few in
      record {
        redirects = ground (arith, e2, fits);
        bytes = ground (arith, e2, bytes);
        exact = λ n x t. ground (arith, e2, exact n x, status);
      }

  abbrev Returns : Option (Result Failure ResponseData) → Type 0
  Returns x = (r : Result Failure ResponseData) × (x ≡ some r) × Promised r

  -- One round, given the rounds behind it, which are reached only while redirects are left.
  module _ (fuel count : ℕ)
      (ih : count < p.max_redirects
        → (url : String) → Returns (request_loop client redirect_url p fuel (count + 1) url)) where
    on_next :
        (u : Result Failure String)
        → count < p.max_redirects
        → Returns (
            Request.go_on client redirect_url p
              (request_loop client redirect_url p fuel (count + 1))
              u)
    on_next (err e) left = (err e, refl, tt)
    on_next (ok u) left = ih left u

    on_redirect :
        (l : Option String) (r : Response)
        → Returns (
            Request.redirected client redirect_url p count r
              (request_loop client redirect_url p fuel (count + 1))
              l)
    on_redirect none r =
        (finish client redirect_url p count r, refl, promise _ (finish_bounds count r))
    on_redirect (some l) r = elim (Bool-cases (leb p.max_redirects count)) [
      | inl full ↦ rw full (err (plain too_many_redirects), refl, tt)
      | inr left ↦ rw left (on_next (redirect_url r.url l) (ground (arith, left)))
    ]

    on_answer :
        (a : Answer)
        → Returns (
            Request.answered client redirect_url p count
              (request_loop client redirect_url p fuel (count + 1))
              a)
    on_answer (raised e) = (err e, refl, tt)
    on_answer (responded r) = on_redirect (Request.next_location client redirect_url p r) r

  loop-Returns :
      (fuel count : ℕ) (url : String)
      → p.max_redirects < count + fuel
      → count ≤ p.max_redirects
      → Returns (request_loop client redirect_url p fuel count url)
  unfolding request_loop
  loop-Returns zero count url enough le = absurd (omega arith)
  loop-Returns (suc fuel) count url enough le =
      on_answer fuel count (λ left u. loop-Returns fuel (count + 1) u (omega arith) (omega arith))
        (client count url)

  pub request_returns :
      (url : String)
      → (r : Result Failure ResponseData) × (request client redirect_url p url ≡ some r)
        × Promised r
  unfolding request
  request_returns url = loop-Returns (suc p.max_redirects) 0 url (omega arith) (omega arith)
