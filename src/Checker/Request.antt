-- ===== src/Checker/Request.antt =====
-- src/xray_e2e_prober/checker.py: `_request`, its redirect loop and the bounded read of the body.
-- The client answers the n-th request, to a URL, with a response or an exception. Times are
-- nanoseconds. Where a redirect leads, `_redirect_url`, is an argument here and stands in Target.
use xray_e2e_prober.Base.{
  ℕ, zero, suc, ◌+◌, max, String, Bool, false, not, ◌&&◌, Option, none, some, List, [], ◌∷◌, ◌++◌,
  if◌then◌else◌, ltb, leb, ◌==◌, nat_eq, member, length, Result, ok, err, ◌>>=◌, ◌>>◌, reject,
}
use xray_e2e_prober.Checker.Failures.{
  Failure, plain, too_many_redirects, invalid_response, body_too_large,
}

pub record Response : Type 0 where
  pub status : ℕ
  pub url : String
  pub location : Option String
  pub encoding : Option String
  pub declared_length : Option ℕ
  pub is_identity : Bool
  pub chunks : List (List ℕ)
  pub bytes_written : ℕ
  pub upload_time : Option ℕ
  pub read_time : ℕ

pub data Answer : Type 0 where
  raised : Failure → Answer
  responded : Response → Answer

abbrev pub Client : Type 0
Client = ℕ → String → Answer

pub record ResponseData : Type 0 where
  pub status_code : ℕ
  pub body : List ℕ
  pub bytes_read : ℕ
  pub bytes_written : ℕ
  pub transfer : Option ℕ
  pub encoding : Option String
  pub redirect_count : ℕ

-- The keyword arguments of `_request`.
pub record Plan : Type 0 where
  pub body_limit : ℕ
  pub follow_redirects : Bool
  pub max_redirects : ℕ
  pub accepted_statuses : List ℕ
  pub read_body : Bool
  pub retain_body : Bool
  pub expected_body_bytes : Option ℕ

abbrev pub redirect_statuses : List ℕ
redirect_statuses = 301 ∷ 302 ∷ 303 ∷ 307 ∷ 308 ∷ []

abbrev pub differs_from : Option ℕ → ℕ → Bool
differs_from none n = false
differs_from (some expected) n = not (n == expected)

-- The `async for` loop over the chunks.
unfoldable pub read_chunks : Plan → ℕ → List ℕ → List (List ℕ) → Result Failure (ℕ × List ℕ)
read_chunks p read body [] = ok (read, body)
read_chunks p read body (c ∷ cs) =
    let onward = read_chunks p (read + length c) (if p.retain_body then body ++ c else body) cs in
    if ltb p.body_limit (read + length c)
    then err (plain (body_too_large (read + length c)))
    else onward

-- The tests of a declared length.
unfoldable pub check_declared : Plan → Option ℕ → Result Failure (Unit {0})
check_declared p none = ok tt
check_declared p (some declared) = do
  reject (differs_from p.expected_body_bytes declared) (plain invalid_response)
  reject (ltb p.body_limit declared) (plain (body_too_large declared))

abbrev pub body_read : Plan → Response → ℕ × List ℕ → ResponseData
body_read p r (n, body) = record {
  status_code = r.status;
  body = body;
  bytes_read = n;
  bytes_written = r.bytes_written;
  transfer = some (max r.read_time 1);
  encoding = r.encoding;
  redirect_count = 0;
}

abbrev pub no_body : Response → ResponseData
no_body r = record {
  status_code = r.status;
  body = [];
  bytes_read = 0;
  bytes_written = r.bytes_written;
  transfer = r.upload_time;
  encoding = r.encoding;
  redirect_count = 0;
}

-- The body of a final response.
unfoldable pub read_response : Plan → Response → Result Failure ResponseData
read_response p r =
    if member r.status p.accepted_statuses && p.read_body
    then (do
      check_declared p r.declared_length
      reject (not r.is_identity) (plain invalid_response)
      got ← read_chunks p 0 [] r.chunks
      reject (differs_from p.expected_body_bytes got.0) (plain invalid_response)
      ok (body_read p r got))
    else ok (no_body r)

module _ (client : Client) (redirect_url : String → String → Result Failure String) (p : Plan) where
  -- Where a response sends the client on to, if the policy follows it.
  abbrev pub next_location : Response → Option String
  next_location r =
      if p.follow_redirects && member r.status redirect_statuses then r.location else none

  -- A final response. The test before it never passes, since the count was tested before it grew.
  unfoldable pub finish : ℕ → Response → Result Failure ResponseData
  finish count r = do
    reject (ltb p.max_redirects count) (plain too_many_redirects)
    got ← read_response p r
    ok (record got { redirect_count = count })

  abbrev pub Outcome : Type 0
  Outcome = Option (Result Failure ResponseData)

  abbrev pub go_on : (String → Outcome) → Result Failure String → Outcome
  go_on onward (err e) = some (err e)
  go_on onward (ok u) = onward u

  abbrev pub redirected : ℕ → Response → (String → Outcome) → Option String → Outcome
  redirected count r onward none = some (finish count r)
  redirected count r onward (some location) =
      if leb p.max_redirects count
      then some (err (plain too_many_redirects))
      else go_on onward (redirect_url r.url location)

  abbrev pub answered : ℕ → (String → Outcome) → Answer → Outcome
  answered count onward (raised e) = some (err e)
  answered count onward (responded r) = redirected count r onward (next_location r)

  -- The `while True` loop on fuel; `none` means that the fuel ran out.
  unfoldable pub request_loop : ℕ → ℕ → String → Outcome
  request_loop zero count url = none
  request_loop (suc fuel) count url =
      answered count (request_loop fuel (count + 1)) (client count url)

  -- One round more than the redirects that are allowed.
  unfoldable pub request : String → Outcome
  unfolding request_loop
  request url = request_loop (suc p.max_redirects) 0 url
