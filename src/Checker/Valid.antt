-- ===== src/Checker/Valid.antt =====
-- The settings that `_validate_target` and `_absolute_http_url` let through, without their tests.
use xray_e2e_prober.Base.{
  ℕ, ◌≤◌, String, ◌≡◌, ◌≢◌, refl, sym, true, false, not, ◌&&◌, ◌||◌, Option, none, some, List, [],
  ◌∷◌, All, any, any-All, map_All, ◌==◌, nat_eq, string_eq, beq→eq, member, ltb, Bool-cases, inl,
  inr, ◌⊎◌, ok, reject, >>=-eq-ok, arith,
}
use xray_e2e_prober.Models.Targets.{
  Method, get, post, Direction, upload, download, ThroughputConfig, TargetConfig, is_some',
  is_upload, expected_method, same_method,
}
use xray_e2e_prober.Checker.Failures.{plain, configuration}
use xray_e2e_prober.Checker.Target.{
  Outside, redirect_limit, empty_list, wanted_method, uploads, absolute_http_url, validate_target,
}

-- An absolute HTTP URL without a user.
pub record IsHttpUrl (out : Outside) (url : String) : Type 0 where
  pub scheme : ((out.urlsplit url).scheme ≡ "http") ⊎ ((out.urlsplit url).scheme ≡ "https")
  pub host : out.hostname url ≢ none
  pub no_user : (out.urlsplit url).username ≡ none
  pub no_password : (out.urlsplit url).password ≡ none

abbrev pub FitsDirection : Option ThroughputConfig → TargetConfig → Type 0
FitsDirection none t = t.method ≡ get
FitsDirection (some tp) t =
    (t.body ≡ none)
    × ((tp.direction ≡ download) × (t.method ≡ get)
        ⊎ (tp.direction ≡ upload) × (t.method ≡ post) × (t.follow_redirects ≡ false))

-- The settings of a target that can be checked.
pub record IsValid (out : Outside) (t : TargetConfig) : Type 0 where
  pub named : t.target_id ≢ ""
  pub url : IsHttpUrl out t.url
  pub some_status : t.expected_statuses ≢ []
  pub statuses : All (λ s. (100 ≤ s) × (s ≤ 599)) t.expected_statuses
  pub redirects : t.follow_redirects ≡ false → t.max_redirects ≡ 0
  pub direction : FitsDirection t.throughput t

absent : {A : Type 0} (o : Option A) → is_some' o ≡ false → o ≡ none
absent none h = refl
absent (some a) h = cc (h)

present : {A : Type 0} (o : Option A) → is_some' o ≡ true → o ≢ none
present none h = cc (h)
present (some a) h = λ e. cc (e)

one_of_two : (s : String) → member s ("http" ∷ "https" ∷ []) ≡ true → (s ≡ "http") ⊎ (s ≡ "https")
one_of_two s h = elim (Bool-cases ("http" == s)) [
  | inl e ↦ inl (sym (beq→eq "http" s e))
  | inr e ↦ inr (sym (beq→eq "https" s (ground (arith, h, e))))
]

not_empty : (s : String) → (s == "") ≡ false → s ≢ ""
not_empty s h e = let same : (s == "") ≡ true = rw e refl in cc (same, h)

pub absolute-IsHttpUrl :
    (out : Outside) (url u : String)
    → absolute_http_url out url ≡ ok u
    → (url ≡ u) × IsHttpUrl out url
unfolding absolute_http_url
absolute-IsHttpUrl out url u e =
    let parsed = out.urlsplit url in
    let (_, kind, e1) =
      >>=-eq-ok
        (reject
          (not (member parsed.scheme ("http" ∷ "https" ∷ [])) || not (is_some' (out.hostname url)))
          (plain configuration))
        _ e in
    let (_, user, e2) =
      >>=-eq-ok
        (reject (is_some' parsed.username || is_some' parsed.password) (plain configuration)) _
        e1 in
    (
      ground (arith, e2),
      record {
        scheme = one_of_two parsed.scheme (ground (arith, kind));
        host = present (out.hostname url) (ground (arith, kind));
        no_user = absent parsed.username (ground (arith, user));
        no_password = absent parsed.password (ground (arith, user));
      },
    )

fits_direction :
    (o : Option ThroughputConfig) (t : TargetConfig)
    → same_method t.method (wanted_method o) ≡ true
    → (is_some' o && is_some' t.body) ≡ false
    → (uploads o && t.follow_redirects) ≡ false
    → FitsDirection o t
fits_direction none t m b u = got t.method m
  where
    got : (x : Method) → same_method x get ≡ true → x ≡ get
    got get h = refl
    got post h = cc (h)
fits_direction (some tp) t m b u = (absent t.body b, by_direction tp.direction t.method m u)
  where
    by_direction :
        (d : Direction) (x : Method)
        → same_method x (expected_method d) ≡ true
        → (is_upload d && t.follow_redirects) ≡ false
        → ((d ≡ download) × (x ≡ get)) ⊎ ((d ≡ upload) × (x ≡ post) × (t.follow_redirects ≡ false))
    by_direction download get h k = inl (refl, refl)
    by_direction download post h k = cc (h)
    by_direction upload get h k = cc (h)
    by_direction upload post h k = inr (refl, refl, k)

some_element : (xs : List ℕ) → empty_list xs ≡ false → xs ≢ []
some_element [] h = cc (h)
some_element (x ∷ xs) h = λ e. cc (e)

pub validate-IsValid :
    (out : Outside) (t : TargetConfig) (u : Unit {0}) → validate_target out t ≡ ok u → IsValid out t
unfolding validate_target redirect_limit
validate-IsValid out t u e =
    let (_, named, e1) = >>=-eq-ok (reject (t.target_id == "") (plain configuration)) _ e in
    let (url, http, e2) = >>=-eq-ok (absolute_http_url out t.url) _ e1 in
    let (_, statuses, e3) =
      >>=-eq-ok
        (reject
          (empty_list t.expected_statuses || any (λ s. ltb s 100 || ltb 599 s) t.expected_statuses)
          (plain configuration))
        _ e2 in
    let (_, method, e4) =
      >>=-eq-ok
        (reject (not (same_method t.method (wanted_method t.throughput))) (plain configuration)) _
        e3 in
    let (_, redirects, e5) =
      >>=-eq-ok (reject (ltb 0 (redirect_limit t) && not t.follow_redirects) (plain configuration))
        _ e4 in
    let (_, body, e6) =
      >>=-eq-ok (reject (is_some' t.throughput && is_some' t.body) (plain configuration)) _ e5 in
    record {
      named = not_empty t.target_id (ground (arith, named));
      url = (absolute-IsHttpUrl out t.url url http).1;
      some_status = some_element t.expected_statuses (ground (arith, statuses));
      statuses =
          map_All (λ s. (ltb s 100 || ltb 599 s) ≡ false) (λ s. (100 ≤ s) × (s ≤ 599))
            t.expected_statuses (λ s h. (ground (arith, h), ground (arith, h)))
            ((any-All (λ s. ltb s 100 || ltb 599 s) t.expected_statuses).0
              (ground (arith, statuses)));
      redirects = λ off. ground (arith, off, redirects);
      direction =
          fits_direction t.throughput t (ground (arith, method)) (ground (arith, body))
            (ground (arith, e6));
    }
