-- ===== src/Checker/Observed.antt =====
-- The address that an egress response shows, and the networks that contain it, apart from the code's
-- order of tests.
use xray_e2e_prober.Base.{
  String, ◌≡◌, ◌≢◌, refl, ap, subst, true, false, not, ◌&&◌, Option, none, some, List, [], ◌∷◌,
  ◌==◌, nat_eq, string_eq, beq→eq, beq_refl, Bool-cases, inl, inr, ◌⊎◌, ◌↔◌, ok, reject, >>=-eq-ok,
  arith,
}
use xray_e2e_prober.Models.Config.{EgressResponseFormat, plain, json, EgressAssertionConfig}
use xray_e2e_prober.Checker.Failures.{Kind, plain as bare, configuration, value_error}
use xray_e2e_prober.Checker.Request.{ResponseData}
use xray_e2e_prober.Checker.Egress.{
  Json, text, object, other, Members, Parsers, member_value, field_value, or_raise, json_path,
  named_field, as_text, networks_of, json_text, candidate_of, observe, is_expected,
}

-- The text under the names, each a member of the object before.
pub data StandsAt : List String → Json → String → Type 0 where
  here : (t : String) → StandsAt [] (text t) t
  below :
      (name : String) (names : List String) (members : Members) (inside : Json) (t : String)
      → member_value name members ≡ some inside
      → StandsAt names inside t
      → StandsAt (name ∷ names) (object members) t

raised : {A : Type 0} (kind : Kind) (o : Option A) (a : A) → or_raise kind o ≡ ok a → o ≡ some a
raised kind none a e = cc (e)
raised kind (some b) a e = ap some (ground (arith, e))

text_here : (candidate : Json) (t : String) → as_text candidate ≡ ok t → StandsAt [] candidate t
text_here (text x) t h = subst (StandsAt [] (text x)) (ground (arith, h)) (here x)
text_here (object m) t h = cc (h)
text_here other t h = cc (h)

one_below :
    (name : String) (names : List String) (document inside : Json) (t : String)
    → field_value name document ≡ some inside
    → StandsAt names inside t
    → StandsAt (name ∷ names) document t
one_below name names (object m) inside t e v = below name names m inside t e v
one_below name names (text x) inside t e v = cc (e)
one_below name names other inside t e v = cc (e)

path-StandsAt :
    (names : List String) (document candidate : Json) (t : String)
    → json_path names document ≡ ok candidate
    → as_text candidate ≡ ok t
    → StandsAt names document t
unfolding json_path
path-StandsAt [] document candidate t e h =
    let same : candidate ≡ document = ground (arith, e) in
    text_here document t (subst (λ x. as_text x ≡ ok t) same h)
path-StandsAt (name ∷ names) document candidate t e h =
    let (inside, found, more) =
      >>=-eq-ok (or_raise value_error (field_value name document)) (json_path names) e in
    one_below name names document inside t (raised value_error _ inside found)
      (path-StandsAt names inside candidate t more h)

not_empty : (s : String) → (s == "") ≡ false → s ≢ ""
not_empty s h e = let same : (s == "") ≡ true = rw e refl in cc (same, h)

field_name :
    (o : Option String) (name : String) → named_field o ≡ ok name → (o ≡ some name) × (name ≢ "")
field_name none name e = cc (e)
field_name (some n) name e = elim (Bool-cases (n == "")) [
  | inl empty ↦ cc (rw empty at e)
  | inr filled ↦
      let same : n ≡ name = ground (arith, rw filled at e) in
      (ap some same, subst (λ x. x ≢ "") same (not_empty n filled))
]

module _ {Address Network : Type 0} (parsers : Parsers Address Network) where
  -- The text in the body that should be an address: the body, or a text in the document that it is.
  abbrev pub IsCandidate : EgressAssertionConfig → String → String → Type 0
  IsCandidate a body candidate =
      ((a.response_format ≡ plain) × (candidate ≡ parsers.strip body))
      ⊎ ((a.response_format ≡ json)
          × ((name : String) × (document : Json) × (a.json_field ≡ some name)
              × (name ≢ "")
              × (parsers.loads body ≡ some document)
              × StandsAt (parsers.split_dots name) document candidate))

  -- The address that a response of status 200 shows.
  pub record IsObserved (a : EgressAssertionConfig) (d : ResponseData) (observed : Address)
      : Type 0 where
    pub status : d.status_code ≡ 200
    pub body : String
    pub decoded : parsers.decode d.body d.encoding ≡ some body
    pub candidate : String
    pub shown : IsCandidate a body candidate
    pub address : parsers.ip_address (parsers.strip candidate) ≡ some observed

  -- Some configured network of the version of the address contains it.
  abbrev pub IsContained : List String → Address → Type 0
  IsContained [] observed = ⊥
  IsContained (cidr ∷ cidrs) observed =
      ((network : Network) × (parsers.ip_network cidr ≡ some network)
        × (parsers.address_version observed ≡ parsers.network_version network)
        × (parsers.contains network observed ≡ true))
      ⊎ IsContained cidrs observed

  json-IsCandidate :
      (a : EgressAssertionConfig) (body candidate : String)
      → a.response_format ≡ json
      → json_text parsers a body ≡ ok candidate
      → IsCandidate a body candidate
  json-IsCandidate a body candidate format e =
      let (name, named, e1) = >>=-eq-ok (named_field a.json_field) _ e in
      let (document, loaded, e2) = >>=-eq-ok (or_raise value_error (parsers.loads body)) _ e1 in
      let (found, path, last) = >>=-eq-ok (json_path (parsers.split_dots name) document) _ e2 in
      let (field, filled) = field_name a.json_field name named in
      inr (
        format,
        (
          name,
          document,
          field,
          filled,
          raised value_error _ document loaded,
          path-StandsAt (parsers.split_dots name) document found candidate path last,
        ),
      )

  IsCandidate-IsCandidate :
      (a : EgressAssertionConfig) (body candidate : String)
      → candidate_of parsers a body ≡ ok candidate
      → IsCandidate a body candidate
  unfolding candidate_of
  IsCandidate-IsCandidate a body candidate e = by_format a.response_format refl
    where
      by_format : (f : EgressResponseFormat) → a.response_format ≡ f → IsCandidate a body candidate
      by_format plain h = inl (h, ground (arith, rw h at e))
      by_format json h = json-IsCandidate a body candidate h (rw h at e)

  pub observe-IsObserved :
      (a : EgressAssertionConfig) (d : ResponseData) (observed : Address)
      → observe parsers a d ≡ ok observed
      → IsObserved a d observed
  unfolding observe
  observe-IsObserved a d observed e =
      let (_, status, e1) =
        >>=-eq-ok (reject (not (d.status_code == 200)) (bare value_error)) _ e in
      let (body, decoded, e2) =
        >>=-eq-ok (or_raise value_error (parsers.decode d.body d.encoding)) _ e1 in
      let (candidate, shown, e3) = >>=-eq-ok (candidate_of parsers a body) _ e2 in
      record {
        status = beq→eq d.status_code 200 (ground (arith, status));
        body = body;
        decoded = raised value_error _ body decoded;
        candidate = candidate;
        shown = IsCandidate-IsCandidate a body candidate shown;
        address = raised value_error _ observed e3;
      }

  -- The code's test over the parsed networks agrees with the networks of the texts.
  pub expected_iff :
      (cidrs : List String) (networks : List Network) (observed : Address)
      → networks_of parsers cidrs ≡ ok networks
      → (is_expected parsers networks observed ≡ true) ↔ IsContained cidrs observed
  unfolding networks_of is_expected
  expected_iff [] networks observed e =
      let same : networks ≡ [] = ground (arith, e) in (λ h. cc (rw same at h), λ h. elim h [ ])
  expected_iff (cidr ∷ cidrs) networks observed e =
      let (network, parsed, e1) =
        >>=-eq-ok (or_raise configuration (parsers.ip_network cidr)) _ e in
      let (rest, more, e2) = >>=-eq-ok (networks_of parsers cidrs) _ e1 in
      let same : network ∷ rest ≡ networks = ground (arith, e2) in
      subst (λ x. (is_expected parsers x observed ≡ true) ↔ IsContained (cidr ∷ cidrs) observed)
        same
        (first network rest (raised configuration _ network parsed)
          (expected_iff cidrs rest observed more))
    where
      first :
          (network : Network) (rest : List Network)
          → parsers.ip_network cidr ≡ some network
          → (is_expected parsers rest observed ≡ true) ↔ IsContained cidrs observed
          → (is_expected parsers (network ∷ rest) observed ≡ true)
            ↔ IsContained (cidr ∷ cidrs) observed
      first network rest parsed later = (
        λ h.
            elim (Bool-cases (
              parsers.address_version observed == parsers.network_version network
              && parsers.contains network observed)) [
                | inl fits ↦ inl (
                  network,
                  parsed,
                  beq→eq _ (parsers.network_version network) (ground (arith, fits)),
                  ground (arith, fits),
                )
                | inr apart ↦ inr (later.0 (ground (arith, h, apart)))
              ],
        λ h. elim h [
          | inl (n, known, version, inside) ↦
              let n_same : n ≡ network = cc (known, parsed) in
              rw (← n_same) (rw (version, beq_refl (parsers.network_version n), inside) refl)
          | inr after ↦ ground (arith, later.1 after)
        ],
      )
