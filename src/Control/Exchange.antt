-- ===== src/Control/Exchange.antt =====
-- What a request over the socket gives the caller.
use xray_e2e_prober.Base.{
  ℕ, suc, ◌+◌, ◌<◌, String, ◌≡◌, refl, Bool, true, false, some, List, [], ◌∷◌, ◌++◌, ltb, nat_eq,
  length, length-append, member, Result, ok, err, arith,
}
use xray_e2e_prober.Control.Protocol.{
  Json, Fields, get, JsonLibrary, max_control_message, newline, Failure, control_error, Stream,
  sent, first_line, ends_with_newline, read_line, is_empty, Handler, success, failure, answer,
  response_of, line_of, handle, payload, result_of, request,
}

first_line-append :
    (xs rest : List ℕ)
    → member newline xs ≡ false
    → first_line (xs ++ newline ∷ rest) ≡ xs ++ newline ∷ []
unfolding first_line
first_line-append [] rest h = refl
first_line-append (x ∷ xs) rest h = ground (arith, first_line-append xs rest, h)

ends_with_newline-append : (xs : List ℕ) → ends_with_newline (xs ++ newline ∷ []) ≡ true
unfolding ends_with_newline
ends_with_newline-append [] = refl
ends_with_newline-append (x ∷ []) = refl
ends_with_newline-append (x ∷ y ∷ xs) = ends_with_newline-append (y ∷ xs)

is_empty-append : (xs : List ℕ) → is_empty (xs ++ newline ∷ []) ≡ false
is_empty-append [] = refl
is_empty-append (x ∷ xs) = refl

module _ (json : JsonLibrary) (redact_text : Failure → String) where
  -- A value whose text is one line that reads back as the value, within the limit.
  pub record IsPortable (j : Json) : Type 0 where
    pub line : member newline (json.dumps j) ≡ false
    pub back : json.loads (line_of json redact_text j) ≡ some j
    pub small : length (json.dumps j) < max_control_message

  length-line_of : (j : Json) → length (line_of json redact_text j) ≡ length (json.dumps j) + 1
  length-line_of j = length-append (json.dumps j) (newline ∷ [])

  read_line-line_of :
      (j : Json)
      → IsPortable j
      → read_line (sent (line_of json redact_text j)) ≡ ok (line_of json redact_text j)
  unfolding read_line
  read_line-line_of j v =
      let fits : ltb (suc (suc max_control_message)) (length (line_of json redact_text j)) ≡ false =
        ground (arith, length-line_of j, v.small) in
      rw (first_line-append (json.dumps j) [] v.line, fits) refl

  line_small :
      (j : Json)
      → IsPortable j
      → ltb max_control_message (length (line_of json redact_text j)) ≡ false
  line_small j v = ground (arith, length-line_of j, v.small)

  -- A portable request reaches the handler as it was sent.
  answer-payload :
      (handler : Handler) (command : String) (params : Fields)
      → IsPortable (payload json redact_text command params)
      → answer json redact_text handler
          (sent (line_of json redact_text (payload json redact_text command params)))
        ≡ handler command params
  unfolding answer get
  answer-payload handler command params v =
      let j = payload json redact_text command params in
      rw
        (
          read_line-line_of j v,
          is_empty-append (json.dumps j),
          line_small j v,
          ends_with_newline-append (json.dumps j),
          v.back,
        )
        refl

  -- What the caller of `request` gets for a result of the handler.
  abbrev pub returned : Result Failure Json → Result Failure Json
  returned (ok result) = ok result
  returned (err e) = err (control_error (redact_text e))

  result_of-response :
      (str : Json → String) (r : Result Failure Json)
      → IsPortable (response_of json redact_text r)
      → result_of json redact_text str
          (sent (line_of json redact_text (response_of json redact_text r)))
        ≡ returned r
  unfolding result_of get
  result_of-response str (ok result) v =
      let j = success result in
      rw (read_line-line_of j v, is_empty-append (json.dumps j), line_small j v, v.back) refl
  result_of-response str (err e) v =
      let j = failure (redact_text e) in
      rw (read_line-line_of j v, is_empty-append (json.dumps j), line_small j v, v.back) refl

  abbrev pub server_of : Bool → Handler → List ℕ → Stream
  server_of stopping handler bytes = sent (handle json redact_text stopping handler (sent bytes))

  -- Where the JSON of the request and of the response are one line below the limit that reads back, a
  -- request to a running server gives what the handler returns for its command and its parameters, and
  -- a ControlError with the redacted text where the handler raises.
  pub request_roundtrip :
      (handler : Handler) (str : Json → String) (command : String) (params : Fields)
      → IsPortable (payload json redact_text command params)
      → IsPortable (response_of json redact_text (handler command params))
      → request json redact_text str (some (server_of false handler)) command params
        ≡ returned (handler command params)
  unfolding request handle
  request_roundtrip handler str command params v w =
      rw (answer-payload handler command params v)
        (result_of-response str (handler command params) w)
