-- ===== src/SafeRegex/Accepted.antt =====
-- What `validate_safe_name_regex` promises of a pattern that it returns.
use xray_e2e_prober.Base.{
  ap, ◌∙◌, Bool, ℕ, ◌≤◌, ◌≡◌, true, not, List, ltb, length, reject, ok, >>=-eq-ok, arith,
}
use xray_e2e_prober.SafeRegex.Validate.{
  Python, max_length, too_long, not_compilable, validate_flat_alternatives, stripped,
  validate_safe_name_regex,
}
use xray_e2e_prober.SafeRegex.Wrapping.{Group, wrap, wrap-stripped}
use xray_e2e_prober.SafeRegex.Tokens.{Token, write_all, IsFlat}
use xray_e2e_prober.SafeRegex.Flat.{validate-IsFlat_sound}

-- A short pattern that Python compiles, and that is a flat sequence of tokens in at most one group,
-- with at most one flag and two anchors around it.
pub record IsSafe (py : Python) (pattern : List ℕ) : Type 0 where
  pub short : length pattern ≤ 256
  pub compiles : py.compiles pattern ≡ true
  pub ignores_case : Bool
  pub from_start : Bool
  pub to_end : Bool
  pub group : Group
  pub tokens : List Token
  pub written : wrap ignores_case from_start group to_end (write_all tokens) ≡ pattern
  pub flat : IsFlat py 1 true tokens

-- A returned pattern is the one that was given. It has at most 256 characters, Python's `re` compiles
-- it, and it is the text of a flat sequence of tokens, which may stand in one group, between a `^`
-- and a `$` and behind the flag `(?i)`. The tokens are characters that are no sign of repetition or
-- grouping, escapes of the allowed kinds, bars, and character classes without another class or an
-- escape of another kind in them. They form at most 32
-- alternatives, among them `^` stands only at the start of one and `$` only at the end.
pub validate-IsSafe :
    (py : Python) (pattern q : List ℕ)
    → validate_safe_name_regex py pattern ≡ ok q
    → (q ≡ pattern) × IsSafe py pattern
unfolding validate_safe_name_regex
validate-IsSafe py pattern q e =
    let (_, short, e1) = >>=-eq-ok (reject (ltb max_length (length pattern)) too_long) _ e in
    let (tt, flat, e2) = >>=-eq-ok (validate_flat_alternatives py (stripped pattern)) _ e1 in
    let (_, compiled, e3) = >>=-eq-ok (reject (not (py.compiles pattern)) not_compilable) _ e2 in
    let (ts, read, is_flat) = validate-IsFlat_sound py (stripped pattern) flat in
    let (ignores_case, from_start, to_end, group, wrapped) = wrap-stripped pattern in
    (
      ground (arith, e3),
      record {
        short = ground (arith, short);
        compiles = ground (arith, compiled);
        ignores_case = ignores_case;
        from_start = from_start;
        to_end = to_end;
        group = group;
        tokens = ts;
        written = ap (wrap ignores_case from_start group to_end) read ∙ wrapped;
        flat = is_flat;
      },
    )
