-- ===== src/SafeRegex/Wrapping.antt =====
-- What `validate_safe_name_regex` takes off a pattern before it reads the alternatives.
use mathlib.Core.List.{append-nil}
use xray_e2e_prober.Base.{
  ℕ, ◌≡◌, refl, ap, sym, ◌∙◌, Bool, true, false, some, List, [], ◌∷◌, ◌++◌, ◌==◌, nat_eq, beq→eq,
  Bool-cases, Option-cases, inl, inr, arith,
}
use xray_e2e_prober.SafeRegex.Validate.{
  caret, dollar, is_escaped, strip_prefix, strip_last, or_same, strip_end, inside, strip_group,
  stripped,
}

pub data Group : Type 0 where
  bare capturing silent : Group

abbrev pub opening : Group → List ℕ
opening bare = []
opening capturing = b'(' ∷ []
opening silent = b'(' ∷ b'?' ∷ b':' ∷ []

abbrev pub closing : Group → List ℕ
closing bare = []
closing capturing = b')' ∷ []
closing silent = b')' ∷ []

abbrev pub optional : Bool → List ℕ → List ℕ
optional true cs = cs
optional false cs = []

-- An expression in its group, with the anchors and the flag around it.
abbrev pub wrap : Bool → Bool → Group → Bool → List ℕ → List ℕ
wrap ignores_case from_start group to_end inner =
    optional ignores_case (b'(' ∷ b'?' ∷ b'i' ∷ b')' ∷ [])
    ++ (optional from_start (caret ∷ [])
        ++ ((opening group ++ (inner ++ closing group)) ++ optional to_end (dollar ∷ [])))

strip_prefix-append : (p cs rest : List ℕ) → strip_prefix p cs ≡ some rest → p ++ rest ≡ cs
unfolding strip_prefix
strip_prefix-append [] cs rest e = cc (e)
strip_prefix-append (x ∷ p) [] rest e = cc (e)
strip_prefix-append (x ∷ p) (c ∷ cs) rest e = elim (Bool-cases (x == c)) [
  | inl same ↦ cc (beq→eq x c same, strip_prefix-append p cs rest (rw same at e))
  | inr other ↦ cc (rw other at e)
]

strip_last-append :
    (x : ℕ) (cs front : List ℕ) → strip_last x cs ≡ some front → front ++ x ∷ [] ≡ cs
unfolding strip_last
strip_last-append x [] front e = cc (e)
strip_last-append x (c ∷ []) front e = elim (Bool-cases (c == x)) [
  | inl same ↦
      let nil : [] ≡ front = ground (arith, rw same at e) in
      let this : x ≡ c = sym (beq→eq c x same) in
      ap (λ f. f ++ x ∷ []) (sym nil) ∙ ap (λ y. y ∷ []) this
  | inr other ↦ cc (rw other at e)
]
strip_last-append x (c ∷ d ∷ cs) front e = elim (Option-cases (strip_last x (d ∷ cs))) [
  | inl nothing ↦ cc (rw nothing at e)
  | inr (f, found) ↦
      let this : c ∷ f ≡ front = ground (arith, rw found at e) in
      ap (λ g. g ++ x ∷ []) (sym this) ∙ ap (λ t. c ∷ t) (strip_last-append x (d ∷ cs) f found)
]

prefix_back : (p cs : List ℕ) → (b : Bool) × (optional b p ++ or_same (strip_prefix p cs) cs ≡ cs)
prefix_back p cs = elim (Option-cases (strip_prefix p cs)) [
  | inl absent ↦ (false, rw absent refl)
  | inr (rest, found) ↦ (true, rw found (strip_prefix-append p cs rest found))
]

end_back :
    (cs : List ℕ)
    → (b : Bool) × (strip_end (strip_last dollar cs) cs ++ optional b (dollar ∷ []) ≡ cs)
end_back cs = elim (Option-cases (strip_last dollar cs)) [
  | inl absent ↦ (false, rw absent (append-nil cs))
  | inr (front, found) ↦ elim (Bool-cases (is_escaped front)) [
    | inl escaped ↦ (false, rw (found, escaped) (append-nil cs))
    | inr plain ↦ (true, rw (found, plain) (strip_last-append dollar cs front found))
  ]
]

inside_back :
    (p cs body : List ℕ) → inside (strip_prefix p cs) ≡ some body → p ++ (body ++ b')' ∷ []) ≡ cs
inside_back p cs body e = elim (Option-cases (strip_prefix p cs)) [
  | inl absent ↦ cc (rw absent at e)
  | inr (rest, found) ↦
      ap (λ t. p ++ t) (strip_last-append b')' rest body (rw found at e))
      ∙ strip_prefix-append p cs rest found
]

group_back : (cs : List ℕ) → (g : Group) × (opening g ++ (strip_group cs ++ closing g) ≡ cs)
group_back cs = elim (Option-cases (inside (strip_prefix (b'(' ∷ b'?' ∷ b':' ∷ []) cs))) [
  | inr (body, found) ↦ (silent, rw found (inside_back (b'(' ∷ b'?' ∷ b':' ∷ []) cs body found))
  | inl not_silent ↦ elim (Option-cases (inside (strip_prefix (b'(' ∷ []) cs))) [
    | inr (body, found) ↦
        (capturing, rw (not_silent, found) (inside_back (b'(' ∷ []) cs body found))
    | inl absent ↦ (bare, rw (not_silent, absent) (append-nil cs))
  ]
]

-- The pattern is what is left of it in the parts that were taken off.
pub wrap-stripped :
    (pattern : List ℕ)
    → (ignores_case : Bool) × (from_start : Bool) × (to_end : Bool) × (group : Group) × (wrap
          ignores_case from_start group to_end
          (stripped pattern)
        ≡ pattern)
unfolding stripped
wrap-stripped pattern =
    let flag = b'(' ∷ b'?' ∷ b'i' ∷ b')' ∷ [] in
    let expression = or_same (strip_prefix flag pattern) pattern in
    let anchored = or_same (strip_prefix (caret ∷ []) expression) expression in
    let body = strip_end (strip_last dollar anchored) anchored in
    let (ignores_case, back1) = prefix_back flag pattern in
    let (from_start, back2) = prefix_back (caret ∷ []) expression in
    let (to_end, back3) = end_back anchored in
    let (group, back4) = group_back body in
    (
      ignores_case,
      from_start,
      to_end,
      group,
      ap
            (λ t.
              optional ignores_case flag
              ++ (optional from_start (caret ∷ []) ++ (t ++ optional to_end (dollar ∷ []))))
            back4
          ∙ (ap (λ t. optional ignores_case flag ++ (optional from_start (caret ∷ []) ++ t)) back3
              ∙ (ap (λ t. optional ignores_case flag ++ t) back2 ∙ back1)),
    )
