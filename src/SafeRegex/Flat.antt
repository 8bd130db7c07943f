-- ===== src/SafeRegex/Flat.antt =====
-- An accepted expression is a flat sequence of tokens.
use mathlib.Core.List.{append_assoc}
use native.Mathlib.Nat.{le_refl}
use xray_e2e_prober.Base.{
  ℕ, zero, suc, ◌+◌, ◌≤◌, ◌≡◌, ◌≢◌, refl, ap, ◌∙◌, inl, inr, Bool, true, false, List, [], ◌∷◌, ◌++◌,
  ◌==◌, nat_eq, member, ltb, length, length-append, beq→eq, reject, ok, ◌>>=◌, ◌>>◌, >>=-eq-ok,
  arith, Bool-cases,
}
use xray_e2e_prober.SafeRegex.Validate.{
  Python, max_alternatives, repetition_or_group_meta, backslash, open_bracket, close_bracket, bar,
  caret, dollar, check_escape, consume_character_class, ends_branch, after_escape, check_literal,
  too_many_alternatives, flat_loop, validate_flat_alternatives,
}
use xray_e2e_prober.SafeRegex.Tokens.{
  Token, escape, class, branch, literal, inner, write_all, IsPlain, StopsBranch, IsFlat, Reading,
}
use xray_e2e_prober.SafeRegex.Classes.{ClassRead, differs, escapable, consume-split}

module _ (py : Python) where
  stops :
      (n : ℕ) (ts : List Token) (cs : List ℕ)
      → write_all ts ≡ cs
      → IsFlat py n false ts
      → ends_branch cs ≡ true
      → StopsBranch py ts
  stops n [] cs w f e = tt
  stops n (branch ∷ ts) cs w f e = tt
  stops n (escape c ∷ ts) cs w f e = ground (arith, rw (← w) at e)
  stops n (class negated bracket_first ms ∷ ts) cs w f e = ground (arith, rw (← w) at e)
  stops n (literal c ∷ ts) cs w f e = ground (arith, f.0, rw (← w) at e)

  -- One more token in front of a reading.
  read_escape :
      (n : ℕ) (start : Bool) (d : ℕ) (cs : List ℕ) (u : Unit {0})
      → check_escape py d ≡ ok u
      → Reading py n false cs
      → Reading py n start (backslash ∷ d ∷ cs)
  read_escape n start d cs u e r = record {
    tokens = escape d ∷ r.tokens;
    written = rw r.written;
    flat = (escapable py d u e, r.flat);
  }

  read_class :
      (n : ℕ) (start : Bool) (cs rest : List ℕ)
      → ClassRead py cs rest
      → Reading py n false rest
      → Reading py n start (open_bracket ∷ cs)
  read_class n start cs rest k r = record {
    tokens = class k.negated k.bracket_first k.members ∷ r.tokens;
    written =
        ap (λ ds. open_bracket ∷ ds)
          (append_assoc (inner k.negated k.bracket_first k.members) (close_bracket ∷ [])
              (write_all r.tokens)
            ∙ ap (λ ds. inner k.negated k.bracket_first k.members ++ close_bracket ∷ ds) r.written
            ∙ k.written);
    flat = (k.is_class, r.flat);
  }

  read_bar :
      (n : ℕ) (start : Bool) (cs : List ℕ)
      → Reading py (n + 1) true cs
      → Reading py n start (bar ∷ cs)
  read_bar n start cs r = record {
    tokens = branch ∷ r.tokens;
    written = rw r.written;
    flat = r.flat;
  }

  read_literal :
      (n : ℕ) (start : Bool) (c : ℕ) (cs : List ℕ)
      → IsPlain py c
      → (c ≡ caret → start ≡ true)
      → (c ≡ dollar → ends_branch cs ≡ true)
      → Reading py n false cs
      → Reading py n start (c ∷ cs)
  read_literal n start c cs plain top bottom r = record {
    tokens = literal c ∷ r.tokens;
    written = rw r.written;
    flat = (plain, top, λ e. stops n r.tokens cs r.written r.flat (bottom e), r.flat);
  }

  literal_checked :
      (c : ℕ) (start : Bool) (cs : List ℕ) (u : Unit {0})
      → check_literal c start cs ≡ ok u
      → (member c repetition_or_group_meta ≡ false)
        × (c ≡ caret → start ≡ true)
        × (c ≡ dollar → ends_branch cs ≡ true)
  unfolding check_literal
  literal_checked c start cs u e = elim (Bool-cases (member c repetition_or_group_meta)) [
    | inl meta ↦ cc (rw meta at e)
    | inr plain ↦ (plain, λ p. ground (arith, rw plain at e), λ p. ground (arith, rw plain at e))
  ]

  -- One round of the loop, given what the rounds behind it read.
  module _ (fuel n : ℕ) (start : Bool)
      (ih : (m : ℕ) (b : Bool) (ds : List ℕ)
        → m ≤ max_alternatives
        → length ds ≤ fuel
        → flat_loop py fuel m b ds ≡ ok tt
        → Reading py m b ds)
      (le : n ≤ max_alternatives) where
    round_escape :
        (cs : List ℕ)
        → length cs ≤ fuel
        → after_escape py (flat_loop py fuel n false) cs ≡ ok tt
        → Reading py n start (backslash ∷ cs)
    round_escape [] room e = cc
    round_escape (d ∷ cs) room e =
        let (u, checked, rest) =
          >>=-eq-ok (check_escape py d) (λ _. flat_loop py fuel n false cs) e in
        read_escape n start d cs u checked (ih n false cs le (omega arith) rest)

    round_class :
        (cs : List ℕ)
        → length cs ≤ fuel
        → (consume_character_class py cs >>= flat_loop py fuel n false) ≡ ok tt
        → Reading py n start (open_bracket ∷ cs)
    round_class cs room e =
        let (rest, ended, onward) =
          >>=-eq-ok (consume_character_class py cs) (flat_loop py fuel n false) e in
        let k = consume-split py cs rest ended in
        let shorter : length rest ≤ fuel = omega (
          arith,
          ap length k.written,
          length-append (inner k.negated k.bracket_first k.members) (close_bracket ∷ rest),
          room,
        ) in
        read_class n start cs rest k (ih n false rest le shorter onward)

    round_literal :
        (c : ℕ) (cs : List ℕ)
        → length cs ≤ fuel
        → (c ≢ backslash) × (c ≢ open_bracket) × (c ≢ close_bracket) × (c ≢ bar)
        → (check_literal c start cs >> flat_loop py fuel n false cs) ≡ ok tt
        → Reading py n start (c ∷ cs)
    round_literal c cs room no_sign e =
        let (u, checked, rest) =
          >>=-eq-ok (check_literal c start cs) (λ _. flat_loop py fuel n false cs) e in
        let (plain, top, bottom) = literal_checked c start cs u checked in
        read_literal n start c cs (plain, no_sign.0, no_sign.1, no_sign.2, no_sign.3) top bottom
          (ih n false cs le room rest)

    round_bar :
        (cs : List ℕ)
        → length cs ≤ fuel
        → (reject (ltb max_alternatives (n + 1)) too_many_alternatives
            >> flat_loop py fuel (n + 1) true cs)
          ≡ ok tt
        → Reading py n start (bar ∷ cs)
    round_bar cs room e = elim (Bool-cases (ltb max_alternatives (n + 1))) [
      | inl many ↦ cc (rw many at e)
      | inr few ↦ read_bar n start cs (ih (n + 1) true cs (ground (arith, few)) room (rw few at e))
    ]

    round :
        (c : ℕ) (cs : List ℕ)
        → length cs ≤ fuel
        → flat_loop py (suc fuel) n start (c ∷ cs) ≡ ok tt
        → Reading py n start (c ∷ cs)
    unfolding flat_loop
    round c cs room e = elim (Bool-cases (c == backslash)) [
      | inl h ↦ rw (beq→eq c backslash h) (round_escape cs room (rw h at e))
      | inr h1 ↦ elim (Bool-cases (c == open_bracket)) [
        | inl h ↦ rw (beq→eq c open_bracket h) (round_class cs room (rw (h1, h) at e))
        | inr h2 ↦ elim (Bool-cases (c == close_bracket)) [
          | inl h ↦ cc (rw (h1, h2, h) at e)
          | inr h3 ↦ elim (Bool-cases (c == bar)) [
            | inl h ↦ rw (beq→eq c bar h) (round_bar cs room (rw (h1, h2, h3, h) at e))
            | inr h4 ↦
                round_literal c cs room
                  (differs py c _ h1, differs py c _ h2, differs py c _ h3, differs py c _ h4)
                  (rw (h1, h2, h3, h4) at e)
          ]
        ]
      ]
    ]

  read_flat :
      (fuel n : ℕ) (start : Bool) (cs : List ℕ)
      → n ≤ max_alternatives
      → length cs ≤ fuel
      → flat_loop py fuel n start cs ≡ ok tt
      → Reading py n start cs
  read_flat fuel n start [] le room e = record { tokens = []; written = refl; flat = le }
  read_flat zero n start (c ∷ cs) le room e = absurd (omega arith)
  read_flat (suc fuel) n start (c ∷ cs) le room e =
      round fuel n start (read_flat fuel) le c cs (omega arith) e

  -- An expression that passes is the text of a flat sequence of tokens.
  pub validate-IsFlat_sound :
      (expression : List ℕ)
      → validate_flat_alternatives py expression ≡ ok tt
      → (ts : List Token) × (write_all ts ≡ expression) × IsFlat py 1 true ts
  unfolding validate_flat_alternatives
  validate-IsFlat_sound expression e =
      let r = read_flat (length expression) 1 true expression (omega arith) (le_refl _) e in
      (r.tokens, r.written, r.flat)
