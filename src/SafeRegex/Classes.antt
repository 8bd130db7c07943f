-- ===== src/SafeRegex/Classes.antt =====
-- A class that `_consume_character_class` passes over is a whole class.
use mathlib.Core.List.{append_assoc}
use xray_e2e_prober.Base.{
  ℕ, ◌≡◌, ◌≢◌, refl, ap, sym, ◌∙◌, subst, All, inl, inr, Bool, true, false, List, [], ◌∷◌, ◌++◌,
  ◌==◌, nat_eq, beq→eq, ok, >>=-eq-ok, arith, Bool-cases,
}
use xray_e2e_prober.SafeRegex.Validate.{
  Python, backslash, open_bracket, close_bracket, caret, check_escape, class_rest, skip_one,
  consume_character_class,
}
use xray_e2e_prober.SafeRegex.Tokens.{
  Member, single, escaped, write_members, sign_if, inner, IsEscapable, IsMember, StartsWith,
  IsClass,
}

module _ (py : Python) where
  pub record Members (cs rest : List ℕ) : Type 0 where
    pub members : List Member
    pub written : write_members members ++ close_bracket ∷ rest ≡ cs
    pub allowed : All (IsMember py) members

  pub differs : (a b : ℕ) → (a == b) ≡ false → a ≢ b
  differs a b h = ground arith

  pub escapable : (c : ℕ) (u : Unit {0}) → check_escape py c ≡ ok u → IsEscapable py c
  unfolding check_escape
  escapable c u e = (ground (arith, e), λ alpha. ground (arith, e))

  class_rest-split : (cs rest : List ℕ) → class_rest py cs ≡ ok rest → Members cs rest
  unfolding class_rest
  class_rest-split [] rest e = cc
  class_rest-split (c ∷ []) rest e = record {
    members = [];
    written = ground (arith, e);
    allowed = tt;
  }
  class_rest-split (c ∷ d ∷ cs) rest e = elim (Bool-cases (c == backslash)) [
    | inl esc ↦
        let (u, checked, e') =
          >>=-eq-ok (check_escape py d) (λ _. class_rest py cs) (rw esc at e) in
        let more = class_rest-split cs rest e' in
        record {
          members = escaped d ∷ more.members;
          written = rw (beq→eq c backslash esc, more.written) refl;
          allowed = (escapable d u checked, more.allowed);
        }
    | inr plain ↦ elim (Bool-cases (c == open_bracket)) [
      | inl nested ↦ absurd (ground (arith, e))
      | inr ordinary ↦ elim (Bool-cases (c == close_bracket)) [
        | inl closing ↦ record { members = []; written = ground (arith, e); allowed = tt }
        | inr within ↦
            let more = class_rest-split (d ∷ cs) rest (rw (plain, ordinary, within) at e) in
            record {
              members = single c ∷ more.members;
              written = ap (λ ds. c ∷ ds) more.written;
              allowed =
                  ((differs c _ plain, differs c _ ordinary, differs c _ within), more.allowed);
            }
      ]
    ]
  ]

  abbrev StartsNot : ℕ → List ℕ → Type 0
  StartsNot x [] = Unit
  StartsNot x (c ∷ cs) = c ≢ x

  skip_one-split :
      (x : ℕ) (cs : List ℕ)
      → (skipped : Bool) × (sign_if skipped x ++ skip_one x cs ≡ cs)
        × (skipped ≡ false → StartsNot x cs)
  skip_one-split x [] = (false, refl, λ e. tt)
  skip_one-split x (c ∷ cs) = elim (Bool-cases (c == x)) [
    | inl e ↦ (true, rw (e, beq→eq c x e) refl, λ h. cc (h))
    | inr e ↦ (false, rw e refl, λ h. differs c x e)
  ]

  unskipped :
      (skipped : Bool) (x : ℕ) (cs ds : List ℕ)
      → sign_if skipped x ++ ds ≡ cs
      → skipped ≡ false
      → ds ≡ cs
  unskipped true x cs ds w e = cc (e)
  unskipped false x cs ds w e = w

  some_member :
      (ms : List Member) (rest : List ℕ)
      → StartsNot close_bracket (write_members ms ++ close_bracket ∷ rest)
      → ms ≢ []
  some_member [] rest h e = h refl
  some_member (m ∷ ms) rest h e = cc (e)

  no_caret :
      (ms : List Member) (rest : List ℕ)
      → StartsNot caret (write_members ms ++ close_bracket ∷ rest)
      → ¬ StartsWith py caret ms
  no_caret [] rest h e = elim e [ ]
  no_caret (single c ∷ ms) rest h e = h e
  no_caret (escaped c ∷ ms) rest h e = elim e [ ]

  pub record ClassRead (cs rest : List ℕ) : Type 0 where
    pub negated : Bool
    pub bracket_first : Bool
    pub members : List Member
    pub written : inner negated bracket_first members ++ close_bracket ∷ rest ≡ cs
    pub is_class : IsClass py negated bracket_first members

  pub consume-split :
      (cs rest : List ℕ) → consume_character_class py cs ≡ ok rest → ClassRead cs rest
  unfolding consume_character_class
  consume-split cs rest e =
      let (a, p, not_a) = skip_one-split caret cs in
      let (b, q, not_b) = skip_one-split close_bracket (skip_one caret cs) in
      let found = class_rest-split (skip_one close_bracket (skip_one caret cs)) rest e in
      record {
        negated = a;
        bracket_first = b;
        members = found.members;
        written = simp append_assoc (rw (found.written, q) p);
        is_class = record {
          members = found.allowed;
          not_empty = λ h. some_member found.members rest (
              subst (StartsNot close_bracket)
                (sym (found.written ∙ unskipped b close_bracket (skip_one caret cs) _ q h))
                (not_b h));
          not_negated = λ h k. no_caret found.members rest (
              subst (StartsNot caret)
                (sym (
                  found.written
                  ∙ unskipped b close_bracket (skip_one caret cs) _ q k
                  ∙ unskipped a caret cs _ p h))
                (not_a h));
        };
      }
