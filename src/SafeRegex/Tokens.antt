-- ===== src/SafeRegex/Tokens.antt =====
-- The tokens of an accepted expression: no repetition, no group and no nested class can hide in them.
use xray_e2e_prober.Base.{
  ℕ, ◌+◌, ◌≤◌, ◌≡◌, ◌≢◌, All, Bool, true, false, List, [], ◌∷◌, ◌++◌, nat_eq, member,
}
use xray_e2e_prober.SafeRegex.Validate.{
  Python, max_alternatives, single_character_escapes, repetition_or_group_meta, backslash,
  open_bracket, close_bracket, bar, caret, dollar,
}

-- What stands in a class.
pub data Member : Type 0 where
  single escaped : ℕ → Member

-- A class may be negated, and have a literal closing bracket as its first character.
pub data Token : Type 0 where
  escape : ℕ → Token
  class : (negated bracket_first : Bool) (members : List Member) → Token
  branch : Token
  literal : ℕ → Token

abbrev pub write_members : List Member → List ℕ
write_members [] = []
write_members (single c ∷ ms) = c ∷ write_members ms
write_members (escaped c ∷ ms) = backslash ∷ c ∷ write_members ms

abbrev pub sign_if : Bool → ℕ → List ℕ
sign_if true c = c ∷ []
sign_if false c = []

-- What stands between the brackets.
abbrev pub inner : Bool → Bool → List Member → List ℕ
inner negated bracket_first ms =
    sign_if negated caret ++ sign_if bracket_first close_bracket ++ write_members ms

-- A class is written up to and with its closing bracket.
abbrev pub write : Token → List ℕ
write (escape c) = backslash ∷ c ∷ []
write (class negated bracket_first ms) =
    open_bracket ∷ inner negated bracket_first ms ++ close_bracket ∷ []
write branch = bar ∷ []
write (literal c) = c ∷ []

abbrev pub write_all : List Token → List ℕ
write_all [] = []
write_all (t ∷ ts) = write t ++ write_all ts

module _ (py : Python) where
  abbrev pub IsEscapable : ℕ → Type 0
  IsEscapable c =
      (py.is_digit c ≡ false) × (py.is_alpha c ≡ true → member c single_character_escapes ≡ true)

  abbrev pub IsPlain : ℕ → Type 0
  IsPlain c =
      (member c repetition_or_group_meta ≡ false)
      × (c ≢ backslash)
      × (c ≢ open_bracket)
      × (c ≢ close_bracket)
      × (c ≢ bar)

  -- A member is no backslash and no bracket, or an escape of the allowed kinds.
  abbrev pub IsMember : Member → Type 0
  IsMember (single c) = (c ≢ backslash) × (c ≢ open_bracket) × (c ≢ close_bracket)
  IsMember (escaped c) = IsEscapable c

  abbrev pub StartsWith : ℕ → List Member → Type 0
  StartsWith x [] = ⊥
  StartsWith x (single c ∷ ms) = c ≡ x
  StartsWith x (escaped c ∷ ms) = ⊥

  -- The class is read back as it is written: it is not empty, and a leading `^` negates it.
  pub record IsClass (negated bracket_first : Bool) (ms : List Member) : Type 0 where
    pub members : All IsMember ms
    pub not_empty : bracket_first ≡ false → ms ≢ []
    pub not_negated : negated ≡ false → bracket_first ≡ false → ¬ StartsWith caret ms

  abbrev pub StopsBranch : List Token → Type 0
  StopsBranch [] = Unit {0}
  StopsBranch (branch ∷ ts) = Unit {0}
  StopsBranch (escape c ∷ ts) = ⊥
  StopsBranch (class negated bracket_first ms ∷ ts) = ⊥
  StopsBranch (literal c ∷ ts) = ⊥

  -- The tokens behind `alternatives` begun branches, at the start of a branch or not.
  abbrev pub IsFlat : ℕ → Bool → List Token → Type 0
  IsFlat alternatives at_start [] = alternatives ≤ max_alternatives
  IsFlat alternatives at_start (escape c ∷ ts) = IsEscapable c × IsFlat alternatives false ts
  IsFlat alternatives at_start (class negated bracket_first ms ∷ ts) =
      IsClass negated bracket_first ms × IsFlat alternatives false ts
  IsFlat alternatives at_start (branch ∷ ts) = IsFlat (alternatives + 1) true ts
  IsFlat alternatives at_start (literal c ∷ ts) =
      IsPlain c
      × (c ≡ caret → at_start ≡ true)
      × (c ≡ dollar → StopsBranch ts)
      × IsFlat alternatives false ts

  pub record Reading (alternatives : ℕ) (at_start : Bool) (cs : List ℕ) : Type 0 where
    pub tokens : List Token
    pub written : write_all tokens ≡ cs
    pub flat : IsFlat alternatives at_start tokens
