-- ===== src/SafeRegex/Tests.antt =====
-- Concrete patterns.
use xray_e2e_prober.Base.{ℕ, ◌≡◌, refl, true, ◌&&◌, ◌||◌, List, [], ◌∷◌, leb, ok, err}
use xray_e2e_prober.SafeRegex.Validate.{
  Python, is_escaped, count_backslashes, repetition_or_group, strip_prefix, strip_last, stripped,
  check_escape, check_literal, class_rest, consume_character_class, flat_loop,
  validate_flat_alternatives, validate_safe_name_regex,
}
use xray_e2e_prober.SafeRegex.Accepted.{IsSafe, validate-IsSafe}

-- Python on ASCII, with a compiler that takes every pattern.
abbrev ascii : Python
ascii = record {
  is_digit = λ c. leb b'0' c && leb c b'9';
  is_alpha = λ c. (leb b'a' c && leb c b'z') || (leb b'A' c && leb c b'Z');
  compiles = λ p. true;
}

-- ^(a|b[^c]\d)$
abbrev pattern : List ℕ
pattern = 94 ∷ b'(' ∷ b'a' ∷ 124 ∷ b'b' ∷ 91 ∷ 94 ∷ b'c' ∷ 93 ∷ 92 ∷ b'd' ∷ b')' ∷ 36 ∷ []

passes : validate_safe_name_regex ascii pattern ≡ ok pattern
unfolding validate_safe_name_regex stripped strip_prefix strip_last is_escaped count_backslashes
    validate_flat_alternatives flat_loop check_escape check_literal consume_character_class
    class_rest
passes = refl

-- a*
repeats : validate_safe_name_regex ascii (b'a' ∷ b'*' ∷ []) ≡ err repetition_or_group
unfolding validate_safe_name_regex stripped strip_prefix strip_last is_escaped count_backslashes
    validate_flat_alternatives flat_loop check_escape check_literal consume_character_class
    class_rest
repeats = refl

validate-IsSafe_example : (pattern ≡ pattern) × IsSafe ascii pattern
validate-IsSafe_example = validate-IsSafe ascii pattern pattern passes
