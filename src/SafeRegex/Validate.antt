-- ===== src/SafeRegex/Validate.antt =====
-- src/xray_e2e_prober/safe_regex.py: `_is_escaped`, `_consume_escape`, `_consume_character_class`,
-- `_validate_flat_alternatives`, `validate_safe_name_regex` and `safe_name_regex_search`.
use mathlib.Core.List.{reverse}
use xray_e2e_prober.Base.{
  ℕ, zero, suc, ◌+◌, ◌%◌, Bool, true, false, not, ◌&&◌, List, [], ◌∷◌, ◌==◌, nat_eq, member,
  if◌then◌else◌, ltb, length, Result, ok, err, ◌>>=◌, ◌>>◌, Option, none, some, reject,
}

pub data UnsafeNameRegexError : Type 0 where
  trailing_escape backreference unsupported_escape nested_class unterminated_class :
      UnsafeNameRegexError
  unexpected_bracket too_many_alternatives repetition_or_group misplaced_start :
      UnsafeNameRegexError
  misplaced_end too_long not_compilable : UnsafeNameRegexError

abbrev pub max_length : ℕ
max_length = 256

abbrev pub max_alternatives : ℕ
max_alternatives = 32

-- `frozenset("AbBdDsSwWZfnrtv")`
abbrev pub single_character_escapes : List ℕ
single_character_escapes =
    b'A' ∷ b'b' ∷ b'B' ∷ b'd' ∷ b'D' ∷ b's' ∷ b'S' ∷ b'w' ∷ b'W' ∷ b'Z' ∷ b'f' ∷ b'n' ∷ b'r' ∷ b't'
    ∷ b'v' ∷ []

-- `frozenset("*+?{}()")`
abbrev pub repetition_or_group_meta : List ℕ
repetition_or_group_meta = b'*' ∷ b'+' ∷ b'?' ∷ b'{' ∷ b'}' ∷ b'(' ∷ b')' ∷ []

-- Code points of the signs that the validator looks for: \ [ ] | ^ $.
abbrev pub backslash : ℕ
backslash = 92

abbrev pub open_bracket : ℕ
open_bracket = 91

abbrev pub close_bracket : ℕ
close_bracket = 93

abbrev pub bar : ℕ
bar = 124

abbrev pub caret : ℕ
caret = 94

abbrev pub dollar : ℕ
dollar = 36

-- The backslashes that stand directly before the index, read from right to left.
unfoldable pub count_backslashes : List ℕ → ℕ
count_backslashes [] = 0
count_backslashes (c ∷ before) =
    let more = count_backslashes before in if c == backslash then suc more else 0

unfoldable pub is_escaped : List ℕ → Bool
unfolding count_backslashes
is_escaped before = count_backslashes (reverse before) % 2 == 1

-- What Python's `str.isdigit`, `str.isalpha` and `re.compile` say.
pub record Python : Type 0 where
  pub is_digit : ℕ → Bool
  pub is_alpha : ℕ → Bool
  pub compiles : List ℕ → Bool

-- One character may be skipped, if it is the given one.
abbrev pub skip_one : ℕ → List ℕ → List ℕ
skip_one x [] = []
skip_one x (c ∷ cs) = if c == x then cs else c ∷ cs

-- A `$` must stand here: before a bar or at the end.
abbrev pub ends_branch : List ℕ → Bool
ends_branch [] = true
ends_branch (c ∷ cs) = c == bar

-- The last three tests of a round, on a character that is no other sign.
unfoldable pub check_literal : ℕ → Bool → List ℕ → Result UnsafeNameRegexError (Unit {0})
check_literal c at_start cs =
    if member c repetition_or_group_meta
    then err repetition_or_group
    else if c == caret && not at_start
    then err misplaced_start
    else if c == dollar && not (ends_branch cs)
    then err misplaced_end
    else ok tt

module _ (py : Python) where
  -- The character behind a backslash.
  unfoldable pub check_escape : ℕ → Result UnsafeNameRegexError (Unit {0})
  check_escape escaped =
      if py.is_digit escaped
      then err backreference
      else if py.is_alpha escaped && not (member escaped single_character_escapes)
      then err unsupported_escape
      else ok tt

  -- The `while` loop of `_consume_character_class`; the result is the suffix behind the class.
  unfoldable pub class_rest : List ℕ → Result UnsafeNameRegexError (List ℕ)
  class_rest [] = err unterminated_class
  class_rest (c ∷ []) =
      if c == backslash
      then err trailing_escape
      else if c == open_bracket
      then err nested_class
      else if c == close_bracket
      then ok []
      else err unterminated_class
  class_rest (c ∷ d ∷ cs) =
      let escaped = class_rest cs in
      let onward = class_rest (d ∷ cs) in
      if c == backslash
      then check_escape d >> escaped
      else if c == open_bracket
      then err nested_class
      else if c == close_bracket
      then ok (d ∷ cs)
      else onward

  -- `_consume_character_class`, behind the opening bracket: a `^` and then a `]` may come first.
  unfoldable pub consume_character_class : List ℕ → Result UnsafeNameRegexError (List ℕ)
  consume_character_class cs = class_rest (skip_one close_bracket (skip_one caret cs))

  -- `_consume_escape`, behind the backslash, and what goes on with the suffix.
  abbrev pub after_escape :
      (List ℕ → Result UnsafeNameRegexError (Unit {0}))
      → List ℕ
      → Result UnsafeNameRegexError (Unit {0})
  after_escape onward [] = err trailing_escape
  after_escape onward (d ∷ rest) = check_escape d >> onward rest

  -- `_validate_flat_alternatives`: the alternatives so far, whether the cursor stands at the start
  -- of a branch, and the suffix. Every round reads a character, so the length is enough fuel.
  unfoldable pub flat_loop : ℕ → ℕ → Bool → List ℕ → Result UnsafeNameRegexError (Unit {0})
  flat_loop fuel alternatives at_start [] = ok tt
  flat_loop zero alternatives at_start (c ∷ cs) = ok tt
  flat_loop (suc fuel) alternatives at_start (c ∷ cs) =
      let onward = flat_loop fuel alternatives false cs in
      let branch = flat_loop fuel (alternatives + 1) true cs in
      let in_class = consume_character_class cs >>= flat_loop fuel alternatives false in
      let escaped = after_escape (flat_loop fuel alternatives false) cs in
      if c == backslash
      then escaped
      else if c == open_bracket
      then in_class
      else if c == close_bracket
      then err unexpected_bracket
      else if c == bar
      then reject (ltb max_alternatives (alternatives + 1)) too_many_alternatives >> branch
      else check_literal c at_start cs >> onward

  unfoldable pub validate_flat_alternatives : List ℕ → Result UnsafeNameRegexError (Unit {0})
  unfolding flat_loop
  validate_flat_alternatives expression = flat_loop (length expression) 1 true expression

-- `startswith` with the text behind the prefix, and `endswith` with the text before the last.
unfoldable pub strip_prefix : List ℕ → List ℕ → Option (List ℕ)
strip_prefix [] cs = some cs
strip_prefix (p ∷ ps) [] = none
strip_prefix (p ∷ ps) (c ∷ cs) = let rest = strip_prefix ps cs in if p == c then rest else none

unfoldable pub strip_last : ℕ → List ℕ → Option (List ℕ)
strip_last x [] = none
strip_last x (c ∷ []) = if c == x then some [] else none
strip_last x (c ∷ d ∷ cs) = elim (strip_last x (d ∷ cs)) [
  | none ↦ none
  | some front ↦ some (c ∷ front)
]

abbrev pub or_same : Option (List ℕ) → List ℕ → List ℕ
or_same none cs = cs
or_same (some rest) cs = rest

-- `if expression.endswith("$") and not _is_escaped(…): expression = expression[:-1]`
abbrev pub strip_end : Option (List ℕ) → List ℕ → List ℕ
strip_end none cs = cs
strip_end (some front) cs = if is_escaped front then cs else front

-- `expression[k:-1]` where the text starts with an opening group and ends with `)`.
abbrev pub inside : Option (List ℕ) → Option (List ℕ)
inside none = none
inside (some cs) = strip_last b')' cs

abbrev pub strip_group : List ℕ → List ℕ
strip_group cs =
    or_same (inside (strip_prefix (b'(' ∷ b'?' ∷ b':' ∷ []) cs))
      (or_same (inside (strip_prefix (b'(' ∷ []) cs)) cs)

unfoldable pub stripped : List ℕ → List ℕ
stripped pattern =
    let expression = or_same (strip_prefix (b'(' ∷ b'?' ∷ b'i' ∷ b')' ∷ []) pattern) pattern in
    let anchored = or_same (strip_prefix (caret ∷ []) expression) expression in
    strip_group (strip_end (strip_last dollar anchored) anchored)

unfoldable pub validate_safe_name_regex : Python → List ℕ → Result UnsafeNameRegexError (List ℕ)
validate_safe_name_regex py pattern = do
  reject (ltb max_length (length pattern)) too_long
  validate_flat_alternatives py (stripped pattern)
  reject (not (py.compiles pattern)) not_compilable
  ok pattern
