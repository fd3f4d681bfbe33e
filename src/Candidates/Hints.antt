-- ===== src/Candidates/Hints.antt =====
-- internal/core/resolver/resolver.go: the hint for a call that is not resolved, and the helpers that
-- read receiver expressions. Expressions are bytes; a letter is one of ASCII.
use Prim.Native.Nat.{ℕ, zero, suc, ◌<◌}
use mathlib.Core.Path.{◌≡◌, subst}
use mathlib.Core.Logic.{inl, inr}
use mathlib.Core.Bool.{Bool, false, ◌&&◌, ◌||◌, not}
use mathlib.Core.Option.{Option, none, some}
use mathlib.Core.List.{List, [], ◌∷◌, map}
use native.Mathlib.Omega.{arith}
use flash_code_graph.Common.Tests.{leb, ◌==◌, if◌then◌else◌, Bool-cases}
use flash_code_graph.Common.Lists.{length, get_or, take, any, find_first, is_empty}
use flash_code_graph.Common.Text.{Text, text, text_eq, has_prefix, contains, cut_first}
use flash_code_graph.Model.{Symbol}
use flash_code_graph.Heritage.{Symbols, is_type_symbol}

pub record RawCall : Type 0 where
  pub called_name : Text
  pub file_path : Text
  pub line : ℕ
  pub receiver_expr : Text

pub record UnresolvedHint : Type 0 where
  pub hint_type : Text
  pub line : ℕ
  pub method : Text
  pub receiver_expr : Text
  pub receiver_type : Text
  pub candidates : List Text
  pub candidate_count : ℕ
  pub file_path : Text
  pub caller_id : Text

abbrev starts_upper : Text → Bool
starts_upper [] = false
starts_upper (c ∷ s) = leb b'A' c && leb c b'Z'

unfoldable pub is_enum_constant_pattern : Text → Bool
is_enum_constant_pattern expr = elim (cut_first b'.' expr) [
  | none ↦ false
  | some (class_name, const_name) ↦
      not (is_empty const_name)
      && starts_upper class_name
      && not (any (λ c. leb b'a' c && leb c b'z') const_name)
]

unfoldable pub hint_type_of : Text → Text → ℕ → Text
hint_type_of receiver_expr receiver_type count =
    if text_eq receiver_expr (text "super") || has_prefix receiver_expr (text "super.")
    then text "super_field_call"
    else if not (is_empty receiver_expr) && contains receiver_expr (text "(")
    then text "chained_call"
    else if not (is_empty receiver_expr)
        && is_empty receiver_type
        && not (contains receiver_expr (text "."))
    then text "lambda_call"
    else if not (is_empty receiver_expr) && is_enum_constant_pattern receiver_expr
    then text "enum_method"
    else if leb count 9
    then text "ambiguous_project_call"
    else text "untyped_receiver"

unfoldable pub classify_unresolved_call : RawCall → Text → Text → List Symbol → UnresolvedHint
classify_unresolved_call call caller_id receiver_type candidates = record {
  hint_type = hint_type_of call.receiver_expr receiver_type (length candidates);
  line = call.line;
  method = call.called_name;
  receiver_expr = call.receiver_expr;
  receiver_type = receiver_type;
  candidates = take 5 (map (λ c. c.qualified_name) candidates);
  candidate_count = length candidates;
  file_path = call.file_path;
  caller_id = caller_id;
}

unfoldable pub find_class_symbol : Symbols → Text → Option Symbol
find_class_symbol symbols type_name = elim (find_first is_type_symbol (symbols.by_name type_name)) [
  | some c ↦ some c
  | none ↦
      if contains type_name (text ".")
      then find_first is_type_symbol (symbols.by_qualified_name type_name)
      else none
]

-- The loop of `lastDotOutsideParens` below position n, after so many closing and opening parentheses:
-- the depth is zero where the two counts are equal.
unfoldable pub dot_below : Text → ℕ → ℕ → ℕ → Option ℕ
dot_below expr zero closing opening = none
dot_below expr (suc n) closing opening =
    let c = get_or expr n 0 in
    let inside = dot_below expr n (suc closing) opening in
    let outside = dot_below expr n closing (suc opening) in
    let further = dot_below expr n closing opening in
    if c == b')'
    then inside
    else if c == b'('
    then outside
    else if c == b'.' && closing == opening
    then some n
    else further

unfoldable pub last_dot_outside_parens : Text → Option ℕ
last_dot_outside_parens expr = dot_below expr (length expr) 0 0

dot_below_lem :
    (expr : Text) (n closing opening i : ℕ)
    → dot_below expr n closing opening ≡ some i
    → (i < n) × (get_or expr i 0 ≡ b'.')
unfolding dot_below
dot_below_lem expr zero closing opening i h = absurd (ground arith)
dot_below_lem expr (suc n) closing opening i h =
    let c = get_or expr n 0 in
    elim (Bool-cases (c == b')')) [
      | inl close ↦
          let (lt, dot) = dot_below_lem expr n (suc closing) opening i (ground (arith, h, close)) in
          (omega arith, dot)
      | inr not_close ↦ elim (Bool-cases (c == b'(')) [
        | inl open_paren ↦
            let (lt, dot) =
              dot_below_lem expr n closing (suc opening) i
                (ground (arith, h, not_close, open_paren)) in
            (omega arith, dot)
        | inr not_open ↦ elim (Bool-cases (c == b'.' && closing == opening)) [
          | inl found ↦
              let e : n ≡ i = ground (arith, h, not_close, not_open, found) in
              (omega arith, subst (λ z. get_or expr z 0 ≡ b'.') e (ground (arith, found)))
          | inr other ↦
              let (lt, dot) =
                dot_below_lem expr n closing opening i
                  (ground (arith, h, not_close, not_open, other)) in
              (omega arith, dot)
        ]
      ]
    ]

-- A position that `lastDotOutsideParens` returns lies in the expression, and a dot stands there, so
-- that the callers' slices before and behind it are in range.
pub last_dot_outside_parens_lem :
    (expr : Text) (i : ℕ)
    → last_dot_outside_parens expr ≡ some i
    → (i < length expr) × (get_or expr i 0 ≡ b'.')
unfolding last_dot_outside_parens
last_dot_outside_parens_lem expr i h = dot_below_lem expr (length expr) 0 0 i h
