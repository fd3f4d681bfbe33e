-- ===== src/Candidates.antt =====
-- internal/core/resolver/resolver.go: the filters on the candidates of a call, and its helpers on the
-- names of types. The two rules of a language that they use are the record `TypeRules`, for methods
-- of the interface LanguageHelper.
pub mod Choice
pub mod Hints
mod Examples
use Prim.Native.Nat.{ℕ, zero, suc, ◌+◌, ◌-◌}
use mathlib.Core.Bool.{Bool, true, false, ◌&&◌, ◌||◌, not}
use mathlib.Core.Option.{Option, none, some}
use mathlib.Core.List.{List, [], ◌∷◌, ◌++◌, map}
use flash_code_graph.Common.Tests.{ltb, leb, ◌==◌, if◌then◌else◌}
use flash_code_graph.Common.Lists.{length, get_elem?, keep_if, any, is_empty}
use flash_code_graph.Common.Text.{
  Text, text, text_eq, has_prefix, has_suffix, trim_prefix, trim_suffix, contains, cut_last,
}
use flash_code_graph.Model.{Symbol, ParamInfo}

pub record TypeRules : Type 0 where
  pub is_type_assignable : Text → Text → Bool
  pub resolve_overload : List Symbol → List Text → Option Symbol

unfoldable pub is_matching_import : Text → Text → Bool
is_matching_import qualified_name module_path =
    text_eq qualified_name module_path || has_prefix qualified_name (module_path ++ text ".")

unfoldable pub is_owned_by : Text → Symbol → Bool
is_owned_by class_name candidate =
    let bare = trim_prefix class_name (text "*") in
    contains candidate.qualified_name (text "." ++ bare ++ text ".")
    || has_prefix candidate.qualified_name (bare ++ text ".")

unfoldable pub filter_by_owner_class : List Symbol → Text → List Symbol
filter_by_owner_class candidates class_name = keep_if (is_owned_by class_name) candidates

unfoldable pub filter_by_file : List Symbol → Text → List Symbol
filter_by_file candidates file_path = keep_if (λ c. text_eq c.file_path file_path) candidates

unfoldable pub last_type : List ParamInfo → Option Text
last_type [] = none
last_type (p ∷ []) = some p.type_name
last_type (p ∷ q ∷ params) = last_type (q ∷ params)

-- len(params) > 0 && strings.HasSuffix(params[len(params)-1], "...")
unfoldable pub is_varargs : List ParamInfo → Bool
is_varargs params = elim (last_type params) [ none ↦ false | some t ↦ has_suffix t (text "...") ]

unfoldable pub required_count : List ParamInfo → ℕ
required_count [] = 0
required_count (p ∷ params) = (if p.has_default then 0 else 1) + required_count params

-- The body of the loop of `filterByArgCount`.
unfoldable pub takes_count : ℕ → Symbol → Bool
takes_count arg_count candidate =
    let count = length candidate.params in
    if is_varargs candidate.params
    then leb (count - 1) arg_count
    else leb (required_count candidate.params) arg_count && leb arg_count count

unfoldable pub filter_by_arg_count : List Symbol → ℕ → List Symbol
filter_by_arg_count candidates arg_count = keep_if (takes_count arg_count) candidates

unfoldable pub param_types : List ParamInfo → List Text
param_types params = map (λ p. p.type_name) params

unfoldable pub is_single_letter_generic : Text → Bool
is_single_letter_generic [] = false
is_single_letter_generic (c ∷ []) = leb b'A' c && leb c b'Z'
is_single_letter_generic (c ∷ d ∷ rest) = false

unfoldable pub is_generic_type_param : Symbol → Text → Bool
is_generic_type_param candidate param_type =
    if is_empty candidate.type_params
    then is_single_letter_generic param_type
    else any (λ t. text_eq t param_type) candidate.type_params

unfoldable pub is_unknown_type : Text → Bool
is_unknown_type arg_type = is_empty arg_type || text_eq arg_type (text "null")

-- !langHelper.IsTypeAssignable, or the hint "!T": the argument is no T.
unfoldable pub clashes : TypeRules → Text → Text → Bool
clashes rules [] param_type = not (rules.is_type_assignable [] param_type)
clashes rules (c ∷ arg_type) param_type =
    if c == b'!'
    then text_eq arg_type param_type
    else not (rules.is_type_assignable (c ∷ arg_type) param_type)

-- The type of parameter i; past the last one that of the varargs parameter, if there is one.
unfoldable pub type_at : List ParamInfo → ℕ → Option Text
type_at params i = elim (get_elem? (param_types params) i) [
  | some t ↦ some t
  | none ↦ if is_varargs params then last_type params else none
]

-- The loop over the arguments, from position i on.
unfoldable pub is_excluded : TypeRules → Symbol → ℕ → List Text → Bool
is_excluded rules candidate i [] = false
is_excluded rules candidate i (arg_type ∷ arg_types) =
    let rest = is_excluded rules candidate (suc i) arg_types in
    if is_unknown_type arg_type then rest else elim (type_at candidate.params i) [
      | none ↦ true
      | some t ↦
          if is_generic_type_param candidate t
          then rest
          else if clashes rules arg_type (trim_suffix t (text "..."))
          then true
          else rest
    ]

-- The tests at the head of the loop, which `continue`, and the loop over the arguments.
unfoldable pub takes_types : TypeRules → List Text → Symbol → Bool
takes_types rules arg_types candidate =
    let count = length candidate.params in
    let fits =
      if is_varargs candidate.params
      then leb (count - 1) (length arg_types)
      else count == length arg_types in
    fits && not (is_excluded rules candidate 0 arg_types)

-- The last step: fixed parameters before varargs, if some but not all candidates have them.
unfoldable pub prefer_fixed : List Symbol → List Symbol
prefer_fixed remaining =
    let fixed = keep_if (λ c. not (is_varargs c.params)) remaining in
    if ltb 1 (length remaining) && (not (is_empty fixed) && ltb (length fixed) (length remaining))
    then fixed
    else remaining

unfoldable pub most_specific : TypeRules → List Text → List Symbol → List Symbol
most_specific rules arg_types remaining =
    if ltb 1 (length remaining) && any (λ a. not (is_unknown_type a)) arg_types
    then elim (rules.resolve_overload remaining arg_types) [
      | none ↦ prefer_fixed remaining
      | some best ↦ best ∷ []
    ]
    else prefer_fixed remaining

unfoldable pub filter_by_arg_types : TypeRules → List Symbol → List Text → List Symbol
filter_by_arg_types rules candidates arg_types =
    let remaining = keep_if (takes_types rules arg_types) candidates in
    if is_empty arg_types
    then candidates
    else if is_empty remaining
    then candidates
    else most_specific rules arg_types remaining

unfoldable pub extract_simple_type : Text → Text
extract_simple_type type_name = elim (cut_last b'.' type_name) [
  | none ↦ type_name
  | some (qualifier, name) ↦ name
]
