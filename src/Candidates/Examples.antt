-- ===== src/Candidates/Examples.antt =====
-- Two overloads of a function, on which the theorem about the filters is applied.
use mathlib.Core.Path.{◌≡◌, refl}
use mathlib.Core.Bool.{true, false}
use mathlib.Core.Option.{Option, none, some}
use mathlib.Core.List.{List, [], ◌∷◌, Memᴰ}
use native.Mathlib.Omega.{arith}
use Prim.Native.Nat.{◌<◌}
use flash_code_graph.Common.Lists.{length, get_or}
use flash_code_graph.Candidates.Hints.{
  last_dot_outside_parens, dot_below, last_dot_outside_parens_lem,
}
use flash_code_graph.Common.Text.{Text, text, text_eq}
use flash_code_graph.Model.{Symbol, kind_function}
use flash_code_graph.Candidates.{TypeRules, filter_by_arg_types}
use flash_code_graph.Candidates.Choice.{IsChoice, filter_by_arg_types-IsChoice}

abbrev print_at : Text → Text → Symbol
print_at id type_name = record {
  id = id;
  name = text "print";
  qualified_name = text "io.print";
  kind = kind_function;
  file_path = text "io.go";
  params = record { name = text "x"; type_name = type_name; has_default = false } ∷ [];
  class_type = [];
  type_params = [];
  is_exported = true;
  is_constructor = false;
  is_default_export = false;
}

abbrev overloads : List Symbol
overloads = print_at (text "f1") (text "int") ∷ print_at (text "f2") (text "string") ∷ []

first_of : List Symbol → Option Symbol
first_of [] = none
first_of (c ∷ rest) = some c

-- Types must be the same, and the first overload is taken.
abbrev plain_rules : TypeRules
plain_rules = record { is_type_assignable = text_eq; resolve_overload = λ cs types. first_of cs }

first_of-mem : (cs : List Symbol) (c : Symbol) → first_of cs ≡ some c → Memᴰ c cs
unfolding first_of
first_of-mem [] c h = absurd (ground arith)
first_of-mem (d ∷ cs) c h = Memᴰ.head (ground (arith, h))

filter_by_arg_types-IsChoice_example :
    IsChoice (filter_by_arg_types plain_rules overloads (text "string" ∷ [])) overloads
filter_by_arg_types-IsChoice_example =
    filter_by_arg_types-IsChoice plain_rules (λ cs types c h. first_of-mem cs c h) overloads
      (text "string" ∷ []) refl

last_dot_found : (6 < length (text "f(a.b).get")) × (get_or (text "f(a.b).get") 6 0 ≡ b'.')
unfolding last_dot_outside_parens dot_below
last_dot_found = last_dot_outside_parens_lem (text "f(a.b).get") 6 refl
