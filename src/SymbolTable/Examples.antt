-- ===== src/SymbolTable/Examples.antt =====
-- Symbols of a small program, on which the theorems about the symbol table are applied.
use mathlib.Core.Path.{◌≡◌, refl}
use mathlib.Core.Bool.{true, false}
use mathlib.Core.Option.{some}
use mathlib.Core.List.{List, [], ◌∷◌, Memᴰ, Permᴰ}
use native.Mathlib.Omega.{arith}
use flash_code_graph.Common.Lists.{keep_if, All}
use flash_code_graph.Common.Text.{Text, text, text_eq}
use flash_code_graph.Model.{Symbol, kind_function, kind_class}
use flash_code_graph.SymbolTable.{
  find_by_name, find_by_file, all_symbols, find_by_qualified_name, find_methods_by_qualified_name,
}
use flash_code_graph.SymbolTable.Shards.{named, qualified, in_file}
use flash_code_graph.SymbolTable.Refines.{table_of}
use flash_code_graph.SymbolTable.Lookup.{
  find_by_name-table_of, find_by_file-table_of, all_symbols-table_of,
}
use flash_code_graph.SymbolTable.Qualified.{
  find_by_qualified_name-table_of, find_by_qualified_name-one_name,
}
use flash_code_graph.SymbolTable.Methods.{method_of, find_methods-table_of}

abbrev symbol_at : Text → Text → Text → Text → Text → Symbol
symbol_at id name qualified_name kind file_path = record {
  id = id;
  name = name;
  qualified_name = qualified_name;
  kind = kind;
  file_path = file_path;
  params = [];
  class_type = [];
  type_params = [];
  is_exported = true;
  is_constructor = false;
  is_default_export = false;
}

abbrev user_class : Symbol
user_class = symbol_at (text "c1") (text "User") (text "app.User") kind_class (text "user.go")

abbrev user_save : Symbol
user_save =
    symbol_at (text "f1") (text "save") (text "app.User.save") kind_function (text "user.go")

abbrev order_save : Symbol
order_save =
    symbol_at (text "f2") (text "save") (text "app.Order.save") kind_function (text "order.go")

abbrev three_symbols : List Symbol
three_symbols = user_class ∷ user_save ∷ order_save ∷ []

find_by_name-table_of_example :
    find_by_name (table_of three_symbols) (text "save") ≡ some (user_save ∷ order_save ∷ [])
unfolding keep_if named text_eq
find_by_name-table_of_example = find_by_name-table_of three_symbols (text "save") (omega arith)

symbols_of_file :
    (found : List Symbol) × (find_by_file (table_of three_symbols) (text "user.go") ≡ some found)
    × Permᴰ found (keep_if (in_file (text "user.go")) three_symbols)
symbols_of_file = find_by_file-table_of three_symbols (text "user.go") (omega arith)

all_symbols-table_of_example : Permᴰ (all_symbols (table_of three_symbols)) three_symbols
all_symbols-table_of_example = all_symbols-table_of three_symbols (omega arith)

find_by_qualified_name-table_of_example :
    (found : List Symbol) × (find_by_qualified_name (table_of three_symbols) (text "app.User")
      ≡ some found)
    × ((s : Symbol) → Memᴰ s found → Memᴰ s three_symbols × (qualified (text "app.User") s ≡ true))
    × (found ≡ [] → All (λ s. qualified (text "app.User") s ≡ false) three_symbols)
find_by_qualified_name-table_of_example =
    find_by_qualified_name-table_of three_symbols (text "app.User") (omega arith)

find_by_qualified_name-one_name_example :
    find_by_qualified_name (table_of three_symbols) (text "app.User.save") ≡ some (user_save ∷ [])
unfolding keep_if qualified text_eq
find_by_qualified_name-one_name_example =
    find_by_qualified_name-one_name three_symbols (text "app.User.save") (text "save") (omega arith)
      (λ e. ground arith, (λ e. refl, (λ e. refl, tt)))

find_methods-table_of_example :
    find_methods_by_qualified_name (table_of three_symbols) (text "app.User")
    ≡ some (keep_if (method_of (text "app.User")) three_symbols)
find_methods-table_of_example = find_methods-table_of three_symbols (text "app.User") (omega arith)
