-- ===== src/Exports/Examples.antt =====
-- A project with a barrel file, on which the theorems about exports are applied: src/user.ts exports
-- `User`, src/index.ts exports it again, and src/app.ts exports it from there.
use mathlib.Core.Path.{◌≡◌, refl}
use mathlib.Core.Logic.{◌⊎◌}
use mathlib.Core.Bool.{true, false}
use mathlib.Core.Option.{Option, none, some}
use mathlib.Core.List.{List, [], ◌∷◌, ◌++◌}
use native.Mathlib.Omega.{arith}
use flash_code_graph.Common.Lists.{drop}
use flash_code_graph.Common.Text.{Text, text}
use flash_code_graph.Common.Maps.{lookup}
use flash_code_graph.Model.{Symbol, kind_class}
use flash_code_graph.SymbolTable.{add, add_batch, SymbolTable, get_re_export}
use flash_code_graph.SymbolTable.Refines.{table_of}
use flash_code_graph.SymbolTable.Lookup.{find_by_file-table_of}
use flash_code_graph.Exports.{RawImport, ParseResult, FilePath, Exporting}
use flash_code_graph.Exports.Waiters.{propagate_waiters}
use flash_code_graph.Exports.Propagate.{propagate_exports, import_resolver, ImportFileMap}
use flash_code_graph.Exports.Steps.{exported, Waits}
use flash_code_graph.Exports.Cascade.{propagate_waiters_lem}
use flash_code_graph.Exports.Known.{Exported, propagate_exports-Exported}
use flash_code_graph.Exports.Targets.{IsTarget, import_resolver-IsTarget}

abbrev user : Symbol
user = record {
  id = text "c1";
  name = text "User";
  qualified_name = text "src.user.User";
  kind = kind_class;
  file_path = text "src/user.ts";
  params = [];
  class_type = [];
  type_params = [];
  is_exported = true;
  is_constructor = false;
  is_default_export = false;
}

-- For paths in src and modules in the same folder.
abbrev src_paths : FilePath
src_paths = record { dir = λ path. text "src"; join = λ dir path. dir ++ b'/' ∷ drop 2 path }

abbrev named_export : Text → Text → RawImport
named_export file_path module_path = record {
  module_path = module_path;
  symbol_name = text "User";
  file_path = file_path;
  is_reexport = true;
  local_name = [];
  is_wildcard = false;
}

abbrev everything : Text → Text → RawImport
everything file_path module_path = record {
  module_path = module_path;
  symbol_name = text "*";
  file_path = file_path;
  is_reexport = true;
  local_name = [];
  is_wildcard = true;
}

abbrev user_file : ParseResult
user_file = record { file_path = text "src/user.ts"; symbols = user ∷ []; imports = [] }

abbrev barrel_file : (Text → Text → RawImport) → ParseResult
barrel_file how = record {
  file_path = text "src/index.ts";
  symbols = [];
  imports = how (text "src/index.ts") (text "./user") ∷ [];
}

abbrev app_file : ParseResult
app_file = record {
  file_path = text "src/app.ts";
  symbols = [];
  imports = named_export (text "src/app.ts") (text "./index") ∷ [];
}

abbrev all_files : List Text
all_files = text "src/app.ts" ∷ text "src/index.ts" ∷ text "src/user.ts" ∷ []

abbrev users : SymbolTable
users = table_of (user ∷ [])

abbrev run : List ParseResult → Option (Exporting × ImportFileMap)
run results = propagate_exports src_paths none results users all_files (text "typescript")

abbrev app_user : Option (Exporting × ImportFileMap) → Option Text
app_user none = none
app_user (some (state, files)) = get_re_export state.table (text "src.app.User")

abbrev barrel_run : Option Text
barrel_run = app_user (run (app_file ∷ barrel_file named_export ∷ user_file ∷ []))

abbrev wildcard_run : Option Text
wildcard_run = app_user (run (app_file ∷ barrel_file everything ∷ user_file ∷ []))

abbrev wildcard_first_run : Option Text
wildcard_first_run = app_user (run (barrel_file everything ∷ app_file ∷ user_file ∷ []))

-- The barrel waits for the file, and the application for the barrel, which waits for it in turn.
abbrev waiting : Exporting
waiting = record {
  table = users;
  waiting_for =
      (text "src.user.User", text "src.User" ∷ [])
      ∷ (text "src.User", text "src.app.User" ∷ [])
      ∷ (text "src.app.User", text "src.User" ∷ [])
      ∷ [];
}

propagate_waiters_lem_example :
    (after : Exporting) × (propagate_waiters (text "src.user.User") (text "c1") waiting
      ≡ some after)
    × (after.table.shards ≡ users.shards)
    × ((x : Text)
        → (Waits waiting.waiting_for (text "src.user.User") x → exported after x ≡ some (text "c1"))
          × ((exported after x ≡ exported waiting x)
              ⊎ Waits waiting.waiting_for (text "src.user.User") x))
propagate_waiters_lem_example = propagate_waiters_lem (text "src.user.User") (text "c1") waiting

import_resolver-IsTarget_example : IsTarget all_files (
    import_resolver src_paths none all_files
      (text "typescript")
      (named_export (text "src/app.ts") (text "./index")))
import_resolver-IsTarget_example =
    import_resolver-IsTarget src_paths none all_files (text "typescript")
      (named_export (text "src/app.ts") (text "./index"))

no_re_exports : users.re_export_index ≡ []
unfolding add_batch add
no_re_exports = refl

nothing_exported : (x id : Text) → ¬ (get_re_export users x ≡ some id)
unfolding get_re_export lookup
nothing_exported x id h = let none_left = rw (get_re_export, no_re_exports) at h in ground arith

abbrev results : List ParseResult
results = app_file ∷ barrel_file named_export ∷ user_file ∷ []

propagate_exports-Exported_example :
    (after : Exporting × ImportFileMap) × (run results ≡ some after)
    × (after.0.table.shards ≡ users.shards)
    × ((x id : Text) → get_re_export after.0.table x ≡ some id → Exported results users id)
propagate_exports-Exported_example =
    propagate_exports-Exported src_paths none results users all_files (text "typescript")
      (λ path.
        let (found, runs, _) = find_by_file-table_of (user ∷ []) path (omega arith) in
        (found, runs))
      (λ x id h. absurd (nothing_exported x id h))
