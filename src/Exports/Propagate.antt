-- ===== src/Exports/Propagate.antt =====
-- `findSymbolInFile` and `propagateExports`. `none` is a panic of the symbol table. The result of
-- config.ParseTsconfig is an argument, `none` for nil.
use mathlib.Core.Bool.{Bool, true, false, ◌||◌, ◌&&◌, not}
use mathlib.Core.Option.{Option, none, some}
use mathlib.Core.List.{List, [], ◌∷◌, ◌++◌}
use flash_code_graph.Common.Tests.{if◌then◌else◌}
use flash_code_graph.Common.Lists.{find_first, is_empty, keep_if}
use flash_code_graph.Common.Text.{Text, text, text_eq}
use flash_code_graph.Common.Maps.{append_at}
use flash_code_graph.Model.{Symbol}
use flash_code_graph.Paths.{derive_package}
use flash_code_graph.SymbolTable.{
  SymbolTable, find_by_file, find_exported_by_file, add_re_export, has_re_export, get_re_export,
}
use flash_code_graph.Exports.{RawImport, ParseResult, TsconfigPaths, FilePath, Exporting}
use flash_code_graph.Exports.Files.{
  resolve_target_file, build_import_path_index, index_files, is_type_script,
}
use flash_code_graph.Exports.Waiters.{propagate_waiters}

pub record ImportFileKey : Type 0 where
  pub file_path : Text
  pub symbol_name : Text

abbrev pub ImportFileMap : Type 0
ImportFileMap = List (ImportFileKey × Text)

abbrev pub same_key : ImportFileKey → ImportFileKey → Bool
same_key k j = text_eq k.file_path j.file_path && text_eq k.symbol_name j.symbol_name

-- importFileMap[key] = target
unfoldable pub set_import : ImportFileKey → Text → ImportFileMap → ImportFileMap
set_import key target [] = (key, target) ∷ []
set_import key target ((j, old) ∷ rest) =
    let later = set_import key target rest in
    if same_key key j then (key, target) ∷ rest else (j, old) ∷ later

abbrev pub matches_export : Text → Symbol → Bool
matches_export name symbol =
    symbol.is_exported
    && (text_eq symbol.name name || (text_eq name (text "default") && symbol.is_default_export))

unfoldable pub find_symbol_in_file : SymbolTable → Text → Text → Option (Option Symbol)
find_symbol_in_file table path name = elim (find_by_file table path) [
  | none ↦ none
  | some symbols ↦ some (find_first (matches_export name) symbols)
]

abbrev pub qualified : Text → Text → Text
qualified package_name name = package_name ++ b'.' ∷ name

-- Registers symbols under the name of a package, but for names that are taken.
unfoldable pub register_symbols : Text → List Symbol → SymbolTable → SymbolTable
register_symbols package_name [] table = table
register_symbols package_name (symbol ∷ symbols) table =
    let name = qualified package_name symbol.name in
    register_symbols package_name symbols
      (if has_re_export table name then table else add_re_export table name symbol.id)

-- The first pass.
unfoldable pub register_results : List ParseResult → SymbolTable → SymbolTable
unfolding register_symbols
register_results [] table = table
register_results (result ∷ results) table = register_results results (
    register_symbols (derive_package result.file_path) (keep_if (λ s. s.is_exported) result.symbols)
      table)

unfoldable pub resolve_re_export : Text → Text → Exporting → Option Exporting
resolve_re_export name symbol_id state =
    propagate_waiters name symbol_id
      (record state { table = add_re_export state.table name symbol_id })

abbrev pub local_name_of : RawImport → Text
local_name_of entry = if is_empty entry.local_name then entry.symbol_name else entry.local_name

-- What a named re-export does, with the file that it takes the symbol from.
unfoldable pub named_re_export : RawImport → Text → Exporting → Option Exporting
unfolding find_symbol_in_file resolve_re_export
named_re_export entry target state =
    let name = qualified (derive_package entry.file_path) (local_name_of entry) in
    let awaited = qualified (derive_package target) entry.symbol_name in
    elim (has_re_export state.table name) [
      | true ↦ some state
      | false ↦ elim (find_symbol_in_file state.table target entry.symbol_name) [
        | none ↦ none
        | some (some symbol) ↦ resolve_re_export name symbol.id state
        | some none ↦ elim (get_re_export state.table awaited) [
          | some symbol_id ↦ resolve_re_export name symbol_id state
          | none ↦ some (record state { waiting_for = append_at awaited name state.waiting_for })
        ]
      ]
    ]

unfoldable pub wildcard_re_export : RawImport → Text → Exporting → Option Exporting
wildcard_re_export entry target state = elim (find_exported_by_file state.table target) [
  | none ↦ none
  | some symbols ↦ some (record state {
    table = register_symbols (derive_package entry.file_path) symbols state.table;
  })
]

unfoldable pub re_export : RawImport → Text → Exporting → Option Exporting
unfolding named_re_export wildcard_re_export
re_export entry target state = elim (not entry.is_reexport || is_empty target) [
  | true ↦ some state
  | false ↦ elim entry.is_wildcard [
    | true ↦ wildcard_re_export entry target state
    | false ↦ named_re_export entry target state
  ]
]

abbrev pub record_import : RawImport → Text → ImportFileMap → ImportFileMap
record_import entry target files =
    if is_empty target || is_empty entry.symbol_name
    then files
    else set_import (record { file_path = entry.file_path; symbol_name = entry.symbol_name }) target
        files

-- The second pass, over the imports of all files; `resolve` gives the file of an import.
unfoldable pub process_imports :
    (RawImport → Text)
    → List RawImport
    → Exporting × ImportFileMap
    → Option (Exporting × ImportFileMap)
unfolding re_export set_import
process_imports resolve [] state = some state
process_imports resolve (entry ∷ entries) (state, files) =
    elim (re_export entry (resolve entry) state) [
      | none ↦ none
      | some next ↦
          process_imports resolve entries (next, record_import entry (resolve entry) files)
    ]

unfoldable pub process_results :
    (RawImport → Text)
    → List ParseResult
    → Exporting × ImportFileMap
    → Option (Exporting × ImportFileMap)
unfolding process_imports
process_results resolve [] state = some state
process_results resolve (result ∷ results) state =
    elim (process_imports resolve result.imports state) [
      | none ↦ none
      | some next ↦ process_results resolve results next
    ]

unfoldable pub import_resolver :
    FilePath → Option TsconfigPaths → List Text → Text → RawImport → Text
unfolding resolve_target_file build_import_path_index index_files
import_resolver lib tsconfig all_files language entry =
    resolve_target_file lib entry.module_path entry.file_path (index_files [] all_files)
      (if is_type_script language then build_import_path_index tsconfig all_files else []) language

-- The table and the import map afterwards. Other languages are left alone.
unfoldable pub propagate_exports :
    FilePath
    → Option TsconfigPaths
    → List ParseResult
    → SymbolTable
    → List Text
    → Text
    → Option (Exporting × ImportFileMap)
unfolding import_resolver process_results register_results
propagate_exports lib tsconfig results table all_files language =
    elim (is_type_script language || text_eq language (text "python")) [
      | false ↦ some (record { table = table; waiting_for = [] }, [])
      | true ↦
          process_results (import_resolver lib tsconfig all_files language) results
            (record { table = register_results results table; waiting_for = [] }, [])
    ]
