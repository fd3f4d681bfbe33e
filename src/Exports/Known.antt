-- ===== src/Exports/Known.antt =====
-- What re-exported names stand for at the end of `propagateExports`.
use mathlib.Core.Path.{◌≡◌, refl}
use mathlib.Core.Logic.{inl, inr}
use mathlib.Core.Bool.{true, ◌||◌}
use mathlib.Core.Option.{Option, some}
use mathlib.Core.List.{List, [], ◌∷◌, Memᴰ}
use flash_code_graph.Common.Tests.{Bool-cases}
use flash_code_graph.Common.Lists.{All-mem}
use flash_code_graph.Common.Text.{Text, text, text_eq}
use flash_code_graph.Model.{Symbol}
use flash_code_graph.SymbolTable.{SymbolTable, Shard, find_by_file, get_re_export}
use flash_code_graph.Exports.{RawImport, ParseResult, TsconfigPaths, FilePath, Exporting}
use flash_code_graph.Exports.Files.{is_type_script}
use flash_code_graph.Exports.Propagate.{
  ImportFileMap, register_results, process_imports, process_results, propagate_exports,
  import_resolver, record_import,
}
use flash_code_graph.Exports.Allowed.{
  Sound, FilesKnown, register_results-Sound, re_export-Continues, exported-All,
}

-- The IDs of the exported symbols, of a parse result or of the table.
pub data Exported (results : List ParseResult) (table : SymbolTable) : Text → Type 0 where
  parsed :
      {result : ParseResult} {symbol : Symbol} {id : Text}
      → Memᴰ result results
      → Memᴰ symbol result.symbols
      → symbol.is_exported ≡ true
      → symbol.id ≡ id
      → Exported results table id
  stored :
      (path : Text) {symbols : List Symbol} {symbol : Symbol} {id : Text}
      → find_by_file table path ≡ some symbols
      → Memᴰ symbol symbols
      → symbol.is_exported ≡ true
      → symbol.id ≡ id
      → Exported results table id

module _ (P : Text → Type 0) (shards : List Shard) where
  abbrev Continued : Option (Exporting × ImportFileMap) → Type 0
  Continued result =
      (after : Exporting × ImportFileMap) × (result ≡ some after) × Sound P shards after.0.table

  process_imports-Continued :
      FilesKnown P shards
      → (resolve : RawImport → Text) (entries : List RawImport) (state : Exporting)
        (imports : ImportFileMap)
      → Sound P shards state.table
      → Continued (process_imports resolve entries (state, imports))
  unfolding process_imports
  process_imports-Continued files resolve [] state imports good = ((state, imports), refl, good)
  process_imports-Continued files resolve (entry ∷ entries) state imports good =
      let (next, run, still) =
        re_export-Continues P shards files entry (resolve entry) state good in
      let (after, rest, ends) =
        process_imports-Continued files resolve entries next
          (record_import entry (resolve entry) imports) still in
      (after, rw (process_imports, run) rest, ends)

  process_results-Continued :
      FilesKnown P shards
      → (resolve : RawImport → Text) (results : List ParseResult) (state : Exporting)
        (imports : ImportFileMap)
      → Sound P shards state.table
      → Continued (process_results resolve results (state, imports))
  unfolding process_results
  process_results-Continued files resolve [] state imports good = ((state, imports), refl, good)
  process_results-Continued files resolve (result ∷ results) state imports good =
      let ((next, more), run, still) =
        process_imports-Continued files resolve result.imports state imports good in
      let (after, rest, ends) = process_results-Continued files resolve results next more still in
      (after, rw (process_results, run) rest, ends)

-- If the table has a list of symbols for every file, and its re-exports stand for exported symbols,
-- then `propagateExports` returns, however the files import one another. The symbols of the table are
-- as before, and every re-exported name stands for the ID of an exported symbol of a parse result or
-- of the table.
pub propagate_exports-Exported :
    (lib : FilePath) (tsconfig : Option TsconfigPaths) (results : List ParseResult)
    (table : SymbolTable) (all_files : List Text) (language : Text)
    → ((path : Text) → (symbols : List Symbol) × (find_by_file table path ≡ some symbols))
    → ((x id : Text) → get_re_export table x ≡ some id → Exported results table id)
    → (after : Exporting × ImportFileMap) × (propagate_exports lib tsconfig results table all_files
          language
        ≡ some after)
      × (after.0.table.shards ≡ table.shards)
      × ((x id : Text) → get_re_export after.0.table x ≡ some id → Exported results table id)
unfolding propagate_exports find_by_file
propagate_exports-Exported lib tsconfig results table all_files language files known =
    let P = Exported results table in
    elim (Bool-cases (is_type_script language || text_eq language (text "python"))) [
      | inr other ↦ (
        (record { table = table; waiting_for = [] }, []),
        rw (propagate_exports, other) refl,
        refl,
        known,
      )
      | inl either ↦
          let local =
            register_results-Sound P table.shards results table
              (All-mem _ results (λ r m.
                exported-All P table.shards r.symbols
                  (All-mem _ r.symbols (λ s n out. parsed m n out refl))))
              (refl, known) in
          let (after, run, sound) =
            process_results-Continued P table.shards
              (λ path.
                let (symbols, found) = files path in
                (symbols, found, All-mem _ symbols (λ s m out. stored path found m out refl)))
              (import_resolver lib tsconfig all_files language) results
              (record { table = register_results results table; waiting_for = [] }) [] local in
          (after, rw (propagate_exports, either) run, sound.0, sound.1)
    ]
