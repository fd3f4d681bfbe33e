-- ===== src/Exports/Allowed.antt =====
-- Each step of `propagateExports` returns, and keeps what re-exports may stand for.
use mathlib.Core.Path.{◌≡◌, refl, sym, subst, ◌∙◌}
use mathlib.Core.Logic.{inl, inr, ⊎_elim}
use mathlib.Core.Bool.{Bool, true, false, ◌||◌, not}
use mathlib.Core.Option.{Option, some}
use mathlib.Core.List.{List, [], ◌∷◌}
use native.Mathlib.Omega.{arith}
use flash_code_graph.Common.Tests.{if◌then◌else◌, Bool-cases, Option-cases, &&-eq-true}
use flash_code_graph.Common.Lists.{find_first, is_empty, keep_if, All, All-mem}
use flash_code_graph.Common.Keep.{Memᴰ-keep_if, find_first-some}
use flash_code_graph.Common.Traverse.{All-at}
use flash_code_graph.Common.Text.{Text, text_eq}
use flash_code_graph.Common.Maps.{append_at, lookup-insert}
use flash_code_graph.Model.{Symbol}
use flash_code_graph.Paths.{derive_package}
use flash_code_graph.SymbolTable.{
  SymbolTable, Shard, collect_file, find_by_file, find_exported_by_file, add_re_export,
  has_re_export, get_re_export,
}
use flash_code_graph.Exports.{RawImport, ParseResult, Exporting}
use flash_code_graph.Exports.Cascade.{propagate_waiters_lem}
use flash_code_graph.Exports.Propagate.{
  find_symbol_in_file, matches_export, register_symbols, register_results, resolve_re_export,
  named_re_export, wildcard_re_export, re_export, qualified, local_name_of,
}

-- The symbols of the table are as they were, and all re-exports are allowed.
abbrev pub Sound : (Text → Type 0) → List Shard → SymbolTable → Type 0
Sound P shards table =
    (table.shards ≡ shards) × ((x id : Text) → get_re_export table x ≡ some id → P id)

module _ (P : Text → Type 0) (shards : List Shard) where
  add_re_export-Sound :
      (table : SymbolTable) (name id : Text)
      → Sound P shards table
      → P id
      → Sound P shards (add_re_export table name id)
  unfolding add_re_export get_re_export
  add_re_export-Sound table name id (same, good) allowed = (
    same,
    λ x found h.
        let at = sym (lookup-insert name x id table.re_export_index) ∙ h in
        elim (Bool-cases (text_eq name x)) [
          | inl here ↦ let equal : id ≡ found = ground arith in subst P equal allowed
          | inr other ↦ good x found (ground arith)
        ],
  )

  if-Sound :
      (b : Bool) (t u : SymbolTable)
      → Sound P shards t
      → Sound P shards u
      → Sound P shards (if b then t else u)
  if-Sound true t u h k = h
  if-Sound false t u h k = k

  register_symbols-Sound :
      (package_name : Text) (symbols : List Symbol) (table : SymbolTable)
      → All (λ s. P s.id) symbols
      → Sound P shards table
      → Sound P shards (register_symbols package_name symbols table)
  unfolding register_symbols
  register_symbols-Sound package_name [] table h good = good
  register_symbols-Sound package_name (symbol ∷ symbols) table h good =
      let name = qualified package_name symbol.name in
      register_symbols-Sound package_name symbols _ h.1 (
        if-Sound (has_re_export table name) table (add_re_export table name symbol.id) good
          (add_re_export-Sound table name symbol.id good h.0))

  pub register_results-Sound :
      (results : List ParseResult) (table : SymbolTable)
      → All (λ r. All (λ s. P s.id) (keep_if (λ s. s.is_exported) r.symbols)) results
      → Sound P shards table
      → Sound P shards (register_results results table)
  unfolding register_results
  register_results-Sound [] table h good = good
  register_results-Sound (result ∷ results) table h good =
      register_results-Sound results _ h.1
        (register_symbols-Sound (derive_package result.file_path) _ table h.0 good)

  -- A step on the state that returns and keeps it sound.
  abbrev pub Continues : Option Exporting → Type 0
  Continues result = (after : Exporting) × (result ≡ some after) × Sound P shards after.table

  resolve_re_export-Continues :
      (name id : Text) (state : Exporting)
      → Sound P shards state.table
      → P id
      → Continues (resolve_re_export name id state)
  unfolding resolve_re_export
  resolve_re_export-Continues name id state good allowed =
      let added = record state { table = add_re_export state.table name id } in
      let (same, known) = add_re_export-Sound state.table name id good allowed in
      let (after, run, kept, names) = propagate_waiters_lem name id added in
      (
        after,
        run,
        (
          kept ∙ same,
          λ x found h.
              ⊎_elim (λ unchanged. known x found (sym unchanged ∙ h))
                (λ waits.
                  let got = sym ((names x).0 waits) ∙ h in
                  let equal : id ≡ found = ground arith in subst P equal allowed)
                (names x).1,
        ),
      )

  -- Every file has its list of symbols, and its exported symbols are allowed.
  abbrev pub FilesKnown : Type 0
  FilesKnown =
      (path : Text)
      → (symbols : List Symbol) × (collect_file shards path ≡ some symbols)
        × All (λ s. s.is_exported ≡ true → P s.id) symbols

  pub exported-All :
      (symbols : List Symbol)
      → All (λ s. s.is_exported ≡ true → P s.id) symbols
      → All (λ s. P s.id) (keep_if (λ s. s.is_exported) symbols)
  exported-All symbols known = All-mem _ (keep_if (λ s. s.is_exported) symbols) (λ s m.
      let (listed, out) = (Memᴰ-keep_if (λ (s : Symbol). s.is_exported) s symbols).0 m in
      All-at _ symbols s known listed out)

  named_re_export-Continues :
      FilesKnown
      → (entry : RawImport) (target : Text) (state : Exporting) → Sound P shards state.table
      → Continues (named_re_export entry target state)
  unfolding named_re_export find_symbol_in_file find_by_file
  named_re_export-Continues files entry target state good =
      let (symbols, found, known) = files target in
      let name = qualified (derive_package entry.file_path) (local_name_of entry) in
      let awaited = qualified (derive_package target) entry.symbol_name in
      let first = find_first (matches_export entry.symbol_name) symbols in
      let looked : find_symbol_in_file state.table target entry.symbol_name ≡ some first =
        rw (find_symbol_in_file, find_by_file, good.0, found) refl in
      elim (Bool-cases (has_re_export state.table name)) [
        | inl taken ↦ (state, rw (named_re_export, taken) refl, good)
        | inr free ↦ elim (Option-cases first) [
          | inr (symbol, here) ↦
              let (listed, picked) =
                find_first-some (matches_export entry.symbol_name) symbols symbol here in
              let (out, _) = &&-eq-true symbol.is_exported _ picked in
              let (after, run, still) =
                resolve_re_export-Continues name symbol.id state good
                  (All-at _ symbols symbol known listed out) in
              (after, rw (named_re_export, free, looked, here) run, still)
          | inl absent ↦ elim (Option-cases (get_re_export state.table awaited)) [
            | inl waits ↦ (
              record state { waiting_for = append_at awaited name state.waiting_for },
              rw (named_re_export, free, looked, absent, waits) refl,
              good,
            )
            | inr (id, resolved) ↦
                let (after, run, still) =
                  resolve_re_export-Continues name id state good (good.1 awaited id resolved) in
                (after, rw (named_re_export, free, looked, absent, resolved) run, still)
          ]
        ]
      ]

  wildcard_re_export-Continues :
      FilesKnown
      → (entry : RawImport) (target : Text) (state : Exporting) → Sound P shards state.table
      → Continues (wildcard_re_export entry target state)
  unfolding wildcard_re_export find_exported_by_file find_by_file
  wildcard_re_export-Continues files entry target state good =
      let (symbols, found, known) = files target in
      let listed : collect_file state.table.shards target ≡ some symbols = rw good.0 found in
      let exports : find_exported_by_file state.table target
          ≡ some (keep_if (λ s. s.is_exported) symbols) =
        rw listed refl in
      (
        record state {
          table =
              register_symbols (derive_package entry.file_path)
                (keep_if (λ s. s.is_exported) symbols) state.table;
        },
        rw (wildcard_re_export, exports) refl,
        register_symbols-Sound (derive_package entry.file_path) _ state.table
            (exported-All symbols known) good,
      )

  pub re_export-Continues :
      FilesKnown
      → (entry : RawImport) (target : Text) (state : Exporting) → Sound P shards state.table
      → Continues (re_export entry target state)
  unfolding re_export
  re_export-Continues files entry target state good =
      elim (Bool-cases (not entry.is_reexport || is_empty target)) [
        | inl skipped ↦ (state, rw (re_export, skipped) refl, good)
        | inr taken ↦ elim (Bool-cases entry.is_wildcard) [
          | inl all_of_it ↦
              rw (re_export, taken, all_of_it)
                (wildcard_re_export-Continues files entry target state good)
          | inr one_name ↦
              rw (re_export, taken, one_name)
                (named_re_export-Continues files entry target state good)
        ]
      ]
