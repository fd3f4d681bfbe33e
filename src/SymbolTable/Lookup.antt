-- ===== src/SymbolTable/Lookup.antt =====
-- What the lookups return after a list of symbols was added: each is a filter of that list.
use Prim.Native.Nat.{◌≤◌}
use mathlib.Core.Path.{◌≡◌, refl, ap, ◌∙◌}
use mathlib.Core.Bool.{true}
use mathlib.Core.Option.{Option, some}
use mathlib.Core.List.{List, [], ◌∷◌, Permᴰ}
use native.Mathlib.Omega.{arith}
use flash_code_graph.Common.Tests.{==_iff}
use flash_code_graph.Common.Lists.{length, get_or, keep_if, All, All-get_or}
use flash_code_graph.Common.Keep.{keep_if-append, keep_if-keep_if, keep_if-Permᴰ}
use flash_code_graph.Common.Text.{Text, text_eq_iff}
use flash_code_graph.Model.{Symbol}
use flash_code_graph.SymbolTable.{
  Shard, SymbolTable, empty_shard, shard_for, find_by_name, find_by_file, collect_file, collect_all,
  all_symbols,
}
use flash_code_graph.SymbolTable.Shards.{
  index_limit, IsIndexed, IsIndexed-empty_shard, named, in_file,
}
use flash_code_graph.SymbolTable.Refines.{Represents, sent_to, table_of, table_of-Represents}

named-sent_to : (n : Text) (s : Symbol) → named n s ≡ true → sent_to (shard_for n) s ≡ true
named-sent_to n s h =
    let e : s.name ≡ n = (text_eq_iff s.name n).0 h in
    (==_iff (shard_for s.name) (shard_for n)).1 (ap shard_for e)

find_by_name-Represents :
    (table : SymbolTable) (symbols : List Symbol) (n : Text)
    → Represents table symbols
    → find_by_name table n ≡ some (keep_if (named n) symbols)
unfolding find_by_name
find_by_name-Represents table symbols n h =
    let shard = get_or table.shards (shard_for n) empty_shard in
    let found =
      (All-get_or IsIndexed table.shards (shard_for n) empty_shard h.indexed
          IsIndexed-empty_shard).by_name
        n in
    found
    ∙ ap (λ (xs : List Symbol). some (keep_if (named n) xs)) (h.spread (shard_for n))
    ∙ ap {B = Option (List Symbol)} some
        (keep_if-keep_if (named n) (sent_to (shard_for n)) symbols (named-sent_to n))

collect_file-indexed :
    (shards : List Shard) (path : Text)
    → All IsIndexed shards
    → collect_file shards path ≡ some (keep_if (in_file path) (collect_all shards))
unfolding collect_file collect_all keep_if
collect_file-indexed [] path h = refl
collect_file-indexed (shard ∷ shards) path h = ground (
  arith,
  h.0.by_file path,
  collect_file-indexed shards path h.1,
  keep_if-append (in_file path) shard.symbols (collect_all shards),
)

-- After at most 2^31 symbols were added to an empty table, `FindByName` does not panic, and returns
-- the symbols of that name in the order of insertion.
pub find_by_name-table_of :
    (symbols : List Symbol) (name : Text)
    → length symbols ≤ index_limit
    → find_by_name (table_of symbols) name ≡ some (keep_if (named name) symbols)
find_by_name-table_of symbols name small =
    find_by_name-Represents (table_of symbols) symbols name (table_of-Represents symbols small)

-- After at most 2^31 symbols were added to an empty table, `FindByFile` does not panic, and returns the
-- symbols of the file, each as often as it was added.
pub find_by_file-table_of :
    (symbols : List Symbol) (path : Text)
    → length symbols ≤ index_limit
    → (found : List Symbol) × (find_by_file (table_of symbols) path ≡ some found)
      × Permᴰ found (keep_if (in_file path) symbols)
unfolding find_by_file
find_by_file-table_of symbols path small =
    let h = table_of-Represents symbols small in
    (
      keep_if (in_file path) (collect_all (table_of symbols).shards),
      collect_file-indexed (table_of symbols).shards path h.indexed,
      keep_if-Permᴰ (in_file path) h.together,
    )

-- After at most 2^31 symbols were added to an empty table, `All` returns exactly these, each as often
-- as it was added.
pub all_symbols-table_of :
    (symbols : List Symbol)
    → length symbols ≤ index_limit
    → Permᴰ (all_symbols (table_of symbols)) symbols
unfolding all_symbols
all_symbols-table_of symbols small = (table_of-Represents symbols small).together
