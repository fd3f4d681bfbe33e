-- ===== src/SymbolTable.antt =====
-- internal/core/resolver/symbol_table.go: symbols in 64 shards with indices by name, qualified name,
-- file and ID, the methods of each class, the fields of each owner, and the re-exports. A method
-- runs as a whole here; the locks, which keep the steps of concurrent calls apart, are left out.
-- `none` as the result of a lookup of a slice is a panic: an index out of range.
pub mod Shards
pub mod Refines
pub mod Lookup
pub mod Qualified
pub mod Methods
mod Examples
use Prim.Native.Nat.{ℕ, suc, ◌+◌, ◌*◌, ◌/◌, ◌%◌, bit_and, bit_or, bit_xor}
use mathlib.Core.Bool.{Bool, true, false, ◌&&◌}
use mathlib.Core.Option
use mathlib.Core.Option.{Option, none, some}
use mathlib.Core.List.{List, [], ◌∷◌, ◌++◌, foldl}
use flash_code_graph.Common.Tests.{ltb, if◌then◌else◌}
use flash_code_graph.Common.Traverse.{traverse}
use flash_code_graph.Common.Lists.{
  length, get_elem?, get_or, set, replicate, keep_if, find_first, is_empty,
}
use flash_code_graph.Common.Text.{Text, text, text_eq, cut_last, contains}
use flash_code_graph.Common.Maps.{Map, lookup, insert, has_key, slice_at, append_at}
use flash_code_graph.Model.{Symbol, FieldInfo, kind_function}

pub record Shard : Type 0 where
  pub symbols : List Symbol
  pub by_name : Map (List ℕ)
  pub by_qualified_name : Map (List ℕ)
  pub by_file : Map (List ℕ)
  pub by_id : Map ℕ

pub record SymbolTable : Type 0 where
  pub shards : List Shard
  pub methods_by_class : Map (List ℕ)
  pub fields_by_owner : Map (List FieldInfo)
  pub re_export_index : Map Text

abbrev pub shard_count : ℕ
shard_count = 64

abbrev pub empty_shard : Shard
empty_shard = record {
  symbols = [];
  by_name = [];
  by_qualified_name = [];
  by_file = [];
  by_id = [];
}

abbrev pub new_symbol_table : SymbolTable
new_symbol_table = record {
  shards = replicate shard_count empty_shard;
  methods_by_class = [];
  fields_by_owner = [];
  re_export_index = [];
}

-- int32(n): the bit pattern. A pattern from 2^31 on is a negative number.
abbrev pub to_int32 : ℕ → ℕ
to_int32 n = n % 4294967296

-- symbols[localIndex] with an int32 index
unfoldable pub index : List Symbol → ℕ → Option Symbol
index symbols i = if ltb i 2147483648 then get_elem? symbols i else none

-- The loop that fills `result[i] = symbols[indices[i]]`.
unfoldable pub read : List Symbol → List ℕ → Option (List Symbol)
read symbols indices = traverse (index symbols) indices

-- FNV-1a over the bytes, in a uint32.
unfoldable pub fnv : ℕ → Text → ℕ
fnv h [] = h
fnv h (c ∷ s) = fnv (bit_xor h c * 16777619 % 4294967296) s

unfoldable pub shard_for : Text → ℕ
shard_for name = if is_empty name then 0 else fnv 2166136261 name % shard_count

unfoldable pub last_segment : Text → Text
last_segment qualified_name = elim (cut_last b'.' qualified_name) [
  | none ↦ qualified_name
  | some (before, after) ↦ after
]

-- The qualified name of the class that owns a method: the text before the last dot.
unfoldable pub owner_of : Text → Option Text
owner_of qualified_name = Option.map (λ p. p.0) (cut_last b'.' qualified_name)

-- The part of `Add` under the shard's lock.
unfoldable pub add_to_shard : Symbol → Shard → Shard
add_to_shard symbol shard =
    let local_index = to_int32 (length shard.symbols) in
    record shard {
      symbols = shard.symbols ++ symbol ∷ [];
      by_name = append_at symbol.name local_index shard.by_name;
      by_qualified_name =
          if is_empty symbol.qualified_name
          then shard.by_qualified_name
          else append_at symbol.qualified_name local_index shard.by_qualified_name;
      by_file = append_at symbol.file_path local_index shard.by_file;
      by_id = insert symbol.id local_index shard.by_id;
    }

-- int(shardIndex)<<24 | int(localIndex)
unfoldable pub encode_index : ℕ → ℕ → ℕ
encode_index shard_index local_index = bit_or (shard_index * 16777216) local_index

-- The part of `Add` under `methodsMutex`.
unfoldable pub index_method : Symbol → ℕ → ℕ → Map (List ℕ) → Map (List ℕ)
index_method symbol shard_index local_index methods =
    if text_eq symbol.kind kind_function
    then elim (owner_of symbol.qualified_name) [
      | none ↦ methods
      | some owner ↦ append_at owner (encode_index shard_index local_index) methods
    ]
    else methods

unfoldable pub add : SymbolTable → Symbol → SymbolTable
add table symbol =
    let shard_index = shard_for symbol.name in
    let shard = get_or table.shards shard_index empty_shard in
    record table {
      shards = set table.shards shard_index (add_to_shard symbol shard);
      methods_by_class =
          index_method symbol shard_index (to_int32 (length shard.symbols)) table.methods_by_class;
    }

unfoldable pub add_batch : SymbolTable → List Symbol → SymbolTable
add_batch table [] = table
add_batch table (s ∷ symbols) = add_batch (add table s) symbols

unfoldable pub find_by_name : SymbolTable → Text → Option (List Symbol)
find_by_name table name =
    let shard = get_or table.shards (shard_for name) empty_shard in
    read shard.symbols (slice_at name shard.by_name)

-- The fallback of `FindByQualifiedName`: the first shard that has the name.
unfoldable pub scan_qualified : List Shard → Text → Option (List Symbol)
scan_qualified [] qualified_name = some []
scan_qualified (shard ∷ shards) qualified_name =
    let later = scan_qualified shards qualified_name in
    let found = slice_at qualified_name shard.by_qualified_name in
    if is_empty found then later else read shard.symbols found

unfoldable pub find_by_qualified_name : SymbolTable → Text → Option (List Symbol)
find_by_qualified_name table qualified_name =
    let shard = get_or table.shards (shard_for (last_segment qualified_name)) empty_shard in
    let found = slice_at qualified_name shard.by_qualified_name in
    if is_empty found then scan_qualified table.shards qualified_name else read shard.symbols found

unfoldable pub collect_file : List Shard → Text → Option (List Symbol)
collect_file [] path = some []
collect_file (shard ∷ shards) path = elim (read shard.symbols (slice_at path shard.by_file)) [
  | none ↦ none
  | some here ↦ elim (collect_file shards path) [ none ↦ none | some rest ↦ some (here ++ rest) ]
]

unfoldable pub find_by_file : SymbolTable → Text → Option (List Symbol)
find_by_file table path = collect_file table.shards path

unfoldable pub collect_all : List Shard → List Symbol
collect_all [] = []
collect_all (shard ∷ shards) = shard.symbols ++ collect_all shards

unfoldable pub all_symbols : SymbolTable → List Symbol
all_symbols table = collect_all table.shards

-- The outer `none` is a panic, the inner one is nil.
unfoldable pub scan_id : List Shard → Text → Option (Option Symbol)
scan_id [] id = some none
scan_id (shard ∷ shards) id = elim (lookup id shard.by_id) [
  | none ↦ scan_id shards id
  | some i ↦ Option.map some (index shard.symbols i)
]

unfoldable pub find_by_id : SymbolTable → Text → Option (Option Symbol)
find_by_id table id = scan_id table.shards id

-- int(localIndex) < len(symbols) guards the read; the shard index is that of an array of 64.
unfoldable pub read_methods : List Shard → List ℕ → Option (List Symbol)
read_methods shards [] = some []
read_methods shards (global_index ∷ rest) = elim (get_elem? shards (global_index / 16777216)) [
  | none ↦ none
  | some shard ↦ elim (read_methods shards rest) [
    | none ↦ none
    | some later ↦ elim (get_elem? shard.symbols (bit_and global_index 16777215)) [
      | none ↦ some later
      | some s ↦ some (s ∷ later)
    ]
  ]
]

unfoldable pub find_methods_by_qualified_name : SymbolTable → Text → Option (List Symbol)
find_methods_by_qualified_name table class_name =
    read_methods table.shards (slice_at class_name table.methods_by_class)

unfoldable pub add_field : SymbolTable → Text → FieldInfo → SymbolTable
add_field table owner field = record table {
  fields_by_owner = append_at owner field table.fields_by_owner;
}

unfoldable pub find_field_by_owner : SymbolTable → Text → Text → Option FieldInfo
find_field_by_owner table owner field_name =
    find_first (λ f. text_eq f.name field_name) (slice_at owner table.fields_by_owner)

unfoldable pub find_fields_by_owner : SymbolTable → Text → List FieldInfo
find_fields_by_owner table owner = slice_at owner table.fields_by_owner

unfoldable pub add_re_export : SymbolTable → Text → Text → SymbolTable
add_re_export table re_export target_id = record table {
  re_export_index = insert re_export target_id table.re_export_index;
}

unfoldable pub has_re_export : SymbolTable → Text → Bool
has_re_export table re_export = has_key re_export table.re_export_index

unfoldable pub get_re_export : SymbolTable → Text → Option Text
get_re_export table re_export = lookup re_export table.re_export_index

unfoldable pub find_by_qualified_name_with_re_export : SymbolTable → Text → Option (List Symbol)
find_by_qualified_name_with_re_export table qualified_name =
    elim (find_by_qualified_name table qualified_name) [
      | none ↦ none
      | some (s ∷ rest) ↦ some (s ∷ rest)
      | some [] ↦ elim (get_re_export table qualified_name) [
        | none ↦ some []
        | some target_id ↦ elim (find_by_id table target_id) [
          | none ↦ none
          | some none ↦ some []
          | some (some s) ↦ some (s ∷ [])
        ]
      ]
    ]

unfoldable pub find_exported_by_file : SymbolTable → Text → Option (List Symbol)
find_exported_by_file table path =
    Option.map (keep_if (λ s. s.is_exported)) (find_by_file table path)
