-- ===== src/SymbolTable/Methods.antt =====
-- `FindMethodsByQualifiedName`: the packed indices of `methodsByClass` lead back to the methods.
use Prim.Native.Nat.{ℕ, zero, suc, ◌/◌, ◌<◌, ◌≤◌, bit_and}
use mathlib.Core.Path.{◌≡◌, refl, ap, sym}
use mathlib.Core.Logic.{inl, inr}
use mathlib.Core.Bool.{Bool, false, ◌&&◌}
use mathlib.Core.Option.{Option, none, some}
use mathlib.Core.List.{List, [], ◌∷◌, ◌++◌, append-nil, append_assoc}
use native.Mathlib.Omega.{arith}
use flash_code_graph.Common.Bits.{pack_24}
use flash_code_graph.Common.Tests.{if◌then◌else◌, Bool-cases, Option-cases, ◌==◌}
use flash_code_graph.Common.Lists.{
  length, get_elem?, get_or, set, keep_if, get_elem?-append, get_elem?-last, length-append,
}
use flash_code_graph.Common.Keep.{keep_if-append, length-keep_if-le}
use flash_code_graph.Common.Traverse.{traverse, traverse_mono, traverse-concat, traverse-cons}
use flash_code_graph.Common.Text.{Text, text_eq}
use flash_code_graph.Common.Maps.{Map, slice_at, slice_at-append_at, lookup}
use flash_code_graph.Model.{Symbol, kind_function}
use flash_code_graph.SymbolTable.{
  Shard, SymbolTable, new_symbol_table, empty_shard, shard_for, to_int32, add_to_shard,
  encode_index, index_method, owner_of, add, add_batch, read_methods,
  find_methods_by_qualified_name,
}
use flash_code_graph.SymbolTable.Refines.{
  Represents, Represents-new, add-Represents, sent_to, table_of, shard_for-lt, symbols-add_to_shard,
}

-- The most symbols of a shard whose positions fit the 24 bits of a packed index.
abbrev pub packed_limit : ℕ
packed_limit = 16777216

abbrev owned_by : Text → Option Text → Bool
owned_by class_name none = false
owned_by class_name (some owner) = text_eq owner class_name

-- A function whose qualified name has a dot, with the class before the last one.
abbrev pub method_of : Text → Symbol → Bool
method_of class_name s =
    text_eq s.kind kind_function && owned_by class_name (owner_of s.qualified_name)

-- The symbol that a packed index stands for.
at_index : List Shard → ℕ → Option Symbol
at_index shards g = elim (get_elem? shards (g / 16777216)) [
  | none ↦ none
  | some shard ↦ get_elem? shard.symbols (bit_and g 16777215)
]

-- Where every index stands for a symbol, the guarded loop skips none.
read_methods-traverse :
    (shards : List Shard) (gs : List ℕ) (found : List Symbol)
    → traverse (at_index shards) gs ≡ some found
    → read_methods shards gs ≡ some found
unfolding traverse read_methods at_index
read_methods-traverse shards [] found h = h
read_methods-traverse shards (g ∷ gs) found h =
    let (s, rest, here, later, shape) = traverse-cons (at_index shards) g gs h in
    let ih = read_methods-traverse shards gs rest later in
    elim (Option-cases (get_elem? shards (g / 16777216))) [
      | inl outside ↦ absurd (ground arith)
      | inr (shard, inside) ↦ ground arith
    ]

get_elem?-set_ne :
    (shards : List Shard) (i j : ℕ) (v : Shard)
    → ¬ (i ≡ j)
    → get_elem? (set shards i v) j ≡ get_elem? shards j
get_elem?-set_ne [] i j v h = refl
get_elem?-set_ne (x ∷ xs) zero zero v h = absurd (h refl)
get_elem?-set_ne (x ∷ xs) zero (suc j) v h = refl
get_elem?-set_ne (x ∷ xs) (suc i) zero v h = refl
get_elem?-set_ne (x ∷ xs) (suc i) (suc j) v h = get_elem?-set_ne xs i j v (λ e. h (ap suc e))

get_elem?-set_self :
    (shards : List Shard) (i : ℕ) (v : Shard)
    → i < length shards
    → get_elem? (set shards i v) i ≡ some v
get_elem?-set_self [] i v h = absurd (omega arith)
get_elem?-set_self (x ∷ xs) zero v h = refl
get_elem?-set_self (x ∷ xs) (suc i) v h = get_elem?-set_self xs i v (omega arith)

get_elem?-get_or :
    (shards : List Shard) (i : ℕ) {v : Shard}
    → get_elem? shards i ≡ some v
    → get_or shards i empty_shard ≡ v
get_elem?-get_or [] i h = ground arith
get_elem?-get_or (x ∷ xs) zero h = ground arith
get_elem?-get_or (x ∷ xs) (suc i) h = get_elem?-get_or xs i h

-- The shards after a symbol was added to shard `i`.
module _ (shards : List Shard) (i : ℕ) (s : Symbol) (in_range : i < length shards) where
  abbrev old : Shard
  old = get_or shards i empty_shard

  abbrev grown : List Shard
  grown = set shards i (add_to_shard s old)

  -- An index that stands for a symbol keeps it.
  at_index-grown : (g : ℕ) (v : Symbol) → at_index shards g ≡ some v → at_index grown g ≡ some v
  unfolding at_index
  at_index-grown g v h = elim (Bool-cases (i == g / 16777216)) [
    | inl same ↦
        let e : g / 16777216 ≡ i = ground arith in
        elim (Option-cases (get_elem? shards i)) [
          | inl outside ↦ absurd (ground arith)
          | inr (shard, inside) ↦ ground (
            arith,
            e,
            get_elem?-set_self shards i (add_to_shard s old) in_range,
            get_elem?-get_or shards i inside,
            symbols-add_to_shard s old,
            get_elem?-append old.symbols (s ∷ []) (bit_and g 16777215) {v = v},
          )
        ]
    | inr other ↦
        rw
          (
            get_elem?-set_ne shards i (g / 16777216) (add_to_shard s old) (λ e. ground arith),
            at_index,
          )
          h
  ]

  -- The packed index of the new symbol stands for it.
  at_index-new :
      length old.symbols < packed_limit
      → at_index grown (encode_index i (to_int32 (length old.symbols))) ≡ some s
  unfolding at_index encode_index
  at_index-new room =
      let small : to_int32 (length old.symbols) ≡ length old.symbols = omega arith in
      let (upper, lower) = pack_24 i (length old.symbols) room in
      ground (
        arith,
        small,
        upper,
        lower,
        get_elem?-set_self shards i (add_to_shard s old) in_range,
        get_elem?-last old.symbols s,
        symbols-add_to_shard s old,
      )

-- The index of methods lists, under each class, the positions of the class's methods.
abbrev Lists : SymbolTable → List Symbol → Type 0
Lists table symbols =
    (c : Text)
    → traverse (at_index table.shards) (slice_at c table.methods_by_class)
      ≡ some (keep_if (method_of c) symbols)

slice_at-index_method :
    (s : Symbol) (i l : ℕ) (c : Text) (methods : Map (List ℕ))
    → slice_at c (index_method s i l methods)
      ≡ (if method_of c s then slice_at c methods ++ encode_index i l ∷ [] else slice_at c methods)
unfolding index_method
slice_at-index_method s i l c methods = elim (Bool-cases (text_eq s.kind kind_function)) [
  | inr other_kind ↦ rw other_kind
  | inl function ↦ elim (Option-cases (owner_of s.qualified_name)) [
    | inl no_owner ↦ rw (function, no_owner)
    | inr (owner, found) ↦
        rw (function, found) (slice_at-append_at owner c (encode_index i l) methods)
  ]
]

Lists-add :
    (table : SymbolTable) (symbols : List Symbol) (s : Symbol)
    → Represents table symbols
    → length symbols < packed_limit
    → Lists table symbols
    → Lists (add table s) (symbols ++ s ∷ [])
unfolding add keep_if
Lists-add table symbols s h small known c =
    let i = shard_for s.name in
    let in_range : i < length table.shards = omega (arith, shard_for-lt s.name, h.count) in
    let room : length (old table.shards i s in_range).symbols < packed_limit =
      omega (arith, length-keep_if-le (sent_to i) symbols, ap (length {A = Symbol}) (h.spread i)) in
    let kept =
      traverse_mono (at_index table.shards) (at_index (grown table.shards i s in_range))
        (at_index-grown table.shards i s in_range) (slice_at c table.methods_by_class)
        (keep_if (method_of c) symbols) (known c) in
    let new = at_index-new table.shards i s in_range room in
    rw
      (
        keep_if-append (method_of c) symbols (s ∷ []),
        slice_at-index_method s i (to_int32 (length (old table.shards i s in_range).symbols)) c
            table.methods_by_class,
      )
      (elim (Bool-cases (method_of c s)) [
        | inl owned ↦ rw owned (
            traverse-concat (at_index (grown table.shards i s in_range))
              (slice_at c table.methods_by_class)
              (encode_index i (to_int32 (length (old table.shards i s in_range).symbols)))
              (keep_if (method_of c) symbols) kept new)
        | inr other ↦ rw (other, append-nil) kept
      ])

Lists-new : Lists new_symbol_table []
unfolding traverse slice_at lookup keep_if
Lists-new c = refl

add_batch-Lists :
    (table : SymbolTable) (before symbols : List Symbol)
    → Represents table before
    → Lists table before
    → length (before ++ symbols) ≤ packed_limit
    → Lists (add_batch table symbols) (before ++ symbols)
unfolding add_batch
add_batch-Lists table before [] h known small = rw (append-nil before) known
add_batch-Lists table before (s ∷ symbols) h known small =
    let regroup : (before ++ s ∷ []) ++ symbols ≡ before ++ s ∷ symbols =
      append_assoc before (s ∷ []) symbols in
    let room : length before < packed_limit = omega (arith, length-append before (s ∷ symbols)) in
    rw (sym regroup) (
      add_batch-Lists (add table s) (before ++ s ∷ []) symbols
        (add-Represents table before s h (omega arith)) (Lists-add table before s h room known)
        (rw regroup small))

-- `FindMethodsByQualifiedName` never panics, and returns the functions whose qualified name is the
-- class's name, a dot and one more segment, in the order of insertion, while at most 2^24 symbols
-- were added.
pub find_methods-table_of :
    (symbols : List Symbol) (class_name : Text)
    → length symbols ≤ packed_limit
    → find_methods_by_qualified_name (table_of symbols) class_name
      ≡ some (keep_if (method_of class_name) symbols)
unfolding find_methods_by_qualified_name
find_methods-table_of symbols class_name small =
    let table = table_of symbols in
    read_methods-traverse table.shards (slice_at class_name table.methods_by_class)
      (keep_if (method_of class_name) symbols)
      (add_batch-Lists new_symbol_table [] symbols Represents-new Lists-new small class_name)
