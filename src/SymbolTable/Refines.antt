-- ===== src/SymbolTable/Refines.antt =====
-- The whole table against the list of the symbols that were added to it.
use Prim.Native.Nat.{ℕ, zero, suc, ◌<◌, ◌≤◌}
use mathlib.Core.Path.{◌≡◌, refl, ap, ◌∙◌, sym}
use mathlib.Core.Logic.{inl, inr}
use mathlib.Core.Bool.{Bool}
use mathlib.Core.List.{List, [], ◌∷◌, ◌++◌, append-nil, append_assoc, Permᴰ}
use mathlib.Core.List.Permᴰ
use native.Mathlib.Omega.{arith}
use flash_code_graph.Common.Tests.{Bool-cases, ◌==◌}
use flash_code_graph.Common.Lists.{
  length, get_or, set, replicate, keep_if, length-set, length-replicate, get_or-replicate,
  get_or-set_self, get_or-set_ne, All, All-get_or, All-set, All-replicate, length-append,
}
use flash_code_graph.Common.Keep.{keep_if-append, length-keep_if-le}
use flash_code_graph.Common.Text.{Text}
use flash_code_graph.Model.{Symbol}
use flash_code_graph.SymbolTable.{
  Shard, SymbolTable, new_symbol_table, empty_shard, shard_for, shard_count, add_to_shard, add,
  add_batch, collect_all,
}
use flash_code_graph.SymbolTable.Shards.{
  index_limit, IsIndexed, IsIndexed-empty_shard, add_to_shard-IsIndexed,
}

-- The hash picks one of the 64 shards.
pub shard_for-lt : (name : Text) → shard_for name < shard_count
unfolding shard_for
shard_for-lt name = ground arith

-- The symbols that the hash sends to shard `i`.
abbrev pub sent_to : ℕ → Symbol → Bool
sent_to i s = shard_for s.name == i

-- The table holds the symbols of a list: each shard those that the hash sends to it, in order.
pub record Represents (table : SymbolTable) (symbols : List Symbol) : Type 0 where
  pub count : length table.shards ≡ shard_count
  pub indexed : All IsIndexed table.shards
  pub spread : (i : ℕ) → (get_or table.shards i empty_shard).symbols ≡ keep_if (sent_to i) symbols
  pub together : Permᴰ (collect_all table.shards) symbols

collect_all-replicate : (n : ℕ) → collect_all (replicate n empty_shard) ≡ []
unfolding collect_all
collect_all-replicate zero = refl
collect_all-replicate (suc n) = collect_all-replicate n

pub Represents-new : Represents new_symbol_table []
unfolding keep_if
Represents-new = record {
  count = length-replicate shard_count empty_shard;
  indexed = All-replicate IsIndexed shard_count empty_shard IsIndexed-empty_shard;
  spread = λ i. ap (λ (s : Shard). s.symbols) (get_or-replicate shard_count i empty_shard);
  together = rw (collect_all-replicate shard_count) Permᴰ.nil;
}

collect_all-set :
    (shards : List Shard) (i : ℕ) (shard : Shard) (s : Symbol)
    → i < length shards
    → shard.symbols ≡ (get_or shards i empty_shard).symbols ++ s ∷ []
    → Permᴰ (collect_all (set shards i shard)) (s ∷ collect_all shards)
unfolding collect_all
collect_all-set [] i shard s h e = absurd (omega arith)
collect_all-set (first ∷ shards) zero shard s h e =
    rw (e, append_assoc first.symbols (s ∷ []) (collect_all shards))
      (Permᴰ.middle s first.symbols (collect_all shards))
collect_all-set (first ∷ shards) (suc i) shard s h e =
    Permᴰ.trans (Permᴰ.append_left first.symbols (collect_all-set shards i shard s (omega arith) e))
      (Permᴰ.middle s first.symbols (collect_all shards))

pub symbols-add_to_shard :
    (s : Symbol) (shard : Shard) → (add_to_shard s shard).symbols ≡ shard.symbols ++ s ∷ []
unfolding add_to_shard
symbols-add_to_shard s shard = refl

spread-add :
    (table : SymbolTable) (symbols : List Symbol) (s : Symbol) (i : ℕ)
    → Represents table symbols
    → (get_or (add table s).shards i empty_shard).symbols ≡ keep_if (sent_to i) (symbols ++ s ∷ [])
unfolding add keep_if
spread-add table symbols s i h = elim (Bool-cases (shard_for s.name == i)) [
  | inl here ↦ ground (
    arith,
    keep_if-append (sent_to i) symbols (s ∷ []),
    get_or-set_self table.shards (shard_for s.name)
        (add_to_shard s (get_or table.shards (shard_for s.name) empty_shard)) empty_shard,
    symbols-add_to_shard s (get_or table.shards (shard_for s.name) empty_shard),
    h.spread i,
    h.count,
    shard_for-lt s.name,
  )
  | inr away ↦
      let other =
        get_or-set_ne table.shards (shard_for s.name) i
          (add_to_shard s (get_or table.shards (shard_for s.name) empty_shard)) empty_shard
          (λ e. ground arith) in
      rw (other, keep_if-append (sent_to i) symbols (s ∷ []), away, append-nil) (h.spread i)
]

-- Adding a symbol to the table appends it to the list that the table holds.
pub add-Represents :
    (table : SymbolTable) (symbols : List Symbol) (s : Symbol)
    → Represents table symbols
    → length symbols < index_limit
    → Represents (add table s) (symbols ++ s ∷ [])
unfolding add
add-Represents table symbols s h small =
    let i = shard_for s.name in
    let shard = get_or table.shards i empty_shard in
    let in_range : i < length table.shards = omega (arith, shard_for-lt s.name) in
    let room : length shard.symbols < index_limit =
      omega (arith, length-keep_if-le (sent_to i) symbols, ap (length {A = Symbol}) (h.spread i)) in
    let old = All-get_or IsIndexed table.shards i empty_shard h.indexed IsIndexed-empty_shard in
    record {
      count = length-set table.shards i _ ∙ h.count;
      indexed =
          All-set IsIndexed table.shards i _ h.indexed (add_to_shard-IsIndexed shard s old room);
      spread = λ j. spread-add table symbols s j h;
      together =
          Permᴰ.trans (collect_all-set table.shards i _ s in_range (symbols-add_to_shard s shard)) (
            Permᴰ.trans (Permᴰ.cons refl h.together) (
              Permᴰ.symm (
                Permᴰ.trans (Permᴰ.middle s symbols [])
                  (Permᴰ.cons refl (Permᴰ.append-nil symbols)))));
    }

add_batch-Represents :
    (table : SymbolTable) (before symbols : List Symbol)
    → Represents table before
    → length (before ++ symbols) ≤ index_limit
    → Represents (add_batch table symbols) (before ++ symbols)
unfolding add_batch
add_batch-Represents table before [] h small = rw (append-nil before) h
add_batch-Represents table before (s ∷ symbols) h small =
    let regroup : (before ++ s ∷ []) ++ symbols ≡ before ++ s ∷ symbols =
      append_assoc before (s ∷ []) symbols in
    rw (sym regroup) (
      add_batch-Represents (add table s) (before ++ s ∷ []) symbols
        (add-Represents table before s h (omega (arith, length-append before (s ∷ symbols))))
        (rw regroup small))

-- The table that holds the symbols of a list.
abbrev pub table_of : List Symbol → SymbolTable
table_of symbols = add_batch new_symbol_table symbols

pub table_of-Represents :
    (symbols : List Symbol) → length symbols ≤ index_limit → Represents (table_of symbols) symbols
table_of-Represents symbols small =
    add_batch-Represents new_symbol_table [] symbols Represents-new small
