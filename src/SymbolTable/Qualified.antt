-- ===== src/SymbolTable/Qualified.antt =====
-- `FindByQualifiedName`: the shard of the last segment first, then every shard.
use Prim.Native.Nat.{ℕ, zero, suc, ◌≤◌}
use mathlib.Core.Path.{◌≡◌, refl, ap, ◌∙◌, subst}
use mathlib.Core.Logic.{inl, inr}
use mathlib.Core.Bool.{true, false}
use mathlib.Core.Option.{Option, some}
use mathlib.Core.List.{List, [], ◌∷◌, Memᴰ}
use mathlib.Core.List.Memᴰ
use native.Mathlib.Omega.{arith}
use flash_code_graph.Common.Tests.{if◌then◌else◌, Bool-cases, ◌==◌, ==_iff}
use flash_code_graph.Common.Lists.{
  length, get_or, keep_if, All, All-get_or, All-mem, All-map, is_empty,
}
use flash_code_graph.Common.Keep.{keep_if-keep_if-All, keep_if-keep_if_none, Memᴰ-keep_if}
use flash_code_graph.Common.Text.{Text}
use flash_code_graph.Common.Maps.{slice_at}
use flash_code_graph.Model.{Symbol}
use flash_code_graph.SymbolTable.{
  Shard, SymbolTable, empty_shard, shard_for, scan_qualified, find_by_qualified_name, last_segment,
}
use flash_code_graph.SymbolTable.Shards.{
  index_limit, IsIndexed, IsIndexed-empty_shard, qualified, is_empty-read,
}
use flash_code_graph.SymbolTable.Refines.{Represents, sent_to, table_of, table_of-Represents}

module _ (q : Text) where
  -- The symbols of one shard that have the name.
  abbrev group : Shard → List Symbol
  group shard = keep_if (qualified q) shard.symbols

  first_group : List Shard → List Symbol
  first_group [] = []
  first_group (shard ∷ shards) =
      let later = first_group shards in if is_empty (group shard) then later else group shard

  scan_qualified-indexed :
      (shards : List Shard)
      → All IsIndexed shards
      → scan_qualified shards q ≡ some (first_group shards)
  unfolding scan_qualified first_group
  scan_qualified-indexed [] h = refl
  scan_qualified-indexed (shard ∷ shards) h = ground (
    arith,
    scan_qualified-indexed shards h.1,
    h.0.by_qualified_name q,
    is_empty-read shard.symbols (slice_at q shard.by_qualified_name) (h.0.by_qualified_name q),
  )

  -- The groups of the table, by the number of the shard.
  abbrev group_at : List Shard → ℕ → List Symbol
  group_at shards i = group (get_or shards i empty_shard)

  first_group-none :
      (shards : List Shard) → ((i : ℕ) → group_at shards i ≡ []) → first_group shards ≡ []
  unfolding first_group
  first_group-none [] h = refl
  first_group-none (shard ∷ shards) h =
      ground (arith, h 0, first_group-none shards (λ i. h (suc i)))

  -- Where one shard alone has the name, the scan finds that shard's group.
  first_group-only :
      (shards : List Shard) (i : ℕ)
      → ((j : ℕ) → ¬ (j ≡ i) → group_at shards j ≡ [])
      → first_group shards ≡ group_at shards i
  unfolding first_group keep_if
  first_group-only [] i h = refl
  first_group-only (shard ∷ shards) zero h =
      let rest = first_group-none shards (λ j. h (suc j) (omega arith)) in
      elim (group shard) as (λ g. (if is_empty g then first_group shards else g) ≡ g) [
        | [] ↦ rest
        | s ∷ more ↦ refl
      ]
  first_group-only (shard ∷ shards) (suc i) h = ground (
    arith,
    h 0 (omega arith),
    first_group-only shards i (λ j ne. h (suc j) (λ e. ne (omega arith))),
  )

  -- What the lookup computes on a table whose shards are indexed.
  abbrev lookup_result : List Shard → List Symbol
  lookup_result shards =
      let primary = group_at shards (shard_for (last_segment q)) in
      if is_empty primary then first_group shards else primary

  find-indexed :
      (table : SymbolTable)
      → All IsIndexed table.shards
      → find_by_qualified_name table q ≡ some (lookup_result table.shards)
  unfolding find_by_qualified_name
  find-indexed table h =
      let shard = get_or table.shards (shard_for (last_segment q)) empty_shard in
      let known =
        All-get_or IsIndexed table.shards (shard_for (last_segment q)) empty_shard h
          IsIndexed-empty_shard in
      ground (
        arith,
        known.by_qualified_name q,
        is_empty-read shard.symbols (slice_at q shard.by_qualified_name)
            (known.by_qualified_name q),
        scan_qualified-indexed table.shards h,
      )

  -- A member of a shard's group is a symbol of the table that has the name.
  group_at_sound :
      (table : SymbolTable) (symbols : List Symbol) (i : ℕ) (s : Symbol)
      → Represents table symbols
      → Memᴰ s (group_at table.shards i)
      → Memᴰ s symbols × (qualified q s ≡ true)
  group_at_sound table symbols i s h m =
      let (here, fits) =
        (Memᴰ-keep_if (qualified q) s (get_or table.shards i empty_shard).symbols).0 m in
      (((Memᴰ-keep_if (sent_to i) s symbols).0 (rw (h.spread i) at here)).0, fits)

  -- Symbols of one short name that have the qualified name all stand in one shard.
  group_at-other :
      (table : SymbolTable) (symbols : List Symbol) (name : Text) (i : ℕ)
      → Represents table symbols
      → All (λ s. qualified q s ≡ true → s.name ≡ name) symbols
      → ¬ (i ≡ shard_for name)
      → group_at table.shards i ≡ []
  group_at-other table symbols name i h same other = rw (h.spread i) (
      keep_if-keep_if_none (qualified q) (sent_to i) symbols (
        All-map (λ s. qualified q s ≡ true → s.name ≡ name)
          (λ s. qualified q s ≡ true → sent_to i s ≡ false) symbols
          (λ s named_so fits. elsewhere s (named_so fits)) same))
    where
      elsewhere : (s : Symbol) → s.name ≡ name → sent_to i s ≡ false
      elsewhere s e = ground (arith, ap shard_for e, λ (d : i ≡ shard_for name). other d)

  group_at-home :
      (table : SymbolTable) (symbols : List Symbol) (name : Text)
      → Represents table symbols
      → All (λ s. qualified q s ≡ true → s.name ≡ name) symbols
      → group_at table.shards (shard_for name) ≡ keep_if (qualified q) symbols
  group_at-home table symbols name h same = rw (h.spread (shard_for name)) (
      keep_if-keep_if-All (qualified q) (sent_to (shard_for name)) symbols (
        All-map (λ s. qualified q s ≡ true → s.name ≡ name)
          (λ s. qualified q s ≡ true → sent_to (shard_for name) s ≡ true) symbols
          (λ s named_so fits.
            (==_iff (shard_for s.name) (shard_for name)).1 (ap shard_for (named_so fits)))
          same))

  -- Where one shard alone has the name, the lookup finds that shard's group.
  lookup_result-only :
      (shards : List Shard) (i : ℕ)
      → ((j : ℕ) → ¬ (j ≡ i) → group_at shards j ≡ [])
      → lookup_result shards ≡ group_at shards i
  lookup_result-only shards i h =
      let home = shard_for (last_segment q) in
      elim (Bool-cases (is_empty (group_at shards home))) [
        | inl empty ↦ rw empty (first_group-only shards i h)
        | inr full ↦ rw full (elim (Bool-cases (home == i)) [
          | inl here ↦ ap (group_at shards) ((==_iff home i).0 here)
          | inr away ↦ absurd (ground (arith, h home (λ e. ground arith)))
        ])
      ]

  first_group-mem :
      (shards : List Shard) (s : Symbol)
      → Memᴰ s (first_group shards)
      → (i : ℕ) × Memᴰ s (group_at shards i)
  unfolding first_group
  first_group-mem [] s m = absurd (Memᴰ.not-nil m)
  first_group-mem (shard ∷ shards) s m = elim (Bool-cases (is_empty (group shard))) [
    | inl empty ↦ let (i, at) = first_group-mem shards s (rw empty at m) in (suc i, at)
    | inr full ↦ (0, rw full at m)
  ]

  first_group-empty :
      (shards : List Shard) (i : ℕ) → first_group shards ≡ [] → group_at shards i ≡ []
  unfolding first_group keep_if
  first_group-empty [] i e = refl
  first_group-empty (shard ∷ shards) zero e = ground arith
  first_group-empty (shard ∷ shards) (suc i) e = ground (arith, first_group-empty shards i)

  lookup_result-mem :
      (shards : List Shard) (s : Symbol)
      → Memᴰ s (lookup_result shards)
      → (i : ℕ) × Memᴰ s (group_at shards i)
  lookup_result-mem shards s m =
      let home = shard_for (last_segment q) in
      elim (Bool-cases (is_empty (group_at shards home))) [
        | inl empty ↦ first_group-mem shards s (rw empty at m)
        | inr full ↦ (home, rw full at m)
      ]

  lookup_result-empty :
      (shards : List Shard) (i : ℕ) → lookup_result shards ≡ [] → group_at shards i ≡ []
  lookup_result-empty shards i e = first_group-empty shards i (ground arith)

  -- The lookup returns nothing only if no symbol of the list has the name.
  lookup_result_complete :
      (table : SymbolTable) (symbols : List Symbol)
      → Represents table symbols
      → lookup_result table.shards ≡ []
      → All (λ s. qualified q s ≡ false) symbols
  lookup_result_complete table symbols h e = All-mem (λ s. qualified q s ≡ false) symbols absent
    where
      absent : (s : Symbol) → Memᴰ s symbols → qualified q s ≡ false
      absent s m = elim (Bool-cases (qualified q s)) [
        | inl fits ↦
            let i = shard_for s.name in
            let sent = (Memᴰ-keep_if (sent_to i) s symbols).1 (m, (==_iff i i).1 refl) in
            let there =
              (Memᴰ-keep_if (qualified q) s (get_or table.shards i empty_shard).symbols).1
                (rw (h.spread i) sent, fits) in
            absurd (Memᴰ.not-nil (subst (Memᴰ s) (lookup_result-empty table.shards i e) there))
        | inr misfit ↦ misfit
      ]

-- After at most 2^31 symbols were added to an empty table, `FindByQualifiedName` does not panic. What
-- it returns was added and has the qualified name, and it returns nothing only if no added symbol
-- has that qualified name.
pub find_by_qualified_name-table_of :
    (symbols : List Symbol) (q : Text)
    → length symbols ≤ index_limit
    → (found : List Symbol) × (find_by_qualified_name (table_of symbols) q ≡ some found)
      × ((s : Symbol) → Memᴰ s found → Memᴰ s symbols × (qualified q s ≡ true))
      × (found ≡ [] → All (λ s. qualified q s ≡ false) symbols)
find_by_qualified_name-table_of symbols q small =
    let table = table_of symbols in
    let h = table_of-Represents symbols small in
    (
      lookup_result q table.shards,
      find-indexed q table h.indexed,
      λ s m.
          let (i, at) = lookup_result-mem q table.shards s m in
          group_at_sound q table symbols i s h at,
      lookup_result_complete q table symbols h,
    )

-- If at most 2^31 symbols were added to an empty table and all those with the qualified name have one
-- short name, `FindByQualifiedName` returns all of them, in the order of insertion, whatever the last
-- segment of the qualified name is.
pub find_by_qualified_name-one_name :
    (symbols : List Symbol) (q name : Text)
    → length symbols ≤ index_limit
    → All (λ s. qualified q s ≡ true → s.name ≡ name) symbols
    → find_by_qualified_name (table_of symbols) q ≡ some (keep_if (qualified q) symbols)
find_by_qualified_name-one_name symbols q name small same =
    let table = table_of symbols in
    let h = table_of-Represents symbols small in
    let home = group_at-home q table symbols name h same in
    let others =
      λ (j : ℕ) (ne : ¬ (j ≡ shard_for name)). group_at-other q table symbols name j h same ne in
    find-indexed q table h.indexed
    ∙ ap {B = Option (List Symbol)} some
        (lookup_result-only q table.shards (shard_for name) others ∙ home)
