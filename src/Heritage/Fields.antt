-- ===== src/Heritage/Fields.antt =====
-- `lookupFieldInHierarchy` of internal/core/resolver/heritage.go: the type of a field, from the
-- classes round the caller and then from the classes above its own. A class is marked as visited when
-- it is put on the queue. The loops take fuel, and `none` at the outside means that it ran out.
use Prim.Native.Nat.{ℕ, zero, suc, ◌+◌}
use mathlib.Core.Option.{Option, none, some}
use mathlib.Core.List.{List, [], ◌∷◌, ◌++◌}
use flash_code_graph.Common.Tests.{if◌then◌else◌}
use flash_code_graph.Common.Lists.{length, is_empty}
use flash_code_graph.Common.Text.{Text, cut_last}
use flash_code_graph.Common.Maps.{Map, lookup, slice_at}
use flash_code_graph.Model.{Symbol, RawHeritage}
use flash_code_graph.Heritage.{Symbols, is_type_symbol, is_visited}

-- The indices of the resolver that the lookup reads.
pub record FieldIndex : Type 0 where
  pub global_bindings : Map Text
  pub heritage_by_child : Map (List RawHeritage)

unfoldable pub binding_of : FieldIndex → Text → Text → Option Text
binding_of index owner field_name = lookup (owner ++ b':' ∷ field_name) index.global_bindings

-- The first loop: the text before the last dot, and again, until a binding is found.
unfoldable pub outer_field : ℕ → FieldIndex → Text → Text → Option (Option Text)
outer_field zero index qualified_name field_name = none
outer_field (suc fuel) index qualified_name field_name = elim (cut_last b'.' qualified_name) [
  | none ↦ some none
  | some (before, after) ↦
      let rest = outer_field fuel index before field_name in
      elim (binding_of index before field_name) [ none ↦ rest | some t ↦ some (some t) ]
]

-- The loop over the candidates for one parent.
unfoldable pub candidate_field : FieldIndex → Text → List Symbol → Option Text
candidate_field index field_name [] = none
candidate_field index field_name (c ∷ candidates) =
    let later = candidate_field index field_name candidates in
    if is_type_symbol c
    then elim (binding_of index c.qualified_name field_name) [ none ↦ later | some t ↦ some t ]
    else later

unfoldable pub field_candidates : Symbols → RawHeritage → List Symbol
field_candidates symbols entry =
    let exact =
      if is_empty entry.parent_qualified
      then []
      else symbols.by_qualified_name entry.parent_qualified in
    if is_empty exact then symbols.by_name entry.parent_name else exact

-- What is left after the entries of one class: the type that was found, or the visited classes and
-- the queue.
pub data Scan : Type 0 where
  found : Text → Scan
  go_on : List Text → List Text → Scan

-- The loop over the heritage entries of one class.
unfoldable pub scan_entries :
    Symbols → FieldIndex → Text → List RawHeritage → List Text → List Text → Scan
scan_entries symbols index field_name [] visited queue = go_on visited queue
scan_entries symbols index field_name (e ∷ entries) visited queue =
    let skipped = scan_entries symbols index field_name entries visited queue in
    let rest =
      scan_entries symbols index field_name entries (e.parent_name ∷ visited)
        (queue ++ e.parent_name ∷ []) in
    if is_visited e.parent_name visited
    then skipped
    else elim (candidate_field index field_name (field_candidates symbols e)) [
      | none ↦ rest
      | some t ↦ found t
    ]

-- The loop `for len(queue) > 0`.
unfoldable pub climb_fields :
    ℕ → Symbols → FieldIndex → Text → List Text → List Text → Option (Option Text)
climb_fields zero symbols index field_name visited queue = none
climb_fields (suc fuel) symbols index field_name visited [] = some none
climb_fields (suc fuel) symbols index field_name visited (current ∷ queue) =
    elim (scan_entries symbols index field_name (slice_at current index.heritage_by_child) visited
      queue) [
        | found t ↦ some (some t)
        | go_on seen waiting ↦ climb_fields fuel symbols index field_name seen waiting
      ]

-- The name of the class that the second loop starts with, `none` for a caller without a dot.
unfoldable pub starting_class : Text → Option Text
starting_class caller_name = elim (cut_last b'.' caller_name) [
  | none ↦ none
  | some (starting, after) ↦ elim (cut_last b'.' starting) [
    | none ↦ some starting
    | some (qualifier, class_name) ↦ some class_name
  ]
]

-- The parents in the entries that are not visited: at most so many classes can still be queued.
unfoldable pub new_parents : List Text → List RawHeritage → ℕ
new_parents visited [] = 0
new_parents visited (e ∷ entries) =
    (if is_visited e.parent_name visited then 0 else 1) + new_parents visited entries

unfoldable pub all_new_parents : List Text → Map (List RawHeritage) → ℕ
all_new_parents visited [] = 0
all_new_parents visited ((child, entries) ∷ rest) =
    new_parents visited entries + all_new_parents visited rest

-- The result "" is `none` inside.
unfoldable pub lookup_field_in_hierarchy : Symbols → FieldIndex → Text → Text → Option (Option Text)
lookup_field_in_hierarchy symbols index caller_name field_name =
    elim (outer_field (suc (length caller_name)) index caller_name field_name) [
      | none ↦ none
      | some (some t) ↦ some (some t)
      | some none ↦ elim (starting_class caller_name) [
        | none ↦ some none
        | some class_name ↦
            climb_fields (suc (suc (all_new_parents (class_name ∷ []) index.heritage_by_child)))
              symbols index field_name (class_name ∷ []) (class_name ∷ [])
      ]
    ]
