-- ===== src/Mro.antt =====
-- internal/core/resolver/mro.go: the method resolution order of a class, by a merge of the parents where a
-- class has several parents. The recursion of `ComputeMRO` follows the parents with no guard against
-- a cycle, so it takes fuel, one unit for each level; `none` means that the fuel ran out.
pub mod Merge
pub mod Linear
pub mod Distinct
pub mod Level
pub mod Hierarchy
mod Examples
use Prim.Native.Nat.{ℕ, zero, suc, ◌+◌}
use mathlib.Core.Bool.{Bool, true, false, not}
use mathlib.Core.Option.{Option, none, some}
use mathlib.Core.List.{List, [], ◌∷◌, ◌++◌, map}
use flash_code_graph.Common.Tests.{if◌then◌else◌}
use flash_code_graph.Common.Lists.{length, keep_if, any, is_empty}
use flash_code_graph.Common.Traverse.{traverse}
use flash_code_graph.Common.Text.{Text, text_eq}
use flash_code_graph.Common.Maps.{Map, slice_at, append_at}
use flash_code_graph.Model.{RawHeritage}

-- The loop of `buildParentMap`.
unfoldable pub add_parents : Map (List Text) → List RawHeritage → Map (List Text)
add_parents parent_map [] = parent_map
add_parents parent_map (entry ∷ heritage) =
    add_parents (append_at entry.child_name entry.parent_name parent_map) heritage

unfoldable pub build_parent_map : List RawHeritage → Map (List Text)
build_parent_map heritage = add_parents [] heritage

abbrev pub non_empty : List Text → Bool
non_empty seq = not (is_empty seq)

-- other[1:]
abbrev pub tail_of : List Text → List Text
tail_of [] = []
tail_of (x ∷ xs) = xs

-- The two inner loops: is `head` in the tail of a sequence?
unfoldable pub in_tail : Text → List (List Text) → Bool
in_tail head seqs = any (λ other. any (λ element. text_eq element head) (tail_of other)) seqs

-- The loop over the heads: the first that is in no tail.
unfoldable pub pick : List (List Text) → List (List Text) → Option Text
pick [] seqs = none
pick ([] ∷ rest) seqs = pick rest seqs
pick ((head ∷ seq) ∷ rest) seqs =
    let later = pick rest seqs in if in_tail head seqs then later else some head

-- if len(seqs[i]) > 0 && seqs[i][0] == head { seqs[i] = seqs[i][1:] }
unfoldable pub drop_head : Text → List Text → List Text
drop_head head [] = []
drop_head head (x ∷ seq) = if text_eq x head then seq else x ∷ seq

unfoldable pub concat : List (List Text) → List Text
concat [] = []
concat (seq ∷ seqs) = seq ++ concat seqs

-- The outer loop of `c3Merge`, with the result so far.
unfoldable pub c3_loop : ℕ → List (List Text) → List Text → Option (List Text)
c3_loop zero seqs result = none
c3_loop (suc fuel) seqs result =
    let live = keep_if non_empty seqs in
    elim (is_empty live) [
      | true ↦ some result
      | false ↦ elim (pick live live) [
        | none ↦ some (result ++ concat live)
        | some head ↦ c3_loop fuel (map (drop_head head) live) (result ++ head ∷ [])
      ]
    ]

unfoldable pub total_length : List (List Text) → ℕ
total_length [] = 0
total_length (seq ∷ seqs) = length seq + total_length seqs

-- Each round takes an element off a sequence, and the last one finds them empty.
unfoldable pub c3_merge : List (List Text) → Option (List Text)
c3_merge sequences = c3_loop (suc (total_length sequences)) sequences []

-- The result of one call, from the parents and the function that the recursive calls compute.
unfoldable pub order_from : (Text → Option (List Text)) → Text → List Text → Option (List Text)
order_from above class_name [] = some (class_name ∷ [])
order_from above class_name (parent ∷ []) = elim (above parent) [
  | none ↦ none
  | some mro ↦ some (class_name ∷ mro)
]
order_from above class_name (p ∷ q ∷ rest) = elim (traverse above (p ∷ q ∷ rest)) [
  | none ↦ none
  | some mros ↦ elim (c3_merge (mros ++ (p ∷ q ∷ rest) ∷ [])) [
    | none ↦ none
    | some merged ↦ some (class_name ∷ merged)
  ]
]

unfoldable pub compute_mro : ℕ → List RawHeritage → Text → Option (List Text)
compute_mro zero heritage class_name = none
compute_mro (suc fuel) heritage class_name =
    order_from (compute_mro fuel heritage) class_name
      (slice_at class_name (build_parent_map heritage))
