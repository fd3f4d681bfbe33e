-- ===== src/Analyzer/Dead.antt =====
-- The entry points on the forest of all calls, none of which is judged dead: `ClassifyRoots` of
-- internal/service/analyzer.go on what `BuildCallForest` makes.
use Prim.Native.Nat.{◌<◌}
use mathlib.Core.Path.{◌≡◌, sym, subst, ◌∙◌}
use mathlib.Core.Logic.{◌⊎◌, ◌↔◌, inl, inr, ⊎_elim}
use mathlib.Core.Bool.{Bool, true, false}
use mathlib.Core.List.{List, [], ◌∷◌, Memᴰ}
use mathlib.Core.List.Memᴰ
use native.Mathlib.Omega.{arith}
use flash_code_graph.Common.Tests.{Bool-cases}
use flash_code_graph.Common.Lists.{length, keep_if, any, All, All-mem}
use flash_code_graph.Common.Traverse.{All-at}
use flash_code_graph.Common.Text.{Text}
use flash_code_graph.Common.Sets.{Distinct}
use flash_code_graph.Model.{RelationKind}
use flash_code_graph.Graph.{Edge, GraphStore, Reply, reply}
use flash_code_graph.Analyzer.{CallForest, EntryPoint}
use flash_code_graph.Analyzer.Forest.{count_at, build_call_forest}
use flash_code_graph.Analyzer.Roots.{classify_roots}
use flash_code_graph.Analyzer.Calls.{build_call_forest_lem, comes_from, goes_to}
use flash_code_graph.Analyzer.Entries.{
  IsFunction, entry_list, entry_list_iff, sources, route_handles,
}
use flash_code_graph.Analyzer.Verdicts.{classify_roots-dead}

keep_if-any :
    {A : Type 0} (p : A → Bool) (xs : List A) → any p xs ≡ true → 0 < length (keep_if p xs)
unfolding any keep_if
keep_if-any p [] h = absurd (ground arith)
keep_if-any p (x ∷ xs) h = elim (Bool-cases (p x)) [
  | inl picked ↦ rw picked (omega arith)
  | inr other ↦ let rest = keep_if-any p xs (ground arith) in rw other rest
]

reply_injective : {a b : CallForest} → ◌≡◌ {A = Reply CallForest} (reply a) (reply b) → a ≡ b
reply_injective h = ground arith

-- A function that calls has an out-degree on the forest that is built.
out_degree-comes_from :
    (store : GraphStore) (calls : List Edge) (forest : CallForest) (id : Text)
    → store.query_all_edges RelationKind.calls ≡ reply calls
    → build_call_forest store ≡ reply forest
    → any (comes_from id) calls ≡ true
    → 0 < count_at id forest.out_degree
out_degree-comes_from store calls forest id h built calls_some =
    let (f, run, counts) = build_call_forest_lem store calls h in
    let same : f ≡ forest = reply_injective (sym run ∙ built) in
    let some_left = keep_if-any (comes_from id) calls calls_some in
    let degree : count_at id forest.out_degree ≡ length (keep_if (comes_from id) calls) =
      subst (λ z. count_at id z.out_degree ≡ length (keep_if (comes_from id) calls)) same
        (counts id).1 in
    omega arith

-- On the forest that `BuildCallForest` makes of the calls in the store, `ClassifyRoots` lists no
-- function twice, and lists a node of the forest exactly if it is a function that handles a route, or
-- one that calls and is never called. None of the entries has the score 0.30 of suspected_dead.
pub classify_roots_iff :
    (entry_type_of : Text → Text) (store : GraphStore) (calls : List Edge) (forest : CallForest)
    → store.query_all_edges RelationKind.calls ≡ reply calls
    → build_call_forest store ≡ reply forest
    → Distinct (entry_list entry_type_of store forest)
      × ((id : Text)
          → Memᴰ id (entry_list entry_type_of store forest) ↔ (
              IsFunction forest id
              × (((any (comes_from id) calls ≡ true) × (any (goes_to id) calls ≡ false))
                  ⊎ Memᴰ id (sources (route_handles store)))))
      × All (λ e. ¬ (e.score ≡ 30)) (classify_roots entry_type_of store forest)
classify_roots_iff entry_type_of store calls forest h built =
    let (distinct, listed) = entry_list_iff entry_type_of store calls forest h built in
    let entries = classify_roots entry_type_of store forest in
    (
      distinct,
      listed,
      All-mem _ entries (λ e at dead.
          let (no_calls, no_route, lower, upper) =
            All-at _ entries e (classify_roots-dead entry_type_of store forest) at dead in
          let (good, why) = (listed e.node_id).0 (Memᴰ.map (λ (z : EntryPoint). z.node_id) at) in
          ⊎_elim
            (λ (calls_some, uncalled).
              let degree = out_degree-comes_from store calls forest e.node_id h built calls_some in
              absurd (omega arith))
            no_route why),
    )
