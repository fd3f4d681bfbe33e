-- ===== src/Analyzer/Calls.antt =====
-- What `BuildCallForest` records of the calls.
use Prim.Native.Nat.{ℕ, suc, ◌+◌}
use mathlib.Core.Path.{◌≡◌, refl, ap, sym, ◌∙◌}
use mathlib.Core.Logic.{inl, inr, ◌↔◌}
use mathlib.Core.Bool.{Bool, true, false, ◌||◌}
use mathlib.Core.Option.{some}
use mathlib.Core.List.{List, [], ◌∷◌, ◌++◌, map, append_assoc, append-nil}
use native.Mathlib.Omega.{arith}
use flash_code_graph.Common.Tests.{if◌then◌else◌, Bool-cases, Option-cases}
use flash_code_graph.Common.Lists.{length, keep_if, any}
use flash_code_graph.Common.Text.{Text, text_eq, text_eq_iff}
use flash_code_graph.Common.Maps.{Map, lookup, has_key, lookup-insert, slice_at, slice_at-append_at}
use flash_code_graph.Common.Sets.{Distinct}
use flash_code_graph.Common.Keys.{keys, Distinct-insert}
use flash_code_graph.Model.{RelationKind, kind_function}
use flash_code_graph.Graph.{Edge, GraphStore, Reply, reply, failed, rows_of}
use flash_code_graph.Analyzer.{CallForest, children_of}
use flash_code_graph.Analyzer.Forest.{
  count_at, increment, ensure_key, add_call, add_calls, call_edge, build_call_forest, empty_forest,
  index_nodes,
}

count_at-increment :
    (k j : Text) (m : Map ℕ)
    → count_at j (increment k m) ≡ (if text_eq k j then suc (count_at j m) else count_at j m)
unfolding count_at increment
count_at-increment k j m = ground (arith, lookup-insert k j (suc (count_at k m)) m, text_eq_iff k j)

count_at-ensure_key : (k j : Text) (m : Map ℕ) → count_at j (ensure_key k m) ≡ count_at j m
unfolding count_at ensure_key has_key
count_at-ensure_key k j m = ground (arith, lookup-insert k j 0 m, text_eq_iff k j)

has_key-increment :
    (k j : Text) (m : Map ℕ) → has_key j (increment k m) ≡ (text_eq k j || has_key j m)
unfolding increment has_key
has_key-increment k j m = ground (arith, lookup-insert k j (suc (count_at k m)) m)

has_key-ensure_key :
    (k j : Text) (m : Map ℕ) → has_key j (ensure_key k m) ≡ (text_eq k j || has_key j m)
unfolding ensure_key has_key
has_key-ensure_key k j m = ground (arith, lookup-insert k j 0 m, text_eq_iff k j)

abbrev pub goes_to : Text → Edge → Bool
goes_to id edge = text_eq edge.target_id id

abbrev pub comes_from : Text → Edge → Bool
comes_from id edge = text_eq edge.source_id id

abbrev pub touches : Text → Edge → Bool
touches id edge = text_eq edge.source_id id || text_eq edge.target_id id

-- What a forest holds of a function, against the edges that were added to it.
pub record Recorded (forest : CallForest) (edges : List Edge) (before : CallForest) (id : Text)
    : Type 0 where
  pub calls_in :
      count_at id forest.in_degree
      ≡ count_at id before.in_degree + length (keep_if (goes_to id) edges)
  pub calls_out :
      count_at id forest.out_degree
      ≡ count_at id before.out_degree + length (keep_if (comes_from id) edges)
  pub callees :
      children_of forest id ≡ children_of before id ++ map call_edge (keep_if (comes_from id) edges)
  pub listed : has_key id forest.in_degree ≡ (has_key id before.in_degree || any (touches id) edges)

add_call-Recorded :
    (forest : CallForest) (edge : Edge) (id : Text)
    → Recorded (add_call forest edge) (edge ∷ []) forest id
unfolding add_call keep_if any children_of
add_call-Recorded forest edge id = record {
  calls_in = ground (
    arith,
    count_at-ensure_key edge.source_id id (increment edge.target_id forest.in_degree),
    count_at-increment edge.target_id id forest.in_degree,
  );
  calls_out = ground (
    arith,
    count_at-ensure_key edge.target_id id (increment edge.source_id forest.out_degree),
    count_at-increment edge.source_id id forest.out_degree,
  );
  callees =
      slice_at-append_at edge.source_id id (call_edge edge) forest.children
      ∙ (elim (Bool-cases (comes_from id edge)) [
        | inl mine ↦ rw mine refl
        | inr other ↦ rw (other, append-nil (children_of forest id)) refl
      ]);
  listed = ground (
    arith,
    has_key-ensure_key edge.source_id id (increment edge.target_id forest.in_degree),
    has_key-increment edge.target_id id forest.in_degree,
  );
}

add_calls-Recorded :
    (forest : CallForest) (edges : List Edge) (id : Text)
    → Recorded (add_calls forest edges) edges forest id
unfolding add_calls keep_if any
add_calls-Recorded forest [] id = record {
  calls_in = omega arith;
  calls_out = omega arith;
  callees = sym (append-nil _);
  listed = ground arith;
}
add_calls-Recorded forest (edge ∷ edges) id =
    let one = add_call-Recorded forest edge id in
    let rest = add_calls-Recorded (add_call forest edge) edges id in
    record {
      calls_in = ground (arith, one.calls_in, rest.calls_in);
      calls_out = ground (arith, one.calls_out, rest.calls_out);
      callees = rest.callees ∙ (elim (Bool-cases (comes_from id edge)) [
        | inl mine ↦
            rw (one.callees, mine, append_assoc (children_of forest id) (call_edge edge ∷ []) _)
              refl
        | inr other ↦ rw (one.callees, other, append-nil (children_of forest id)) refl
      ]);
      listed = ground (arith, one.listed, rest.listed);
    }

Distinct-ensure_key : (k : Text) (m : Map ℕ) → Distinct (keys m) → Distinct (keys (ensure_key k m))
unfolding ensure_key
Distinct-ensure_key k m d = elim (Bool-cases (has_key k m)) [
  | inl held ↦ rw (ensure_key, held) d
  | inr fresh ↦ rw (ensure_key, fresh) (Distinct-insert k 0 m d)
]

add_calls-Distinct :
    (forest : CallForest) (edges : List Edge)
    → Distinct (keys forest.in_degree)
    → Distinct (keys (add_calls forest edges).in_degree)
unfolding add_calls add_call increment
add_calls-Distinct forest [] d = d
add_calls-Distinct forest (edge ∷ edges) d = add_calls-Distinct (add_call forest edge) edges (
    Distinct-ensure_key edge.source_id (increment edge.target_id forest.in_degree) (
      Distinct-insert edge.target_id (suc (count_at edge.target_id forest.in_degree))
        forest.in_degree d))

any-touches :
    (id : Text) (edges : List Edge)
    → any (touches id) edges ≡ (any (comes_from id) edges || any (goes_to id) edges)
unfolding any
any-touches id [] = refl
any-touches id (edge ∷ edges) = ground (arith, any-touches id edges)

none_to :
    (id : Text) (edges : List Edge)
    → (any (goes_to id) edges ≡ false) ↔ (length (keep_if (goes_to id) edges) ≡ 0)
unfolding any keep_if
none_to id [] = (λ h. refl, λ h. refl)
none_to id (edge ∷ edges) = let rest = none_to id edges in ground (arith, rest)

-- If the store returns the calls, then `BuildCallForest` succeeds. The in-degree of every function is
-- the number of calls to it, the out-degree the number of calls from it, its children are the calls
-- from it in the order of the store, and the in-degrees list exactly the functions that some call
-- touches.
pub build_call_forest_lem :
    (store : GraphStore) (edges : List Edge)
    → store.query_all_edges RelationKind.calls ≡ reply edges
    → (forest : CallForest) × (build_call_forest store ≡ reply forest)
      × ((id : Text)
          → (count_at id forest.in_degree ≡ length (keep_if (goes_to id) edges))
            × (count_at id forest.out_degree ≡ length (keep_if (comes_from id) edges))
            × (children_of forest id ≡ map call_edge (keep_if (comes_from id) edges))
            × (has_key id forest.in_degree ≡ any (touches id) edges))
unfolding build_call_forest count_at has_key lookup children_of slice_at
build_call_forest_lem store edges h = (
  record (add_calls empty_forest edges) {
    nodes = index_nodes [] (rows_of (store.query_all_by_kind kind_function));
  },
  rw (h, build_call_forest) refl,
  λ id.
      let r = add_calls-Recorded empty_forest edges id in
      (omega (arith, r.calls_in), omega (arith, r.calls_out), r.callees, r.listed),
)

zero_iff :
    (m : Map ℕ) (id : Text) → (lookup id m ≡ some 0) ↔ ((has_key id m ≡ true) × (count_at id m ≡ 0))
unfolding has_key count_at
zero_iff m id = elim (Option-cases (lookup id m)) [
  | inl missing ↦ ground (arith, missing)
  | inr (n, found) ↦ ground (arith, found)
]

degrees_of : Reply CallForest → Map ℕ
degrees_of (reply forest) = forest.in_degree
degrees_of (failed e) = []

-- The functions of in-degree 0 are those that call and are not called.
pub uncalled_iff :
    (store : GraphStore) (edges : List Edge) (forest : CallForest)
    → store.query_all_edges RelationKind.calls ≡ reply edges
    → build_call_forest store ≡ reply forest
    → Distinct (keys forest.in_degree)
      × ((id : Text)
          → (lookup id forest.in_degree ≡ some 0)
            ↔ ((any (comes_from id) edges ≡ true) × (any (goes_to id) edges ≡ false)))
unfolding build_call_forest degrees_of count_at has_key lookup
uncalled_iff store edges forest h built =
    let same : (add_calls empty_forest edges).in_degree ≡ forest.in_degree =
      ap degrees_of (rw (build_call_forest, h) at built) in
    (
      rw (← same) (add_calls-Distinct empty_forest edges tt),
      λ id.
          let r = add_calls-Recorded empty_forest edges id in
          let listed : has_key id (add_calls empty_forest edges).in_degree
              ≡ any (touches id) edges =
            r.listed in
          let counted : count_at id (add_calls empty_forest edges).in_degree
              ≡ length (keep_if (goes_to id) edges) =
            omega (arith, r.calls_in) in
          rw (← same) (
            ground (
              arith,
              zero_iff (add_calls empty_forest edges).in_degree id,
              none_to id edges,
              any-touches id edges,
              listed,
              counted,
            )),
    )
