-- ===== src/Analyzer/Entries.antt =====
-- Which functions `ClassifyRoots` lists, and how.
use Prim.Native.Nat.{ℕ}
use mathlib.Core.Path.{◌≡◌, refl, ap, ◌∙◌}
use mathlib.Core.Logic.{◌⊎◌, inl, inr, ◌↔◌, ⊎_elim}
use mathlib.Core.Bool.{Bool, true, false}
use mathlib.Core.Option.{none, some}
use mathlib.Core.List.{List, [], ◌∷◌, map, Memᴰ}
use mathlib.Core.List.Memᴰ
use native.Mathlib.Omega.{arith}
use flash_code_graph.Common.Tests.{Bool-cases, Option-cases, ◌==◌}
use flash_code_graph.Common.Lists.{keep_if, any}
use flash_code_graph.Common.Text.{Text, text_eq, text_eq_iff, text_eq_sound}
use flash_code_graph.Common.Maps.{Map, lookup}
use flash_code_graph.Common.Sets.{
  add_to_set, Memᴰ-add_to_set, Distinct, Distinct-add_to_set, Distinct-keep_if,
}
use flash_code_graph.Common.Keep.{Memᴰ-keep_if}
use flash_code_graph.Common.Keys.{keys, keys_where-lookup}
use flash_code_graph.Model.{RelationKind, kind_function, kind_class, kind_route}
use flash_code_graph.Graph.{Node, Edge, GraphStore, reply, rows_of}
use flash_code_graph.Analyzer.{CallForest}
use flash_code_graph.Analyzer.Forest.{index_nodes, build_call_forest}
use flash_code_graph.Analyzer.Calls.{comes_from, goes_to, uncalled_iff}
use flash_code_graph.Analyzer.Roots.{
  Handlers, Metadata, add_handler, add_handlers, no_handlers, load_metadata, uncalled,
  rest_controller_classes, add_all, entries_of, classify_roots,
}

-- The handlers are the sources of the HANDLES edges.
add_handler-set :
    (forest : CallForest) (controllers : List Text) (routes : Map Node) (h : Handlers) (edge : Edge)
    → (add_handler forest controllers routes h edge).handler_set
      ≡ add_to_set edge.source_id h.handler_set
unfolding add_handler
add_handler-set forest controllers routes h edge =
    elim (Option-cases (lookup edge.target_id routes)) [
      | inl unknown ↦ rw (add_handler, unknown) refl
      | inr (route, found) ↦ rw (add_handler, found) refl
    ]

abbrev pub sources : List Edge → List Text
sources edges = map (λ e. e.source_id) edges

add_handlers-set :
    (forest : CallForest) (controllers : List Text) (routes : Map Node) (h : Handlers)
    (edges : List Edge)
    → (add_handlers forest controllers routes h edges).handler_set
      ≡ add_all h.handler_set (sources edges)
unfolding add_handlers add_all
add_handlers-set forest controllers routes h [] = refl
add_handlers-set forest controllers routes h (edge ∷ edges) =
    add_handlers-set forest controllers routes (add_handler forest controllers routes h edge) edges
    ∙ ap (λ set. add_all set (sources edges)) (add_handler-set forest controllers routes h edge)

abbrev zeros : Map ℕ → List Text
zeros degrees = map (λ p. p.0) (keep_if (λ p. p.1 == 0) degrees)

uncalled-add_all :
    (roots : List Text) (degrees : Map ℕ) → uncalled roots degrees ≡ add_all roots (zeros degrees)
unfolding uncalled add_all keep_if
uncalled-add_all roots [] = refl
uncalled-add_all roots ((k, degree) ∷ rest) = elim (Bool-cases (degree == 0)) [
  | inl fresh ↦ rw (fresh, uncalled-add_all (add_to_set k roots) rest) refl
  | inr called ↦ rw (called, uncalled-add_all roots rest) refl
]

add_all-mem :
    (roots ids : List Text) (id : Text)
    → Memᴰ id (add_all roots ids) ↔ (Memᴰ id roots ⊎ Memᴰ id ids)
unfolding add_all
add_all-mem roots [] id = (λ m. inl m, ⊎_elim (λ m. m) (λ m. absurd (Memᴰ.not-nil m)))
add_all-mem roots (x ∷ ids) id =
    let rest = add_all-mem (add_to_set x roots) ids id in
    let one = Memᴰ-add_to_set x id roots in
    (
      λ m.
          ⊎_elim (λ before. ⊎_elim (λ old. inl old) (λ e. inr (Memᴰ.head e)) (one.0 before))
            (λ later. inr (Memᴰ.tail later)) (rest.0 m),
      ⊎_elim (λ old. rest.1 (inl (one.1 (inl old))))
          (λ new.
            ⊎_elim (λ e. rest.1 (inl (one.1 (inr e)))) (λ later. rest.1 (inr later))
              (Memᴰ.cases_cons new)),
    )

add_all_nil-mem : (ids : List Text) (id : Text) → Memᴰ id (add_all [] ids) ↔ Memᴰ id ids
add_all_nil-mem ids id =
    let both = add_all-mem [] ids id in
    (λ m. ⊎_elim (λ n. absurd (Memᴰ.not-nil n)) (λ h. h) (both.0 m), λ h. both.1 (inr h))

add_all-Distinct : (roots ids : List Text) → Distinct roots → Distinct (add_all roots ids)
unfolding add_all
add_all-Distinct roots [] d = d
add_all-Distinct roots (x ∷ ids) d =
    add_all-Distinct (add_to_set x roots) ids (Distinct-add_to_set x roots d)

-- An entry is a function of the graph.
abbrev pub IsFunction : CallForest → Text → Type 0
IsFunction forest id =
    (node : Node) × (lookup id forest.nodes ≡ some node) × (node.kind ≡ kind_function)

module _ (forest : CallForest) where
  is_function : Text → Bool
  is_function id = elim (lookup id forest.nodes) [
    | none ↦ false
    | some node ↦ text_eq node.kind kind_function
  ]

  is_function_iff : (id : Text) → (is_function id ≡ true) ↔ IsFunction forest id
  unfolding is_function
  is_function_iff id = elim (Option-cases (lookup id forest.nodes)) [
    | inl unknown ↦ (λ h. absurd (ground arith), λ (node, known, _). absurd (ground arith))
    | inr (node, known) ↦ (
      λ h. (node, known, text_eq_sound node.kind kind_function (ground arith)),
      λ (other, found, e).
          let same : node ≡ other = ground arith in
          let mine : node.kind ≡ kind_function = rw same e in
          ground (arith, (text_eq_iff node.kind kind_function).1 mine),
    )
  ]

module _ (entry_type_of : Text → Text) (forest : CallForest) (metadata : Metadata) where
  abbrev entry_ids : List Text → List Text
  entry_ids ids = map (λ e. e.node_id) (entries_of entry_type_of forest metadata ids)

  entry_ids-keep_if : (ids : List Text) → entry_ids ids ≡ keep_if (is_function forest) ids
  unfolding entries_of keep_if is_function
  entry_ids-keep_if [] = refl
  entry_ids-keep_if (id ∷ ids) = elim (Option-cases (lookup id forest.nodes)) [
    | inl unknown ↦ rw (entries_of, is_function, unknown) (entry_ids-keep_if ids)
    | inr (node, known) ↦ elim (Bool-cases (text_eq node.kind kind_function)) [
      | inl picked ↦
          rw (entries_of, is_function, known, picked) (ap (λ l. id ∷ l) (entry_ids-keep_if ids))
      | inr dropped ↦ rw (entries_of, is_function, known, dropped) (entry_ids-keep_if ids)
    ]
  ]

-- The HANDLES edges of the store.
abbrev pub route_handles : GraphStore → List Edge
route_handles store = rows_of (store.query_all_edges RelationKind.handles)

module _ (entry_type_of : Text → Text) (store : GraphStore) (forest : CallForest) where
  abbrev pub entry_list : List Text
  entry_list = map (λ e. e.node_id) (classify_roots entry_type_of store forest)

  pub handler_set-mem :
      (id : Text)
      → Memᴰ id (load_metadata store forest).handlers.handler_set
        ↔ Memᴰ id (sources (route_handles store))
  unfolding load_metadata
  handler_set-mem id =
      rw
        (add_handlers-set forest
          (rest_controller_classes [] (rows_of (store.query_all_by_kind kind_class)))
          (index_nodes [] (rows_of (store.query_all_by_kind kind_route))) no_handlers
          (route_handles store))
        (add_all_nil-mem (sources (route_handles store)) id)

  entry_list-roots :
      entry_list
      ≡ keep_if (is_function forest) (
          add_all
            (add_all [] (zeros forest.in_degree))
            (load_metadata store forest).handlers.handler_set)
  unfolding classify_roots
  entry_list-roots =
      let metadata = load_metadata store forest in
      entry_ids-keep_if entry_type_of forest metadata
        (add_all (uncalled [] forest.in_degree) metadata.handlers.handler_set)
      ∙ ap (λ roots. keep_if (is_function forest) (add_all roots metadata.handlers.handler_set))
          (uncalled-add_all [] forest.in_degree)

  pub entry_list-mem :
      (id : Text)
      → Distinct (keys forest.in_degree)
      → Memᴰ id entry_list ↔ (
          IsFunction forest id
          × ((lookup id forest.in_degree ≡ some 0) ⊎ Memᴰ id (sources (route_handles store))))
  entry_list-mem id d =
      let roots = add_all [] (zeros forest.in_degree) in
      let handlers = (load_metadata store forest).handlers.handler_set in
      let picked = Memᴰ-keep_if (is_function forest) id (add_all roots handlers) in
      let known = is_function_iff forest id in
      let either = add_all-mem roots handlers id in
      let handled = handler_set-mem id in
      let uncalled = add_all_nil-mem (zeros forest.in_degree) id in
      let zero_degree = keys_where-lookup (λ n. n == 0) forest.in_degree id d in
      rw entry_list-roots (
        λ m.
            let (root, good) = picked.0 m in
            (
              known.0 good,
              ⊎_elim
                  (λ u.
                    let (n, found, is_zero) = zero_degree.0 (uncalled.0 u) in
                    inl (ground (arith, found, is_zero)))
                  (λ h. inr (handled.0 h)) (either.0 root),
            ),
        λ (good, root). picked.1 (
          either.1 (
              ⊎_elim (λ e. inl (uncalled.1 (zero_degree.1 (0, e, refl)))) (λ h. inr (handled.1 h))
                root),
          known.1 good,
        ),
      )

  pub entry_list-handled :
      (id : Text)
      → IsFunction forest id
      → Memᴰ id (sources (route_handles store))
      → Memᴰ id entry_list
  entry_list-handled id good h =
      let roots = add_all [] (zeros forest.in_degree) in
      let handlers = (load_metadata store forest).handlers.handler_set in
      rw entry_list-roots (
        (Memᴰ-keep_if (is_function forest) id (add_all roots handlers)).1 (
          (add_all-mem roots handlers id).1 (inr ((handler_set-mem id).1 h)),
          (is_function_iff forest id).1 good,
        ))

  pub entry_list-Distinct : Distinct entry_list
  entry_list-Distinct =
      rw entry_list-roots (Distinct-keep_if _ _ (add_all-Distinct _ _ (add_all-Distinct [] _ tt)))

-- On the forest that `BuildCallForest` makes of the calls in the store, `ClassifyRoots` lists no
-- function twice, and lists a node of the forest exactly if it is a function that handles a route, or
-- one that calls and is never called.
pub entry_list_iff :
    (entry_type_of : Text → Text) (store : GraphStore) (calls : List Edge) (forest : CallForest)
    → store.query_all_edges RelationKind.calls ≡ reply calls
    → build_call_forest store ≡ reply forest
    → Distinct (entry_list entry_type_of store forest)
      × ((id : Text)
          → Memᴰ id (entry_list entry_type_of store forest) ↔ (
              IsFunction forest id
              × (((any (comes_from id) calls ≡ true) × (any (goes_to id) calls ≡ false))
                  ⊎ Memᴰ id (sources (route_handles store)))))
entry_list_iff entry_type_of store calls forest h built =
    let (distinct, roots) = uncalled_iff store calls forest h built in
    (
      entry_list-Distinct entry_type_of store forest,
      λ id.
          let listed = entry_list-mem entry_type_of store forest id distinct in
          let root = roots id in
          (
            λ m.
                let (good, why) = listed.0 m in
                (good, ⊎_elim (λ e. inl (root.0 e)) (λ x. inr x) why),
            λ (good, why). listed.1 (good, ⊎_elim (λ e. inl (root.1 e)) (λ x. inr x) why),
          ),
    )
