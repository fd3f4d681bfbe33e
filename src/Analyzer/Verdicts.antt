-- ===== src/Analyzer/Verdicts.antt =====
-- The classification of an entry point and what is written for it.
use Prim.Native.Nat.{ℕ}
use mathlib.Core.Path.{◌≡◌, refl, ap, sym, subst, ◌∙◌}
use mathlib.Core.Logic.{inl, inr, ◌↔◌, ⊎_elim}
use mathlib.Core.Bool.{true, false, not}
use mathlib.Core.Option.{Option, none, some}
use mathlib.Core.List.{List, [], ◌∷◌, ◌++◌, map, Memᴰ}
use mathlib.Core.List.Memᴰ
use native.Mathlib.Omega.{arith}
use flash_code_graph.Common.Tests.{||-eq-false, Bool-cases, Option-cases}
use flash_code_graph.Common.Lists.{All, All-map}
use flash_code_graph.Common.Traverse.{All-at}
use flash_code_graph.Common.Keep.{Memᴰ-keep_if}
use flash_code_graph.Common.Text.{Text, text, text_eq}
use flash_code_graph.Common.Maps.{Map, lookup}
use flash_code_graph.Common.Sets.{in_set, in_set_iff, in_set-not}
use flash_code_graph.Model.{kind_function}
use flash_code_graph.Graph.{Node, GraphStore}
use flash_code_graph.Analyzer.{CallForest, EntryPoint}
use flash_code_graph.Analyzer.Forest.{count_at}
use flash_code_graph.Analyzer.Roots.{
  RouteInfo, Metadata, load_metadata, entries_of, entry_point, classify_roots, verdict, route_type,
  is_main, uncalled, add_all,
}
use flash_code_graph.Analyzer.Processes.{is_left_out, process_node, write_processes}
use flash_code_graph.Analyzer.Entries.{
  IsFunction, entry_list-handled, handler_set-mem, sources, route_handles,
}
use flash_code_graph.Analyzer.Stored.{write_processes-steps_for, kept, steps_for}

-- The types for which a process is written.
abbrev WritesProcess : Text → Type 0
WritesProcess entry_type =
    (text_eq entry_type (text "suspected_dead") ≡ false)
    × (text_eq entry_type (text "unknown_entry") ≡ false)
    × (text_eq entry_type (text "interface_impl") ≡ false)

route_type-WritesProcess : (info : Option RouteInfo) → WritesProcess (route_type info)
unfolding text_eq
route_type-WritesProcess none = (refl, refl, refl)
route_type-WritesProcess (some info) = elim (Bool-cases (text_eq info.method (text "CLI"))) [
  | inl cli ↦ rw cli (refl, refl, refl)
  | inr other ↦ elim (Bool-cases (text_eq info.method (text "TOOL"))) [
    | inl tool ↦ rw (other, tool) (refl, refl, refl)
    | inr http ↦ rw (other, http) (refl, refl, refl)
  ]
]

module _ (entry_type_of : Text → Text) (forest : CallForest) (metadata : Metadata) (id : Text)
    (node : Node) where
  handler-kept :
      in_set id metadata.handlers.handler_set ≡ true
      → is_left_out (entry_point entry_type_of forest metadata id node) ≡ false
  unfolding entry_point verdict is_left_out text_eq
  handler-kept h =
      let (dead, unknown, impl) =
        route_type-WritesProcess (lookup id metadata.handlers.handler_route) in
      elim (Bool-cases (in_set id metadata.handlers.remote_client_set)) [
        | inl remote ↦ rw (verdict, remote) refl
        | inr local ↦ rw (verdict, local, h) (rw (dead, unknown, impl) refl)
      ]

  verdict-dead :
      (verdict entry_type_of forest metadata id node).1 ≡ 30
      → (count_at id forest.out_degree ≡ 0)
        × (in_set id metadata.handlers.handler_set ≡ false)
        × (is_main node ≡ false)
  unfolding verdict
  verdict-dead h = ground arith

mem-map :
    {A B : Type 0} (f : A → B) (xs : List A) (y : B)
    → Memᴰ y (map f xs) ↔ ((x : A) × Memᴰ x xs × (f x ≡ y))
mem-map f [] y = (λ m. absurd (Memᴰ.not-nil m), λ (x, m, e). absurd (Memᴰ.not-nil m))
mem-map f (x ∷ xs) y = (
  λ m.
      ⊎_elim (λ e. (x, Memᴰ.head refl, sym e))
        (λ t. let (z, at, e) = (mem-map f xs y).0 t in (z, Memᴰ.tail at, e)) (Memᴰ.cases_cons m),
  λ (z, m, e).
      ⊎_elim (λ same. Memᴰ.head (sym e ∙ ap f same)) (λ t. Memᴰ.tail ((mem-map f xs y).1 (z, t, e)))
        (Memᴰ.cases_cons m),
)

-- An entry is the classification of a function of the forest.
entries_of-source :
    (entry_type_of : Text → Text) (forest : CallForest) (metadata : Metadata) (ids : List Text)
    → All
        (λ e.
          (id : Text) × (node : Node) × (lookup id forest.nodes ≡ some node)
          × (e ≡ entry_point entry_type_of forest metadata id node))
        (entries_of entry_type_of forest metadata ids)
unfolding entries_of
entries_of-source entry_type_of forest metadata [] = tt
entries_of-source entry_type_of forest metadata (id ∷ ids) =
    elim (Option-cases (lookup id forest.nodes)) [
      | inl unknown ↦ rw (entries_of, unknown) (entries_of-source entry_type_of forest metadata ids)
      | inr (node, known) ↦ elim (Bool-cases (text_eq node.kind kind_function)) [
        | inl picked ↦
            rw (entries_of, known, picked)
              ((id, node, known, refl), entries_of-source entry_type_of forest metadata ids)
        | inr dropped ↦
            rw (entries_of, known, dropped) (entries_of-source entry_type_of forest metadata ids)
      ]
    ]

-- What the score 0.30 says of an entry.
abbrev Judged : GraphStore → CallForest → EntryPoint → Type 0
Judged store forest e =
    e.score ≡ 30
    → (count_at e.node_id forest.out_degree ≡ 0)
      × (¬ Memᴰ e.node_id (sources (route_handles store)))
      × (text_eq e.name (text "main") ≡ false)
      × (text_eq e.name (text "Main") ≡ false)

abbrev roots_of : GraphStore → CallForest → List Text
roots_of store forest =
    add_all (uncalled [] forest.in_degree) (load_metadata store forest).handlers.handler_set

-- `ClassifyRoots` gives the score 0.30 only to functions that call nothing, handle no route and are
-- not called main or Main.
pub classify_roots-dead :
    (entry_type_of : Text → Text) (store : GraphStore) (forest : CallForest)
    → All
        (λ e.
          e.score ≡ 30
          → (count_at e.node_id forest.out_degree ≡ 0)
            × (¬ Memᴰ e.node_id (sources (route_handles store)))
            × (text_eq e.name (text "main") ≡ false)
            × (text_eq e.name (text "Main") ≡ false))
        (classify_roots entry_type_of store forest)
unfolding classify_roots entry_point is_main
classify_roots-dead entry_type_of store forest =
    All-map _ _ (classify_roots entry_type_of store forest)
      (λ e (id, node, known, shape). subst (Judged store forest) (sym shape) (λ score.
        let metadata = load_metadata store forest in
        let (calls, handled, main) = verdict-dead entry_type_of forest metadata id node score in
        let (lower, upper) = ||-eq-false _ _ main in
        (
          calls,
          λ m.
              in_set-not id metadata.handlers.handler_set handled
                ((handler_set-mem entry_type_of store forest id).1 m),
          lower,
          upper,
        )))
      (entries_of-source entry_type_of forest (load_metadata store forest) (roots_of store forest))

-- Every function of the forest that handles a route has a process of its own among the nodes that
-- `WriteProcesses` creates for the entry points of `ClassifyRoots`.
pub write_processes-handler :
    (entry_type_of : Text → Text) (store : GraphStore) (forest : CallForest) (max_depth : ℕ)
    (layers : Map Text) (id : Text)
    → IsFunction forest id
    → Memᴰ id (sources (route_handles store))
    → (node : Node) × Memᴰ node
        (write_processes (classify_roots entry_type_of store forest) forest max_depth layers).nodes
      × (node.id ≡ text "process:" ++ id)
unfolding classify_roots entry_point process_node
write_processes-handler entry_type_of store forest max_depth layers id function handled =
    let metadata = load_metadata store forest in
    let entries = classify_roots entry_type_of store forest in
    let (entry, listed, named) =
      (mem-map (λ e. e.node_id) entries id).0
        (entry_list-handled entry_type_of store forest id function handled) in
    let (key, node, known, shape) =
      All-at _ entries entry
        (entries_of-source entry_type_of forest metadata (roots_of store forest)) listed in
    let at : key ≡ id = sym (ap (λ (e : EntryPoint). e.node_id) shape) ∙ named in
    let handler = (in_set_iff key metadata.handlers.handler_set).1 (
      (handler_set-mem entry_type_of store forest key).1
        (subst (λ z. Memᴰ z (sources (route_handles store))) (sym at) handled)) in
    let stays : is_left_out entry ≡ false =
      subst (λ z. is_left_out z ≡ false) (sym shape)
        (handler-kept entry_type_of forest metadata key node handler) in
    let used = (Memᴰ-keep_if (λ e. not (is_left_out e)) entry entries).1 (listed, ap not stays) in
    (
      process_node entry (steps_for forest max_depth layers entry),
      rw (write_processes-steps_for entries forest max_depth layers).0 (
          (mem-map (λ e. process_node e (steps_for forest max_depth layers e))
              (kept forest max_depth layers entries) _).1
            (entry, used, refl)),
      ap (λ z. text "process:" ++ z) named,
    )
