-- ===== src/Analyzer/Written.antt =====
-- The nodes and edges that `WriteProcesses` of internal/service/analyzer.go writes, against the entries
-- and the calls of the forest.
use Prim.Native.Nat.{ℕ, suc, ◌+◌, ◌≤◌}
use mathlib.Core.Path.{◌≡◌, refl, ap, sym, subst, ◌∙◌}
use mathlib.Core.Logic.{◌↔◌, inl, inr}
use mathlib.Core.Bool.{true, false, ◌||◌}
use mathlib.Core.Option.{some}
use mathlib.Core.List.{List, [], ◌∷◌, ◌++◌, map, Memᴰ, Nodup}
use native.Mathlib.Omega.{arith}
use flash_code_graph.Common.Tests.{Bool-cases, ||-eq-false}
use flash_code_graph.Common.Lists.{length, get_elem?, keep_if, All}
use flash_code_graph.Common.Traverse.{flat_map}
use flash_code_graph.Common.Text.{Text, text, text_eq, text_eq_iff}
use flash_code_graph.Common.Maps.{Map, lookup}
use flash_code_graph.Model.{RelationKind}
use flash_code_graph.Graph.{Node, Edge, str, whole}
use flash_code_graph.Analyzer.{CallForest, EntryPoint, StepInfo}
use flash_code_graph.Analyzer.Processes.{is_left_out, process_node, step_edge, write_processes}
use flash_code_graph.Analyzer.Order.{node_ids}
use flash_code_graph.Analyzer.Reach.{CallPath}
use flash_code_graph.Analyzer.Complete.{Covers}
use flash_code_graph.Analyzer.Traced.{trace_process-CallPath, trace_process_complete}
use flash_code_graph.Analyzer.Stored.{
  kept, processes, step_edges, steps_for, length-map, write_processes-steps_for,
}

-- The entries that get a process.
abbrev pub IsTraced : EntryPoint → Type 0
IsTraced entry =
    (¬ (entry.entry_type ≡ text "suspected_dead"))
    × (¬ (entry.entry_type ≡ text "unknown_entry"))
    × (¬ (entry.entry_type ≡ text "interface_impl"))

-- The process of an entry with so many steps.
abbrev pub IsProcess : EntryPoint → ℕ → Node → Type 0
IsProcess entry steps node =
    (node.id ≡ text "process:" ++ entry.node_id)
    × (node.kind ≡ text "Process")
    × (lookup (text "entry_point") node.properties ≡ some (str entry.node_id))
    × (lookup (text "entry_type") node.properties ≡ some (str entry.entry_type))
    × (lookup (text "step_count") node.properties ≡ some (whole steps))

-- The edges carry the numbers that follow a number.
abbrev pub OrderedAfter : ℕ → List Edge → Type 0
OrderedAfter n [] = Unit
OrderedAfter n (edge ∷ edges) =
    (lookup (text "order") edge.properties ≡ some (whole (n + 1))) × OrderedAfter (n + 1) edges

abbrev pub targets : List Edge → List Text
targets edges = map (λ e. e.target_id) edges

-- The STEP edges of an entry: from its process, numbered from 1, one to each function that the entry
-- reaches through confident calls.
abbrev pub IsTrace : CallForest → EntryPoint → List Edge → Type 0
IsTrace forest entry edges =
    All (λ e. (e.source_id ≡ text "process:" ++ entry.node_id) × (e.kind ≡ RelationKind.step)) edges
    × OrderedAfter 0 edges
    × Nodup (targets edges)
    × ((id : Text) → Memᴰ id (targets edges) ↔ ((n : ℕ) × CallPath forest n entry.node_id id))

-- What is written for a list of entries.
pub data Writes (forest : CallForest) : List EntryPoint → List Node → List Edge → Type 0 where
  nothing : Writes forest [] [] []
  traced :
      {entry : EntryPoint} {entries : List EntryPoint} {node : Node} {nodes : List Node}
      (own : List Edge) {edges : List Edge}
      → IsTraced entry
      → IsTrace forest entry own
      → IsProcess entry (length own) node
      → Writes forest entries nodes edges
      → Writes forest (entry ∷ entries) (node ∷ nodes) (own ++ edges)
  left_out :
      {entry : EntryPoint} {entries : List EntryPoint} {nodes : List Node} {edges : List Edge}
      → ¬ IsTraced entry
      → Writes forest entries nodes edges
      → Writes forest (entry ∷ entries) nodes edges

is_left_out-IsTraced : (entry : EntryPoint) → is_left_out entry ≡ false → IsTraced entry
unfolding is_left_out
is_left_out-IsTraced entry h =
    let dead = text_eq entry.entry_type (text "suspected_dead") in
    let unknown = text_eq entry.entry_type (text "unknown_entry") in
    let interface = text_eq entry.entry_type (text "interface_impl") in
    let (two, third) = ||-eq-false (dead || unknown) interface h in
    let (first, second) = ||-eq-false dead unknown two in
    (
      λ e. absurd (let same = (text_eq_iff entry.entry_type _).1 e in ground arith),
      λ e. absurd (let same = (text_eq_iff entry.entry_type _).1 e in ground arith),
      λ e. absurd (let same = (text_eq_iff entry.entry_type _).1 e in ground arith),
    )

is_left_out-not : (entry : EntryPoint) → is_left_out entry ≡ true → ¬ IsTraced entry
unfolding is_left_out
is_left_out-not entry h (dead, unknown, interface) =
    elim (Bool-cases (text_eq entry.entry_type (text "suspected_dead"))) [
      | inl a ↦ dead ((text_eq_iff entry.entry_type _).0 a)
      | inr na ↦ elim (Bool-cases (text_eq entry.entry_type (text "unknown_entry"))) [
        | inl b ↦ unknown ((text_eq_iff entry.entry_type _).0 b)
        | inr nb ↦ interface ((text_eq_iff entry.entry_type _).0 (rw (na, nb) at h))
      ]
    ]

step_edge-source :
    (entry : EntryPoint) (steps : List StepInfo)
    → All
        (λ e. (e.source_id ≡ text "process:" ++ entry.node_id) × (e.kind ≡ RelationKind.step))
        (map (step_edge entry) steps)
unfolding step_edge
step_edge-source entry [] = tt
step_edge-source entry (i ∷ steps) = ((refl, refl), step_edge-source entry steps)

targets-step_edge :
    (entry : EntryPoint) (steps : List StepInfo)
    → targets (map (step_edge entry) steps) ≡ node_ids steps
unfolding step_edge
targets-step_edge entry [] = refl
targets-step_edge entry (i ∷ steps) =
    ap (λ (z : List Text). i.node_id ∷ z) (targets-step_edge entry steps)

-- Steps that are numbered from n + 1 on.
abbrev NumberedAfter : ℕ → List StepInfo → Type 0
NumberedAfter n steps =
    (i : ℕ) (info : StepInfo) → get_elem? steps i ≡ some info → info.order ≡ n + i + 1

step_edge-OrderedAfter :
    (entry : EntryPoint) (n : ℕ) (steps : List StepInfo)
    → NumberedAfter n steps
    → OrderedAfter n (map (step_edge entry) steps)
unfolding step_edge lookup text_eq
step_edge-OrderedAfter entry n [] h = tt
step_edge-OrderedAfter entry n (i ∷ steps) h = (
  ap (λ z. some (whole z)) (h 0 i refl ∙ omega arith),
  step_edge-OrderedAfter entry (n + 1) steps (λ k info e. let at = h (suc k) info e in omega arith),
)

module _ (forest : CallForest) (max_depth : ℕ) (layers : Map Text) (functions : List Text)
    (known : Covers forest functions) (enough : length functions ≤ max_depth) where
  abbrev own_edges : EntryPoint → List Edge
  own_edges entry = map (step_edge entry) (steps_for forest max_depth layers entry)

  own_edges-IsTrace : (entry : EntryPoint) → IsTrace forest entry (own_edges entry)
  own_edges-IsTrace entry =
      let steps = steps_for forest max_depth layers entry in
      let (distinct, numbered, paths) =
        trace_process-CallPath forest layers entry.node_id entry.name max_depth in
      let same = targets-step_edge entry steps in
      (
        step_edge-source entry steps,
        step_edge-OrderedAfter entry 0 steps
            (λ i info e. let at = numbered i info e in omega arith),
        subst Nodup (sym same) distinct,
        λ id.
            subst (λ z. Memᴰ id z ↔ ((n : ℕ) × CallPath forest n entry.node_id id)) (sym same)
              (trace_process_complete forest layers entry.node_id entry.name max_depth functions
                known enough id),
      )

  process_node-IsProcess :
      (entry : EntryPoint)
      → IsProcess entry
          (length (own_edges entry))
          (process_node entry (steps_for forest max_depth layers entry))
  unfolding process_node lookup text_eq
  process_node-IsProcess entry = (
    refl,
    refl,
    refl,
    refl,
    ap (λ z. some (whole z))
        (sym (length-map (step_edge entry) (steps_for forest max_depth layers entry))),
  )

  kept-Writes :
      (entries : List EntryPoint)
      → Writes forest entries
          (processes forest max_depth layers (kept forest max_depth layers entries))
          (step_edges forest max_depth layers (kept forest max_depth layers entries))
  unfolding keep_if flat_map
  kept-Writes [] = nothing
  kept-Writes (entry ∷ entries) = elim (Bool-cases (is_left_out entry)) [
    | inl out ↦ rw (keep_if, out) (left_out (is_left_out-not entry out) (kept-Writes entries))
    | inr used ↦
        rw (keep_if, used)
          (traced (own_edges entry) (is_left_out-IsTraced entry used) (own_edges-IsTrace entry)
            (process_node-IsProcess entry) (kept-Writes entries))
  ]

-- If the limit on the depth is not below the number of functions that are called, `WriteProcesses`
-- writes for the entries, in their order, nothing if their type is suspected_dead, unknown_entry or
-- interface_impl, and for every other one a Process node, which names the entry and the number of
-- its steps, and STEP edges from that process: one to each function that the entry reaches through
-- confident calls, none twice, numbered 1, 2, 3 and so on. The two counts that it returns are the
-- number of nodes and the number of edges that it writes.
pub write_processes_lem :
    (entries : List EntryPoint) (forest : CallForest) (max_depth : ℕ) (layers : Map Text)
    (functions : List Text)
    → Covers forest functions
    → length functions ≤ max_depth
    → let written = write_processes entries forest max_depth layers in
      Writes forest entries written.nodes written.edges
      × (written.process_count ≡ length written.nodes)
      × (written.step_count ≡ length written.edges)
write_processes_lem entries forest max_depth layers functions known enough =
    let (nodes, edges, process_count, step_count) =
      write_processes-steps_for entries forest max_depth layers in
    (
      subst (λ z. Writes forest entries z (write_processes entries forest max_depth layers).edges)
          (sym nodes)
          (subst
            (Writes forest entries
              (processes forest max_depth layers (kept forest max_depth layers entries)))
            (sym edges) (kept-Writes forest max_depth layers functions known enough entries)),
      process_count,
      step_count,
    )
