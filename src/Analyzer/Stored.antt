-- ===== src/Analyzer/Stored.antt =====
-- What `WriteProcesses` hands to the store.
use Prim.Native.Nat.{ℕ, ◌+◌}
use mathlib.Core.Path.{◌≡◌, refl, sym, ap, ◌∙◌}
use mathlib.Core.Logic.{inl, inr}
use mathlib.Core.Bool.{false, not}
use mathlib.Core.List.{List, [], ◌∷◌, ◌++◌, map, append_assoc, append-nil}
use native.Mathlib.Omega.{arith}
use flash_code_graph.Common.Tests.{Bool-cases}
use flash_code_graph.Common.Lists.{length, keep_if, is_empty, length-append}
use flash_code_graph.Common.Traverse.{flat_map}
use flash_code_graph.Common.Text.{Text}
use flash_code_graph.Common.Maps.{Map}
use flash_code_graph.Graph.{Node, Edge}
use flash_code_graph.Analyzer.{CallForest, EntryPoint, StepInfo}
use flash_code_graph.Analyzer.Trace.{trace_process}
use flash_code_graph.Analyzer.Processes.{
  flatten_steps, is_left_out, process_node, step_edge, Written, write_steps, write_loop,
  write_processes, nothing_written,
}
use flash_code_graph.Analyzer.Visits.{ids_of}
use flash_code_graph.Analyzer.Order.{node_ids, node_ids-flatten_steps}

pub length-map : {A B : Type 0} (f : A → B) (xs : List A) → length (map f xs) ≡ length xs
length-map f [] = refl
length-map f (x ∷ xs) = rw (length-map f xs) refl

is_empty-node_ids : (steps : List StepInfo) → is_empty steps ≡ is_empty (node_ids steps)
is_empty-node_ids [] = refl
is_empty-node_ids (i ∷ steps) = refl

module _ (forest : CallForest) (max_depth : ℕ) (layers : Map Text) where
  abbrev pub steps_for : EntryPoint → List StepInfo
  steps_for entry =
      flatten_steps (trace_process forest entry.node_id entry.name max_depth layers) []

  abbrev pub kept : List EntryPoint → List EntryPoint
  kept entries = keep_if (λ e. not (is_left_out e)) entries

  -- A process has a step at least, that of its entry point.
  steps_for-cons : (entry : EntryPoint) → is_empty (steps_for entry) ≡ false
  unfolding trace_process ids_of
  steps_for-cons entry =
      is_empty-node_ids (steps_for entry)
      ∙ ap is_empty (
          node_ids-flatten_steps (trace_process forest entry.node_id entry.name max_depth layers)
            [])

  abbrev pub processes : List EntryPoint → List Node
  processes used = map (λ e. process_node e (steps_for e)) used

  abbrev pub step_edges : List EntryPoint → List Edge
  step_edges used = flat_map (λ e. map (step_edge e) (steps_for e)) used

  record Grown (used : List EntryPoint) (written after : Written) : Type 0 where
    nodes_grow : after.nodes ≡ written.nodes ++ processes used
    edges_grow : after.edges ≡ written.edges ++ step_edges used
    processes_counted : after.process_count ≡ written.process_count + length used
    steps_counted : after.step_count ≡ written.step_count + length (step_edges used)

  write_steps-Grown :
      (entry : EntryPoint) (used : List EntryPoint) (written after : Written)
      → Grown used (write_steps entry (steps_for entry) written) after
      → Grown (entry ∷ used) written after
  unfolding flat_map write_steps
  write_steps-Grown entry used written after g =
      let wrote = steps_for-cons entry in
      let one = process_node entry (steps_for entry) ∷ [] in
      let edges = map (step_edge entry) (steps_for entry) in
      let g' = rw (write_steps, wrote) at g in
      record {
        nodes_grow = g'.nodes_grow ∙ append_assoc written.nodes one _;
        edges_grow = g'.edges_grow ∙ append_assoc written.edges edges _;
        processes_counted = omega (arith, g'.processes_counted);
        steps_counted = omega (
          arith,
          g'.steps_counted,
          length-append edges (step_edges used),
          length-map (step_edge entry) (steps_for entry),
        );
      }

  write_loop-Grown :
      (entries : List EntryPoint) (written : Written)
      → Grown (kept entries) written (write_loop forest max_depth layers entries written)
  unfolding write_loop keep_if flat_map
  write_loop-Grown [] written = record {
    nodes_grow = sym (append-nil _);
    edges_grow = sym (append-nil _);
    processes_counted = omega arith;
    steps_counted = omega arith;
  }
  write_loop-Grown (entry ∷ entries) written = elim (Bool-cases (is_left_out entry)) [
    | inl out ↦ rw (write_loop, keep_if, out) (write_loop-Grown entries written)
    | inr used ↦
        rw (write_loop, keep_if, used)
          (write_steps-Grown entry (kept entries) written _
            (write_loop-Grown entries (write_steps entry (steps_for entry) written)))
  ]

-- What `WriteProcesses` hands to the store, as lists that are made of the entries.
pub write_processes-steps_for :
    (entries : List EntryPoint) (forest : CallForest) (max_depth : ℕ) (layers : Map Text)
    → let written = write_processes entries forest max_depth layers in
      let used = kept forest max_depth layers entries in
      (written.nodes ≡ processes forest max_depth layers used)
      × (written.edges ≡ step_edges forest max_depth layers used)
      × (written.process_count ≡ length written.nodes)
      × (written.step_count ≡ length written.edges)
unfolding write_processes
write_processes-steps_for entries forest max_depth layers =
    let g = write_loop-Grown forest max_depth layers entries nothing_written in
    let used = kept forest max_depth layers entries in
    (
      g.nodes_grow,
      g.edges_grow,
      omega (
        arith,
        g.processes_counted,
        ap length g.nodes_grow,
        length-map (λ e. process_node e (steps_for forest max_depth layers e)) used,
      ),
      omega (arith, g.steps_counted, ap length g.edges_grow),
    )
