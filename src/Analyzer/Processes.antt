-- ===== src/Analyzer/Processes.antt =====
-- `flattenSteps`, `WriteProcesses` and `WriteEntryPoints` of internal/service/analyzer.go.
use Prim.Native.Nat.{ℕ, ◌+◌}
use mathlib.Core.Bool.{Bool, ◌||◌, true, false}
use mathlib.Core.Option.{Option, none, some}
use mathlib.Core.List.{List, [], ◌∷◌, ◌++◌, map}
use flash_code_graph.Common.Lists.{length, is_empty}
use flash_code_graph.Common.Text.{Text, text, text_eq}
use flash_code_graph.Common.Maps.{Map}
use flash_code_graph.Model.{RelationKind, kind_process}
use flash_code_graph.Graph.{Value, str, real, whole, Node, Edge}
use flash_code_graph.Analyzer.{
  CallForest, EntryPoint, StepInfo, ProcessStep, process_step, Steps, no_steps, add_step,
}
use flash_code_graph.Analyzer.Trace.{trace_process}

-- The loop over the children is `flatten_all`.
unfoldable mutual
  pub flatten_steps : ProcessStep → List StepInfo → List StepInfo
  flatten_steps (process_step info children) result =
      flatten_all children (result ++ record info { order = length result + 1 } ∷ [])

  pub flatten_all : Steps → List StepInfo → List StepInfo
  flatten_all no_steps result = result
  flatten_all (add_step step steps) result = flatten_all steps (flatten_steps step result)

-- The entries for which no process is written.
unfoldable pub is_left_out : EntryPoint → Bool
is_left_out entry =
    text_eq entry.entry_type (text "suspected_dead")
    || text_eq entry.entry_type (text "unknown_entry")
    || text_eq entry.entry_type (text "interface_impl")

abbrev pub process_id : EntryPoint → Text
process_id entry = text "process:" ++ entry.node_id

unfoldable pub process_node : EntryPoint → List StepInfo → Node
process_node entry steps = record {
  id = process_id entry;
  kind = kind_process;
  properties =
      (text "name", str entry.name)
      ∷ (text "entry_point", str entry.node_id)
      ∷ (text "step_count", whole (length steps))
      ∷ (text "entry_type", str entry.entry_type)
      ∷ (text "file_path", str entry.file_path)
      ∷ (text "route_method", str entry.route_method)
      ∷ (text "route_path", str entry.route_path)
      ∷ [];
}

unfoldable pub step_edge : EntryPoint → StepInfo → Edge
step_edge entry step = record {
  source_id = process_id entry;
  target_id = step.node_id;
  kind = RelationKind.step;
  properties =
      (text "order", whole step.order)
      ∷ (text "depth", whole step.depth)
      ∷ (text "layer", str step.layer)
      ∷ (text "confidence", real step.confidence)
      ∷ [];
}

-- What the loop over the entries holds: the nodes and edges for the store, and the two counts.
pub record Written : Type 0 where
  pub nodes : List Node
  pub edges : List Edge
  pub process_count : ℕ
  pub step_count : ℕ

abbrev pub nothing_written : Written
nothing_written = record { nodes = []; edges = []; process_count = 0; step_count = 0 }

unfoldable pub write_steps : EntryPoint → List StepInfo → Written → Written
unfolding process_node step_edge
write_steps entry steps written = elim (is_empty steps) [
  | true ↦ written
  | false ↦ record {
    nodes = written.nodes ++ process_node entry steps ∷ [];
    edges = written.edges ++ map (step_edge entry) steps;
    process_count = written.process_count + 1;
    step_count = written.step_count + length steps;
  }
]

unfoldable pub write_loop : CallForest → ℕ → Map Text → List EntryPoint → Written → Written
unfolding write_steps is_left_out flatten_steps trace_process
write_loop forest max_depth layers [] written = written
write_loop forest max_depth layers (entry ∷ entries) written = elim (is_left_out entry) [
  | true ↦ write_loop forest max_depth layers entries written
  | false ↦
      let root = trace_process forest entry.node_id entry.name max_depth layers in
      write_loop forest max_depth layers entries (write_steps entry (flatten_steps root []) written)
]

-- The nodes and edges that are handed to the store, and the counts that are returned.
unfoldable pub write_processes : List EntryPoint → CallForest → ℕ → Map Text → Written
unfolding write_loop
write_processes entries forest max_depth layers =
    write_loop forest max_depth layers entries nothing_written

-- The properties that are set on one node.
pub record PropertyUpdate : Type 0 where
  pub node_id : Text
  pub props : Map Value

unfoldable pub property_update : EntryPoint → PropertyUpdate
property_update entry = record {
  node_id = entry.node_id;
  props =
      (text "entry_type", str entry.entry_type) ∷ (text "entry_point_score", real entry.score) ∷ [];
}

-- The updates of `Function` nodes that `WriteEntryPoints` asks the store for, if it calls it at all.
unfoldable pub write_entry_points : List EntryPoint → Option (List PropertyUpdate)
unfolding property_update
write_entry_points [] = none
write_entry_points (entry ∷ entries) = some (property_update entry ∷ map property_update entries)
