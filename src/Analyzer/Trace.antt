-- ===== src/Analyzer/Trace.antt =====
-- `TraceProcess` and `traceDFS` of internal/service/analyzer.go. The number of levels that are left
-- is maxDepth less the depth of the step, so that the guard on the depth is the end of the recursion.
use Prim.Native.Nat.{ℕ, zero, suc}
use mathlib.Core.Bool.{Bool, true, false, ◌||◌}
use mathlib.Core.Option.{none, some}
use mathlib.Core.List.{List, [], ◌∷◌, ◌++◌}
use flash_code_graph.Common.Tests.{ltb}
use flash_code_graph.Common.Text.{Text, text}
use flash_code_graph.Common.Maps.{Map, lookup}
use flash_code_graph.Common.Sets.{in_set}
use flash_code_graph.Model.{confidence_low_threshold}
use flash_code_graph.Graph.{node_property, flag_of}
use flash_code_graph.Analyzer.{
  CallEdge, CallForest, StepInfo, ProcessStep, process_step, Steps, no_steps, add_step, children_of,
}

unfoldable pub layer_of : Map Text → Text → Text
layer_of layers id = elim (lookup id layers) [ none ↦ [] | some layer ↦ layer ]

unfoldable pub child_step : CallForest → Map Text → ℕ → CallEdge → StepInfo
unfolding layer_of
child_step forest layers depth edge = elim (lookup edge.target_id forest.nodes) [
  | none ↦ record {
    order = 0;
    node_id = edge.target_id;
    name = edge.target_id;
    file_path = [];
    layer = layer_of layers edge.target_id;
    confidence = edge.confidence;
    depth = suc depth;
    is_getter = false;
    is_setter = false;
  }
  | some node ↦ record {
    order = 0;
    node_id = edge.target_id;
    name = node_property node (text "name");
    file_path = node_property node (text "file_path");
    layer = layer_of layers edge.target_id;
    confidence = edge.confidence;
    depth = suc depth;
    is_getter = flag_of (lookup (text "is_getter") node.properties);
    is_setter = flag_of (lookup (text "is_setter") node.properties);
  }
]

unfoldable pub is_skipped : CallEdge → List Text → Bool
is_skipped edge visited =
    in_set edge.target_id visited || ltb edge.confidence confidence_low_threshold

-- The children of a step at `depth` with these edges, and the visited nodes afterwards.
unfoldable pub trace_edges :
    CallForest → Map Text → ℕ → ℕ → List Text → List CallEdge → Steps × List Text
trace_edges forest layers zero depth visited edges = (no_steps, visited)
trace_edges forest layers (suc left) depth visited [] = (no_steps, visited)
trace_edges forest layers (suc left) depth visited (edge ∷ edges) = elim (is_skipped edge visited) [
  | true ↦ trace_edges forest layers (suc left) depth visited edges
  | false ↦
      let inner =
        trace_edges forest layers left (suc depth) (visited ++ edge.target_id ∷ [])
          (children_of forest edge.target_id) in
      let later = trace_edges forest layers (suc left) depth inner.1 edges in
      (add_step (process_step (child_step forest layers depth edge) inner.0) later.0, later.1)
]

unfoldable pub root_step : Map Text → Text → Text → StepInfo
unfolding layer_of
root_step layers entry name = record {
  order = 1;
  node_id = entry;
  name = name;
  file_path = [];
  layer = layer_of layers entry;
  confidence = 0;
  depth = 0;
  is_getter = false;
  is_setter = false;
}

unfoldable pub trace_process : CallForest → Text → Text → ℕ → Map Text → ProcessStep
unfolding root_step trace_edges
trace_process forest entry name max_depth layers =
    process_step (root_step layers entry name)
      (trace_edges forest layers max_depth 0 (entry ∷ []) (children_of forest entry)).0
