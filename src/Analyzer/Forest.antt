-- ===== src/Analyzer/Forest.antt =====
-- `BuildCallForest` of internal/service/analyzer.go.
use Prim.Native.Nat.{ℕ, suc}
use mathlib.Core.Option.{Option, none, some}
use mathlib.Core.List.{List, [], ◌∷◌, ◌++◌}
use flash_code_graph.Common.Tests.{if◌then◌else◌}
use flash_code_graph.Common.Text.{Text, text}
use flash_code_graph.Common.Maps.{Map, lookup, insert, has_key, append_at}
use flash_code_graph.Model.{RelationKind, kind_function}
use flash_code_graph.Graph.{Value, real, Node, Edge, Reply, reply, failed, GraphStore, rows_of}
use flash_code_graph.Analyzer.{CallEdge, CallForest}

-- m[id] of a map to int
unfoldable pub count_at : Text → Map ℕ → ℕ
count_at id m = elim (lookup id m) [ none ↦ 0 | some n ↦ n ]

-- m[id]++
unfoldable pub increment : Text → Map ℕ → Map ℕ
unfolding count_at
increment id m = insert id (suc (count_at id m)) m

unfoldable pub ensure_key : Text → Map ℕ → Map ℕ
ensure_key id m = if has_key id m then m else insert id 0 m

abbrev pub real_of : Option Value → ℕ
real_of (some (real c)) = c
real_of _ = 0

unfoldable pub edge_confidence : Edge → ℕ
edge_confidence edge = real_of (lookup (text "confidence") edge.properties)

abbrev pub call_edge : Edge → CallEdge
call_edge edge = record { target_id = edge.target_id; confidence = edge_confidence edge }

unfoldable pub add_call : CallForest → Edge → CallForest
unfolding increment ensure_key
add_call forest edge = record forest {
  in_degree = ensure_key edge.source_id (increment edge.target_id forest.in_degree);
  out_degree = ensure_key edge.target_id (increment edge.source_id forest.out_degree);
  children = append_at edge.source_id (call_edge edge) forest.children;
}

unfoldable pub add_calls : CallForest → List Edge → CallForest
unfolding add_call
add_calls forest [] = forest
add_calls forest (edge ∷ edges) = add_calls (add_call forest edge) edges

unfoldable pub index_nodes : Map Node → List Node → Map Node
index_nodes nodes [] = nodes
index_nodes nodes (node ∷ rest) = index_nodes (insert node.id node nodes) rest

abbrev pub empty_forest : CallForest
empty_forest = record { in_degree = []; out_degree = []; children = []; nodes = [] }

unfoldable pub build_call_forest : GraphStore → Reply CallForest
unfolding add_calls index_nodes
build_call_forest store = elim (store.query_all_edges RelationKind.calls) [
  | failed e ↦ failed (text "analyzer: query CALLS edges: " ++ e)
  | reply edges ↦
      let functions = rows_of (store.query_all_by_kind kind_function) in
      reply (record (add_calls empty_forest edges) { nodes = index_nodes [] functions })
]
