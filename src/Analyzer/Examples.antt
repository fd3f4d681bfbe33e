-- ===== src/Analyzer/Examples.antt =====
-- A small store, on which the theorems about the analysis are applied. `main` and `handle` call
-- `load`, `load` and `save` call each other, and `handle` serves a route.
use Prim.Native.Nat.{ℕ, ◌≤◌}
use mathlib.Core.Path.{◌≡◌, refl}
use mathlib.Core.Logic.{◌⊎◌, ◌↔◌}
use mathlib.Core.Bool.{true, false}
use mathlib.Core.List.{List, [], ◌∷◌, ◌++◌, map, Memᴰ, Nodup}
use native.Mathlib.Omega.{arith}
use flash_code_graph.Common.Tests.{if◌then◌else◌}
use flash_code_graph.Common.Lists.{length, keep_if, any, All}
use flash_code_graph.Common.Text.{Text, text, text_eq}
use flash_code_graph.Common.Maps.{lookup, has_key, insert, append_at, slice_at}
use flash_code_graph.Common.Sets.{Distinct, in_set}
use flash_code_graph.Model.{RelationKind, kind_function, kind_route}
use flash_code_graph.Graph.{str, real, Node, Edge, Reply, reply, GraphStore}
use flash_code_graph.Analyzer.{CallEdge, CallForest, EntryPoint, children_of}
use flash_code_graph.Analyzer.Forest.{count_at, call_edge, edge_confidence, build_call_forest}
use flash_code_graph.Analyzer.Trace.{trace_process, is_skipped, child_step}
use flash_code_graph.Analyzer.Processes.{flatten_steps, write_processes}
use flash_code_graph.Analyzer.Roots.{classify_roots}
use flash_code_graph.Analyzer.Calls.{goes_to, comes_from, touches, build_call_forest_lem}
use flash_code_graph.Analyzer.Order.{Numbered, node_ids}
use flash_code_graph.Analyzer.Reach.{CallPath}
use flash_code_graph.Analyzer.Complete.{Covers}
use flash_code_graph.Analyzer.Traced.{steps_of, trace_process-CallPath, trace_process_complete}
use flash_code_graph.Analyzer.Entries.{IsFunction, entry_list, sources, route_handles}
use flash_code_graph.Analyzer.Dead.{classify_roots_iff}
use flash_code_graph.Analyzer.Written.{Writes, write_processes_lem}
use flash_code_graph.Analyzer.Verdicts.{classify_roots-dead, write_processes-handler}

abbrev calls : Text → Text → ℕ → Edge
calls source target confidence = record {
  source_id = source;
  target_id = target;
  kind = RelationKind.calls;
  properties = (text "confidence", real confidence) ∷ [];
}

abbrev call_rows : List Edge
call_rows =
    calls (text "main") (text "load") 95
    ∷ calls (text "handle") (text "load") 85
    ∷ calls (text "handle") (text "save") 25
    ∷ calls (text "load") (text "save") 70
    ∷ calls (text "save") (text "load") 70
    ∷ []

abbrev serves : Edge
serves = record {
  source_id = text "handle";
  target_id = text "route";
  kind = RelationKind.handles;
  properties = [];
}

abbrev edge_rows : RelationKind → Reply (List Edge)
edge_rows RelationKind.calls = reply call_rows
edge_rows RelationKind.handles = reply (serves ∷ [])
edge_rows _ = reply []

abbrev function_node : Text → Node
function_node name = record {
  id = name;
  kind = kind_function;
  properties = (text "name", str name) ∷ (text "qualified_name", str (text "app." ++ name)) ∷ [];
}

abbrev route_node : Node
route_node = record {
  id = text "route";
  kind = kind_route;
  properties = (text "method", str (text "GET")) ∷ (text "path_pattern", str (text "/users")) ∷ [];
}

node_rows : Text → Reply (List Node)
node_rows kind =
    if text_eq kind kind_function
    then reply (
        function_node (text "main")
        ∷ function_node (text "handle")
        ∷ function_node (text "load")
        ∷ function_node (text "save")
        ∷ [])
    else if text_eq kind kind_route
    then reply (route_node ∷ [])
    else reply []

abbrev store : GraphStore
store = record { query_all_edges = edge_rows; query_all_by_kind = node_rows }

abbrev no_entry_types : Text → Text
no_entry_types name = []

abbrev sure : Text → ℕ → CallEdge
sure target confidence = record { target_id = target; confidence = confidence }

abbrev forest : CallForest
forest = record {
  in_degree = (text "load", 3) ∷ (text "main", 0) ∷ (text "handle", 0) ∷ (text "save", 2) ∷ [];
  out_degree = (text "main", 1) ∷ (text "load", 1) ∷ (text "handle", 2) ∷ (text "save", 1) ∷ [];
  children =
      (text "main", sure (text "load") 95 ∷ [])
      ∷ (text "handle", sure (text "load") 85 ∷ sure (text "save") 25 ∷ [])
      ∷ (text "load", sure (text "save") 70 ∷ [])
      ∷ (text "save", sure (text "load") 70 ∷ [])
      ∷ [];
  nodes =
      (text "main", function_node (text "main"))
      ∷ (text "handle", function_node (text "handle"))
      ∷ (text "load", function_node (text "load"))
      ∷ (text "save", function_node (text "save"))
      ∷ [];
}

forest_built : build_call_forest store ≡ reply forest
unfolding build_call_forest node_rows has_key lookup insert append_at slice_at edge_confidence
forest_built = refl

-- The trace of handle: handle, load, save. The call of low confidence is not followed.
handle_trace :
    node_ids (steps_of forest [] (text "handle") (text "handle") 4)
    ≡ text "handle" ∷ text "load" ∷ text "save" ∷ []
unfolding trace_process flatten_steps children_of slice_at lookup is_skipped in_set any child_step
handle_trace = refl

trace_process-CallPath_example :
    Nodup (node_ids (steps_of forest [] (text "handle") (text "handle") 4))
    × Numbered (steps_of forest [] (text "handle") (text "handle") 4)
    × All
        (λ i. (i.depth ≤ 4) × CallPath forest i.depth (text "handle") i.node_id)
        (steps_of forest [] (text "handle") (text "handle") 4)
trace_process-CallPath_example = trace_process-CallPath forest [] (text "handle") (text "handle") 4

abbrev called : List Text
called = text "load" ∷ text "save" ∷ []

called-Covers : Covers forest called
called-Covers =
    let load = Memᴰ.head refl in
    let save = Memᴰ.tail (Memᴰ.head refl) in
    ((load, tt), ((load, (save, tt)), ((save, tt), ((load, tt), tt))))

trace_process_complete_example :
    Memᴰ
      (text "save")
      (node_ids (flatten_steps (trace_process forest (text "handle") (text "handle") 4 []) []))
    ↔ ((n : ℕ) × CallPath forest n (text "handle") (text "save"))
trace_process_complete_example =
    trace_process_complete forest [] (text "handle") (text "handle") 4 called called-Covers
      (omega arith) (text "save")

build_call_forest_lem_example :
    (f : CallForest) × (build_call_forest store ≡ reply f)
    × ((id : Text)
        → (count_at id f.in_degree ≡ length (keep_if (goes_to id) call_rows))
          × (count_at id f.out_degree ≡ length (keep_if (comes_from id) call_rows))
          × (children_of f id ≡ map call_edge (keep_if (comes_from id) call_rows))
          × (has_key id f.in_degree ≡ any (touches id) call_rows))
build_call_forest_lem_example = build_call_forest_lem store call_rows refl

classify_roots_iff_example :
    Distinct (entry_list no_entry_types store forest)
    × ((id : Text)
        → Memᴰ id (entry_list no_entry_types store forest) ↔ (
            IsFunction forest id
            × (((any (comes_from id) call_rows ≡ true) × (any (goes_to id) call_rows ≡ false))
                ⊎ Memᴰ id (sources (route_handles store)))))
    × All (λ e. ¬ (e.score ≡ 30)) (classify_roots no_entry_types store forest)
classify_roots_iff_example =
    classify_roots_iff no_entry_types store call_rows forest refl forest_built

unused_dead :
    All
      (λ e.
        e.score ≡ 30
        → (count_at e.node_id forest.out_degree ≡ 0)
          × (¬ Memᴰ e.node_id (sources (route_handles store)))
          × (text_eq e.name (text "main") ≡ false)
          × (text_eq e.name (text "Main") ≡ false))
      (classify_roots no_entry_types store forest)
unused_dead = classify_roots-dead no_entry_types store forest

handle-IsFunction : IsFunction forest (text "handle")
unfolding lookup
handle-IsFunction = (function_node (text "handle"), refl, refl)

write_processes-handler_example :
    (node : Node) × Memᴰ node
      (write_processes (classify_roots no_entry_types store forest) forest 4 []).nodes
    × (node.id ≡ text "process:handle")
write_processes-handler_example =
    write_processes-handler no_entry_types store forest 4 [] (text "handle") handle-IsFunction
      (Memᴰ.head refl)

abbrev handle_entry : EntryPoint
handle_entry = record {
  node_id = text "handle";
  name = text "handle";
  qualified_name = text "app.handle";
  file_path = [];
  entry_type = text "http_endpoint";
  score = 95;
  route_method = text "GET";
  route_path = text "/users";
}

write_processes_lem_example :
    let written = write_processes (handle_entry ∷ []) forest 4 [] in
    Writes forest (handle_entry ∷ []) written.nodes written.edges
    × (written.process_count ≡ length written.nodes)
    × (written.step_count ≡ length written.edges)
write_processes_lem_example =
    write_processes_lem (handle_entry ∷ []) forest 4 [] called called-Covers (omega arith)

-- With a limit of two levels, the visit of `c` below `b` keeps `c` from being visited again below
-- `a`, where its callee `d` would be within the limit.
abbrev ladder : CallForest
ladder = record {
  in_degree = [];
  out_degree = [];
  children =
      (text "a", sure (text "b") 95 ∷ sure (text "c") 95 ∷ [])
      ∷ (text "b", sure (text "c") 95 ∷ [])
      ∷ (text "c", sure (text "d") 95 ∷ [])
      ∷ [];
  nodes = [];
}

ladder_cut :
    node_ids (steps_of ladder [] (text "a") (text "a") 2) ≡ text "a" ∷ text "b" ∷ text "c" ∷ []
unfolding trace_process flatten_steps children_of slice_at lookup is_skipped in_set any child_step
ladder_cut = refl
