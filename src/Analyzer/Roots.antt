-- ===== src/Analyzer/Roots.antt =====
-- `ClassifyRoots` of internal/service/analyzer.go with its helpers. The order in which Go visits
-- the keys of a map is the order of the association list. `entry_type_of` is the table behind
-- `annotation.LookupEntryType`.
use Prim.Native.Nat.{ℕ, ◌+◌, ◌-◌}
use mathlib.Core.Bool.{Bool, false, ◌||◌, ◌&&◌, not}
use mathlib.Core.Option.{Option, none, some}
use mathlib.Core.List.{List, [], ◌∷◌}
use flash_code_graph.Common.Tests.{if◌then◌else◌, ◌==◌, leb}
use flash_code_graph.Common.Lists.{length, get_elem?, drop, is_empty}
use flash_code_graph.Common.Text.{Text, text, text_eq, contains, split, last_index}
use flash_code_graph.Common.Maps.{Map, lookup, insert, append_at, slice_at}
use flash_code_graph.Common.Sets.{in_set, add_to_set}
use flash_code_graph.Model.{RelationKind, kind_function, kind_class, kind_route}
use flash_code_graph.Graph.{Node, Edge, GraphStore, rows_of, str_of, node_property}
use flash_code_graph.Analyzer.{CallForest, EntryPoint}
use flash_code_graph.Analyzer.Forest.{count_at, index_nodes}

pub record RouteInfo : Type 0 where
  pub method : Text
  pub path : Text
  pub framework : Text

-- What the pass over the HANDLES edges collects.
pub record Handlers : Type 0 where
  pub handler_set : List Text
  pub handler_route : Map RouteInfo
  pub remote_client_set : List Text

-- All that the classification reads, but for the forest.
pub record Metadata : Type 0 where
  pub handlers : Handlers
  pub node_annotations : Map (List Text)
  pub impl_struct_names : List Text

-- parts[len(parts)-2] of a name split at its dots
unfoldable pub struct_name : Text → Option Text
struct_name qualified =
    let parts = split b'.' qualified in
    if leb 2 (length parts) then get_elem? parts (length parts - 2) else none

unfoldable pub is_interface_impl : Text → List Text → Bool
unfolding struct_name
is_interface_impl qualified names = elim (struct_name qualified) [
  | none ↦ false
  | some name ↦ in_set name names
]

unfoldable pub rest_controller_classes : List Text → List Node → List Text
rest_controller_classes names [] = names
rest_controller_classes names (cls ∷ classes) =
    let annotations = str_of (lookup (text "annotations") cls.properties) in
    rest_controller_classes
      (if contains annotations (text "RestController") || contains annotations (text "Controller")
        then add_to_set (node_property cls (text "name")) names
        else names)
      classes

unfoldable pub is_rest_controller : CallForest → List Text → Text → Bool
unfolding is_interface_impl
is_rest_controller forest controllers id = elim (lookup id forest.nodes) [
  | none ↦ false
  | some node ↦
      if is_empty node.id
      then false
      else is_interface_impl (node_property node (text "qualified_name")) controllers
]

unfoldable pub route_info : Node → RouteInfo
route_info route = record {
  method = str_of (lookup (text "method") route.properties);
  path = str_of (lookup (text "path_pattern") route.properties);
  framework = str_of (lookup (text "framework") route.properties);
}

abbrev pub is_remote : RouteInfo → Bool
is_remote info = text_eq info.framework (text "feign") || text_eq info.framework (text "grpc")

-- The body of the loop over the HANDLES edges.
unfoldable pub add_handler : CallForest → List Text → Map Node → Handlers → Edge → Handlers
unfolding is_rest_controller route_info
add_handler forest controllers routes handlers edge =
    let handled = record handlers {
      handler_set = add_to_set edge.source_id handlers.handler_set;
    } in
    elim (lookup edge.target_id routes) [
      | none ↦ handled
      | some route ↦ record handled {
        handler_route = insert edge.source_id (route_info route) handlers.handler_route;
        remote_client_set =
            if is_remote (route_info route)
              && not (is_rest_controller forest controllers edge.source_id)
            then add_to_set edge.source_id handlers.remote_client_set
            else handlers.remote_client_set;
      }
    ]

unfoldable pub add_handlers : CallForest → List Text → Map Node → Handlers → List Edge → Handlers
unfolding add_handler
add_handlers forest controllers routes handlers [] = handlers
add_handlers forest controllers routes handlers (edge ∷ edges) =
    add_handlers forest controllers routes (add_handler forest controllers routes handlers edge)
      edges

abbrev pub no_handlers : Handlers
no_handlers = record { handler_set = []; handler_route = []; remote_client_set = [] }

unfoldable pub annotations_of : Map (List Text) → List Edge → Map (List Text)
annotations_of annotated [] = annotated
annotations_of annotated (edge ∷ edges) =
    annotations_of (append_at edge.source_id edge.target_id annotated) edges

unfoldable pub struct_names : Map Node → List Text → List Edge → List Text
struct_names classes names [] = names
struct_names classes names (edge ∷ edges) = elim (lookup edge.source_id classes) [
  | none ↦ struct_names classes names edges
  | some cls ↦ struct_names classes (add_to_set (node_property cls (text "name")) names) edges
]

unfoldable pub load_metadata : GraphStore → CallForest → Metadata
unfolding rest_controller_classes add_handlers annotations_of struct_names
load_metadata store forest =
    let classes = rows_of (store.query_all_by_kind kind_class) in
    let routes = index_nodes [] (rows_of (store.query_all_by_kind kind_route)) in
    record {
      handlers =
          add_handlers forest (rest_controller_classes [] classes) routes no_handlers
            (rows_of (store.query_all_edges RelationKind.handles));
      node_annotations =
          annotations_of [] (rows_of (store.query_all_edges RelationKind.has_annotation));
      impl_struct_names =
          struct_names (index_nodes [] classes) []
            (rows_of (store.query_all_edges RelationKind.implements));
    }

-- The keys with in-degree 0.
unfoldable pub uncalled : List Text → Map ℕ → List Text
uncalled roots [] = roots
uncalled roots ((id, degree) ∷ rest) =
    uncalled (if degree == 0 then add_to_set id roots else roots) rest

unfoldable pub add_all : List Text → List Text → List Text
add_all roots [] = roots
add_all roots (id ∷ ids) = add_all (add_to_set id roots) ids

unfoldable pub annotation_name : Text → Text
annotation_name id = elim (last_index id (text "::")) [ none ↦ id | some i ↦ drop (i + 2) id ]

unfoldable pub has_annotation_entry_type : (Text → Text) → List Text → Text
unfolding annotation_name
has_annotation_entry_type entry_type_of [] = []
has_annotation_entry_type entry_type_of (id ∷ ids) =
    let later = has_annotation_entry_type entry_type_of ids in
    let found = entry_type_of (annotation_name id) in if is_empty found then later else found

unfoldable pub is_main : Node → Bool
is_main node =
    text_eq (node_property node (text "name")) (text "main")
    || text_eq (node_property node (text "name")) (text "Main")

-- The type of an entry and its score in hundredths.
abbrev pub Verdict : Type 0
Verdict = Text × ℕ

abbrev pub route_type : Option RouteInfo → Text
route_type none = text "http_endpoint"
route_type (some info) =
    if text_eq info.method (text "CLI")
    then text "cli_command"
    else if text_eq info.method (text "TOOL")
    then text "mcp_tool"
    else text "http_endpoint"

-- The switch over the priorities.
unfoldable pub verdict : (Text → Text) → CallForest → Metadata → Text → Node → Verdict
unfolding has_annotation_entry_type is_interface_impl is_main
verdict entry_type_of forest metadata id node =
    let handlers = metadata.handlers in
    let annotated =
      has_annotation_entry_type entry_type_of (slice_at id metadata.node_annotations) in
    if in_set id handlers.remote_client_set
    then (text "remote_client", 90)
    else if in_set id handlers.handler_set
    then (route_type (lookup id handlers.handler_route), 95)
    else if not (is_empty annotated)
    then (annotated, 85)
    else if is_main node
    then (text "cli_command", 80)
    else if is_interface_impl (node_property node (text "qualified_name"))
        metadata.impl_struct_names
    then (text "interface_impl", 70)
    else if count_at id forest.out_degree == 0
    then (text "suspected_dead", 30)
    else (text "unknown_entry", 50)

-- The route of an entry: only a remote client or a handler is given one.
unfoldable pub route_of : Metadata → Text → Option RouteInfo
route_of metadata id =
    if in_set id metadata.handlers.remote_client_set || in_set id metadata.handlers.handler_set
    then lookup id metadata.handlers.handler_route
    else none

unfoldable pub entry_point : (Text → Text) → CallForest → Metadata → Text → Node → EntryPoint
unfolding verdict route_of
entry_point entry_type_of forest metadata id node =
    let judged = verdict entry_type_of forest metadata id node in
    record {
      node_id = id;
      name = node_property node (text "name");
      qualified_name = node_property node (text "qualified_name");
      file_path = node_property node (text "file_path");
      entry_type = judged.0;
      score = judged.1;
      route_method = elim (route_of metadata id) [ none ↦ [] | some info ↦ info.method ];
      route_path = elim (route_of metadata id) [ none ↦ [] | some info ↦ info.path ];
    }

unfoldable pub entries_of : (Text → Text) → CallForest → Metadata → List Text → List EntryPoint
unfolding entry_point
entries_of entry_type_of forest metadata [] = []
entries_of entry_type_of forest metadata (id ∷ ids) =
    let later = entries_of entry_type_of forest metadata ids in
    elim (lookup id forest.nodes) [
      | none ↦ later
      | some node ↦
          if text_eq node.kind kind_function
          then entry_point entry_type_of forest metadata id node ∷ later
          else later
    ]

unfoldable pub classify_roots : (Text → Text) → GraphStore → CallForest → List EntryPoint
unfolding load_metadata uncalled add_all entries_of
classify_roots entry_type_of store forest =
    let metadata = load_metadata store forest in
    entries_of entry_type_of forest metadata
      (add_all (uncalled [] forest.in_degree) metadata.handlers.handler_set)
