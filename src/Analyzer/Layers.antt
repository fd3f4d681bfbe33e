-- ===== src/Analyzer/Layers.antt =====
-- `BuildLayerMap` of internal/service/analyzer.go and `propString` of internal/service/querier.go.
-- `sprint` is fmt.Sprint.
use mathlib.Core.Option.{none, some}
use mathlib.Core.List.{List, [], ◌∷◌, ◌++◌}
use flash_code_graph.Common.Tests.{if◌then◌else◌}
use flash_code_graph.Common.Lists.{is_empty}
use flash_code_graph.Common.Text.{Text, text}
use flash_code_graph.Common.Maps.{Map, lookup, insert, has_key}
use flash_code_graph.Model.{
  RelationKind, kind_function, kind_class, kind_interface, kind_annotation,
}
use flash_code_graph.Graph.{Value, null, str, Node, Edge, reply, failed, GraphStore, rows_of}
use flash_code_graph.Analyzer.Forest.{index_nodes}

-- The two maps that the loop over the HAS_ANNOTATION edges fills.
pub record Layered : Type 0 where
  pub by_node : Map Text
  pub by_file : Map Text

module _ (sprint : Value → Text) where
  unfoldable pub prop_string : Map Value → Text → Text
  prop_string properties key = elim (lookup key properties) [
    | none ↦ []
    | some null ↦ []
    | some (str s) ↦ s
    | some other ↦ sprint other
  ]

  unfoldable pub layers_by_id : Map Text → List Node → Map Text
  layers_by_id layers [] = layers
  layers_by_id layers (annotation ∷ rest) =
      let layer = prop_string annotation.properties (text "layer") in
      layers_by_id (if is_empty layer then layers else insert annotation.id layer layers) rest

  unfoldable pub file_layers : Map Node → Text → Text → Map Text → Map Text
  file_layers classes id layer by_file = elim (lookup id classes) [
    | none ↦ by_file
    | some cls ↦
        let path = prop_string cls.properties (text "file_path") in
        if is_empty path then by_file else insert path layer by_file
  ]

  unfoldable pub layer_edges : Map Text → Map Node → Layered → List Edge → Layered
  unfolding file_layers
  layer_edges layers classes layered [] = layered
  layer_edges layers classes layered (edge ∷ edges) = elim (lookup edge.target_id layers) [
    | none ↦ layer_edges layers classes layered edges
    | some layer ↦
        layer_edges layers classes
          (record {
            by_node = insert edge.source_id layer layered.by_node;
            by_file = file_layers classes edge.source_id layer layered.by_file;
          })
          edges
  ]

  -- One round of the loop over the functions.
  unfoldable pub spread_layer : Map Text → Map Text → Node → Map Text
  spread_layer by_file by_node fn =
      let path = prop_string fn.properties (text "file_path") in
      if has_key fn.id by_node
      then by_node
      else if is_empty path
      then by_node
      else elim (lookup path by_file) [ none ↦ by_node | some layer ↦ insert fn.id layer by_node ]

  unfoldable pub spread_layers : Map Text → Map Text → List Node → Map Text
  unfolding spread_layer
  spread_layers by_file by_node [] = by_node
  spread_layers by_file by_node (fn ∷ functions) =
      spread_layers by_file (spread_layer by_file by_node fn) functions

  unfoldable pub build_layer_map : GraphStore → Map Text
  unfolding layers_by_id layer_edges spread_layers
  build_layer_map store = elim (store.query_all_by_kind kind_annotation) [
    | failed e ↦ []
    | reply annotations ↦
        let layers = layers_by_id [] annotations in
        let classes = index_nodes [] (
          rows_of (store.query_all_by_kind kind_class)
          ++ rows_of (store.query_all_by_kind kind_interface)) in
        let layered =
          layer_edges layers classes (record { by_node = []; by_file = [] })
            (rows_of (store.query_all_edges RelationKind.has_annotation)) in
        if is_empty layers
        then []
        else if is_empty layered.by_file
        then layered.by_node
        else spread_layers layered.by_file layered.by_node
            (rows_of (store.query_all_by_kind kind_function))
  ]
