-- ===== src/Heritage/Examples.antt =====
-- Two classes of a small program, on which the theorems about the hierarchy are applied.
use mathlib.Core.Path.{◌≡◌, refl}
use mathlib.Core.Logic.{◌↔◌}
use mathlib.Core.Bool.{true, false}
use mathlib.Core.Option.{Option, none, some}
use mathlib.Core.List.{List, [], ◌∷◌, Memᴰ}
use flash_code_graph.Common.Tests.{if◌then◌else◌}
use flash_code_graph.Common.Maps.{lookup}
use flash_code_graph.Common.Text.{Text, text, text_eq}
use flash_code_graph.Model.{Symbol, RawHeritage, ResolvedRelation, kind_function, kind_class}
use flash_code_graph.Heritage.{
  Symbols, Helpers, ResolverCache, get_qualified_parent_map, start_name, find_method_in_hierarchy,
}
use Prim.Native.Nat.{ℕ}
use mathlib.Core.Bool.{false}
use flash_code_graph.Common.Lists.{keep_if}
use flash_code_graph.Heritage.Resolve.{
  resolve_heritage, find_child, exact_child, parent_candidates, is_class_or_interface,
  heritage_edge,
}
use flash_code_graph.Heritage.Inherits.{resolve_heritage_complete}
use flash_code_graph.Heritage.Fields.{FieldIndex, lookup_field_in_hierarchy}
use flash_code_graph.Heritage.Above.{Finds, lookup_field_in_hierarchy_lem}
use flash_code_graph.Heritage.Methods.{
  Found, find_method_in_hierarchy_lem, find_method_in_hierarchy_again,
}
use flash_code_graph.Heritage.Overrides.{detect_overrides_and_dispatches}
use flash_code_graph.Heritage.Edges.{Dispatched, detect_overrides_and_dispatches_lem}

abbrev symbol_at : Text → Text → Text → Text → Symbol
symbol_at id name qualified_name kind = record {
  id = id;
  name = name;
  qualified_name = qualified_name;
  kind = kind;
  file_path = text "shapes.py";
  params = [];
  class_type = [];
  type_params = [];
  is_exported = true;
  is_constructor = false;
  is_default_export = false;
}

abbrev shape : Symbol
shape = symbol_at (text "c1") (text "Shape") (text "m.Shape") kind_class

abbrev circle : Symbol
circle = symbol_at (text "c2") (text "Circle") (text "m.Circle") kind_class

abbrev shape_area : Symbol
shape_area = symbol_at (text "f1") (text "area") (text "m.Shape.area") kind_function

abbrev circle_area : Symbol
circle_area = symbol_at (text "f2") (text "area") (text "m.Circle.area") kind_function

abbrev shapes : Symbols
shapes = record {
  by_name = λ name.
      if text_eq name (text "Shape")
      then shape ∷ []
      else if text_eq name (text "Circle")
      then circle ∷ []
      else [];
  by_qualified_name = λ name.
      if text_eq name (text "m.Shape")
      then shape ∷ []
      else if text_eq name (text "m.Circle")
      then circle ∷ []
      else [];
  methods_of = λ name.
      if text_eq name (text "m.Shape")
      then shape_area ∷ []
      else if text_eq name (text "m.Circle")
      then circle_area ∷ []
      else [];
}

abbrev no_helpers : Helpers
no_helpers language = none

-- class Circle(Shape)
abbrev circle_is_shape : RawHeritage
circle_is_shape = record {
  child_name = text "Circle";
  child_qualified = text "m.Circle";
  parent_name = text "Shape";
  parent_qualified = text "m.Shape";
  kind = text "extends";
  file_path = text "shapes.py";
  language = text "python";
}

abbrev fresh_cache : ResolverCache
fresh_cache = record { qualified_parent_map = none; hierarchy_cache = [] }

abbrev heritage : List RawHeritage
heritage = circle_is_shape ∷ []

find_method_in_hierarchy_lem_example :
    (result : Option Symbol) × ((find_method_in_hierarchy shapes
        (text "Circle")
        (text "area")
        heritage
        fresh_cache).0
      ≡ some result)
    × Found shapes
        (get_qualified_parent_map shapes heritage fresh_cache).0
        (start_name shapes (text "Circle"))
        (text "area")
        result
unfolding lookup
find_method_in_hierarchy_lem_example =
    find_method_in_hierarchy_lem shapes (text "Circle") (text "area") heritage fresh_cache refl

searched_again :
    find_method_in_hierarchy shapes
      (text "Circle")
      (text "area")
      []
      (find_method_in_hierarchy shapes (text "Circle") (text "area") heritage fresh_cache).1
    ≡ find_method_in_hierarchy shapes (text "Circle") (text "area") heritage fresh_cache
searched_again =
    find_method_in_hierarchy_again shapes (text "Circle") (text "area") heritage [] fresh_cache

detect_overrides_and_dispatches_lem_example :
    (out : List ResolvedRelation) × ((detect_overrides_and_dispatches shapes no_helpers heritage
        fresh_cache).0
      ≡ some out)
    × ((r : ResolvedRelation)
        → Memᴰ r out ↔ (
            (entry : Text × List Text) × Memᴰ entry
              (get_qualified_parent_map shapes heritage fresh_cache).0
            × Dispatched shapes no_helpers heritage
                (get_qualified_parent_map shapes heritage fresh_cache).0
                entry
                r))
detect_overrides_and_dispatches_lem_example =
    detect_overrides_and_dispatches_lem shapes no_helpers heritage fresh_cache

resolve_heritage_complete_example :
    (parent : Symbol) × (count : ℕ) × Memᴰ parent
      (keep_if is_class_or_interface (parent_candidates shapes circle_is_shape))
    × Memᴰ
        (heritage_edge circle_is_shape circle parent count)
        (resolve_heritage shapes no_helpers false heritage)
unfolding find_child exact_child parent_candidates is_class_or_interface keep_if text_eq
resolve_heritage_complete_example =
    resolve_heritage_complete shapes no_helpers false heritage circle_is_shape circle
      (Memᴰ.head refl) refl refl

-- The field `name` of Shape is a string.
abbrev fields : FieldIndex
fields = record {
  global_bindings = (text "m.Shape:name", text "str") ∷ [];
  heritage_by_child = (text "Circle", heritage) ∷ [];
}

lookup_field_in_hierarchy_lem_example :
    (r : Option Text) × (lookup_field_in_hierarchy shapes fields
        (text "m.Circle.area")
        (text "name")
      ≡ some r)
    × Finds shapes fields (text "name") (text "m.Circle.area") r
lookup_field_in_hierarchy_lem_example =
    lookup_field_in_hierarchy_lem shapes fields (text "m.Circle.area") (text "name")
