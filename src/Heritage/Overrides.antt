-- ===== src/Heritage/Overrides.antt =====
-- `DetectOverridesAndDispatches` of internal/core/resolver/heritage.go. The order in which Go visits
-- the children in the map is not fixed; here it is that of their first entries.
use mathlib.Core.Bool.{Bool, ◌&&◌}
use mathlib.Core.Option.{Option, none, some}
use mathlib.Core.List.{List, [], ◌∷◌, ◌++◌}
use flash_code_graph.Common.Tests.{◌==◌, if◌then◌else◌}
use flash_code_graph.Common.Lists.{length, is_empty}
use flash_code_graph.Common.Traverse.{flat_map}
use flash_code_graph.Common.Text.{Text, text, text_eq, has_suffix}
use flash_code_graph.Common.Maps.{Map, lookup, insert}
use flash_code_graph.Model.{Symbol, RawHeritage, ResolvedRelation, RelationKind, kind_function}
use flash_code_graph.Heritage.{
  Symbols, LanguageHelper, Helpers, ResolverCache, get_qualified_parent_map, walk, enough_fuel,
}

-- The name of the language of a file, "" for any other.
unfoldable pub language_of : Text → Text
language_of file_path =
    if has_suffix file_path (text ".java")
    then text "java"
    else if has_suffix file_path (text ".go")
    then text "go"
    else if has_suffix file_path (text ".py")
    then text "python"
    else if has_suffix file_path (text ".ts")
    then text "typescript"
    else if has_suffix file_path (text ".tsx")
    then text "typescript"
    else []

unfoldable pub helper_for_file : Helpers → Text → Option LanguageHelper
helper_for_file helpers file_path = helpers (language_of file_path)

unfoldable pub text_at : Text → Map Text → Text
text_at k m = elim (lookup k m) [ none ↦ [] | some t ↦ t ]

-- childFileMap
unfoldable pub child_files : Map Text → List RawHeritage → Map Text
child_files files [] = files
child_files files (e ∷ heritage) =
    let rest = child_files files heritage in
    if is_empty e.child_qualified
    then rest
    else child_files (insert e.child_qualified e.file_path files) heritage

-- childShortNameMap
unfoldable pub child_short_names : Map Text → List RawHeritage → Map Text
child_short_names names [] = names
child_short_names names (e ∷ heritage) =
    let rest = child_short_names names heritage in
    if is_empty e.child_qualified
    then rest
    else child_short_names (insert e.child_qualified e.child_name names) heritage

unfoldable pub is_skipped : Option LanguageHelper → Text → Symbol → Bool
is_skipped none short_name child_method = child_method.is_constructor
is_skipped (some helper) short_name child_method = helper.is_constructor_of child_method short_name

unfoldable pub is_override : Option LanguageHelper → Symbol → Symbol → Bool
is_override none child_method parent_method =
    text_eq child_method.name parent_method.name
    && (length child_method.params == length parent_method.params)
is_override (some helper) child_method parent_method =
    helper.is_override_match child_method parent_method

unfoldable pub override_edge : Symbol → Symbol → ResolvedRelation
override_edge child_method parent_method = record {
  source_id = child_method.id;
  target_id = parent_method.id;
  kind = RelationKind.overrides;
  source_kind = kind_function;
  target_kind = [];
  confidence = 100;
  resolved_by = text "override_detection";
  candidates = 1;
}

unfoldable pub dispatch_edge : Symbol → Symbol → ResolvedRelation
dispatch_edge child_method parent_method = record {
  source_id = parent_method.id;
  target_id = child_method.id;
  kind = RelationKind.dispatches;
  source_kind = kind_function;
  target_kind = [];
  confidence = 100;
  resolved_by = text "interface_dispatch";
  candidates = 1;
}

-- The body of the loop over the methods of a parent.
unfoldable pub pair_edges : Option LanguageHelper → Symbol → Symbol → List ResolvedRelation
pair_edges helper child_method parent_method =
    if text_eq child_method.id parent_method.id
    then []
    else if is_override helper child_method parent_method
    then override_edge child_method parent_method ∷ dispatch_edge child_method parent_method ∷ []
    else []

-- The loop over the methods of the child, for one class above it.
unfoldable pub class_edges :
    Option LanguageHelper → Text → List Symbol → List Symbol → List ResolvedRelation
class_edges helper short_name child_methods parent_methods =
    flat_map
      (λ c.
        if is_skipped helper short_name c
        then []
        else flat_map (pair_edges helper c) parent_methods)
      child_methods

-- The body of the loop over the children.
unfoldable pub detect_child :
    Symbols
    → Option LanguageHelper
    → Text
    → Map (List Text)
    → Text
    → List Text
    → Option (List ResolvedRelation)
detect_child symbols helper short_name parents child_name parent_names =
    let child_methods = symbols.methods_of child_name in
    if is_empty child_methods
    then some []
    else walk (enough_fuel parents parent_names) parents
        (λ current. class_edges helper short_name child_methods (symbols.methods_of current)) []
        parent_names

unfoldable pub detect_children :
    Symbols
    → Helpers
    → List RawHeritage
    → Map (List Text)
    → Map (List Text)
    → Option (List ResolvedRelation)
detect_children symbols helpers heritage parents [] = some []
detect_children symbols helpers heritage parents ((child, parent_names) ∷ rest) =
    let helper = helper_for_file helpers (text_at child (child_files [] heritage)) in
    let short_name = text_at child (child_short_names [] heritage) in
    elim (detect_child symbols helper short_name parents child parent_names) [
      | none ↦ none
      | some here ↦ elim (detect_children symbols helpers heritage parents rest) [
        | none ↦ none
        | some later ↦ some (here ++ later)
      ]
    ]

unfoldable pub detect_overrides_and_dispatches :
    Symbols
    → Helpers
    → List RawHeritage
    → ResolverCache
    → Option (List ResolvedRelation) × ResolverCache
detect_overrides_and_dispatches symbols helpers heritage cache =
    let (parents, held) = get_qualified_parent_map symbols heritage cache in
    (detect_children symbols helpers heritage parents parents, held)
