-- ===== src/CrossIndex.antt =====
-- internal/storage/crossindex/model.go and json_store.go: the index of exported symbols and routes
-- over several projects. A loop over the projects goes in the order of the list; Go takes any order.
-- The mutex makes each operation one step.
pub mod Disk
pub mod Matches
pub mod Saved
pub mod Projects
mod Examples
use Prim.Native.Nat.{ℕ}
use mathlib.Core.Bool.{Bool, ◌&&◌, ◌||◌, not}
use mathlib.Core.Option.{Option, none, some}
use mathlib.Core.List.{List, [], ◌∷◌, ◌++◌, map}
use flash_code_graph.Common.Tests.{if◌then◌else◌}
use flash_code_graph.Common.Lists.{keep_if, find_first, is_empty}
use flash_code_graph.Common.Traverse.{flat_map}
use flash_code_graph.Common.Text.{
  Text, text, text_eq, has_prefix, has_suffix, to_lower, to_upper, trim_space,
}
use flash_code_graph.Common.Maps.{Map, insert, remove}
use flash_code_graph.Common.Sets.{in_set, add_to_set}

abbrev pub role_provider : Text
role_provider = text "provider"

abbrev pub role_consumer : Text
role_consumer = text "consumer"

abbrev pub consumer_frameworks : List Text
consumer_frameworks = text "feign" ∷ []

unfoldable determine_route_role : Text → Text
unfolding in_set
determine_route_role framework =
    if in_set framework consumer_frameworks then role_consumer else role_provider

pub record GlobalMethod : Type 0 where
  pub name : Text
  pub node_id : Text
  pub params : List Text
  pub return_type : Text
  pub annotations : List Text
  pub route_method : Text
  pub route_path : Text
  pub is_getter : Bool
  pub is_setter : Bool

pub record GlobalSymbol : Type 0 where
  pub qualified_name : Text
  pub name : Text
  pub kind : Text
  pub class_type : Text
  pub node_id : Text
  pub annotations : List Text
  pub methods : List GlobalMethod
  pub file_path : Text

pub record GlobalRoute : Type 0 where
  pub method : Text
  pub path : Text
  pub handler_name : Text
  pub handler_id : Text
  pub framework : Text
  pub role : Text

pub record ProjectEntry : Type 0 where
  pub project_path : Text
  pub branch : Text
  pub symbols : List GlobalSymbol
  pub routes : List GlobalRoute
  pub updated_at : ℕ

pub record Dependency : Type 0 where
  pub path : Text
  pub branch : Text

pub record SymbolMatch : Type 0 where
  pub symbol : GlobalSymbol
  pub project_path : Text
  pub branch : Text

pub record RouteMatch : Type 0 where
  pub route : GlobalRoute
  pub project_path : Text
  pub branch : Text

unfoldable pub project_key : Text → Text → Text
project_key project_path branch = project_path ++ text "::" ++ branch

unfoldable pub normalize_route_path : Text → Text
normalize_route_path path =
    let trimmed = trim_space path in
    to_lower (
      if not (is_empty trimmed) && not (has_prefix trimmed (text "/"))
      then text "/" ++ trimmed
      else trimmed)

pub record JsonIndex : Type 0 where
  pub version : ℕ
  pub projects : Map ProjectEntry

-- The field `data` of the source is `index` here.
pub record JsonStore : Type 0 where
  pub file_path : Text
  pub index : JsonIndex

unfoldable pub new_json_store : Text → JsonStore
new_json_store file_path = record {
  file_path = file_path;
  index = record { version = 1; projects = [] };
}

-- The changes to the map, without the saving that follows them.
unfoldable pub with_project : ProjectEntry → JsonStore → JsonStore
unfolding project_key insert
with_project entry store = record store {
  index = record (store.index) {
    projects =
        insert (project_key (entry.project_path) (entry.branch)) entry (store.index.projects);
  };
}

unfoldable pub without_project : Text → Text → JsonStore → JsonStore
unfolding project_key remove
without_project project_path branch store = record store {
  index = record (store.index) {
    projects = remove (project_key project_path branch) (store.index.projects);
  };
}

-- The loop over the dependencies.
unfoldable pub add_dependencies : List Text → List Dependency → List Text
unfolding project_key add_to_set
add_dependencies set [] = set
add_dependencies set (d ∷ ds) =
    add_dependencies (add_to_set (project_key (d.path) (d.branch)) set) ds

unfoldable pub build_dependency_set : List Dependency → List Text
unfolding add_dependencies
build_dependency_set dependencies = add_dependencies [] dependencies

-- What the loops take of a project whose key the set of dependencies has.
unfoldable pub in_dependencies {ℓ} :
    {A : Type ℓ} → List Dependency → (ProjectEntry → List A) → JsonStore → List A
unfolding flat_map in_set build_dependency_set
in_dependencies dependencies take_of store =
    let dep_set = build_dependency_set dependencies in
    flat_map (λ (key, entry). if in_set key dep_set then take_of entry else [])
      (store.index.projects)

unfoldable pub is_symbol_match : Text → GlobalSymbol → Bool
unfolding text_eq has_suffix
is_symbol_match qualified_name symbol =
    text_eq (symbol.qualified_name) qualified_name
    || text_eq (symbol.name) qualified_name
    || has_suffix (symbol.qualified_name) (text "." ++ qualified_name)

abbrev pub symbol_match : ProjectEntry → GlobalSymbol → SymbolMatch
symbol_match entry symbol = record {
  symbol = symbol;
  project_path = entry.project_path;
  branch = entry.branch;
}

unfoldable pub lookup_symbol : Text → List Dependency → JsonStore → List SymbolMatch
unfolding in_dependencies is_symbol_match keep_if
lookup_symbol qualified_name dependencies store =
    in_dependencies dependencies
      (λ entry. map (symbol_match entry) (keep_if (is_symbol_match qualified_name) (entry.symbols)))
      store

abbrev pub route_match : ProjectEntry → GlobalRoute → RouteMatch
route_match entry route = record {
  route = route;
  project_path = entry.project_path;
  branch = entry.branch;
}

unfoldable pub is_route_match : Text → Text → GlobalRoute → Bool
unfolding text_eq to_upper normalize_route_path
is_route_match method path route =
    text_eq (route.role) role_provider
    && text_eq (to_upper (route.method)) (to_upper method)
    && text_eq (normalize_route_path (route.path)) (normalize_route_path path)

unfoldable pub match_route : Text → Text → List Dependency → JsonStore → List RouteMatch
unfolding in_dependencies is_route_match keep_if
match_route method path dependencies store =
    in_dependencies dependencies
      (λ entry. map (route_match entry) (keep_if (is_route_match method path) (entry.routes))) store

unfoldable pub is_service_match : Text → Text → GlobalRoute → Bool
unfolding text_eq to_lower
is_service_match service_name framework route =
    text_eq (route.role) role_provider
    && text_eq (route.framework) framework
    && text_eq (to_lower (route.path)) (to_lower service_name)

unfoldable pub match_route_by_service : Text → Text → List Dependency → JsonStore → List RouteMatch
unfolding in_dependencies is_service_match find_first
match_route_by_service service_name framework dependencies store =
    in_dependencies dependencies
      (λ entry. elim (find_first (is_service_match service_name framework) (entry.routes)) [
        | none ↦ []
        | some route ↦ route_match entry route ∷ []
      ])
      store

unfoldable list_projects : JsonStore → List ProjectEntry
list_projects store = map (λ (key, entry). entry) (store.index.projects)

unfoldable pub get_dependency_symbols : List Dependency → JsonStore → List GlobalSymbol
unfolding in_dependencies
get_dependency_symbols dependencies store =
    in_dependencies dependencies (λ entry. entry.symbols) store
