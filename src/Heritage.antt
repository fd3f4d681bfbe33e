-- ===== src/Heritage.antt =====
-- internal/core/resolver/heritage.go: classes and their parents by qualified name, the methods that
-- override others, and the breadth-first search for a method in the classes above one. The lookups of
-- the symbol table are the record `Symbols`; a language helper is the record `LanguageHelper`, for the
-- interface of the same name in lang.go. A search takes fuel, and `none` means that it ran out.
pub mod Walk
pub mod Search
pub mod Visits
pub mod Overrides
pub mod Edges
pub mod Resolve
pub mod Inherits
pub mod Fields
pub mod NewParents
pub mod Bindings
pub mod Enclosing
pub mod Scans
pub mod Above
pub mod Methods
mod Examples
use Prim.Native.Nat.{ℕ, zero, suc, ◌+◌}
use mathlib.Core.Bool.{Bool, true, false, ◌||◌, ◌&&◌}
use mathlib.Core.Option.{Option, none, some}
use mathlib.Core.List.{List, [], ◌∷◌, ◌++◌}
use flash_code_graph.Common.Tests.{◌==◌, ltb, if◌then◌else◌}
use flash_code_graph.Common.Lists.{length, keep_if, find_first, any, is_empty}
use flash_code_graph.Common.Text.{Text, text, text_eq, has_suffix, cut_last}
use flash_code_graph.Common.Maps.{Map, lookup, insert, slice_at, append_at}
use flash_code_graph.Model.{
  Symbol, RawHeritage, ResolvedRelation, RelationKind, kind_function, kind_class, kind_interface,
  confidence_arg_count, confidence_name_unique,
}

pub record Symbols : Type 0 where
  pub by_name : Text → List Symbol
  pub by_qualified_name : Text → List Symbol
  pub methods_of : Text → List Symbol

pub record LanguageHelper : Type 0 where
  pub is_constructor_of : Symbol → Text → Bool
  pub is_override_match : Symbol → Symbol → Bool
  pub is_import_accessible : Symbol → Text → Bool

-- The registered helpers: resolver.langHelpers
abbrev pub Helpers : Type 0
Helpers = Text → Option LanguageHelper

-- The test on a candidate that four loops share.
unfoldable pub is_type_symbol : Symbol → Bool
is_type_symbol c =
    text_eq c.kind kind_class
    || text_eq c.kind (text "abstract_class")
    || text_eq c.kind kind_interface
    || text_eq c.class_type (text "struct")

-- The qualified name of the first candidate that is a type, or "".
unfoldable pub first_type_name : List Symbol → Text
first_type_name candidates = elim (find_first is_type_symbol candidates) [
  | none ↦ []
  | some c ↦ c.qualified_name
]

-- The two maps of the loop in `buildQualifiedParentMap`.
pub record ParentBuild : Type 0 where
  pub fallback_cache : Map Text
  pub parents : Map (List Text)

-- The lookup by `ParentQualified`.
unfoldable pub exact_parent : Symbols → RawHeritage → Text
exact_parent symbols entry =
    if is_empty entry.parent_qualified
    then []
    else elim (symbols.by_qualified_name entry.parent_qualified) [
      | [] ↦ []
      | c ∷ rest ↦ c.qualified_name
    ]

-- The lookup by the short name, with its cache.
unfoldable pub fallback_parent : Symbols → RawHeritage → Map Text → Text × Map Text
fallback_parent symbols entry cache = elim (lookup entry.parent_name cache) [
  | some cached ↦ (cached, cache)
  | none ↦
      let found = first_type_name (symbols.by_name entry.parent_name) in
      (found, insert entry.parent_name found cache)
]

unfoldable pub append_parent : Text → Text → Map (List Text) → Map (List Text)
append_parent child parent parents =
    if is_empty parent then parents else append_at child parent parents

unfoldable pub add_entry : Symbols → ParentBuild → RawHeritage → ParentBuild
add_entry symbols build entry =
    let exact = exact_parent symbols entry in
    let (fallback, cache) = fallback_parent symbols entry build.fallback_cache in
    if is_empty entry.child_qualified
    then build
    else if is_empty exact
    then record {
      fallback_cache = cache;
      parents = append_parent entry.child_qualified fallback build.parents;
    }
    else record build { parents = append_parent entry.child_qualified exact build.parents }

unfoldable pub add_entries : Symbols → ParentBuild → List RawHeritage → ParentBuild
add_entries symbols build [] = build
add_entries symbols build (entry ∷ heritage) =
    add_entries symbols (add_entry symbols build entry) heritage

unfoldable pub build_qualified_parent_map : Symbols → List RawHeritage → Map (List Text)
build_qualified_parent_map symbols heritage =
    (add_entries symbols (record { fallback_cache = []; parents = [] }) heritage).parents

unfoldable pub is_visited : Text → List Text → Bool
is_visited name visited = any (text_eq name) visited

-- The loop `for len(queue) > 0` of `DetectOverridesAndDispatches`, with what each visit emits.
unfoldable pub walk {ℓ} :
    {A : Type ℓ} → ℕ → Map (List Text) → (Text → List A) → List Text → List Text → Option (List A)
walk zero parents emit visited queue = none
walk (suc fuel) parents emit visited [] = some []
walk (suc fuel) parents emit visited (current ∷ queue) =
    let skipped = walk fuel parents emit visited queue in
    let rest = walk fuel parents emit (current ∷ visited) (queue ++ slice_at current parents) in
    if is_visited current visited
    then skipped
    else elim rest [ none ↦ none | some more ↦ some (emit current ++ more) ]

-- The same loop in `FindMethodInHierarchy`, which returns at the first class that has the method.
unfoldable pub search {ℓ} :
    {A : Type ℓ}
    → ℕ
    → Map (List Text)
    → (Text → Option A)
    → List Text
    → List Text
    → Option (Option A)
search zero parents found visited queue = none
search (suc fuel) parents found visited [] = some none
search (suc fuel) parents found visited (current ∷ queue) =
    let skipped = search fuel parents found visited queue in
    let rest = search fuel parents found (current ∷ visited) (queue ++ slice_at current parents) in
    if is_visited current visited
    then skipped
    else elim (found current) [ none ↦ rest | some a ↦ some (some a) ]

-- Enough fuel for a search that starts with a queue: each class puts its parents on the queue once.
unfoldable pub edges_left : List Text → Map (List Text) → ℕ
edges_left visited [] = 0
edges_left visited ((child, parents) ∷ rest) =
    (if is_visited child visited then 0 else length parents) + edges_left visited rest

unfoldable pub enough_fuel : Map (List Text) → List Text → ℕ
enough_fuel parents queue = suc (length queue + edges_left [] parents)

-- The two caches of the resolver: the parent map of the first heritage, and the methods found.
pub record ResolverCache : Type 0 where
  pub qualified_parent_map : Option (Map (List Text))
  pub hierarchy_cache : Map (Option Symbol)

unfoldable pub get_qualified_parent_map :
    Symbols → List RawHeritage → ResolverCache → Map (List Text) × ResolverCache
get_qualified_parent_map symbols heritage cache = elim cache.qualified_parent_map [
  | some parents ↦ (parents, cache)
  | none ↦
      let parents = build_qualified_parent_map symbols heritage in
      (parents, record cache { qualified_parent_map = some parents })
]

unfoldable pub cache_key : Text → Text → Text
cache_key class_name method_name = class_name ++ b':' ∷ method_name

unfoldable pub start_name : Symbols → Text → Text
start_name symbols class_name =
    let found = first_type_name (symbols.by_name class_name) in
    if is_empty found then class_name else found

unfoldable pub method_named : Symbols → Text → Text → Option Symbol
method_named symbols method_name current =
    find_first (λ m. text_eq m.name method_name) (symbols.methods_of current)

-- The outer `none` means that the fuel ran out, the inner one is nil.
unfoldable pub find_method_in_hierarchy :
    Symbols
    → Text
    → Text
    → List RawHeritage
    → ResolverCache
    → Option (Option Symbol) × ResolverCache
find_method_in_hierarchy symbols class_name method_name heritage cache =
    let key = cache_key class_name method_name in
    let (parents, held) = get_qualified_parent_map symbols heritage cache in
    let queue = start_name symbols class_name ∷ [] in
    elim (lookup key cache.hierarchy_cache) [
      | some cached ↦ (some cached, cache)
      | none ↦
          elim (search (enough_fuel parents queue) parents (method_named symbols method_name) []
            queue) [
              | none ↦ (none, held)
              | some result ↦ (
                some result,
                record held { hierarchy_cache = insert key result held.hierarchy_cache },
              )
            ]
    ]
