-- ===== src/Heritage/Methods.antt =====
-- The search for a method in the classes above one, with its cache.
use mathlib.Core.Path.{◌≡◌, refl, ap, sym, ◌∙◌, subst}
use mathlib.Core.Logic.{inl, inr}
use mathlib.Core.Bool.{true, false}
use mathlib.Core.Option.{Option, none, some}
use mathlib.Core.List.{List, [], ◌∷◌, Memᴰ}
use mathlib.Core.List.Memᴰ
use native.Mathlib.Omega.{arith}
use flash_code_graph.Common.Tests.{Option-cases}
use flash_code_graph.Common.Lists.{All}
use flash_code_graph.Common.Keep.{find_first-some, find_first-none}
use flash_code_graph.Common.Text.{Text, text_eq, text_eq_refl}
use flash_code_graph.Common.Maps.{Map, lookup, insert, lookup-insert}
use flash_code_graph.Model.{Symbol, RawHeritage}
use flash_code_graph.Heritage.{
  Symbols, ResolverCache, search, enough_fuel, get_qualified_parent_map, cache_key, start_name,
  method_named, find_method_in_hierarchy,
}
use flash_code_graph.Heritage.Walk.{Ancestor, search_fuel}
use flash_code_graph.Heritage.Search.{search_miss, search_hit}

-- A result for a class: a method of that name of a class above it, or nil if there is none.
pub data Found (symbols : Symbols) (parents : Map (List Text)) (start name : Text)
    : Option Symbol → Type 0 where
  a_method :
      {a : Text} {m : Symbol}
      → Ancestor parents start a
      → Memᴰ m (symbols.methods_of a)
      → text_eq m.name name ≡ true
      → Found symbols parents start name (some m)
  no_method :
      ((a : Text)
        → Ancestor parents start a
        → All (λ m. text_eq m.name name ≡ false) (symbols.methods_of a))
      → Found symbols parents start name none

search-Found :
    (symbols : Symbols) (parents : Map (List Text)) (start name : Text) (result : Option Symbol)
    → search (enough_fuel parents (start ∷ [])) parents (method_named symbols name) [] (start ∷ [])
      ≡ some result
    → Found symbols parents start name result
unfolding method_named
search-Found symbols parents start name none run = no_method λ a r.
    find_first-none (λ m. text_eq m.name name) (symbols.methods_of a)
      (search_miss parents (method_named symbols name) (enough_fuel parents (start ∷ [])) []
        (start ∷ []) start a run (λ v p n. absurd (Memᴰ.not-nil n)) (λ v n. absurd (Memᴰ.not-nil n))
        (inr (Memᴰ.head refl)) r)
search-Found symbols parents start name (some m) run =
    let (s, a, at, r, e) =
      search_hit parents (method_named symbols name) (enough_fuel parents (start ∷ [])) []
        (start ∷ []) m run in
    let (listed, named) = find_first-some (λ m. text_eq m.name name) (symbols.methods_of a) m e in
    a_method (subst (λ z. Ancestor parents z a) (Memᴰ.eq_of_singleton at) r) listed named

-- The result of a search that the cache does not have, and the cache with it.
abbrev remember : Text → Option Symbol → ResolverCache → Option (Option Symbol) × ResolverCache
remember key result held =
    (some result, record held { hierarchy_cache = insert key result held.hierarchy_cache })

find_miss :
    (symbols : Symbols) (class_name method_name : Text) (heritage : List RawHeritage)
    (cache : ResolverCache) (result : Option Symbol)
    → lookup (cache_key class_name method_name) cache.hierarchy_cache ≡ none
    → search
        (enough_fuel
          (get_qualified_parent_map symbols heritage cache).0
          (start_name symbols class_name ∷ []))
        (get_qualified_parent_map symbols heritage cache).0
        (method_named symbols method_name)
        []
        (start_name symbols class_name ∷ [])
      ≡ some result
    → find_method_in_hierarchy symbols class_name method_name heritage cache
      ≡ remember
          (cache_key class_name method_name)
          result
          (get_qualified_parent_map symbols heritage cache).1
unfolding find_method_in_hierarchy get_qualified_parent_map insert
find_miss symbols class_name method_name heritage cache result h run =
    rw (h, run, find_method_in_hierarchy) refl

find_hit :
    (symbols : Symbols) (class_name method_name : Text) (heritage : List RawHeritage)
    (cache : ResolverCache) (cached : Option Symbol)
    → lookup (cache_key class_name method_name) cache.hierarchy_cache ≡ some cached
    → find_method_in_hierarchy symbols class_name method_name heritage cache ≡ (some cached, cache)
unfolding find_method_in_hierarchy
find_hit symbols class_name method_name heritage cache cached h =
    rw (h, find_method_in_hierarchy) refl

search_run :
    (symbols : Symbols) (name start : Text) (parents : Map (List Text))
    → (result : Option Symbol) × (search
          (enough_fuel parents (start ∷ []))
          parents
          (method_named symbols name)
          []
          (start ∷ [])
        ≡ some result)
unfolding enough_fuel
search_run symbols name start parents =
    search_fuel parents (method_named symbols name) (enough_fuel parents (start ∷ [])) []
      (start ∷ []) (omega arith)

-- When the cache has no entry for the class and the method, `FindMethodInHierarchy` returns, on any
-- heritage, cycles included: either a method with that name of the start class or of a class above
-- it, or nil, and nil only if no such class has one.
pub find_method_in_hierarchy_lem :
    (symbols : Symbols) (class_name method_name : Text) (heritage : List RawHeritage)
    (cache : ResolverCache)
    → lookup (cache_key class_name method_name) cache.hierarchy_cache ≡ none
    → (result : Option Symbol) × ((find_method_in_hierarchy symbols class_name method_name heritage
          cache).0
        ≡ some result)
      × Found symbols
          (get_qualified_parent_map symbols heritage cache).0
          (start_name symbols class_name)
          method_name
          result
find_method_in_hierarchy_lem symbols class_name method_name heritage cache h =
    let parents = (get_qualified_parent_map symbols heritage cache).0 in
    let start = start_name symbols class_name in
    let (result, run) = search_run symbols method_name start parents in
    (
      result,
      ap (λ (z : Option (Option Symbol) × ResolverCache). z.0)
          (find_miss symbols class_name method_name heritage cache result h run),
      search-Found symbols parents start method_name result run,
    )

-- Asked again with the cache that a call left behind, whatever the heritage is then,
-- `FindMethodInHierarchy` gives the same result and leaves the cache as it is.
pub find_method_in_hierarchy_again :
    (symbols : Symbols) (class_name method_name : Text) (heritage later : List RawHeritage)
    (cache : ResolverCache)
    → find_method_in_hierarchy symbols class_name method_name later
        (find_method_in_hierarchy symbols class_name method_name heritage cache).1
      ≡ find_method_in_hierarchy symbols class_name method_name heritage cache
find_method_in_hierarchy_again symbols class_name method_name heritage later cache =
    let key = cache_key class_name method_name in
    let again = find_method_in_hierarchy symbols class_name method_name later in
    elim (Option-cases (lookup key cache.hierarchy_cache)) [
      | inr (cached, hit) ↦
          subst (λ z. again z.1 ≡ z)
            (sym (find_hit symbols class_name method_name heritage cache cached hit))
            (find_hit symbols class_name method_name later cache cached hit)
      | inl miss ↦
          let (parents, held) = get_qualified_parent_map symbols heritage cache in
          let (result, run) =
            search_run symbols method_name (start_name symbols class_name) parents in
          let kept = remember key result held in
          let there : lookup key kept.1.hierarchy_cache ≡ some result =
            lookup-insert key key result held.hierarchy_cache ∙ rw (text_eq_refl key) refl in
          subst (λ z. again z.1 ≡ z)
            (sym (find_miss symbols class_name method_name heritage cache result miss run))
            (find_hit symbols class_name method_name later kept.1 result there)
    ]
