-- ===== src/Heritage/Edges.antt =====
-- The edges of `DetectOverridesAndDispatches`: which pairs of methods they join.
use mathlib.Core.Path.{◌≡◌, refl, subst}
use mathlib.Core.Logic.{◌⊎◌, inl, inr, ◌↔◌, ⊎_elim}
use mathlib.Core.Bool.{true, false}
use mathlib.Core.Option.{Option, some}
use mathlib.Core.List.{List, [], ◌∷◌, ◌++◌, Memᴰ}
use mathlib.Core.List.Memᴰ
use flash_code_graph.Common.Tests.{if◌then◌else◌, Bool-cases}
use flash_code_graph.Common.Lists.{is_empty, List-cases}
use flash_code_graph.Common.Traverse.{flat_map, Memᴰ-flat_map}
use flash_code_graph.Common.Text.{Text, text_eq}
use flash_code_graph.Common.Maps.{Map}
use flash_code_graph.Model.{Symbol, RawHeritage, ResolvedRelation}
use flash_code_graph.Heritage.{
  Symbols, LanguageHelper, Helpers, ResolverCache, get_qualified_parent_map,
}
use flash_code_graph.Heritage.Walk.{Ancestor}
use flash_code_graph.Heritage.Visits.{walk_lem}
use flash_code_graph.Heritage.Overrides.{
  helper_for_file, text_at, child_files, child_short_names, is_skipped, is_override, override_edge,
  dispatch_edge, pair_edges, class_edges, detect_child, detect_children,
  detect_overrides_and_dispatches,
}

-- A method of a child and one of a class above it that the first overrides.
pub record Overrides (helper : Option LanguageHelper) (short_name : Text) (child parent : Symbol)
    : Type 0 where
  pub no_constructor : is_skipped helper short_name child ≡ false
  pub other_method : text_eq child.id parent.id ≡ false
  pub fits : is_override helper child parent ≡ true

-- One of the two edges for a pair of methods.
abbrev pub IsEdge : ResolvedRelation → Symbol → Symbol → Type 0
IsEdge r child parent = (r ≡ override_edge child parent) ⊎ (r ≡ dispatch_edge child parent)

-- An edge for methods of two classes.
abbrev pub Joins :
    Option LanguageHelper → Text → List Symbol → List Symbol → ResolvedRelation → Type 0
Joins helper short_name child_methods parent_methods r =
    (c : Symbol) × (p : Symbol) × Memᴰ c child_methods
    × Memᴰ p parent_methods
    × Overrides helper short_name c p
    × IsEdge r c p

pair_edges-found :
    (helper : Option LanguageHelper) (c p : Symbol) (r : ResolvedRelation)
    → Memᴰ r (pair_edges helper c p)
    → (text_eq c.id p.id ≡ false) × (is_override helper c p ≡ true) × IsEdge r c p
unfolding pair_edges
pair_edges-found helper c p r m = elim (Bool-cases (text_eq c.id p.id)) [
  | inl same ↦ absurd (Memᴰ.not-nil (rw same at m))
  | inr other ↦ elim (Bool-cases (is_override helper c p)) [
    | inr misfit ↦ absurd (Memᴰ.not-nil (rw (other, misfit) at m))
    | inl fit ↦
        let both = rw (other, fit) at m in
        (other, fit, ⊎_elim inl (λ t. inr (Memᴰ.eq_of_singleton t)) (Memᴰ.cases_cons both))
  ]
]

pair_edges-listed :
    (helper : Option LanguageHelper) (c p : Symbol) (r : ResolvedRelation)
    → text_eq c.id p.id ≡ false
    → is_override helper c p ≡ true
    → IsEdge r c p
    → Memᴰ r (pair_edges helper c p)
unfolding pair_edges
pair_edges-listed helper c p r other fit e =
    rw (other, fit) (⊎_elim Memᴰ.head (λ t. Memᴰ.tail (Memᴰ.head t)) e)

class_edges_lem :
    (helper : Option LanguageHelper) (short_name : Text)
    (child_methods parent_methods : List Symbol) (r : ResolvedRelation)
    → Memᴰ r (class_edges helper short_name child_methods parent_methods)
      ↔ Joins helper short_name child_methods parent_methods r
unfolding class_edges
class_edges_lem helper short_name child_methods parent_methods r =
    let body = λ (c : Symbol).
      if is_skipped helper short_name c
      then []
      else flat_map (pair_edges helper c) parent_methods in
    let outer = Memᴰ-flat_map body child_methods r in
    (
      λ m.
          let (c, at, inner) = outer.0 m in
          elim (Bool-cases (is_skipped helper short_name c)) [
            | inl skipped ↦ absurd (Memᴰ.not-nil (rw skipped at inner))
            | inr kept ↦
                let (p, above, e) =
                  (Memᴰ-flat_map (pair_edges helper c) parent_methods r).0 (rw kept at inner) in
                let (other, fit, edge) = pair_edges-found helper c p r e in
                (
                  c,
                  p,
                  at,
                  above,
                  record { no_constructor = kept; other_method = other; fits = fit },
                  edge,
                )
          ],
      λ (c, p, at, above, o, edge).
          let e = pair_edges-listed helper c p r o.other_method o.fits edge in
          outer.1 (
            c,
            at,
            rw o.no_constructor
                ((Memᴰ-flat_map (pair_edges helper c) parent_methods r).1 (p, above, e)),
          ),
    )

-- An edge between a method of a child and one of a class above it, where the child has these parents.
abbrev pub Dispatched :
    Symbols
    → Helpers
    → List RawHeritage
    → Map (List Text)
    → Text × List Text
    → ResolvedRelation
    → Type 0
Dispatched symbols helpers heritage parents (child, parent_names) r =
    (s : Text) × (a : Text) × Memᴰ s parent_names
    × Ancestor parents s a
    × Joins (helper_for_file helpers (text_at child (child_files [] heritage)))
        (text_at child (child_short_names [] heritage)) (symbols.methods_of child)
        (symbols.methods_of a) r

module _ (symbols : Symbols) (helpers : Helpers) (heritage : List RawHeritage)
    (parents : Map (List Text)) where
  detect_child_lem :
      (child : Text) (parent_names : List Text)
      → (out : List ResolvedRelation) × (detect_child symbols
            (helper_for_file helpers (text_at child (child_files [] heritage)))
            (text_at child (child_short_names [] heritage))
            parents
            child
            parent_names
          ≡ some out)
        × ((r : ResolvedRelation)
            → Memᴰ r out ↔ Dispatched symbols helpers heritage parents (child, parent_names) r)
  unfolding detect_child
  detect_child_lem child parent_names =
      let helper = helper_for_file helpers (text_at child (child_files [] heritage)) in
      let short_name = text_at child (child_short_names [] heritage) in
      let edges = λ (a : Text).
        class_edges helper short_name (symbols.methods_of child) (symbols.methods_of a) in
      let joins = λ (a : Text).
        class_edges_lem helper short_name (symbols.methods_of child) (symbols.methods_of a) in
      elim (List-cases (symbols.methods_of child)) [
        | inl nothing ↦ (
          [],
          rw nothing refl,
          λ r. (
            λ m. absurd (Memᴰ.not-nil m),
            λ (s, a, at, above, (c, p, mine, there, o, edge)).
                absurd (Memᴰ.not-nil (subst (Memᴰ c) nothing mine)),
          ),
        )
        | inr (m, more, some_methods) ↦
            let (out, run, both) = walk_lem parents edges parent_names in
            let busy : is_empty (symbols.methods_of child) ≡ false = rw some_methods refl in
            (
              out,
              rw busy run,
              λ r. (
                λ m. let (s, a, at, above, e) = (both r).0 m in (s, a, at, above, (joins a r).0 e),
                λ (s, a, at, above, e). (both r).1 (s, a, at, above, (joins a r).1 e),
              ),
            )
      ]

  detect_children_lem :
      (entries : Map (List Text))
      → (out : List ResolvedRelation) × (detect_children symbols helpers heritage parents entries
          ≡ some out)
        × ((r : ResolvedRelation)
            → Memᴰ r out ↔ (
                (entry : Text × List Text) × Memᴰ entry entries
                × Dispatched symbols helpers heritage parents entry r))
  unfolding detect_children
  detect_children_lem [] =
      ([], refl, λ r. (λ m. absurd (Memᴰ.not-nil m), λ (entry, m, rest). absurd (Memᴰ.not-nil m)))
  detect_children_lem ((child, parent_names) ∷ entries) =
      let (here, run, both) = detect_child_lem child parent_names in
      let (later, rest, others) = detect_children_lem entries in
      (
        here ++ later,
        rw (run, rest, detect_children) refl,
        λ r. (
          λ m.
              ⊎_elim (λ h. ((child, parent_names), Memᴰ.head refl, (both r).0 h))
                (λ t. let (entry, at, e) = (others r).0 t in (entry, Memᴰ.tail at, e))
                (Memᴰ.append_cases here m),
          λ (entry, at, e).
              ⊎_elim
                (λ same. Memᴰ.append_left later (
                  (both r).1 (subst (λ z. Dispatched symbols helpers heritage parents z r) same e)))
                (λ t. Memᴰ.append_right here ((others r).1 (entry, t, e))) (Memᴰ.cases_cons at),
        ),
      )

-- `DetectOverridesAndDispatches` returns on any heritage, cycles included. It emits an edge exactly
-- for a method of a child class with parents and a method of a class above the child, reached through
-- any number of parents, that it overrides: the child's method is no constructor, the two have
-- different IDs and the override test accepts them. For each such pair it emits both the OVERRIDES
-- edge and the DISPATCHES edge in the other direction.
pub detect_overrides_and_dispatches_lem :
    (symbols : Symbols) (helpers : Helpers) (heritage : List RawHeritage) (cache : ResolverCache)
    → (out : List ResolvedRelation) × ((detect_overrides_and_dispatches symbols helpers heritage
          cache).0
        ≡ some out)
      × ((r : ResolvedRelation)
          → Memᴰ r out ↔ (
              (entry : Text × List Text) × Memᴰ entry
                (get_qualified_parent_map symbols heritage cache).0
              × Dispatched symbols helpers heritage
                  (get_qualified_parent_map symbols heritage cache).0
                  entry
                  r))
unfolding detect_overrides_and_dispatches
detect_overrides_and_dispatches_lem symbols helpers heritage cache =
    let parents = (get_qualified_parent_map symbols heritage cache).0 in
    detect_children_lem symbols helpers heritage parents parents
