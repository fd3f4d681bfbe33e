-- ===== src/CrossIndex/Matches.antt =====
-- What the lookups of internal/storage/crossindex/json_store.go find.
use mathlib.Core.Path.{◌≡◌, refl, sym, ◌∙◌, ap, subst}
use mathlib.Core.Logic.{◌⊎◌, inl, inr, ◌↔◌, ⊎_elim}
use mathlib.Core.Bool.{true}
use mathlib.Core.Option.{some}
use mathlib.Core.List.{List, [], ◌∷◌, ◌++◌, map, Memᴰ}
use mathlib.Core.List.Memᴰ
use native.Mathlib.Omega.{arith}
use flash_code_graph.Common.Tests.{Bool-cases, if◌then◌else◌}
use flash_code_graph.Common.Lists.{keep_if}
use flash_code_graph.Common.Keep.{Memᴰ-keep_if}
use flash_code_graph.Common.Traverse.{Memᴰ-flat_map}
use flash_code_graph.Common.Text.{Text, text, text_eq, text_eq_iff, has_suffix_iff}
use flash_code_graph.Common.Maps.{lookup}
use flash_code_graph.Common.Sets.{Distinct, in_set, in_set_iff, add_to_set, Memᴰ-add_to_set}
use flash_code_graph.Common.Keys.{keys, Memᴰ-lookup}
use flash_code_graph.CrossIndex.{
  GlobalSymbol, ProjectEntry, Dependency, SymbolMatch, JsonStore, project_key, add_dependencies,
  build_dependency_set, in_dependencies, is_symbol_match, lookup_symbol, symbol_match,
}

abbrev dependency_key : Dependency → Text
dependency_key d = project_key (d.path) (d.branch)

Memᴰ-add_dependencies :
    (key : Text) (set : List Text) (ds : List Dependency)
    → Memᴰ key (add_dependencies set ds)
      ↔ (Memᴰ key set ⊎ ((d : Dependency) × Memᴰ d ds × (dependency_key d ≡ key)))
unfolding add_dependencies
Memᴰ-add_dependencies key set [] =
    (λ m. inl m, ⊎_elim (λ m. m) (λ (d, m, e). absurd (Memᴰ.not-nil m)))
Memᴰ-add_dependencies key set (d ∷ ds) =
    let rest = Memᴰ-add_dependencies key (add_to_set (dependency_key d) set) ds in
    let first = Memᴰ-add_to_set (dependency_key d) key set in
    (
      λ m.
          ⊎_elim (λ a. ⊎_elim (λ old. inl old) (λ e. inr (d, Memᴰ.head refl, sym e)) (first.0 a))
            (λ (c, at, e). inr (c, Memᴰ.tail at, e)) (rest.0 m),
      ⊎_elim (λ old. rest.1 (inl (first.1 (inl old))))
          (λ (c, at, e).
            ⊎_elim (λ same. rest.1 (inl (first.1 (inr (sym e ∙ ap dependency_key same)))))
              (λ t. rest.1 (inr (c, t, e))) (Memᴰ.cases_cons at)),
    )

-- A loop over the dependencies' projects gives what the projects stored under their keys give.
pub Memᴰ-in_dependencies {ℓ} :
    {A : Type ℓ} (x : A) (dependencies : List Dependency) (take_of : ProjectEntry → List A)
    (store : JsonStore)
    → Distinct (keys (store.index.projects))
    → Memᴰ x (in_dependencies dependencies take_of store) ↔ (
        (d : Dependency) × Memᴰ d dependencies
        × (entry : ProjectEntry) × (lookup (project_key (d.path) (d.branch)) (store.index.projects)
            ≡ some entry)
        × Memᴰ x (take_of entry))
unfolding in_dependencies build_dependency_set
Memᴰ-in_dependencies x dependencies take_of store distinct =
    let dep_set = build_dependency_set dependencies in
    let body = λ (q : Text × ProjectEntry). if in_set (q.0) dep_set then take_of (q.1) else [] in
    let loop = Memᴰ-flat_map body (store.index.projects) x in
    (
      λ m.
          let ((key, entry), at, found) = loop.0 m in
          elim (Bool-cases (in_set key dep_set)) [
            | inr out ↦ absurd (Memᴰ.not-nil (rw out at found))
            | inl held ↦
                ⊎_elim (λ none_yet. absurd (Memᴰ.not-nil none_yet))
                  (λ (d, listed, same). (
                    d,
                    listed,
                    entry,
                    rw same ((Memᴰ-lookup key entry (store.index.projects) distinct).0 at),
                    rw held at found,
                  ))
                  ((Memᴰ-add_dependencies key [] dependencies).0 ((in_set_iff key dep_set).0 held))
          ],
      λ (d, listed, entry, stored, found).
          let key = dependency_key d in
          let held : in_set key dep_set ≡ true =
            (in_set_iff key dep_set).1
              ((Memᴰ-add_dependencies key [] dependencies).1 (inr (d, listed, refl))) in
          loop.1 (
            (key, entry),
            (Memᴰ-lookup key entry (store.index.projects) distinct).1 stored,
            rw held found,
          ),
    )

-- A symbol has this name: in full, as its own name, or as the end of its full name behind a dot.
abbrev pub IsNamed : Text → GlobalSymbol → Type 0
IsNamed name symbol =
    (symbol.qualified_name ≡ name)
    ⊎ (symbol.name ≡ name)
    ⊎ ((front : Text) × (symbol.qualified_name ≡ front ++ (text "." ++ name)))

is_symbol_match_iff :
    (name : Text) (symbol : GlobalSymbol)
    → (is_symbol_match name symbol ≡ true) ↔ IsNamed name symbol
unfolding is_symbol_match
is_symbol_match_iff name symbol =
    let whole = text_eq_iff (symbol.qualified_name) name in
    let own = text_eq_iff (symbol.name) name in
    let end = has_suffix_iff (symbol.qualified_name) (text "." ++ name) in
    (
      λ h. elim (Bool-cases (text_eq (symbol.qualified_name) name)) [
        | inl a ↦ inl (whole.0 a)
        | inr na ↦ elim (Bool-cases (text_eq (symbol.name) name)) [
          | inl b ↦ inr (inl (own.0 b))
          | inr nb ↦ inr (inr (end.0 (rw (na, nb) at h)))
        ]
      ],
      ⊎_elim (λ a. rw (whole.1 a) refl)
          (⊎_elim (λ b. let e = own.1 b in ground arith) (λ c. let e = end.1 c in ground arith)),
    )

-- In an index in which no key stands twice, looking a name up gives exactly the symbols of this name,
-- in full, as their own name or as the end of their full name behind a dot, of the projects stored
-- under the keys of the dependencies, each with the path and the branch of its project.
pub lookup_symbol_lem :
    (name : Text) (dependencies : List Dependency) (store : JsonStore) (m : SymbolMatch)
    → Distinct (keys (store.index.projects))
    → Memᴰ m (lookup_symbol name dependencies store) ↔ (
        (d : Dependency) × Memᴰ d dependencies
        × (entry : ProjectEntry) × (lookup (project_key (d.path) (d.branch)) (store.index.projects)
            ≡ some entry)
        × (symbol : GlobalSymbol) × Memᴰ symbol (entry.symbols)
        × IsNamed name symbol
        × (symbol_match entry symbol ≡ m))
unfolding lookup_symbol
lookup_symbol_lem name dependencies store m distinct =
    let take_of = λ (entry : ProjectEntry).
      map (symbol_match entry) (keep_if (is_symbol_match name) (entry.symbols)) in
    let loop = Memᴰ-in_dependencies m dependencies take_of store distinct in
    (
      λ h.
          let (d, listed, entry, stored, found) = loop.0 h in
          let (symbol, kept, e) = Memᴰ.of_map (symbol_match entry) _ found in
          let (at, named) = (Memᴰ-keep_if (is_symbol_match name) symbol (entry.symbols)).0 kept in
          (d, listed, entry, stored, symbol, at, (is_symbol_match_iff name symbol).0 named, e),
      λ (d, listed, entry, stored, symbol, at, named, e). loop.1 (
        d,
        listed,
        entry,
        stored,
        subst (λ z. Memᴰ z (take_of entry)) e
            (Memᴰ.map (symbol_match entry) (
              (Memᴰ-keep_if (is_symbol_match name) symbol (entry.symbols)).1
                (at, (is_symbol_match_iff name symbol).1 named))),
      ),
    )
