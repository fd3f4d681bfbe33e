-- ===== src/Heritage/Above.antt =====
-- The second loop of `lookupFieldInHierarchy` of internal/core/resolver/heritage.go: the classes above that
-- of the caller, and with the first loop what the whole lookup returns.
use Prim.Native.Nat.{ℕ, zero, suc}
use mathlib.Core.Path.{◌≡◌, refl, sym, subst, ◌∙◌}
use mathlib.Core.Logic.{◌⊎◌, inl, inr, ⊎_elim}
use mathlib.Core.Option.{Option, none, some}
use mathlib.Core.List.{List, [], ◌∷◌, Memᴰ}
use mathlib.Core.List.Memᴰ
use native.Mathlib.Omega.{arith}
use flash_code_graph.Common.Tests.{Option-cases}
use flash_code_graph.Common.Lists.{length}
use flash_code_graph.Common.Text.{Text, cut_last}
use flash_code_graph.Common.Maps.{slice_at}
use flash_code_graph.Model.{RawHeritage}
use flash_code_graph.Heritage.{Symbols}
use flash_code_graph.Heritage.Fields.{
  FieldIndex, outer_field, Scan, found, go_on, scan_entries, climb_fields, starting_class,
  all_new_parents, lookup_field_in_hierarchy,
}
use flash_code_graph.Heritage.Bindings.{lookup_field_in_hierarchy_returns, outer_field_lem}
use flash_code_graph.Heritage.Enclosing.{
  Outer, Nearest, IsEnclosed, outer_field-Outer, CutsAt, cut_last-some, cut_last-none,
}
use flash_code_graph.Route.Segments.{NoByte}
use flash_code_graph.Heritage.Scans.{
  ParentHas, ParentLacks, Scanned, ScanSpec, scan_entries-ScanSpec,
}

-- The heritage entries of a class.
abbrev pub entries_of_class : FieldIndex → Text → List RawHeritage
entries_of_class index c = slice_at c index.heritage_by_child

-- The classes that the entries lead to from a class.
pub data Above (index : FieldIndex) (start : Text) : Text → Type 0 where
  itself : Above index start start
  parent :
      {c p : Text} (e : RawHeritage)
      → Above index start c
      → Memᴰ e (entries_of_class index c)
      → e.parent_name ≡ p
      → Above index start p

-- The class that the second loop starts from: what stands between the last two dots of the caller, or
-- before its only dot.
abbrev pub StartsAt : Text → Text → Type 0
StartsAt caller_name class_name =
    (owner : Text) × (rest : Text) × CutsAt b'.' caller_name owner rest
    × ((NoByte b'.' owner × (owner ≡ class_name))
        ⊎ ((front : Text) × CutsAt b'.' owner front class_name))

starting_class-StartsAt :
    (caller_name class_name : Text)
    → starting_class caller_name ≡ some class_name
    → StartsAt caller_name class_name
unfolding starting_class
starting_class-StartsAt caller_name class_name h = elim (Option-cases (cut_last b'.' caller_name)) [
  | inl nothing ↦ absurd (ground (arith, nothing, h))
  | inr ((owner, rest), cut) ↦ (
    owner,
    rest,
    cut_last-some b'.' caller_name owner rest cut,
    elim (Option-cases (cut_last b'.' owner)) [
      | inl plain ↦ inl (cut_last-none b'.' owner plain, ground (arith, cut, plain, h))
      | inr ((front, last), again) ↦
          let same : last ≡ class_name = ground (arith, cut, again, h) in
          inr (
            front,
            subst (CutsAt b'.' owner front) same (cut_last-some b'.' owner front last again),
          )
    ],
  )
]

starting_class-none :
    (caller_name : Text) → starting_class caller_name ≡ none → NoByte b'.' caller_name
unfolding starting_class
starting_class-none caller_name h = elim (Option-cases (cut_last b'.' caller_name)) [
  | inl nothing ↦ cut_last-none b'.' caller_name nothing
  | inr ((owner, rest), cut) ↦ elim (Option-cases (cut_last b'.' owner)) [
    | inl plain ↦ absurd (ground (arith, cut, plain, h))
    | inr ((front, last), again) ↦ absurd (ground (arith, cut, again, h))
  ]
]

module _ (symbols : Symbols) (index : FieldIndex) (field_name : Text) where
  -- An entry of a class at or above the start gives the field this type.
  abbrev pub FoundAbove : Text → Text → Type 0
  FoundAbove start t =
      (c : Text) × Above index start c
      × ((e : RawHeritage) × Memᴰ e (entries_of_class index c)
          × ParentHas symbols index field_name e t)

  -- An entry of a class at or above the start names a class that has not the field.
  abbrev pub Lacks : Text → Text → Type 0
  Lacks start p =
      (c : Text) × Above index start c
      × ((e : RawHeritage) × Memᴰ e (entries_of_class index c)
          × (e.parent_name ≡ p)
          × ParentLacks symbols index field_name e)

  abbrev pub Climbed : Text → Option Text → Type 0
  Climbed start none = (p : Text) → Above index start p → (p ≡ start) ⊎ Lacks start p
  Climbed start (some t) = FoundAbove start t

  record Searched (start : Text) (visited queue : List Text) : Type 0 where
    started : Memᴰ start visited
    queue_above : (x : Text) → Memᴰ x queue → Above index start x
    settled :
        (v : Text)
        → Memᴰ v visited
        → Memᴰ v queue
          ⊎ ((e : RawHeritage) → Memᴰ e (entries_of_class index v) → Memᴰ e.parent_name visited)
    lacking : (v : Text) → Memᴰ v visited → (v ≡ start) ⊎ Lacks start v

  above_visited :
      {start p : Text} (visited : List Text)
      → Searched start visited []
      → Above index start p
      → Memᴰ p visited
  above_visited visited s itself = s.started
  above_visited visited s (parent {c} e below listed named) =
      subst (λ z. Memᴰ z visited) named
        (⊎_elim (λ waits. absurd (Memᴰ.not-nil waits)) (λ all_in. all_in e listed)
          (s.settled c (above_visited visited s below)))

  Searched-next :
      (start c : Text) (visited queue seen waiting : List Text)
      → Searched start visited (c ∷ queue)
      → Scanned symbols index field_name (entries_of_class index c) visited queue seen waiting
      → Searched start seen waiting
  Searched-next start c visited queue seen waiting s n = record {
    started = n.marks_kept start s.started;
    queue_above = λ x at.
        ⊎_elim (λ old. s.queue_above x (Memᴰ.tail old))
          (λ (e, listed, named). parent e (s.queue_above c (Memᴰ.head refl)) listed named)
          (n.queue_named x at);
    settled = λ v at.
        ⊎_elim
          (λ old.
            ⊎_elim
              (λ waits.
                ⊎_elim
                  (λ same. inr (λ e listed.
                    n.parents_marked e
                      (subst (λ z. Memᴰ e (entries_of_class index z)) same listed)))
                  (λ later. inl (n.queue_kept v later)) (Memᴰ.cases_cons waits))
              (λ closed. inr (λ e listed. n.marks_kept e.parent_name (closed e listed)))
              (s.settled v old))
          inl (n.marks_wait v at);
    lacking = λ v at.
        ⊎_elim (s.lacking v)
          (λ (e, listed, named, lacks).
            inr (c, s.queue_above c (Memᴰ.head refl), (e, listed, named, lacks)))
          (n.marks_lack v at);
  }

  climb_step :
      (start : Text) (fuel : ℕ) (c : Text) (visited queue : List Text) (scan : Scan)
      (r : Option Text)
      → scan_entries symbols index field_name (slice_at c index.heritage_by_child) visited queue
        ≡ scan
      → ScanSpec symbols index field_name (entries_of_class index c) visited queue scan
      → climb_fields (suc fuel) symbols index field_name visited (c ∷ queue) ≡ some r
      → Searched start visited (c ∷ queue)
      → ((seen waiting : List Text)
          → climb_fields fuel symbols index field_name seen waiting ≡ some r
          → Searched start seen waiting
          → Climbed start r)
      → Climbed start r
  unfolding climb_fields ScanSpec
  climb_step start fuel c visited queue (found t) r e (f, listed, has) run s again =
      let shape : climb_fields (suc fuel) symbols index field_name visited (c ∷ queue)
          ≡ some (some t) =
        rw (e, climb_fields) refl in
      let end : some t ≡ r = ground (arith, shape, run) in
      subst (Climbed start) end (c, s.queue_above c (Memᴰ.head refl), (f, listed, has))
  climb_step start fuel c visited queue (go_on seen waiting) r e n run s again =
      let shape : climb_fields (suc fuel) symbols index field_name visited (c ∷ queue)
          ≡ climb_fields fuel symbols index field_name seen waiting =
        rw (e, climb_fields) refl in
      again seen waiting (sym shape ∙ run) (Searched-next start c visited queue seen waiting s n)

  climb_fields-Climbed :
      (start : Text) (fuel : ℕ) (visited queue : List Text) (r : Option Text)
      → climb_fields fuel symbols index field_name visited queue ≡ some r
      → Searched start visited queue
      → Climbed start r
  unfolding climb_fields
  climb_fields-Climbed start zero visited queue r run s = absurd (ground arith)
  climb_fields-Climbed start (suc fuel) visited [] r run s =
      let end : none ≡ r = ground (arith, run) in
      subst (Climbed start) end (λ p above. s.lacking p (above_visited visited s above))
  climb_fields-Climbed start (suc fuel) visited (c ∷ queue) r run s =
      climb_step start fuel c visited queue
        (scan_entries symbols index field_name (slice_at c index.heritage_by_child) visited queue) r
        refl
        (scan_entries-ScanSpec symbols index field_name (entries_of_class index c) visited queue)
        run s (λ seen waiting later next. climb_fields-Climbed start fuel seen waiting r later next)

  Searched-start : (start : Text) → Searched start (start ∷ []) (start ∷ [])
  Searched-start start = record {
    started = Memᴰ.head refl;
    queue_above = λ x at. subst (Above index start) (sym (Memᴰ.eq_of_singleton at)) itself;
    settled = λ v at. inl at;
    lacking = λ v at. inl (Memᴰ.eq_of_singleton at);
  }

  -- What the lookup returns for a caller.
  abbrev pub Finds : Text → Option Text → Type 0
  Finds caller_name (some t) =
      Nearest index field_name caller_name t
      ⊎ ((¬ IsEnclosed index field_name caller_name)
          × ((start : Text) × StartsAt caller_name start × FoundAbove start t))
  Finds caller_name none =
      (¬ IsEnclosed index field_name caller_name)
      × (NoByte b'.' caller_name
          ⊎ ((start : Text) × StartsAt caller_name start
              × ((p : Text) → Above index start p → (p ≡ start) ⊎ Lacks start p)))

  Climbed-Finds :
      (caller_name start : Text) (r : Option Text)
      → ¬ IsEnclosed index field_name caller_name
      → StartsAt caller_name start
      → Climbed start r
      → Finds caller_name r
  Climbed-Finds caller_name start none free at climbed = (free, inr (start, at, climbed))
  Climbed-Finds caller_name start (some t) free at climbed = inr (free, (start, at, climbed))

  lookup-Finds :
      (caller_name : Text) (outer r : Option Text)
      → outer_field (suc (length caller_name)) index caller_name field_name ≡ some outer
      → Outer index field_name caller_name outer
      → lookup_field_in_hierarchy symbols index caller_name field_name ≡ some r
      → Finds caller_name r
  unfolding lookup_field_in_hierarchy
  lookup-Finds caller_name (some t) r outside near run =
      let shape : lookup_field_in_hierarchy symbols index caller_name field_name ≡ some (some t) =
        rw (outside, lookup_field_in_hierarchy) refl in
      let end : some t ≡ r = ground (arith, shape, run) in subst (Finds caller_name) end (inl near)
  lookup-Finds caller_name none r outside free run =
      elim (Option-cases (starting_class caller_name)) [
        | inl no_class ↦
            let shape : lookup_field_in_hierarchy symbols index caller_name field_name ≡ some none =
              rw (outside, no_class, lookup_field_in_hierarchy) refl in
            let end : none ≡ r = ground (arith, shape, run) in
            subst (Finds caller_name) end (free, inl (starting_class-none caller_name no_class))
        | inr (start, begins) ↦
            let names = start ∷ [] in
            let fuel = suc (suc (all_new_parents names index.heritage_by_child)) in
            let shape : lookup_field_in_hierarchy symbols index caller_name field_name
                ≡ climb_fields fuel symbols index field_name names names =
              rw (outside, begins, lookup_field_in_hierarchy) refl in
            Climbed-Finds caller_name start r free
              (starting_class-StartsAt caller_name start begins)
              (climb_fields-Climbed start fuel names names r (sym shape ∙ run)
                (Searched-start start))
      ]

-- `lookupFieldInHierarchy` returns on any heritage, cycles included. A type that it returns is that of
-- the innermost scope round the caller that has the field, or, if no scope round the caller has it,
-- that of a class, interface or struct which an entry of a class at or above the caller's names as
-- its parent. It returns nothing only if no scope round the caller has the field, and the caller
-- has no dot or every class name above the caller's own is named by such an entry whose classes,
-- interfaces and structs all lack the field.
pub lookup_field_in_hierarchy_lem :
    (symbols : Symbols) (index : FieldIndex) (caller_name field_name : Text)
    → (r : Option Text) × (lookup_field_in_hierarchy symbols index caller_name field_name ≡ some r)
      × Finds symbols index field_name caller_name r
lookup_field_in_hierarchy_lem symbols index caller_name field_name =
    let (r, run, bound) = lookup_field_in_hierarchy_returns symbols index caller_name field_name in
    let (outer, outside, held) =
      outer_field_lem symbols index field_name (suc (length caller_name)) caller_name
        (omega arith) in
    (
      r,
      run,
      lookup-Finds symbols index field_name caller_name outer r outside
          (outer_field-Outer index field_name (suc (length caller_name)) caller_name outer outside)
          run,
    )
