-- ===== src/Heritage/Scans.antt =====
-- The loop over the heritage entries of one class in `lookupFieldInHierarchy` of
-- internal/core/resolver/heritage.go.
use mathlib.Core.Path.{◌≡◌, refl, sym, subst, ◌∙◌}
use mathlib.Core.Logic.{◌⊎◌, inl, inr, ⊎_elim}
use mathlib.Core.Bool.{true}
use mathlib.Core.Option.{none, some}
use mathlib.Core.List.{List, [], ◌∷◌, ◌++◌, Memᴰ}
use mathlib.Core.List.Memᴰ
use native.Mathlib.Omega.{arith}
use flash_code_graph.Common.Tests.{Bool-cases, Option-cases}
use flash_code_graph.Common.Text.{Text}
use flash_code_graph.Model.{Symbol, RawHeritage}
use flash_code_graph.Heritage.{Symbols, is_type_symbol, is_visited}
use flash_code_graph.Heritage.Walk.{is_visited-mem}
use flash_code_graph.Heritage.Fields.{
  FieldIndex, binding_of, candidate_field, field_candidates, Scan, found, go_on, scan_entries,
}

module _ (symbols : Symbols) (index : FieldIndex) (field_name : Text) where
  -- A class, interface or struct that an entry may mean has the field.
  abbrev pub ParentHas : RawHeritage → Text → Type 0
  ParentHas e t =
      (c : Symbol) × Memᴰ c (field_candidates symbols e)
      × (is_type_symbol c ≡ true)
      × (binding_of index c.qualified_name field_name ≡ some t)

  -- No class, interface or struct that an entry may mean has it.
  abbrev pub ParentLacks : RawHeritage → Type 0
  ParentLacks e =
      (c : Symbol)
      → Memᴰ c (field_candidates symbols e)
      → is_type_symbol c ≡ true
      → binding_of index c.qualified_name field_name ≡ none

  candidate_field-hit :
      (cs : List Symbol) (t : Text)
      → candidate_field index field_name cs ≡ some t
      → (c : Symbol) × Memᴰ c cs
        × (is_type_symbol c ≡ true)
        × (binding_of index c.qualified_name field_name ≡ some t)
  unfolding candidate_field
  candidate_field-hit [] t h = absurd (ground arith)
  candidate_field-hit (c ∷ cs) t h = elim (Bool-cases (is_type_symbol c)) [
    | inr other ↦
        let (d, at, ok, has) = candidate_field-hit cs t (ground (arith, other, h)) in
        (d, Memᴰ.tail at, ok, has)
    | inl type ↦ elim (Option-cases (binding_of index c.qualified_name field_name)) [
      | inl unbound ↦
          let (d, at, ok, has) = candidate_field-hit cs t (ground (arith, type, unbound, h)) in
          (d, Memᴰ.tail at, ok, has)
      | inr (u, bound) ↦ (c, Memᴰ.head refl, type, bound ∙ ground (arith, type, bound, h))
    ]
  ]

  candidate_field-miss :
      (cs : List Symbol) (c : Symbol)
      → candidate_field index field_name cs ≡ none
      → Memᴰ c cs
      → is_type_symbol c ≡ true
      → binding_of index c.qualified_name field_name ≡ none
  unfolding candidate_field
  candidate_field-miss [] c h at type = absurd (Memᴰ.not-nil at)
  candidate_field-miss (d ∷ cs) c h at type =
      ⊎_elim
        (λ same.
          let d_type : is_type_symbol d ≡ true = subst (λ z. is_type_symbol z ≡ true) same type in
          subst (λ z. binding_of index z.qualified_name field_name ≡ none) (sym same)
            (elim (Option-cases (binding_of index d.qualified_name field_name)) [
              | inl unbound ↦ unbound
              | inr (u, bound) ↦ absurd (ground (arith, d_type, bound, h))
            ]))
        (λ later. candidate_field-miss cs c (skips d cs h) later type) (Memᴰ.cases_cons at)
    where
      skips :
          (d : Symbol) (cs : List Symbol)
          → candidate_field index field_name (d ∷ cs) ≡ none
          → candidate_field index field_name cs ≡ none
      skips d cs h = elim (Option-cases (candidate_field index field_name cs)) [
        | inl miss ↦ miss
        | inr (t, hit) ↦ elim (Bool-cases (is_type_symbol d)) [
          | inr other ↦ absurd (ground (arith, other, hit, h))
          | inl type ↦ elim (Option-cases (binding_of index d.qualified_name field_name)) [
            | inl unbound ↦ absurd (ground (arith, type, unbound, hit, h))
            | inr (u, bound) ↦ absurd (ground (arith, type, bound, h))
          ]
        ]
      ]

  -- What a scan of entries leaves: a binding, or what it adds to the marks and the queue.
  pub record Scanned (entries : List RawHeritage) (visited queue seen waiting : List Text)
      : Type 0 where
    pub marks_kept : (x : Text) → Memᴰ x visited → Memᴰ x seen
    pub queue_kept : (x : Text) → Memᴰ x queue → Memᴰ x waiting
    pub marks_wait : (x : Text) → Memᴰ x seen → Memᴰ x visited ⊎ Memᴰ x waiting
    pub parents_marked : (e : RawHeritage) → Memᴰ e entries → Memᴰ e.parent_name seen
    pub queue_named :
        (x : Text)
        → Memᴰ x waiting
        → Memᴰ x queue ⊎ ((e : RawHeritage) × Memᴰ e entries × (e.parent_name ≡ x))
    pub marks_lack :
        (x : Text)
        → Memᴰ x seen
        → Memᴰ x visited
          ⊎ ((e : RawHeritage) × Memᴰ e entries × (e.parent_name ≡ x) × ParentLacks e)

  unfoldable pub ScanSpec : List RawHeritage → List Text → List Text → Scan → Type 0
  ScanSpec entries visited queue (found t) = (e : RawHeritage) × Memᴰ e entries × ParentHas e t
  ScanSpec entries visited queue (go_on seen waiting) = Scanned entries visited queue seen waiting

  ScanSpec-seen :
      (e : RawHeritage) (entries : List RawHeritage) (visited queue : List Text) (scan : Scan)
      → Memᴰ e.parent_name visited
      → ScanSpec entries visited queue scan
      → ScanSpec (e ∷ entries) visited queue scan
  unfolding ScanSpec
  ScanSpec-seen e entries visited queue (found t) old (f, at, has) = (f, Memᴰ.tail at, has)
  ScanSpec-seen e entries visited queue (go_on seen waiting) old s = record {
    marks_kept = s.marks_kept;
    queue_kept = s.queue_kept;
    marks_wait = s.marks_wait;
    parents_marked = λ f at.
        ⊎_elim
          (λ same. subst (λ z. Memᴰ z.parent_name seen) (sym same) (s.marks_kept e.parent_name old))
          (s.parents_marked f) (Memᴰ.cases_cons at);
    queue_named = λ x at.
        ⊎_elim inl (λ (f, listed, named). inr (f, Memᴰ.tail listed, named)) (s.queue_named x at);
    marks_lack = λ x at.
        ⊎_elim inl (λ (f, listed, named, lacks_f). inr (f, Memᴰ.tail listed, named, lacks_f))
          (s.marks_lack x at);
  }

  ScanSpec-fresh :
      (e : RawHeritage) (entries : List RawHeritage) (visited queue : List Text) (scan : Scan)
      → ParentLacks e
      → ScanSpec entries (e.parent_name ∷ visited) (queue ++ e.parent_name ∷ []) scan
      → ScanSpec (e ∷ entries) visited queue scan
  unfolding ScanSpec
  ScanSpec-fresh e entries visited queue (found t) lacks (f, at, has) = (f, Memᴰ.tail at, has)
  ScanSpec-fresh e entries visited queue (go_on seen waiting) lacks s =
      let p = e.parent_name in
      record {
        marks_kept = λ x at. s.marks_kept x (Memᴰ.tail at);
        queue_kept = λ x at. s.queue_kept x (Memᴰ.append_left (p ∷ []) at);
        marks_wait = λ x at.
            ⊎_elim
              (λ old.
                ⊎_elim (λ same. inr (s.queue_kept x (Memᴰ.append_right queue (Memᴰ.head same)))) inl
                  (Memᴰ.cases_cons old))
              inr (s.marks_wait x at);
        parents_marked = λ f at.
            ⊎_elim
              (λ same.
                subst (λ z. Memᴰ z.parent_name seen) (sym same) (s.marks_kept p (Memᴰ.head refl)))
              (s.parents_marked f) (Memᴰ.cases_cons at);
        queue_named = λ x at.
            ⊎_elim
              (λ old.
                ⊎_elim inl (λ one. inr (e, Memᴰ.head refl, sym (Memᴰ.eq_of_singleton one)))
                  (Memᴰ.append_cases queue old))
              (λ (f, listed, named). inr (f, Memᴰ.tail listed, named)) (s.queue_named x at);
        marks_lack = λ x at.
            ⊎_elim
              (λ old.
                ⊎_elim (λ same. inr (e, Memᴰ.head refl, sym same, lacks)) inl (Memᴰ.cases_cons old))
              (λ (f, listed, named, lacks_f). inr (f, Memᴰ.tail listed, named, lacks_f))
              (s.marks_lack x at);
      }

  pub scan_entries-ScanSpec :
      (entries : List RawHeritage) (visited queue : List Text)
      → ScanSpec entries visited queue (scan_entries symbols index field_name entries visited queue)
  unfolding scan_entries ScanSpec
  scan_entries-ScanSpec [] visited queue = record {
    marks_kept = λ x at. at;
    queue_kept = λ x at. at;
    marks_wait = λ x at. inl at;
    parents_marked = λ e at. absurd (Memᴰ.not-nil at);
    queue_named = λ x at. inl at;
    marks_lack = λ x at. inl at;
  }
  scan_entries-ScanSpec (e ∷ entries) visited queue =
      elim (Bool-cases (is_visited e.parent_name visited)) [
        | inl old ↦
            rw (old, scan_entries)
              (ScanSpec-seen e entries visited queue
                (scan_entries symbols index field_name entries visited queue)
                (is_visited-mem e.parent_name visited old)
                (scan_entries-ScanSpec entries visited queue))
        | inr fresh ↦
            elim (Option-cases (candidate_field index field_name (field_candidates symbols e))) [
              | inr (t, hit) ↦
                  rw (fresh, hit, scan_entries)
                    (e, Memᴰ.head refl, candidate_field-hit (field_candidates symbols e) t hit)
              | inl miss ↦
                  rw (fresh, miss, scan_entries)
                    (ScanSpec-fresh e entries visited queue
                      (scan_entries symbols index field_name entries (e.parent_name ∷ visited)
                        (queue ++ e.parent_name ∷ []))
                      (λ c at type.
                        candidate_field-miss (field_candidates symbols e) c miss at type)
                      (scan_entries-ScanSpec entries (e.parent_name ∷ visited)
                        (queue ++ e.parent_name ∷ [])))
            ]
      ]
