-- ===== src/Heritage/Bindings.antt =====
-- The search of `lookupFieldInHierarchy`: its fuel, and the bindings that it returns.
use Prim.Native.Nat.{ℕ, zero, suc, ◌+◌, ◌≤◌, ◌<◌}
use mathlib.Core.Path.{◌≡◌, refl, ◌∙◌}
use mathlib.Core.Logic.{inl, inr}
use mathlib.Core.Option.{Option, none, some}
use mathlib.Core.List.{List, [], ◌∷◌, ◌++◌, Memᴰ}
use native.Mathlib.Omega.{arith}
use flash_code_graph.Common.Tests.{◌==◌, Bool-cases, Option-cases}
use flash_code_graph.Common.Lists.{length, length-append}
use flash_code_graph.Common.Text.{Text, cut_last}
use flash_code_graph.Common.Maps.{slice_at}
use flash_code_graph.Model.{Symbol, RawHeritage}
use flash_code_graph.Heritage.{Symbols, is_type_symbol, is_visited}
use flash_code_graph.Heritage.Fields.{
  FieldIndex, binding_of, outer_field, candidate_field, field_candidates, Scan, found, go_on,
  scan_entries, climb_fields, starting_class, all_new_parents, lookup_field_in_hierarchy,
}
use flash_code_graph.Heritage.NewParents.{Named, all_new_parents-cons, slice_at-listed}

cut_last-length :
    (c : ℕ) (s : Text) {before after : Text}
    → cut_last c s ≡ some (before, after)
    → length before < length s
unfolding cut_last
cut_last-length c [] h = absurd (ground arith)
cut_last-length c (d ∷ s) {before} {after} h = elim (Option-cases (cut_last c s)) [
  | inl nothing ↦ elim (Bool-cases (d == c)) [
    | inl here ↦ let e : before ≡ [] = ground (arith, nothing, here, h) in rw e (omega arith)
    | inr other ↦ absurd (ground (arith, nothing, other, h))
  ]
  | inr ((b, a), later) ↦
      let e : before ≡ d ∷ b = ground (arith, later, h) in
      rw e (omega (arith, cut_last-length c s later))
]

-- What a search returned is a binding of some class.
abbrev pub IsBound : FieldIndex → Text → Option Text → Type 0
IsBound index field_name none = Unit
IsBound index field_name (some t) = (owner : Text) × (binding_of index owner field_name ≡ some t)

module _ (symbols : Symbols) (index : FieldIndex) (field_name : Text) where
  pub outer_field_lem :
      (fuel : ℕ) (name : Text)
      → length name < fuel
      → (r : Option Text) × (outer_field fuel index name field_name ≡ some r)
        × IsBound index field_name r
  unfolding outer_field
  outer_field_lem zero name h = absurd (omega arith)
  outer_field_lem (suc fuel) name h = elim (Option-cases (cut_last b'.' name)) [
    | inl nothing ↦ (none, rw (nothing, outer_field) refl, tt)
    | inr ((before, after), cut) ↦ elim (Option-cases (binding_of index before field_name)) [
      | inr (t, bound) ↦ (some t, rw (cut, bound, outer_field) refl, (before, bound))
      | inl unbound ↦
          let (r, run, ok) =
            outer_field_lem fuel before (omega (arith, cut_last-length b'.' name cut)) in
          (r, rw (cut, unbound, outer_field) run, ok)
    ]
  ]

  candidate_field-IsBound :
      (cs : List Symbol) (t : Text)
      → candidate_field index field_name cs ≡ some t
      → IsBound index field_name (some t)
  unfolding candidate_field
  candidate_field-IsBound [] t h = absurd (ground arith)
  candidate_field-IsBound (c ∷ cs) t h = elim (Bool-cases (is_type_symbol c)) [
    | inr other ↦ candidate_field-IsBound cs t (ground (arith, other, h))
    | inl type ↦ elim (Option-cases (binding_of index c.qualified_name field_name)) [
      | inl unbound ↦ candidate_field-IsBound cs t (ground (arith, type, unbound, h))
      | inr (u, bound) ↦ (c.qualified_name, bound ∙ ground (arith, type, bound, h))
    ]
  ]

  -- A scan that finds a binding, or one whose marks pay for what it puts on the queue.
  ScanOk : List Text → List Text → Scan → Type 0
  ScanOk visited queue (found t) = IsBound index field_name (some t)
  ScanOk visited queue (go_on seen waiting) =
      length waiting + all_new_parents seen index.heritage_by_child
      ≤ length queue + all_new_parents visited index.heritage_by_child

  ScanOk-weaken :
      (p : Text) (visited queue : List Text) (scan : Scan)
      → all_new_parents (p ∷ visited) index.heritage_by_child
        < all_new_parents visited index.heritage_by_child
      → ScanOk (p ∷ visited) (queue ++ p ∷ []) scan
      → ScanOk visited queue scan
  unfolding ScanOk
  ScanOk-weaken p visited queue (found t) fewer ok = ok
  ScanOk-weaken p visited queue (go_on seen waiting) fewer ok =
      omega (arith, length-append queue (p ∷ []))

  scan_entries-ScanOk :
      (entries : List RawHeritage) (visited queue : List Text)
      → ((e : RawHeritage) → Memᴰ e entries → Named index.heritage_by_child e.parent_name)
      → ScanOk visited queue (scan_entries symbols index field_name entries visited queue)
  unfolding scan_entries ScanOk
  scan_entries-ScanOk [] visited queue named = omega arith
  scan_entries-ScanOk (e ∷ entries) visited queue named =
      elim (Bool-cases (is_visited e.parent_name visited)) [
        | inl seen ↦
            rw (seen, scan_entries)
              (scan_entries-ScanOk entries visited queue (λ f m. named f (Memᴰ.tail m)))
        | inr fresh ↦
            elim (Option-cases (candidate_field index field_name (field_candidates symbols e))) [
              | inr (t, hit) ↦
                  rw (fresh, hit, scan_entries)
                    (candidate_field-IsBound (field_candidates symbols e) t hit)
              | inl miss ↦
                  rw (fresh, miss, scan_entries)
                    (ScanOk-weaken e.parent_name visited queue
                      (scan_entries symbols index field_name entries (e.parent_name ∷ visited)
                        (queue ++ e.parent_name ∷ []))
                      (all_new_parents-cons e.parent_name visited index.heritage_by_child fresh
                        (named e (Memᴰ.head refl)))
                      (scan_entries-ScanOk entries (e.parent_name ∷ visited)
                        (queue ++ e.parent_name ∷ []) (λ f m. named f (Memᴰ.tail m))))
            ]
      ]

  -- A climb that returns, with a result that is a binding if there is one.
  abbrev Climbs : ℕ → List Text → List Text → Type 0
  Climbs fuel visited queue =
      (r : Option Text) × (climb_fields fuel symbols index field_name visited queue ≡ some r)
      × IsBound index field_name r

  abbrev IsEnough : ℕ → List Text → List Text → Type 0
  IsEnough fuel visited queue =
      length queue + all_new_parents visited index.heritage_by_child < fuel

  climb_after :
      (fuel : ℕ) (c : Text) (visited queue : List Text) (scan : Scan)
      → scan_entries symbols index field_name (slice_at c index.heritage_by_child) visited queue
        ≡ scan
      → ScanOk visited queue scan
      → IsEnough (suc fuel) visited (c ∷ queue)
      → ((seen waiting : List Text) → IsEnough fuel seen waiting → Climbs fuel seen waiting)
      → Climbs (suc fuel) visited (c ∷ queue)
  unfolding climb_fields ScanOk
  climb_after fuel c visited queue (found t) e ok h again = (some t, rw (e, climb_fields) refl, ok)
  climb_after fuel c visited queue (go_on seen waiting) e ok h again =
      let (r, run, bound) = again seen waiting (omega arith) in (r, rw (e, climb_fields) run, bound)

  climb_fields_lem :
      (fuel : ℕ) (visited queue : List Text)
      → IsEnough fuel visited queue
      → Climbs fuel visited queue
  unfolding climb_fields
  climb_fields_lem zero visited queue h = absurd (omega arith)
  climb_fields_lem (suc fuel) visited [] h = (none, refl, tt)
  climb_fields_lem (suc fuel) visited (c ∷ queue) h =
      let entries = slice_at c index.heritage_by_child in
      climb_after fuel c visited queue (scan_entries symbols index field_name entries visited queue)
        refl
        (scan_entries-ScanOk entries visited queue
          (λ e m. slice_at-listed c index.heritage_by_child e m))
        h (λ seen waiting enough. climb_fields_lem fuel seen waiting enough)

  lookup_after :
      (caller_name : Text) (outer : Option Text)
      → outer_field (suc (length caller_name)) index caller_name field_name ≡ some outer
      → IsBound index field_name outer
      → (r : Option Text) × (lookup_field_in_hierarchy symbols index caller_name field_name
          ≡ some r)
        × IsBound index field_name r
  unfolding lookup_field_in_hierarchy
  lookup_after caller_name (some t) run ok = (some t, rw (run, lookup_field_in_hierarchy) refl, ok)
  lookup_after caller_name none run ok = elim (Option-cases (starting_class caller_name)) [
    | inl no_class ↦ (none, rw (run, no_class, lookup_field_in_hierarchy) refl, tt)
    | inr (class_name, start) ↦
        let names = class_name ∷ [] in
        let (r, climb, bound) =
          climb_fields_lem (suc (suc (all_new_parents names index.heritage_by_child))) names names
            (omega arith) in
        (r, rw (run, start, lookup_field_in_hierarchy) climb, bound)
  ]

-- `lookupFieldInHierarchy` returns on any heritage, cycles included.
pub lookup_field_in_hierarchy_returns :
    (symbols : Symbols) (index : FieldIndex) (caller_name field_name : Text)
    → (r : Option Text) × (lookup_field_in_hierarchy symbols index caller_name field_name ≡ some r)
      × IsBound index field_name r
lookup_field_in_hierarchy_returns symbols index caller_name field_name =
    let (outer, run, ok) =
      outer_field_lem symbols index field_name (suc (length caller_name)) caller_name
        (omega arith) in
    lookup_after symbols index field_name caller_name outer run ok
