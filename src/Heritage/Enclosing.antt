-- ===== src/Heritage/Enclosing.antt =====
-- The first loop of `lookupFieldInHierarchy` of internal/core/resolver/heritage.go: the scopes round the
-- caller, from the inside to the outside.
use Prim.Native.Nat.{ℕ, zero, suc, ◌<◌}
use mathlib.Core.Path.{◌≡◌, refl, ap, sym, subst, ◌∙◌}
use mathlib.Core.Logic.{◌⊎◌, inl, inr, ⊎_elim}
use mathlib.Core.Option.{Option, none, some}
use mathlib.Core.List.{[], ◌∷◌, ◌++◌, append_assoc, tail-eq_of_cons-eq, head-eq_of_cons-eq}
use native.Mathlib.Omega.{arith}
use flash_code_graph.Common.Tests.{◌==◌, ==_iff, Bool-cases, Option-cases}
use flash_code_graph.Common.Lists.{length, length-append}
use flash_code_graph.Common.Text.{Text, cut_last}
use flash_code_graph.Heritage.Fields.{FieldIndex, binding_of, outer_field}
use flash_code_graph.Route.Segments.{NoByte}

-- A scope encloses another if the name of the other goes on with a dot.
abbrev pub Encloses : Text → Text → Type 0
Encloses owner name = (rest : Text) × (name ≡ owner ++ b'.' ∷ rest)

Encloses-length : (owner name : Text) → Encloses owner name → length owner < length name
Encloses-length owner name (rest, e) = rw e (omega (arith, length-append owner (b'.' ∷ rest)))

Encloses-trans : (a b c : Text) → Encloses a b → Encloses b c → Encloses a c
Encloses-trans a b c (r, e) (s, f) =
    (r ++ b'.' ∷ s, f ∙ ap (λ (z : Text). z ++ b'.' ∷ s) e ∙ append_assoc a (b'.' ∷ r) (b'.' ∷ s))

NoByte-append : (c : ℕ) (before after : Text) → ¬ NoByte c (before ++ c ∷ after)
NoByte-append c [] after h = absurd (ground (arith, ==_iff c c, h.0))
NoByte-append c (d ∷ before) after h = NoByte-append c before after h.1

pub cut_last-none : (c : ℕ) (s : Text) → cut_last c s ≡ none → NoByte c s
unfolding cut_last
cut_last-none c [] h = tt
cut_last-none c (d ∷ s) h = elim (Option-cases (cut_last c s)) [
  | inr ((b, a), later) ↦ absurd (ground (arith, later, h))
  | inl nothing ↦ elim (Bool-cases (d == c)) [
    | inl here ↦ absurd (ground (arith, nothing, here, h))
    | inr other ↦ (other, cut_last-none c s nothing)
  ]
]

-- The parts of a text round its last byte of a kind.
abbrev pub CutsAt : ℕ → Text → Text → Text → Type 0
CutsAt c s before after = (s ≡ before ++ c ∷ after) × NoByte c after

pub cut_last-some :
    (c : ℕ) (s before after : Text) → cut_last c s ≡ some (before, after) → CutsAt c s before after
unfolding cut_last
cut_last-some c [] before after h = absurd (ground arith)
cut_last-some c (d ∷ s) before after h = elim (Option-cases (cut_last c s)) [
  | inr ((b, a), later) ↦
      let (shape, clean) = cut_last-some c s b a later in
      let front : d ∷ b ≡ before = ground (arith, later, h) in
      let back : a ≡ after = ground (arith, later, h) in
      (
        ap (λ (z : Text). d ∷ z) shape
            ∙ ap (λ (z : Text). z ++ c ∷ a) front
            ∙ ap (λ (z : Text). before ++ c ∷ z) back,
        subst (NoByte c) back clean,
      )
  | inl nothing ↦ elim (Bool-cases (d == c)) [
    | inr other ↦ absurd (ground (arith, nothing, other, h))
    | inl here ↦
        let front : [] ≡ before = ground (arith, nothing, here, h) in
        let back : s ≡ after = ground (arith, nothing, here, h) in
        (
          ap (λ (z : ℕ). z ∷ s) ((==_iff d c).0 here)
              ∙ ap (λ (z : Text). z ++ c ∷ s) front
              ∙ ap (λ (z : Text). before ++ c ∷ z) back,
          subst (NoByte c) back (cut_last-none c s nothing),
        )
  ]
]

-- What encloses a name is the part before its last dot, or encloses that part.
Encloses-cases :
    (before after owner rest : Text)
    → NoByte b'.' after
    → before ++ b'.' ∷ after ≡ owner ++ b'.' ∷ rest
    → (owner ≡ before) ⊎ Encloses owner before
Encloses-cases [] after [] rest clean e = inl refl
Encloses-cases [] after (d ∷ owner) rest clean e =
    absurd (NoByte-append b'.' owner rest (subst (NoByte b'.') (tail-eq_of_cons-eq e) clean))
Encloses-cases (c ∷ before) after [] rest clean e =
    inr (before, ap (λ (z : ℕ). z ∷ before) (head-eq_of_cons-eq e))
Encloses-cases (c ∷ before) after (d ∷ owner) rest clean e =
    ⊎_elim
      (λ same.
        inl
          (ap (λ (z : Text). d ∷ z) same ∙ ap (λ (z : ℕ). z ∷ before) (sym (head-eq_of_cons-eq e))))
      (λ (r, shape).
        inr (r, ap (λ (z : ℕ). z ∷ before) (head-eq_of_cons-eq e) ∙ ap (λ (z : Text). d ∷ z) shape))
      (Encloses-cases before after owner rest clean (tail-eq_of_cons-eq e))

module _ (index : FieldIndex) (field_name : Text) where
  -- A scope round a name has the field.
  abbrev pub IsEnclosed : Text → Type 0
  IsEnclosed name =
      (owner : Text) × Encloses owner name
      × ((t : Text) × (binding_of index owner field_name ≡ some t))

  -- The innermost scope round a name that has the field gives it this type.
  abbrev pub Nearest : Text → Text → Type 0
  Nearest name t =
      (owner : Text) × Encloses owner name
      × (binding_of index owner field_name ≡ some t)
      × (¬ (
          (inner : Text) × Encloses owner inner
          × Encloses inner name
          × ((u : Text) × (binding_of index inner field_name ≡ some u))))

  abbrev pub Outer : Text → Option Text → Type 0
  Outer name none = ¬ IsEnclosed name
  Outer name (some t) = Nearest name t

  bound_part :
      (name before after t : Text)
      → CutsAt b'.' name before after
      → binding_of index before field_name ≡ some t
      → Nearest name t
  bound_part name before after t (shape, clean) bound = (
    before,
    (after, shape),
    bound,
    λ (inner, inside, (rest, e), found).
        ⊎_elim
          (λ same.
            let shorter = Encloses-length before inner inside in
            let size = ap length same in absurd (omega arith))
          (λ outside.
            let shorter = Encloses-length before inner inside in
            let longer = Encloses-length inner before outside in absurd (omega arith))
          (Encloses-cases before after inner rest clean (sym shape ∙ e)),
  )

  unbound_part :
      (name before after : Text) (r : Option Text)
      → CutsAt b'.' name before after
      → binding_of index before field_name ≡ none
      → Outer before r
      → Outer name r
  unbound_part name before after none (shape, clean) unbound miss =
      λ (owner, (rest, e), (t, found)).
        ⊎_elim
          (λ same.
            let other : binding_of index before field_name ≡ some t =
              subst (λ z. binding_of index z field_name ≡ some t) same found in
            absurd (ground arith))
          (λ outside. miss (owner, outside, (t, found)))
          (Encloses-cases before after owner rest clean (sym shape ∙ e))
  unbound_part name before after (some t) (shape, clean) unbound (owner, outside, found, nearest) =
      (
        owner,
        Encloses-trans owner before name outside (after, shape),
        found,
        λ (inner, inside, (rest, e), (u, other)).
            ⊎_elim
              (λ same.
                let again : binding_of index before field_name ≡ some u =
                  subst (λ z. binding_of index z field_name ≡ some u) same other in
                absurd (ground arith))
              (λ between. nearest (inner, inside, between, (u, other)))
              (Encloses-cases before after inner rest clean (sym shape ∙ e)),
      )

  pub outer_field-Outer :
      (fuel : ℕ) (name : Text) (r : Option Text)
      → outer_field fuel index name field_name ≡ some r
      → Outer name r
  unfolding outer_field
  outer_field-Outer zero name r run = absurd (ground arith)
  outer_field-Outer (suc fuel) name r run = elim (Option-cases (cut_last b'.' name)) [
    | inl nothing ↦
        let end : none ≡ r = ground (arith, nothing, run) in
        subst (Outer name) end (λ (owner, (rest, e), found).
          NoByte-append b'.' owner rest (subst (NoByte b'.') e (cut_last-none b'.' name nothing)))
    | inr ((before, after), cut) ↦
        let parts = cut_last-some b'.' name before after cut in
        elim (Option-cases (binding_of index before field_name)) [
          | inr (t, bound) ↦
              let end : some t ≡ r = ground (arith, cut, bound, run) in
              subst (Outer name) end (bound_part name before after t parts bound)
          | inl unbound ↦
              unbound_part name before after r parts unbound
                (outer_field-Outer fuel before r (ground (arith, cut, unbound, run)))
        ]
  ]
