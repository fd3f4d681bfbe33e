-- ===== src/Heritage/NewParents.antt =====
-- The parents that a search has not visited: a count that falls when one is marked.
use Prim.Native.Nat.{◌≤◌, ◌<◌}
use mathlib.Core.Path.{◌≡◌, refl, ap, sym, ◌∙◌, subst}
use mathlib.Core.Logic.{inl, inr, ⊎_elim}
use mathlib.Core.Bool.{false}
use mathlib.Core.List.{List, [], ◌∷◌, Memᴰ}
use mathlib.Core.List.Memᴰ
use native.Mathlib.Omega.{arith}
use flash_code_graph.Common.Tests.{Bool-cases}
use flash_code_graph.Common.Text.{Text, text_eq, text_eq_iff}
use flash_code_graph.Common.Maps.{Map, lookup, slice_at}
use flash_code_graph.Model.{RawHeritage}
use flash_code_graph.Heritage.{is_visited}
use flash_code_graph.Heritage.Walk.{is_visited-cons}
use flash_code_graph.Heritage.Fields.{new_parents, all_new_parents}

new_parents-cons_le :
    (p : Text) (visited : List Text) (entries : List RawHeritage)
    → new_parents (p ∷ visited) entries ≤ new_parents visited entries
unfolding new_parents
new_parents-cons_le p visited [] = omega arith
new_parents-cons_le p visited (e ∷ entries) =
    ground (arith, is_visited-cons e.parent_name p visited, new_parents-cons_le p visited entries)

pub all_new_parents-cons_le :
    (p : Text) (visited : List Text) (m : Map (List RawHeritage))
    → all_new_parents (p ∷ visited) m ≤ all_new_parents visited m
unfolding all_new_parents
all_new_parents-cons_le p visited [] = omega arith
all_new_parents-cons_le p visited ((child, entries) ∷ m) =
    omega (arith, new_parents-cons_le p visited entries, all_new_parents-cons_le p visited m)

-- A parent that an entry of the map names.
abbrev pub Named : Map (List RawHeritage) → Text → Type 0
Named m p =
    (child : Text) × (entries : List RawHeritage) × (e : RawHeritage) × Memᴰ (child, entries) m
    × Memᴰ e entries
    × (e.parent_name ≡ p)

new_parents-cons :
    (p : Text) (visited : List Text) (entries : List RawHeritage) (e : RawHeritage)
    → is_visited p visited ≡ false
    → Memᴰ e entries
    → e.parent_name ≡ p
    → new_parents (p ∷ visited) entries < new_parents visited entries
unfolding new_parents
new_parents-cons p visited [] e fresh m same = absurd (Memᴰ.not-nil m)
new_parents-cons p visited (f ∷ entries) e fresh m same =
    ⊎_elim
      (λ here.
        let name : f.parent_name ≡ p = ap (λ (z : RawHeritage). z.parent_name) (sym here) ∙ same in
        let old : is_visited f.parent_name visited ≡ false = rw name fresh in
        ground (
          arith,
          is_visited-cons f.parent_name p visited,
          text_eq_iff f.parent_name p,
          new_parents-cons_le p visited entries,
        ))
      (λ there. ground (
        arith,
        is_visited-cons f.parent_name p visited,
        new_parents-cons p visited entries e fresh there same,
      ))
      (Memᴰ.cases_cons m)

-- Marking a named parent for the first time leaves one fewer.
pub all_new_parents-cons :
    (p : Text) (visited : List Text) (m : Map (List RawHeritage))
    → is_visited p visited ≡ false
    → Named m p
    → all_new_parents (p ∷ visited) m < all_new_parents visited m
unfolding all_new_parents
all_new_parents-cons p visited [] fresh (child, entries, e, at, listed, same) =
    absurd (Memᴰ.not-nil at)
all_new_parents-cons p visited ((c, es) ∷ m) fresh (child, entries, e, at, listed, same) =
    ⊎_elim
      (λ here.
        let mine : Memᴰ e es = subst (λ (z : Text × List RawHeritage). Memᴰ e z.1) here listed in
        omega (
          arith,
          new_parents-cons p visited es e fresh mine same,
          all_new_parents-cons_le p visited m,
        ))
      (λ there. omega (
        arith,
        new_parents-cons_le p visited es,
        all_new_parents-cons p visited m fresh (child, entries, e, there, listed, same),
      ))
      (Memᴰ.cases_cons at)

pub slice_at-listed :
    (c : Text) (m : Map (List RawHeritage)) (e : RawHeritage)
    → Memᴰ e (slice_at c m)
    → Named m e.parent_name
unfolding slice_at lookup
slice_at-listed c [] e at = absurd (Memᴰ.not-nil at)
slice_at-listed c ((child, entries) ∷ m) e at = elim (Bool-cases (text_eq child c)) [
  | inl here ↦ (child, entries, e, Memᴰ.head refl, rw (here, slice_at, lookup) at at, refl)
  | inr there ↦
      let (owner, es, f, in_map, listed, same) =
        slice_at-listed c m e (rw (there, slice_at, lookup) at at) in
      (owner, es, f, Memᴰ.tail in_map, listed, same)
]
