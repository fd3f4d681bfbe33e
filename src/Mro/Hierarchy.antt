-- ===== src/Mro/Hierarchy.antt =====
-- `ComputeMRO` over a whole hierarchy: when it returns, and what it lists.
use flash_code_graph.Common.Tests.{Bool-cases}
use flash_code_graph.Mro.Linear.{c3_merge_order}
use flash_code_graph.Common.Lists.{keep_if, All, All-map}
use Prim.Native.Nat.{ℕ, zero, suc, ◌<◌}
use mathlib.Core.Path.{◌≡◌, refl, subst}
use mathlib.Core.Logic.{inl, inr, ⊎_elim}
use mathlib.Core.Option.{some, none, Option}
use mathlib.Core.List.{List, [], ◌∷◌, ◌++◌, Memᴰ, Sublistᴰ}
use mathlib.Core.List.Memᴰ
use native.Mathlib.Omega.{arith}
use flash_code_graph.Common.Traverse.{
  Sublistᴰ-mem, All-at, traverse-source, traverse-image, traverse_total, traverse_fails,
}
use flash_code_graph.Common.Text.{Text, text_eq, text_eq_sound}
use flash_code_graph.Model.{RawHeritage}
use flash_code_graph.Mro.{concat, compute_mro, order_from}
use flash_code_graph.Mro.Level.{parents_of, mro-Level, build_parent_map_lem}

-- A class above another: itself, or a class above one of its parents.
pub data Above (heritage : List RawHeritage) : Text → Text → Type 0 where
  self : {c : Text} → Above heritage c c
  up : {c p a : Text} → Memᴰ p (parents_of heritage c) → Above heritage p a → Above heritage c a

mem-concat :
    (a : Text) (seqs : List (List Text))
    → Memᴰ a (concat seqs)
    → (seq : List Text) × Memᴰ seq seqs × Memᴰ a seq
unfolding concat
mem-concat a [] m = absurd (Memᴰ.not-nil m)
mem-concat a (seq ∷ seqs) m =
    ⊎_elim (λ here. (seq, Memᴰ.head refl, here))
      (λ there. let (s, listed, at) = mem-concat a seqs there in (s, Memᴰ.tail listed, at))
      (Memᴰ.append_cases seq m)

module _ (heritage : List RawHeritage) where
  mro_sound :
      (fuel : ℕ) (c a : Text) (mro : List Text)
      → compute_mro fuel heritage c ≡ some mro
      → Memᴰ a mro
      → Above heritage c a
  unfolding compute_mro
  mro_sound zero c a mro h m = absurd (ground arith)
  mro_sound (suc fuel) c a mro h m =
      let l = mro-Level heritage fuel c mro h in
      let parents = parents_of heritage c in
      let through = λ (seq : List Text) (listed : Memᴰ seq l.mros) (at : Memᴰ a seq).
        let (p, is_parent, found) =
          traverse-source (compute_mro fuel heritage) parents l.mros seq l.calls listed in
        up is_parent (mro_sound fuel p a seq found at) in
      let above_of = λ (later : Memᴰ a l.rest).
        let (seq, listed, at) = mem-concat a (l.mros ++ parents ∷ []) (l.closed a later) in
        ⊎_elim {C = Above heritage c a} (λ in_mros. through seq in_mros at)
          (λ last. up (subst (Memᴰ a) (Memᴰ.eq_of_singleton last) at) self)
          (Memᴰ.append_cases l.mros listed) in
      ⊎_elim (λ e. rw e self) above_of (Memᴰ.cases_cons (subst (Memᴰ a) l.shape m))

  mro_complete :
      (fuel : ℕ) (c a : Text) (mro : List Text)
      → compute_mro fuel heritage c ≡ some mro
      → Above heritage c a
      → Memᴰ a mro
  unfolding compute_mro
  mro_complete zero c a mro h r = absurd (ground arith)
  mro_complete (suc fuel) c a mro h self =
      let l = mro-Level heritage fuel c mro h in rw l.shape (Memᴰ.head refl)
  mro_complete (suc fuel) c a mro h (up {p} is_parent r) =
      let l = mro-Level heritage fuel c mro h in
      let (seq, listed, found) =
        traverse-image (compute_mro fuel heritage) (parents_of heritage c) l.mros p l.calls
          is_parent in
      let inside = mro_complete fuel p a seq found r in
      let kept =
        All-at (λ s. Sublistᴰ s l.rest) (l.mros ++ parents_of heritage c ∷ []) seq l.ordered
          (Memᴰ.append_left (parents_of heritage c ∷ []) listed) in
      rw l.shape (Memᴰ.tail (Sublistᴰ-mem a kept inside))

  parents-below :
      (rank : Text → ℕ) (c : Text) (entries : List RawHeritage)
      → All (λ e. rank e.parent_name < rank e.child_name) entries
      → All (λ p. rank p < rank c) (parents_of entries c)
  unfolding keep_if
  parents-below rank c [] h = tt
  parents-below rank c (e ∷ entries) h = elim (Bool-cases (text_eq e.child_name c)) [
    | inl mine ↦ rw mine (
      subst (λ (z : Text). rank e.parent_name < rank z) (text_eq_sound e.child_name c mine) h.0,
      parents-below rank c entries h.1,
    )
    | inr other ↦ rw other (parents-below rank c entries h.1)
  ]

  order_from-total :
      (above : Text → Option (List Text)) (c : Text) (parents : List Text)
      → All (λ p. (m : List Text) × (above p ≡ some m)) parents
      → (mro : List Text) × (order_from above c parents ≡ some mro)
  unfolding order_from
  order_from-total above c [] h = (c ∷ [], refl)
  order_from-total above c (p ∷ []) h = let (m, e) = h.0 in (c ∷ m, ground arith)
  order_from-total above c (p ∷ q ∷ rest) h =
      let (mros, e) = traverse_total above (p ∷ q ∷ rest) h in
      let (out, run, _, _) = c3_merge_order (mros ++ (p ∷ q ∷ rest) ∷ []) in
      (c ∷ out, rw (e, run, order_from) refl)

  order_from-fails :
      (above : Text → Option (List Text)) (c p : Text) (parents : List Text)
      → Memᴰ p parents
      → above p ≡ none
      → order_from above c parents ≡ none
  unfolding order_from
  order_from-fails above c p [] m e = absurd (Memᴰ.not-nil m)
  order_from-fails above c p (q ∷ []) m e =
      let here : above q ≡ none = subst (λ z. above z ≡ none) (Memᴰ.eq_of_singleton m) e in
      ground arith
  order_from-fails above c p (q ∷ r ∷ rest) m e =
      rw (traverse_fails above (q ∷ r ∷ rest) p m e, order_from) refl

  mro_total :
      (rank : Text → ℕ)
      → All (λ e. rank e.parent_name < rank e.child_name) heritage
      → (fuel : ℕ) (c : Text) → rank c < fuel
      → (mro : List Text) × (compute_mro fuel heritage c ≡ some mro)
  unfolding compute_mro
  mro_total rank h zero c lt = absurd (omega arith)
  mro_total rank h (suc fuel) c lt =
      let below = parents-below rank c heritage h in
      let calls =
        All-map (λ p. rank p < rank c)
          (λ p. (m : List Text) × (compute_mro fuel heritage p ≡ some m)) (parents_of heritage c)
          (λ p l. mro_total rank h fuel p (omega arith)) below in
      rw (build_parent_map_lem heritage c)
        (order_from-total (compute_mro fuel heritage) c (parents_of heritage c) calls)

-- In a hierarchy without cycles, where a rank falls from each child to its parents, `ComputeMRO`
-- returns within as many levels as the rank of the class, and lists exactly the classes above it.
pub compute_mro_acyclic :
    (heritage : List RawHeritage) (rank : Text → ℕ) (fuel : ℕ) (c : Text)
    → All (λ e. rank e.parent_name < rank e.child_name) heritage
    → rank c < fuel
    → (mro : List Text) × (compute_mro fuel heritage c ≡ some mro)
      × ((a : Text) → (Memᴰ a mro → Above heritage c a) × (Above heritage c a → Memᴰ a mro))
compute_mro_acyclic heritage rank fuel c h lt =
    let (mro, run) = mro_total heritage rank h fuel c lt in
    (mro, run, λ a. (mro_sound heritage fuel c a mro run, mro_complete heritage fuel c a mro run))

-- Below a class whose chain of parents never ends, as in a cycle, `ComputeMRO` does not return, however
-- much fuel it is given.
pub compute_mro_endless :
    (heritage : List RawHeritage) (P : Text → Type 0)
    → ((c : Text) → P c → (p : Text) × Memᴰ p (parents_of heritage c) × P p)
    → (fuel : ℕ) (c : Text) → P c
    → compute_mro fuel heritage c ≡ none
unfolding compute_mro
compute_mro_endless heritage P next zero c h = refl
compute_mro_endless heritage P next (suc fuel) c h =
    let (p, is_parent, again) = next c h in
    rw (build_parent_map_lem heritage c) (
      order_from-fails heritage (compute_mro fuel heritage) c p (parents_of heritage c) is_parent
        (compute_mro_endless heritage P next fuel p again))

-- When `ComputeMRO` returns, the result starts with the class, and keeps the order of the direct
-- parents and the order of the list of each parent.
pub compute_mro_monotone :
    (heritage : List RawHeritage) (fuel : ℕ) (c : Text) (mro : List Text)
    → compute_mro (suc fuel) heritage c ≡ some mro
    → (rest : List Text) × (mro ≡ c ∷ rest)
      × Sublistᴰ (parents_of heritage c) rest
      × ((p : Text)
          → Memᴰ p (parents_of heritage c)
          → (m : List Text) × (compute_mro fuel heritage p ≡ some m) × Sublistᴰ m rest)
compute_mro_monotone heritage fuel c mro h =
    let l = mro-Level heritage fuel c mro h in
    let parents = parents_of heritage c in
    let ordered = All-at (λ s. Sublistᴰ s l.rest) (l.mros ++ parents ∷ []) in
    (
      l.rest,
      l.shape,
      ordered parents l.ordered (Memᴰ.append_right l.mros (Memᴰ.head refl)),
      λ p is_parent.
          let (m, listed, found) =
            traverse-image (compute_mro fuel heritage) parents l.mros p l.calls is_parent in
          (m, found, ordered m l.ordered (Memᴰ.append_left (parents ∷ []) listed)),
    )
