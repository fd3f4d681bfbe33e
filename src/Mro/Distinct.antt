-- ===== src/Mro/Distinct.antt =====
-- The merge of sequences that agree on an order, with a rank that goes up along each of them.
use Prim.Native.Nat.{ℕ, zero, suc, ◌<◌}
use mathlib.Core.Path.{◌≡◌, refl, ◌∙◌, subst, sym}
use mathlib.Core.Logic.{inl, inr, ⊎_elim, ∥∥₁_elim}
use mathlib.Core.Bool.{true, false}
use mathlib.Core.Option.{some, none}
use mathlib.Core.List.{List, [], ◌∷◌, map, Memᴰ, Sublistᴰ, Nodup, Nodup-nil, Mem, Nodup-cons}
use mathlib.Core.List.Memᴰ
use mathlib.Core.HLevel.{⊥_prop}
use native.Mathlib.Omega.{arith}
use flash_code_graph.Common.Tests.{Bool-cases, ||-eq-false}
use flash_code_graph.Common.Lists.{keep_if, any, is_empty, All}
use flash_code_graph.Common.Text.{Text, text_eq, text_eq_sound, text_eq_iff}
use flash_code_graph.Mro.{in_tail, drop_head, concat, c3_merge, pick}
use flash_code_graph.Mro.Linear.{live_of-All, Merges-sublist, Merges-mem}
use flash_code_graph.Mro.Merge.{
  IsHead, first, later, Merges, done, stuck, take_head, live_of, c3_merge-Merges,
}

-- The sequence goes up in a rank: a linear order that a whole hierarchy may have.
abbrev pub Rising : (Text → ℕ) → List Text → Type 0
Rising rank [] = Unit
Rising rank (x ∷ seq) = All (λ y. rank x < rank y) seq × Rising rank seq

module _ (rank : Text → ℕ) where
  Rising-drop_head :
      (head : Text) (seq : List Text) → Rising rank seq → Rising rank (drop_head head seq)
  unfolding drop_head
  Rising-drop_head head [] h = tt
  Rising-drop_head head (x ∷ seq) h = elim (Bool-cases (text_eq x head)) [
    | inl same ↦ rw same h.1
    | inr other ↦ rw other h
  ]

  All-Rising-drop_head :
      (head : Text) (seqs : List (List Text))
      → All (Rising rank) seqs
      → All (Rising rank) (map (drop_head head) seqs)
  All-Rising-drop_head head [] h = tt
  All-Rising-drop_head head (seq ∷ seqs) h =
      (Rising-drop_head head seq h.0, All-Rising-drop_head head seqs h.1)

  below_any :
      (n : ℕ) (x : Text) (seq : List Text)
      → All (λ y. n < rank y) seq
      → any (λ element. text_eq element x) seq ≡ true
      → n < rank x
  unfolding any
  below_any n x [] h e = absurd (ground arith)
  below_any n x (y ∷ seq) h e = elim (Bool-cases (text_eq y x)) [
    | inl same ↦ subst (λ (z : Text). n < rank z) (text_eq_sound y x same) h.0
    | inr other ↦ below_any n x seq h.1 (ground arith)
  ]

  -- An element of a tail has a head of lower rank before it.
  in_tail-IsHead :
      (x : Text) (seqs : List (List Text))
      → All (Rising rank) seqs
      → in_tail x seqs ≡ true
      → (y : Text) × IsHead y seqs × (rank y < rank x)
  unfolding in_tail any
  in_tail-IsHead x [] h e = absurd (ground arith)
  in_tail-IsHead x ([] ∷ seqs) h e =
      let (y, at, lower) = in_tail-IsHead x seqs h.1 e in (y, later at, lower)
  in_tail-IsHead x ((z ∷ seq) ∷ seqs) h e =
      elim (Bool-cases (any (λ element. text_eq element x) seq)) [
        | inl here ↦ (z, first, below_any (rank z) x seq h.0.0 here)
        | inr there ↦
            let (y, at, lower) = in_tail-IsHead x seqs h.1 (ground arith) in (y, later at, lower)
      ]

  -- The loop over the heads passes a head over only because it is in a tail.
  pick-none :
      (x : Text) (seqs rest : List (List Text))
      → pick rest seqs ≡ none
      → IsHead x rest
      → in_tail x seqs ≡ true
  unfolding pick
  pick-none x seqs rest e first = ground arith
  pick-none x seqs rest e (later {seq} {seqs = more} at) = pick-none x seqs more (skip seq e) at
    where
      skip : (seq : List Text) → pick (seq ∷ more) seqs ≡ none → pick more seqs ≡ none
      skip [] e = e
      skip (z ∷ seq) e = ground arith

  -- Among the heads there is none of lowest rank that is blocked: the merge is never stuck.
  no_blocked_head :
      (seqs : List (List Text)) (n : ℕ) (x : Text)
      → All (Rising rank) seqs
      → pick seqs seqs ≡ none
      → IsHead x seqs
      → ¬ (rank x < n)
  no_blocked_head seqs zero x h e at lt = omega arith
  no_blocked_head seqs (suc n) x h e at lt =
      let (y, at_y, lower) = in_tail-IsHead x seqs h (pick-none x seqs seqs e at) in
      no_blocked_head seqs n y h e at_y (omega arith)

  IsHead-of_live :
      (seqs : List (List Text))
      → is_empty (live_of seqs) ≡ false
      → (x : Text) × IsHead x (live_of seqs)
  unfolding keep_if
  IsHead-of_live [] e = absurd (ground arith)
  IsHead-of_live ([] ∷ seqs) e = IsHead-of_live seqs e
  IsHead-of_live ((x ∷ seq) ∷ seqs) e = (x, first)

  never_stuck :
      (seqs : List (List Text))
      → All (Rising rank) seqs
      → pick (live_of seqs) (live_of seqs) ≡ none
      → concat (live_of seqs) ≡ []
  unfolding concat
  never_stuck seqs h e = elim (Bool-cases (is_empty (live_of seqs))) [
    | inl empty ↦ nothing (live_of seqs) empty
    | inr full ↦
        let (x, at) = IsHead-of_live seqs full in
        absurd (
          no_blocked_head (live_of seqs) (suc (rank x)) x (live_of-All (Rising rank) seqs h) e at
            (omega arith))
  ]
    where
      nothing : (live : List (List Text)) → is_empty live ≡ true → concat live ≡ []
      nothing [] e = refl
      nothing (seq ∷ live) e = absurd (ground arith)

  not_in_tail :
      (x : Text) (seq : List Text) → any (λ element. text_eq element x) seq ≡ false → ¬ Memᴰ x seq
  unfolding any
  not_in_tail x [] e m = Memᴰ.not-nil m
  not_in_tail x (y ∷ seq) e m =
      let (differs, rest) = ||-eq-false (text_eq y x) (any (λ element. text_eq element x) seq) e in
      ⊎_elim (λ same. ground (arith, text_eq_iff y x, sym same)) (not_in_tail x seq rest)
        (Memᴰ.cases_cons m)

  -- A head that is in no tail stands nowhere in what is left.
  gone :
      (head : Text) (seqs : List (List Text))
      → in_tail head seqs ≡ false
      → ¬ Memᴰ head (concat (map (drop_head head) seqs))
  unfolding in_tail any concat drop_head
  gone head [] e m = Memᴰ.not-nil m
  gone head ([] ∷ seqs) e m = gone head seqs e m
  gone head ((x ∷ seq) ∷ seqs) e m =
      let (here, there) = ||-eq-false _ _ e in
      ⊎_elim (left here) (gone head seqs there) (Memᴰ.append_cases (drop_head head (x ∷ seq)) m)
    where
      left :
          any (λ element. text_eq element head) seq ≡ false → ¬ Memᴰ head (drop_head head (x ∷ seq))
      left here = elim (Bool-cases (text_eq x head)) [
        | inl same ↦ λ n. not_in_tail head seq here (rw same at n)
        | inr other ↦ λ n.
            ⊎_elim (λ d. ground (arith, text_eq_iff x head, sym d)) (not_in_tail head seq here)
              (Memᴰ.cases_cons (rw other at n))
      ]

  Merges-Nodup :
      {seqs : List (List Text)} {out : List Text}
      → Merges seqs out
      → All (Rising rank) seqs
      → Nodup out
  Merges-Nodup (done e) h = Nodup-nil
  Merges-Nodup {seqs} (stuck b e) h = rw (e ∙ never_stuck seqs h b) Nodup-nil
  Merges-Nodup {seqs} (take_head {rest} head at free m) h =
      let kept = All-Rising-drop_head head (live_of seqs) (live_of-All (Rising rank) seqs h) in
      let fresh = λ (n : Mem head rest).
        ∥∥₁_elim n ⊥_prop (λ d. gone head (live_of seqs) free (Merges-mem m head d)) in
      Nodup-cons.1 (fresh, Merges-Nodup m kept)

-- If all sequences go up in one rank, then `c3Merge` returns a list without repetitions that has the
-- elements of the sequences only, and in which every sequence keeps its order.
pub c3_merge_linear :
    (rank : Text → ℕ) (seqs : List (List Text))
    → All (Rising rank) seqs
    → (out : List Text) × (c3_merge seqs ≡ some out)
      × Nodup out
      × All (λ seq. Sublistᴰ seq out) seqs
      × ((a : Text) → Memᴰ a out → Memᴰ a (concat seqs))
c3_merge_linear rank seqs h =
    let (out, run, m) = c3_merge-Merges seqs in
    (out, run, Merges-Nodup rank m h, Merges-sublist m, Merges-mem m)
