-- ===== src/Mro/Linear.antt =====
-- The elements of a merge and their order, by induction on the relation `Merges`.
use mathlib.Core.Path.{◌≡◌, refl, ◌∙◌, subst}
use mathlib.Core.Logic.{inl, inr, ⊎_elim}
use mathlib.Core.Bool.{true}
use mathlib.Core.Option.{some}
use mathlib.Core.List.{List, [], ◌∷◌, ◌++◌, map, Memᴰ, Sublistᴰ}
use mathlib.Core.List.Memᴰ
use mathlib.Core.List.Sublistᴰ
use native.Mathlib.Omega.{arith}
use flash_code_graph.Common.Tests.{Bool-cases}
use flash_code_graph.Common.Lists.{keep_if, is_empty, All, All-map}
use flash_code_graph.Common.Text.{Text, text_eq, text_eq_sound}
use flash_code_graph.Mro.{drop_head, concat, c3_merge}
use flash_code_graph.Mro.Merge.{
  IsHead, first, later, Merges, done, stuck, take_head, live_of, c3_merge-Merges,
}

All-live_of {κ} :
    (P : List Text → Type κ) (seqs : List (List Text)) → P [] → All P (live_of seqs) → All P seqs
unfolding keep_if
All-live_of P [] n h = tt
All-live_of P ([] ∷ seqs) n h = (n, All-live_of P seqs n h)
All-live_of P ((x ∷ seq) ∷ seqs) n h = (h.0, All-live_of P seqs n h.1)

pub live_of-All {κ} :
    (P : List Text → Type κ) (seqs : List (List Text)) → All P seqs → All P (live_of seqs)
unfolding keep_if
live_of-All P [] h = tt
live_of-All P ([] ∷ seqs) h = live_of-All P seqs h.1
live_of-All P ((x ∷ seq) ∷ seqs) h = (h.0, live_of-All P seqs h.1)

All-concat : (seqs : List (List Text)) → All (λ seq. Sublistᴰ seq (concat seqs)) seqs
unfolding concat
All-concat [] = tt
All-concat (seq ∷ seqs) = (
  append_right seq (concat seqs),
  All-map (λ s. Sublistᴰ s (concat seqs)) (λ s. Sublistᴰ s (seq ++ concat seqs)) seqs
      (λ s h. Sublistᴰ.append (Sublistᴰ.nil-sublist seq) h) (All-concat seqs),
)
  where
    append_right : (xs ys : List Text) → Sublistᴰ xs (xs ++ ys)
    append_right [] ys = Sublistᴰ.nil-sublist ys
    append_right (x ∷ xs) ys = Sublistᴰ.cons-cons refl (append_right xs ys)

-- A sequence is in order in the result if what is left of it is, behind its head.
sublist-drop_head :
    (head : Text) (seq out : List Text)
    → Sublistᴰ (drop_head head seq) out
    → Sublistᴰ seq (head ∷ out)
unfolding drop_head
sublist-drop_head head [] out h = Sublistᴰ.cons h
sublist-drop_head head (x ∷ seq) out h = elim (Bool-cases (text_eq x head)) [
  | inl same ↦ Sublistᴰ.cons-cons (text_eq_sound x head same) (rw same at h)
  | inr other ↦ Sublistᴰ.cons (rw other at h)
]

All-drop_head :
    (head : Text) (seqs : List (List Text)) (out : List Text)
    → All (λ seq. Sublistᴰ seq out) (map (drop_head head) seqs)
    → All (λ seq. Sublistᴰ seq (head ∷ out)) seqs
All-drop_head head [] out h = tt
All-drop_head head (seq ∷ seqs) out h =
    (sublist-drop_head head seq out h.0, All-drop_head head seqs out h.1)

none_live {κ} :
    (P : List Text → Type κ) (live : List (List Text)) → is_empty live ≡ true → All P live
none_live P [] e = tt
none_live P (x ∷ live) e = absurd (ground arith)

-- Every sequence keeps its order in the result.
pub Merges-sublist :
    {seqs : List (List Text)} {out : List Text}
    → Merges seqs out
    → All (λ seq. Sublistᴰ seq out) seqs
Merges-sublist {seqs} (done e) =
    All-live_of (λ seq. Sublistᴰ seq []) seqs (Sublistᴰ.nil-sublist [])
      (none_live (λ seq. Sublistᴰ seq []) (live_of seqs) e)
Merges-sublist {seqs} {out} (stuck b e) = rw e (
    All-live_of (λ seq. Sublistᴰ seq (concat (live_of seqs))) seqs (Sublistᴰ.nil-sublist _)
      (All-concat (live_of seqs)))
Merges-sublist {seqs} (take_head {rest} head at free m) =
    All-live_of (λ seq. Sublistᴰ seq (head ∷ rest)) seqs (Sublistᴰ.nil-sublist _)
      (All-drop_head head (live_of seqs) rest (Merges-sublist m))

concat-live_of : (seqs : List (List Text)) → concat (live_of seqs) ≡ concat seqs
unfolding concat keep_if
concat-live_of [] = refl
concat-live_of ([] ∷ seqs) = concat-live_of seqs
concat-live_of ((x ∷ seq) ∷ seqs) = rw (concat-live_of seqs)

mem-drop_head : (head a : Text) (seq : List Text) → Memᴰ a (drop_head head seq) → Memᴰ a seq
unfolding drop_head
mem-drop_head head a [] m = m
mem-drop_head head a (x ∷ seq) m = elim (Bool-cases (text_eq x head)) [
  | inl same ↦ Memᴰ.tail (rw same at m)
  | inr other ↦ rw other at m
]

mem-concat-drop_head :
    (head a : Text) (seqs : List (List Text))
    → Memᴰ a (concat (map (drop_head head) seqs))
    → Memᴰ a (concat seqs)
unfolding concat
mem-concat-drop_head head a [] m = m
mem-concat-drop_head head a (seq ∷ seqs) m =
    ⊎_elim (λ here. Memᴰ.append_left (concat seqs) (mem-drop_head head a seq here))
      (λ there. Memᴰ.append_right seq (mem-concat-drop_head head a seqs there))
      (Memᴰ.append_cases (drop_head head seq) m)

mem-IsHead : (head : Text) (seqs : List (List Text)) → IsHead head seqs → Memᴰ head (concat seqs)
unfolding concat
mem-IsHead head seqs first = Memᴰ.head refl
mem-IsHead head seqs (later {seq} {seqs = more} at) =
    Memᴰ.append_right seq (mem-IsHead head more at)

-- The result has no other elements than the sequences.
pub Merges-mem :
    {seqs : List (List Text)} {out : List Text}
    → Merges seqs out
    → (a : Text) → Memᴰ a out
    → Memᴰ a (concat seqs)
Merges-mem (done e) a m = absurd (Memᴰ.not-nil m)
Merges-mem {seqs} (stuck b e) a m = subst (Memᴰ a) (e ∙ concat-live_of seqs) m
Merges-mem {seqs} (take_head head at free r) a m = subst (Memᴰ a) (concat-live_of seqs) (
    ⊎_elim (λ e. rw e (mem-IsHead head (live_of seqs) at))
      (λ t. mem-concat-drop_head head a (live_of seqs) (Merges-mem r a t)) (Memᴰ.cases_cons m))

-- `c3Merge` always returns. Every input sequence stands in the result in its own order, and the result
-- has no elements but those of the sequences, whether they agree on an order or not.
pub c3_merge_order :
    (seqs : List (List Text))
    → (out : List Text) × (c3_merge seqs ≡ some out)
      × All (λ seq. Sublistᴰ seq out) seqs
      × ((a : Text) → Memᴰ a out → Memᴰ a (concat seqs))
c3_merge_order seqs =
    let (out, run, m) = c3_merge-Merges seqs in (out, run, Merges-sublist m, Merges-mem m)
