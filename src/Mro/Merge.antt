-- ===== src/Mro/Merge.antt =====
-- One round of `c3Merge`, and its loop: it ends, and keeps the order of every sequence.
use Prim.Native.Nat.{ℕ, zero, suc, ◌<◌, ◌≤◌}
use mathlib.Core.Path.{◌≡◌, refl, ap, ◌∙◌}
use mathlib.Core.Logic.{inl, inr}
use mathlib.Core.Bool.{true, false}
use mathlib.Core.Option
use mathlib.Core.Option.{Option, none, some}
use mathlib.Core.List.{List, [], ◌∷◌, ◌++◌, map, append-nil, append_assoc}
use native.Mathlib.Omega.{arith}
use flash_code_graph.Common.Tests.{Bool-cases, Option-cases}
use flash_code_graph.Common.Lists.{length, keep_if, is_empty}
use flash_code_graph.Common.Text.{Text, text_eq_refl}
use flash_code_graph.Mro.{
  non_empty, in_tail, pick, drop_head, concat, c3_loop, total_length, c3_merge,
}

-- The loop with no result so far.
pub merged : ℕ → List (List Text) → Option (List Text)
merged zero seqs = none
merged (suc fuel) seqs =
    let live = keep_if non_empty seqs in
    elim (is_empty live) [
      | true ↦ some []
      | false ↦ elim (pick live live) [
        | none ↦ some (concat live)
        | some head ↦ Option.map (λ rest. head ∷ rest) (merged fuel (map (drop_head head) live))
      ]
    ]

pub c3_loop-merged :
    (fuel : ℕ) (seqs : List (List Text)) (result : List Text)
    → c3_loop fuel seqs result ≡ Option.map (λ rest. result ++ rest) (merged fuel seqs)
unfolding c3_loop merged
c3_loop-merged zero seqs result = refl
c3_loop-merged (suc fuel) seqs result =
    let live = keep_if non_empty seqs in
    elim (Bool-cases (is_empty live)) [
      | inl empty ↦ rw (empty, c3_loop, merged) (ground (arith, append-nil result))
      | inr full ↦ elim (Option-cases (pick live live)) [
        | inl stuck ↦ rw (full, c3_loop, merged) (rw stuck)
        | inr (head, found) ↦
            let ih = c3_loop-merged fuel (map (drop_head head) live) (result ++ head ∷ []) in
            rw (full, c3_loop, merged)
              (rw found (ih ∙ regroup (merged fuel (map (drop_head head) live)) head))
      ]
    ]
  where
    regroup :
        (m : Option (List Text)) (head : Text)
        → Option.map (λ rest. (result ++ head ∷ []) ++ rest) m
          ≡ Option.map (λ rest. result ++ rest) (Option.map (λ rest. head ∷ rest) m)
    regroup none head = refl
    regroup (some rest) head =
        ap {B = Option (List Text)} some (append_assoc result (head ∷ []) rest)

total_length-live :
    (seqs : List (List Text)) → total_length (keep_if non_empty seqs) ≡ total_length seqs
unfolding total_length keep_if
total_length-live [] = refl
total_length-live ([] ∷ seqs) = omega (arith, total_length-live seqs)
total_length-live ((x ∷ seq) ∷ seqs) = omega (arith, total_length-live seqs)

-- The picked head is the first element of one of the sequences scanned, and in no tail.
pub data IsHead (head : Text) : List (List Text) → Type 0 where
  first : {seq : List Text} {seqs : List (List Text)} → IsHead head ((head ∷ seq) ∷ seqs)
  later : {seq : List Text} {seqs : List (List Text)} → IsHead head seqs → IsHead head (seq ∷ seqs)

pick-IsHead :
    (rest seqs : List (List Text)) (head : Text)
    → pick rest seqs ≡ some head
    → IsHead head rest × (in_tail head seqs ≡ false)
unfolding pick
pick-IsHead [] seqs head h = absurd (ground arith)
pick-IsHead ([] ∷ rest) seqs head h =
    let (at, free) = pick-IsHead rest seqs head h in (later at, free)
pick-IsHead ((x ∷ seq) ∷ rest) seqs head h = elim (Bool-cases (in_tail x seqs)) [
  | inl blocked ↦ let (at, free) = pick-IsHead rest seqs head (ground arith) in (later at, free)
  | inr free ↦ let e : x ≡ head = ground arith in rw (← e) (first, free)
]

length-drop_head-le : (head : Text) (seq : List Text) → length (drop_head head seq) ≤ length seq
unfolding drop_head
length-drop_head-le head [] = omega arith
length-drop_head-le head (x ∷ seq) = ground arith

total_length-drop_head-le :
    (head : Text) (seqs : List (List Text))
    → total_length (map (drop_head head) seqs) ≤ total_length seqs
unfolding total_length
total_length-drop_head-le head [] = omega arith
total_length-drop_head-le head (seq ∷ seqs) =
    omega (arith, length-drop_head-le head seq, total_length-drop_head-le head seqs)

total_length-drop_head-lt :
    (head : Text) (seqs : List (List Text))
    → IsHead head seqs
    → total_length (map (drop_head head) seqs) < total_length seqs
unfolding total_length drop_head
total_length-drop_head-lt head seqs (first {seq} {seqs = more}) =
    rw (text_eq_refl head, drop_head) (omega (arith, total_length-drop_head-le head more))
total_length-drop_head-lt head seqs (later {seq} {seqs = more} at) =
    omega (arith, length-drop_head-le head seq, total_length-drop_head-lt head more at)

abbrev pub live_of : List (List Text) → List (List Text)
live_of seqs = keep_if non_empty seqs

-- The runs of the merge: all sequences are used up, or no head can be taken, or one is taken.
pub data Merges : List (List Text) → List Text → Type 0 where
  done : {seqs : List (List Text)} → is_empty (live_of seqs) ≡ true → Merges seqs []
  stuck :
      {seqs : List (List Text)} {out : List Text}
      → pick (live_of seqs) (live_of seqs) ≡ none
      → out ≡ concat (live_of seqs)
      → Merges seqs out
  take_head :
      {seqs : List (List Text)} {rest : List Text} (head : Text)
      → IsHead head (live_of seqs)
      → in_tail head (live_of seqs) ≡ false
      → Merges (map (drop_head head) (live_of seqs)) rest
      → Merges seqs (head ∷ rest)

merged-Merges :
    (fuel : ℕ) (seqs : List (List Text))
    → total_length seqs < fuel
    → (out : List Text) × (merged fuel seqs ≡ some out) × Merges seqs out
unfolding merged
merged-Merges zero seqs h = absurd (omega arith)
merged-Merges (suc fuel) seqs h = elim (Bool-cases (is_empty (live_of seqs))) [
  | inl empty ↦ ([], rw (empty, merged) refl, done empty)
  | inr full ↦ elim (Option-cases (pick (live_of seqs) (live_of seqs))) [
    | inl blocked ↦ (concat (live_of seqs), rw (full, merged) (rw blocked), stuck blocked refl)
    | inr (head, found) ↦
        let (at, free) = pick-IsHead (live_of seqs) (live_of seqs) head found in
        let shorter = total_length-drop_head-lt head (live_of seqs) at in
        let (rest, run, m) =
          merged-Merges fuel (map (drop_head head) (live_of seqs))
            (omega (arith, shorter, total_length-live seqs)) in
        (head ∷ rest, rw (full, merged) (rw (found, run)), take_head head at free m)
  ]
]

-- The fuel of `c3_merge` is enough: every input is merged.
pub c3_merge-Merges :
    (seqs : List (List Text)) → (out : List Text) × (c3_merge seqs ≡ some out) × Merges seqs out
unfolding c3_merge
c3_merge-Merges seqs =
    let (out, run, m) = merged-Merges (suc (total_length seqs)) seqs (omega arith) in
    (out, rw (c3_loop-merged (suc (total_length seqs)) seqs [], run), m)
