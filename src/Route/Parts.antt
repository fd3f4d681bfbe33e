-- ===== src/Route/Parts.antt =====
-- When the segments of a path match those of a route pattern.
use mathlib.Core.Path.{◌≡◌, refl, ◌∙◌}
use mathlib.Core.Logic.{◌⊎◌, inl, inr, ◌↔◌, ⊎_elim}
use mathlib.Core.Bool.{Bool, true, false}
use mathlib.Core.Option.{Option, none, some}
use mathlib.Core.List.{List, [], ◌∷◌, map}
use native.Mathlib.Omega.{arith}
use flash_code_graph.Common.Tests.{◌==◌, if◌then◌else◌, Bool-cases}
use flash_code_graph.Common.Lists.{length}
use flash_code_graph.Common.Text.{Text, text_eq, text_eq_iff, text_eq_refl}
use flash_code_graph.Route.{segment_matches, is_catch_all, match_first, last_part, match_parts}
use flash_code_graph.Route.Urls.{param, normalize_segment}

-- A segment of a call against one of a declared pattern: a parameter on either side, or the same text.
pub data Fits : Text → Text → Type 0 where
  any_call : {r : Text} → Fits param r
  any_value : {f r : Text} → normalize_segment r ≡ param → Fits f r
  same : {r : Text} → Fits (normalize_segment r) r

-- The segments of a call against those of a pattern, whose last one may take all that is left.
pub data PathMatch : List Text → List Text → Type 0 where
  done : PathMatch [] []
  segment :
      {f r : Text} {fs rs : List Text} → Fits f r → PathMatch fs rs → PathMatch (f ∷ fs) (r ∷ rs)
  catch_all : {r : Text} {fs : List Text} → is_catch_all r ≡ true → PathMatch fs (r ∷ [])

segment_matches-Fits : (f r : Text) → segment_matches f (normalize_segment r) ≡ true → Fits f r
unfolding segment_matches
segment_matches-Fits f r h = elim (Bool-cases (text_eq f param)) [
  | inl e ↦ rw ((text_eq_iff f param).0 e) any_call
  | inr n ↦ elim (Bool-cases (text_eq (normalize_segment r) param)) [
    | inl e ↦ any_value ((text_eq_iff (normalize_segment r) param).0 e)
    | inr m ↦ rw ((text_eq_iff f (normalize_segment r)).0 (ground arith)) same
  ]
]

Fits-segment_matches : (f r : Text) → Fits f r → segment_matches f (normalize_segment r) ≡ true
unfolding segment_matches
Fits-segment_matches f r any_call = rw (text_eq_refl param) refl
Fits-segment_matches f r (any_value e) = ground (arith, text_eq_iff (normalize_segment r) param)
Fits-segment_matches f r same = ground (arith, text_eq_refl (normalize_segment r))

abbrev pub decide_parts : List Text → List Text → Option Bool
decide_parts fs rs = match_parts fs (map normalize_segment rs) rs

decide_parts-none : (fs : List Text) → decide_parts fs [] ≡ some (length fs == 0)
unfolding match_parts match_first last_part
decide_parts-none [] = refl
decide_parts-none (f ∷ fs) = ground arith

decide_parts-short : (r q : Text) (rs : List Text) → decide_parts [] (r ∷ q ∷ rs) ≡ some false
unfolding match_parts match_first
decide_parts-short r q rs = elim (last_part (r ∷ q ∷ rs)) [
  | none ↦ ground arith
  | some last ↦ ground arith
]

decide_parts-one :
    (f r : Text)
    → is_catch_all r ≡ false
    → decide_parts (f ∷ []) (r ∷ []) ≡ some (segment_matches f (normalize_segment r))
unfolding match_parts match_first last_part
decide_parts-one f r h = ground arith

decide_parts-step :
    (f r q : Text) (fs rs : List Text)
    → decide_parts (f ∷ fs) (r ∷ q ∷ rs)
      ≡ (if segment_matches f (normalize_segment r) then decide_parts fs (q ∷ rs) else some false)
unfolding match_parts match_first last_part
decide_parts-step f r q fs rs = ground arith

decide_parts-catch_all :
    (fs : List Text) (r : Text) → is_catch_all r ≡ true → decide_parts fs (r ∷ []) ≡ some true
unfolding match_parts match_first last_part
decide_parts-catch_all fs r h = ground arith

decide_parts-long :
    (f g r : Text) (fs : List Text)
    → is_catch_all r ≡ false
    → decide_parts (f ∷ g ∷ fs) (r ∷ []) ≡ some false
unfolding match_parts match_first last_part
decide_parts-long f g r fs h = ground arith

-- What the outcome of the Boolean code says about a match.
abbrev pub Verdict : List Text → List Text → Type 0
Verdict fs rs = (b : Bool) × (decide_parts fs rs ≡ some b) × ((b ≡ true) ↔ PathMatch fs rs)

PathMatch-nothing : {f : Text} {fs : List Text} → ¬ PathMatch (f ∷ fs) []
PathMatch-nothing m = elim m [ ]

PathMatch-short : {r q : Text} {rs : List Text} → ¬ PathMatch [] (r ∷ q ∷ rs)
PathMatch-short m = elim m [ ]

PathMatch-last : {r : Text} → PathMatch [] (r ∷ []) → is_catch_all r ≡ true
PathMatch-last (catch_all h) = h

PathMatch-one :
    {f r : Text} {fs : List Text}
    → PathMatch (f ∷ fs) (r ∷ [])
    → (is_catch_all r ≡ true) ⊎ (Fits f r × (fs ≡ []))
PathMatch-one (catch_all h) = inl h
PathMatch-one (segment fit done) = inr (fit, refl)

PathMatch-more :
    {f r q : Text} {fs rs : List Text}
    → PathMatch (f ∷ fs) (r ∷ q ∷ rs)
    → Fits f r × PathMatch fs (q ∷ rs)
PathMatch-more (segment fit m) = (fit, m)

decide_parts-empty : (r : Text) → is_catch_all r ≡ false → decide_parts [] (r ∷ []) ≡ some false
unfolding match_parts match_first last_part
decide_parts-empty r h = ground arith

one_part : (fs : List Text) (r : Text) → is_catch_all r ≡ false → Verdict fs (r ∷ [])
one_part [] r h = (
  false,
  decide_parts-empty r h,
  (λ e. absurd (ground arith), λ m. absurd (ground (arith, PathMatch-last m))),
)
one_part (f ∷ []) r h = (
  segment_matches f (normalize_segment r),
  decide_parts-one f r h,
  (
    λ e. segment (segment_matches-Fits f r e) done,
    λ m. ⊎_elim (λ c. absurd (ground arith)) (λ p. Fits-segment_matches f r p.0) (PathMatch-one m),
  ),
)
one_part (f ∷ g ∷ fs) r h = (
  false,
  decide_parts-long f g r fs h,
  (
    λ e. absurd (ground arith),
    λ m. ⊎_elim (λ c. absurd (ground arith)) (λ p. absurd (ground (arith, p.1))) (PathMatch-one m),
  ),
)

pub decide_parts_lem : (fs rs : List Text) → Verdict fs rs
decide_parts_lem [] [] = (true, decide_parts-none [], (λ e. done, λ m. refl))
decide_parts_lem (f ∷ fs) [] = (
  false,
  ground (arith, decide_parts-none (f ∷ fs)),
  (λ e. absurd (ground arith), λ m. absurd (PathMatch-nothing m)),
)
decide_parts_lem fs (r ∷ []) = elim (Bool-cases (is_catch_all r)) [
  | inl h ↦ (true, decide_parts-catch_all fs r h, (λ e. catch_all h, λ m. refl))
  | inr h ↦ one_part fs r h
]
decide_parts_lem [] (r ∷ q ∷ rs) = (
  false,
  decide_parts-short r q rs,
  (λ e. absurd (ground arith), λ m. absurd (PathMatch-short m)),
)
decide_parts_lem (f ∷ fs) (r ∷ q ∷ rs) =
    let (b, run, both) = decide_parts_lem fs (q ∷ rs) in
    elim (Bool-cases (segment_matches f (normalize_segment r))) [
      | inl fit ↦ (
        b,
        decide_parts-step f r q fs rs ∙ rw fit run,
        (λ e. segment (segment_matches-Fits f r fit) (both.0 e), λ m. both.1 (PathMatch-more m).1),
      )
      | inr misfit ↦ (
        false,
        decide_parts-step f r q fs rs ∙ rw misfit refl,
        (
          λ e. absurd (ground arith),
          λ m. absurd (ground (arith, Fits-segment_matches f r (PathMatch-more m).0)),
        ),
      )
    ]
