-- ===== src/Route/Segments.antt =====
-- Paths cut at the slashes and joined again, and what `NormalizePathParams` does to the segments.
use Prim.Native.Nat.{ℕ}
use mathlib.Core.Path.{◌≡◌, refl, ap, ◌∙◌, subst}
use mathlib.Core.Logic.{inl, inr}
use mathlib.Core.Bool.{false, ◌||◌}
use mathlib.Core.List.{List, [], ◌∷◌, ◌++◌, map}
use native.Mathlib.Omega.{arith}
use flash_code_graph.Common.Tests.{◌==◌, Bool-cases}
use flash_code_graph.Common.Lists.{any, keep_if, All}
use flash_code_graph.Common.Text.{Text, split, join}
use flash_code_graph.Route.{split_path, non_blank}
use flash_code_graph.Route.Urls.{
  param, closes, has_bracket, has_param_pattern, is_numeric, normalize_segment,
  normalize_path_params,
}

abbrev pub NoByte : ℕ → Text → Type 0
NoByte c s = All (λ d. (d == c) ≡ false) s

split-cons : (c : ℕ) (s : Text) → (part : Text) × (parts : List Text) × (split c s ≡ part ∷ parts)
unfolding split
split-cons c [] = ([], [], refl)
split-cons c (e ∷ s) =
    let (part, parts, cut) = split-cons c s in
    elim (Bool-cases (e == c)) [
      | inl here ↦ ([], split c s, rw here refl)
      | inr there ↦ (e ∷ part, parts, rw (there, cut) refl)
    ]

split-NoByte : (c : ℕ) (s : Text) → All (NoByte c) (split c s)
unfolding split
split-NoByte c [] = (tt, tt)
split-NoByte c (e ∷ s) =
    let rest = split-NoByte c s in
    let (part, parts, cut) = split-cons c s in
    elim (Bool-cases (e == c)) [
      | inl here ↦ rw here (tt, rest)
      | inr there ↦
          let both : All (NoByte c) (part ∷ parts) = subst (All (NoByte c)) cut rest in
          rw (there, cut) ((there, both.0), both.1)
    ]

split-append_byte :
    (c : ℕ) (part s : Text) → NoByte c part → split c (part ++ c ∷ s) ≡ part ∷ split c s
unfolding split
split-append_byte c [] s h = ground arith
split-append_byte c (d ∷ part) s h = rw (h.0, split-append_byte c part s h.1) refl

split-alone : (c : ℕ) (part : Text) → NoByte c part → split c part ≡ part ∷ []
unfolding split
split-alone c [] h = refl
split-alone c (d ∷ part) h = rw (h.0, split-alone c part h.1) refl

pub split-join :
    (c : ℕ) (part : Text) (parts : List Text)
    → All (NoByte c) (part ∷ parts)
    → split c (join c (part ∷ parts)) ≡ part ∷ parts
unfolding join
split-join c part [] h = split-alone c part h.0
split-join c part (next ∷ parts) h =
    split-append_byte c part (join c (next ∷ parts)) h.0
    ∙ ap (λ (t : List Text). part ∷ t) (split-join c next parts h.1)

normalize_segment-NoByte : (seg : Text) → NoByte b'/' seg → NoByte b'/' (normalize_segment seg)
unfolding normalize_segment
normalize_segment-NoByte [] h = tt
normalize_segment-NoByte (c ∷ seg) h =
    elim (Bool-cases (has_param_pattern (c ∷ seg) || is_numeric (c ∷ seg))) [
      | inl found ↦ rw found (refl, (refl, (refl, (refl, (refl, (refl, (refl, tt)))))))
      | inr plain ↦ rw plain h
    ]

normalize_segment-map :
    (segs : List Text) → All (NoByte b'/') segs → All (NoByte b'/') (map normalize_segment segs)
normalize_segment-map [] h = tt
normalize_segment-map (seg ∷ segs) h =
    (normalize_segment-NoByte seg h.0, normalize_segment-map segs h.1)

normalize_segment-param : normalize_segment param ≡ param
unfolding normalize_segment has_param_pattern has_bracket closes any is_numeric
normalize_segment-param = refl

normalize_segment_idem :
    (seg : Text) → normalize_segment (normalize_segment seg) ≡ normalize_segment seg
unfolding normalize_segment
normalize_segment_idem [] = refl
normalize_segment_idem (c ∷ seg) =
    elim (Bool-cases (has_param_pattern (c ∷ seg) || is_numeric (c ∷ seg))) [
      | inl found ↦ rw found normalize_segment-param
      | inr plain ↦ rw (plain, plain) refl
    ]

map-normalize_segment_idem :
    (segs : List Text)
    → map normalize_segment (map normalize_segment segs) ≡ map normalize_segment segs
map-normalize_segment_idem [] = refl
map-normalize_segment_idem (seg ∷ segs) =
    cc (normalize_segment_idem seg, map-normalize_segment_idem segs)

-- The segments of a normalised path are the normalised segments of the path.
pub split-normalize :
    (path : Text)
    → split b'/' (normalize_path_params path) ≡ map normalize_segment (split b'/' path)
unfolding normalize_path_params
split-normalize path =
    let (part, parts, cut) = split-cons b'/' path in
    let clean : All (NoByte b'/') (part ∷ parts) =
      subst (All (NoByte b'/')) cut (split-NoByte b'/' path) in
    rw
      (
        cut,
        split-join b'/' (normalize_segment part) (map normalize_segment parts)
            (normalize_segment-map (part ∷ parts) clean),
      )
      refl

-- Normalising a path a second time changes nothing.
pub normalize_path_params_idem :
    (path : Text) → normalize_path_params (normalize_path_params path) ≡ normalize_path_params path
unfolding normalize_path_params
normalize_path_params_idem path =
    ap (λ (segs : List Text). join b'/' (map normalize_segment segs)) (split-normalize path)
    ∙ ap (join b'/') (map-normalize_segment_idem (split b'/' path))

non_blank-normalize_segment : (seg : Text) → non_blank (normalize_segment seg) ≡ non_blank seg
unfolding normalize_segment non_blank
non_blank-normalize_segment [] = refl
non_blank-normalize_segment (c ∷ seg) =
    elim (Bool-cases (has_param_pattern (c ∷ seg) || is_numeric (c ∷ seg))) [
      | inl found ↦ rw found refl
      | inr plain ↦ rw plain refl
    ]

keep_if-normalize_segment :
    (segs : List Text)
    → keep_if non_blank (map normalize_segment segs)
      ≡ map normalize_segment (keep_if non_blank segs)
unfolding keep_if
keep_if-normalize_segment [] = refl
keep_if-normalize_segment (seg ∷ segs) = elim (Bool-cases (non_blank seg)) [
  | inl full ↦ rw (non_blank-normalize_segment seg, full, keep_if-normalize_segment segs) refl
  | inr blank ↦ rw (non_blank-normalize_segment seg, blank, keep_if-normalize_segment segs) refl
]

pub split_path-normalize :
    (path : Text)
    → split_path (normalize_path_params path) ≡ map normalize_segment (split_path path)
unfolding split_path
split_path-normalize path =
    ap (keep_if non_blank) (split-normalize path) ∙ keep_if-normalize_segment (split b'/' path)
