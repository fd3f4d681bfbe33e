-- ===== src/Route/Patterns.antt =====
-- The parameter patterns of internal/core/parser/urlutil/urlutil.go as descriptions of a segment, and the
-- segments that `NormalizePathParams` unifies.
use Prim.Native.Nat.{ℕ, ◌≤◌}
use mathlib.Core.Path.{◌≡◌, refl, ap, sym, subst, ◌∙◌}
use mathlib.Core.Logic.{◌⊎◌, ◌↔◌, inl, inr, ⊎_elim}
use mathlib.Core.Bool.{Bool, true, false, ◌||◌, ◌&&◌, not}
use mathlib.Core.List.{List, [], ◌∷◌, ◌++◌, map}
use native.Mathlib.Omega.{arith}
use flash_code_graph.Common.Tests.{◌==◌, ==_iff, leb, Bool-cases, &&-eq-true}
use flash_code_graph.Common.Lists.{any, all, All}
use flash_code_graph.Common.Text.{Text, split}
use flash_code_graph.Route.Urls.{
  param, closes, has_bracket, is_word_start, has_colon_name, has_template, has_param_pattern,
  is_numeric, normalize_segment, normalize_path_params,
}
use flash_code_graph.Route.Segments.{NoByte, split-normalize}

-- A pattern that holds at some place of a text.
pub data Anywhere (P : Text → Type 0) : Text → Type 0 where
  here : {s : Text} → P s → Anywhere P s
  later : {c : ℕ} {s : Text} → Anywhere P s → Anywhere P (c ∷ s)

-- One byte at least, none of them the closing byte, and the closing byte.
abbrev pub Closed : ℕ → Text → Type 0
Closed close s =
    (d : ℕ) × (inside : Text) × (after : Text) × NoByte close (d ∷ inside)
    × (s ≡ d ∷ (inside ++ close ∷ after))

abbrev pub Bracket : ℕ → ℕ → Text → Type 0
Bracket open_byte close s = (rest : Text) × Closed close rest × (s ≡ open_byte ∷ rest)

abbrev pub WordStart : ℕ → Type 0
WordStart c = (((b'a' ≤ c) × (c ≤ b'z')) ⊎ ((b'A' ≤ c) × (c ≤ b'Z'))) ⊎ (c ≡ b'_')

abbrev pub ColonName : Text → Type 0
ColonName s = (d : ℕ) × (rest : Text) × WordStart d × (s ≡ b':' ∷ d ∷ rest)

abbrev pub Template : Text → Type 0
Template s = (rest : Text) × Closed b'}' rest × (s ≡ b'$' ∷ b'{' ∷ rest)

-- {id}, :id, <id>, [id] or ${id} somewhere in a segment.
abbrev pub HasPattern : Text → Type 0
HasPattern seg =
    (((Anywhere (Bracket b'{' b'}') seg ⊎ Anywhere ColonName seg)
        ⊎ Anywhere (Bracket b'<' b'>') seg)
      ⊎ Anywhere (Bracket b'[' b']') seg)
    ⊎ Anywhere Template seg

-- A segment stands for a parameter by a pattern, or because it consists of digits.
abbrev pub IsParam : Text → Type 0
IsParam seg = HasPattern seg ⊎ ((¬ (seg ≡ [])) × All (λ c. (b'0' ≤ c) × (c ≤ b'9')) seg)

-- A scan that tests a pattern at every place.
module _ (P : Text → Type 0) (f head : Text → Bool) (nil : f [] ≡ head [])
    (cons : (c : ℕ) (s : Text) → f (c ∷ s) ≡ (head (c ∷ s) || f s))
    (at : (s : Text) → (head s ≡ true) ↔ P s) where
  scan_sound : (s : Text) → f s ≡ true → Anywhere P s
  scan_sound [] h = here ((at []).0 (sym nil ∙ h))
  scan_sound (c ∷ s) h = elim (Bool-cases (head (c ∷ s))) [
    | inl now ↦ here ((at (c ∷ s)).0 now)
    | inr not_now ↦ later (scan_sound s (ground (arith, cons c s)))
  ]

  scan_complete : (s : Text) → Anywhere P s → f s ≡ true
  scan_complete [] (here p) = nil ∙ (at []).1 p
  scan_complete (c ∷ s) (here p) = let e = (at (c ∷ s)).1 p in ground (arith, cons c s)
  scan_complete (c ∷ s) (later w) = let e = scan_complete s w in ground (arith, cons c s)

  scan_iff : (s : Text) → (f s ≡ true) ↔ Anywhere P s
  scan_iff s = (scan_sound s, scan_complete s)

any-split :
    (c : ℕ) (s : Text)
    → any (λ d. d == c) s ≡ true
    → (inside : Text) × (after : Text) × NoByte c inside × (s ≡ inside ++ c ∷ after)
unfolding any
any-split c [] h = absurd (ground arith)
any-split c (d ∷ s) h = elim (Bool-cases (d == c)) [
  | inl e ↦ ([], s, tt, ap (λ z. z ∷ s) ((==_iff d c).0 e))
  | inr n ↦
      let (inside, after, clean, shape) = any-split c s (ground arith) in
      (d ∷ inside, after, (n, clean), ap (λ (z : Text). d ∷ z) shape)
]

any-append_byte : (c : ℕ) (s after : Text) → any (λ d. d == c) (s ++ c ∷ after) ≡ true
unfolding any
any-append_byte c [] after = ground (arith, ==_iff c c)
any-append_byte c (d ∷ s) after = let e = any-append_byte c s after in ground arith

closes_iff : (close : ℕ) (s : Text) → (closes close s ≡ true) ↔ Closed close s
unfolding closes
closes_iff close [] =
    (λ h. absurd (ground arith), λ (d, inside, after, clean, e). absurd (ground arith))
closes_iff close (c ∷ s) = (
  λ h.
      let (first, rest) = &&-eq-true (not (c == close)) _ h in
      let (inside, after, clean, e) = any-split close s rest in
      (c, inside, after, (ground arith, clean), ap (λ (z : Text). c ∷ z) e),
  λ (d, inside, after, clean, e).
      subst (λ z. closes close z ≡ true) (sym e)
        (let found = any-append_byte close inside after in let first = clean.0 in ground arith),
)

bracket_head : ℕ → ℕ → Text → Bool
bracket_head open_byte close [] = false
bracket_head open_byte close (c ∷ rest) = c == open_byte && closes close rest

bracket_head_iff :
    (open_byte close : ℕ) (s : Text)
    → (bracket_head open_byte close s ≡ true) ↔ Bracket open_byte close s
unfolding bracket_head
bracket_head_iff open_byte close [] =
    (λ h. absurd (ground arith), λ (rest, closed, e). absurd (ground arith))
bracket_head_iff open_byte close (c ∷ s) = (
  λ h.
      let (opens, ends) = &&-eq-true (c == open_byte) _ h in
      (s, (closes_iff close s).0 ends, ap (λ z. z ∷ s) ((==_iff c open_byte).0 opens)),
  λ (rest, closed, e).
      subst (λ z. bracket_head open_byte close z ≡ true) (sym e)
        (let ends = (closes_iff close rest).1 closed in ground (arith, ==_iff open_byte open_byte)),
)

has_bracket_iff :
    (open_byte close : ℕ) (s : Text)
    → (has_bracket open_byte close s ≡ true) ↔ Anywhere (Bracket open_byte close) s
unfolding has_bracket bracket_head
has_bracket_iff open_byte close =
    scan_iff (Bracket open_byte close) (has_bracket open_byte close) (bracket_head open_byte close)
      refl (λ c s. refl) (bracket_head_iff open_byte close)

in_range_iff : (low high c : ℕ) → ((leb low c && leb c high) ≡ true) ↔ ((low ≤ c) × (c ≤ high))
in_range_iff low high c = (
  λ h. let (above, below) = &&-eq-true (leb low c) _ h in (ground arith, ground arith),
  λ (above, below). ground arith,
)

||-iff : {P Q : Type 0} (a b : Bool) → (a ≡ true) ↔ P → (b ≡ true) ↔ Q → ((a || b) ≡ true) ↔ (P ⊎ Q)
||-iff true b p q = (λ h. inl (p.0 refl), λ h. refl)
||-iff false b p q =
    (λ h. inr (q.0 h), ⊎_elim (λ h. absurd (let e = p.1 h in ground arith)) (λ h. q.1 h))

is_word_start_iff : (c : ℕ) → (is_word_start c ≡ true) ↔ WordStart c
unfolding is_word_start
is_word_start_iff c =
    ||-iff _ _ (||-iff _ _ (in_range_iff b'a' b'z' c) (in_range_iff b'A' b'Z' c)) (==_iff c b'_')

colon_head : Text → Bool
colon_head [] = false
colon_head (c ∷ []) = false
colon_head (c ∷ d ∷ rest) = c == b':' && is_word_start d

colon_head_iff : (s : Text) → (colon_head s ≡ true) ↔ ColonName s
unfolding colon_head
colon_head_iff [] = (λ h. absurd (ground arith), λ (d, rest, w, e). absurd (ground arith))
colon_head_iff (c ∷ []) = (λ h. absurd (ground arith), λ (d, rest, w, e). absurd (ground arith))
colon_head_iff (c ∷ d ∷ s) = (
  λ h.
      let (colon, word) = &&-eq-true (c == b':') _ h in
      (d, s, (is_word_start_iff d).0 word, ap (λ z. z ∷ d ∷ s) ((==_iff c b':').0 colon)),
  λ (d, rest, w, e).
      subst (λ z. colon_head z ≡ true) (sym e)
        (let word = (is_word_start_iff d).1 w in ground arith),
)

has_colon_name-cons :
    (c : ℕ) (s : Text) → has_colon_name (c ∷ s) ≡ (colon_head (c ∷ s) || has_colon_name s)
unfolding has_colon_name colon_head
has_colon_name-cons c [] = refl
has_colon_name-cons c (d ∷ s) = refl

has_colon_name_iff : (s : Text) → (has_colon_name s ≡ true) ↔ Anywhere ColonName s
unfolding has_colon_name colon_head
has_colon_name_iff =
    scan_iff ColonName has_colon_name colon_head refl has_colon_name-cons colon_head_iff

template_head : Text → Bool
template_head [] = false
template_head (c ∷ []) = false
template_head (c ∷ d ∷ rest) = c == b'$' && d == b'{' && closes b'}' rest

template_head_iff : (s : Text) → (template_head s ≡ true) ↔ Template s
unfolding template_head
template_head_iff [] = (λ h. absurd (ground arith), λ (rest, closed, e). absurd (ground arith))
template_head_iff (c ∷ []) =
    (λ h. absurd (ground arith), λ (rest, closed, e). absurd (ground arith))
template_head_iff (c ∷ d ∷ s) = (
  λ h.
      let (starts, ends) = &&-eq-true (c == b'$' && d == b'{') _ h in
      let (dollar, opens) = &&-eq-true (c == b'$') _ starts in
      (
        s,
        (closes_iff b'}' s).0 ends,
        ap (λ z. z ∷ d ∷ s) ((==_iff c b'$').0 dollar)
            ∙ ap (λ (z : ℕ). b'$' ∷ z ∷ s) ((==_iff d b'{').0 opens),
      ),
  λ (rest, closed, e).
      subst (λ z. template_head z ≡ true) (sym e)
        (let ends = (closes_iff b'}' rest).1 closed in ground arith),
)

has_template-cons :
    (c : ℕ) (s : Text) → has_template (c ∷ s) ≡ (template_head (c ∷ s) || has_template s)
unfolding has_template template_head
has_template-cons c [] = refl
has_template-cons c (d ∷ s) = refl

has_template_iff : (s : Text) → (has_template s ≡ true) ↔ Anywhere Template s
unfolding has_template template_head
has_template_iff =
    scan_iff Template has_template template_head refl has_template-cons template_head_iff

all-digits :
    (s : Text)
    → (all (λ c. leb b'0' c && leb c b'9') s ≡ true) ↔ All (λ c. (b'0' ≤ c) × (c ≤ b'9')) s
unfolding all
all-digits [] = (λ h. tt, λ h. refl)
all-digits (c ∷ s) =
    let rest = all-digits s in
    (
      λ h.
          let (digit, digits) = &&-eq-true (leb b'0' c && leb c b'9') _ h in
          let (low, high) = &&-eq-true (leb b'0' c) _ digit in
          ((ground arith, ground arith), rest.0 digits),
      λ (digit, digits).
          let e = rest.1 digits in let low = digit.0 in let high = digit.1 in ground arith,
    )

is_numeric_iff :
    (seg : Text)
    → (is_numeric seg ≡ true) ↔ ((¬ (seg ≡ [])) × All (λ c. (b'0' ≤ c) × (c ≤ b'9')) seg)
unfolding is_numeric
is_numeric_iff [] = (λ h. absurd (ground arith), λ (full, digits). absurd (full refl))
is_numeric_iff (c ∷ s) = (
  λ h. (λ e. absurd (ground arith), (all-digits (c ∷ s)).0 h),
  λ (full, digits). (all-digits (c ∷ s)).1 digits,
)

IsParam-iff : (seg : Text) → ((has_param_pattern seg || is_numeric seg) ≡ true) ↔ IsParam seg
unfolding has_param_pattern
IsParam-iff seg =
    let two = ||-iff _ _ (has_bracket_iff b'{' b'}' seg) (has_colon_name_iff seg) in
    let three = ||-iff _ _ two (has_bracket_iff b'<' b'>' seg) in
    let four = ||-iff _ _ three (has_bracket_iff b'[' b']' seg) in
    ||-iff _ _ (||-iff _ _ four (has_template_iff seg)) (is_numeric_iff seg)

-- Segments and what they are normalised to, one by one.
pub data Normalises : List Text → List Text → Type 0 where
  done : Normalises [] []
  unified :
      {seg : Text} {segs out : List Text}
      → IsParam seg
      → Normalises segs out
      → Normalises (seg ∷ segs) (param ∷ out)
  unchanged :
      {seg : Text} {segs out : List Text}
      → ¬ IsParam seg
      → Normalises segs out
      → Normalises (seg ∷ segs) (seg ∷ out)

empty_plain : (has_param_pattern [] || is_numeric []) ≡ false
unfolding has_param_pattern has_bracket has_colon_name has_template is_numeric
empty_plain = refl

map-Normalises : (segs : List Text) → Normalises segs (map normalize_segment segs)
unfolding normalize_segment
map-Normalises [] = done
map-Normalises ([] ∷ segs) =
    unchanged (λ p. absurd (let e = (IsParam-iff []).1 p in ground (arith, empty_plain)))
      (map-Normalises segs)
map-Normalises ((c ∷ s) ∷ segs) =
    elim (Bool-cases (has_param_pattern (c ∷ s) || is_numeric (c ∷ s))) [
      | inl found ↦ rw found (unified ((IsParam-iff (c ∷ s)).0 found) (map-Normalises segs))
      | inr plain ↦ rw plain (
          unchanged (λ p. absurd (let e = (IsParam-iff (c ∷ s)).1 p in ground arith))
            (map-Normalises segs))
    ]

-- `NormalizePathParams` keeps the number of segments between slashes and their order. It puts {param} for
-- exactly the segments that consist of digits or have {id}, :id, <id>, [id] or ${id} somewhere in
-- them, where the brackets hold one byte at least and a name after a colon starts with a letter or
-- an underscore, and it keeps every other segment as it is.
pub normalize_path_params_lem :
    (path : Text) → Normalises (split b'/' path) (split b'/' (normalize_path_params path))
normalize_path_params_lem path =
    subst (Normalises (split b'/' path)) (sym (split-normalize path))
      (map-Normalises (split b'/' path))
