-- ===== src/Common/Text.antt =====
-- Go strings as lists of bytes, with the functions of the `strings` package that the program calls.
-- Case folding and trimming are those of ASCII text.
use Prim.Native.Nat.{ℕ, suc, ◌+◌, ◌-◌}
use Prim.Native.Char.{code}
use Prim.Native.String.{String}
use mathlib.Core.Path.{◌≡◌, refl, sym, ap, ap₂, ◌∙◌}
use mathlib.Core.Logic.{◌↔◌}
use mathlib.Core.Bool.{Bool, true, false, ◌||◌, ◌&&◌}
use mathlib.Core.Option.{Option, none, some}
use mathlib.Core.List.{List, [], ◌∷◌, ◌++◌, map}
use native.Mathlib.Omega.{arith}
use flash_code_graph.Common.Tests.{leb, ◌==◌, ==_iff, if◌then◌else◌, &&-eq-true}
use flash_code_graph.Common.Lists.{length, drop, take, take-drop, drop_front, length-append}

abbrev pub Text : Type 0
Text = List ℕ

-- The bytes of an ASCII literal.
abbrev pub text : String → Text
text String.[] = []
text (String.◌∷◌ c s) = code c ∷ text s

unfoldable pub text_eq : Text → Text → Bool
text_eq [] [] = true
text_eq [] (d ∷ t) = false
text_eq (c ∷ s) [] = false
text_eq (c ∷ s) (d ∷ t) = c == d && text_eq s t

pub text_eq_sound : (s t : Text) → text_eq s t ≡ true → s ≡ t
unfolding text_eq
text_eq_sound [] [] h = refl
text_eq_sound [] (d ∷ t) h = ground arith
text_eq_sound (c ∷ s) [] h = ground arith
text_eq_sound (c ∷ s) (d ∷ t) h =
    let (head, rest) = &&-eq-true (c == d) (text_eq s t) h in
    ap₂ (λ (x : ℕ) (y : Text). x ∷ y) ((==_iff c d).0 head) (text_eq_sound s t rest)

pub text_eq_refl : (s : Text) → text_eq s s ≡ true
unfolding text_eq
text_eq_refl [] = refl
text_eq_refl (c ∷ s) = ground (arith, text_eq_refl s)

pub text_eq_iff : (s t : Text) → (text_eq s t ≡ true) ↔ (s ≡ t)
text_eq_iff s t = (text_eq_sound s t, λ e. rw e (text_eq_refl t))

-- strings.HasPrefix
unfoldable pub has_prefix : Text → Text → Bool
has_prefix s [] = true
has_prefix [] (d ∷ p) = false
has_prefix (c ∷ s) (d ∷ p) = c == d && has_prefix s p

-- strings.HasSuffix
unfoldable pub has_suffix : Text → Text → Bool
unfolding text_eq
has_suffix s p = leb (length p) (length s) && text_eq (drop (length s - length p) s) p

pub has_suffix_iff : (s p : Text) → (has_suffix s p ≡ true) ↔ ((front : Text) × (s ≡ front ++ p))
unfolding has_suffix
has_suffix_iff s p = (
  λ h.
      let (fits, same) = &&-eq-true (leb (length p) (length s)) _ h in
      let n = length s - length p in
      (take n s, sym (take-drop n s) ∙ ap (λ z. take n s ++ z) (text_eq_sound (drop n s) p same)),
  λ (front, e).
      let size : length (front ++ p) - length p ≡ length front =
        omega (arith, length-append front p) in
      let fits : leb (length p) (length (front ++ p)) ≡ true =
        ground (arith, length-append front p) in
      let ends : text_eq (drop (length (front ++ p) - length p) (front ++ p)) p ≡ true =
        rw (size, drop_front front p) (text_eq_refl p) in
      rw (e, fits, ends) refl,
)

-- strings.TrimSuffix
unfoldable pub trim_suffix : Text → Text → Text
unfolding has_suffix
trim_suffix s p = if has_suffix s p then take (length s - length p) s else s

-- strings.TrimPrefix
unfoldable pub trim_prefix : Text → Text → Text
unfolding has_prefix
trim_prefix s p = if has_prefix s p then drop (length p) s else s

-- strings.Index: the first position, `none` for -1
unfoldable pub index_of : Text → Text → Option ℕ
unfolding has_prefix
index_of [] sub = if has_prefix [] sub then some 0 else none
index_of (c ∷ s) sub =
    let later = index_of s sub in
    if has_prefix (c ∷ s) sub then some 0 else elim later [ none ↦ none | some i ↦ some (suc i) ]

-- strings.LastIndex: the last position, `none` for -1
unfoldable pub last_index : Text → Text → Option ℕ
unfolding has_prefix
last_index [] sub = if has_prefix [] sub then some 0 else none
last_index (c ∷ s) sub = elim (last_index s sub) [
  | none ↦ if has_prefix (c ∷ s) sub then some 0 else none
  | some i ↦ some (suc i)
]

-- strings.Contains
unfoldable pub contains : Text → Text → Bool
unfolding index_of
contains s sub = elim (index_of s sub) [ none ↦ false | some i ↦ true ]

-- The part behind the last `c` and the part before it, if there is one: strings.LastIndex with the
-- two slices that its callers take.
unfoldable pub cut_last : ℕ → Text → Option (Text × Text)
cut_last c [] = none
cut_last c (d ∷ s) = elim (cut_last c s) [
  | none ↦ if d == c then some ([], s) else none
  | some (before, after) ↦ some (d ∷ before, after)
]

-- The parts round the first `c`: strings.Cut.
unfoldable pub cut_first : ℕ → Text → Option (Text × Text)
cut_first c [] = none
cut_first c (d ∷ s) =
    let later = cut_first c s in
    if d == c
    then some ([], s)
    else elim later [ none ↦ none | some (before, after) ↦ some (d ∷ before, after) ]

-- strings.Split by one byte
unfoldable pub split : ℕ → Text → List Text
split c [] = [] ∷ []
split c (d ∷ s) =
    let later = split c s in
    if d == c
    then [] ∷ later
    else elim later [ [] ↦ (d ∷ []) ∷ [] | part ∷ parts ↦ (d ∷ part) ∷ parts ]

-- strings.Join with one byte
unfoldable pub join : ℕ → List Text → Text
join c [] = []
join c (part ∷ []) = part
join c (part ∷ next ∷ parts) = part ++ c ∷ join c (next ∷ parts)

abbrev pub lower_byte : ℕ → ℕ
lower_byte c = if leb b'A' c && leb c b'Z' then c + 32 else c

abbrev pub upper_byte : ℕ → ℕ
upper_byte c = if leb b'a' c && leb c b'z' then c - 32 else c

unfoldable pub to_lower : Text → Text
to_lower s = map lower_byte s

unfoldable pub to_upper : Text → Text
to_upper s = map upper_byte s

-- strings.EqualFold
unfoldable pub equal_fold : Text → Text → Bool
unfolding to_lower text_eq
equal_fold s t = text_eq (to_lower s) (to_lower t)

abbrev pub is_space : ℕ → Bool
is_space c = c == 32 || (leb 9 c && leb c 13)

unfoldable pub trim_left : Text → Text
trim_left [] = []
trim_left (c ∷ s) = let rest = trim_left s in if is_space c then rest else c ∷ s

unfoldable pub trim_right : Text → Text
trim_right [] = []
trim_right (c ∷ s) = elim (trim_right s) [
  | [] ↦ if is_space c then [] else c ∷ []
  | d ∷ t ↦ c ∷ d ∷ t
]

-- strings.TrimSpace
unfoldable pub trim_space : Text → Text
unfolding trim_left trim_right
trim_space s = trim_right (trim_left s)

-- strings.ReplaceAll of one byte by another
unfoldable pub replace_byte : ℕ → ℕ → Text → Text
replace_byte from to s = map (λ c. if c == from then to else c) s

split_test : split b'/' (text "/a//bc") ≡ [] ∷ text "a" ∷ [] ∷ text "bc" ∷ []
unfolding split
split_test = refl

cut_last_test : cut_last b'.' (text "a.b.c") ≡ some (text "a.b", text "c")
unfolding cut_last
cut_last_test = refl
