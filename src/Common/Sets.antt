-- ===== src/Common/Sets.antt =====
-- Go maps from strings to bool that are only filled, as lists without repetitions.
use Prim.Native.Nat.{ℕ, ◌≤◌, ◌<◌}
use mathlib.Core.Path.{◌≡◌, refl, sym}
use mathlib.Core.Logic.{◌⊎◌, ◌↔◌, inl, inr, ⊎_elim, ∥∥₁_elim}
use mathlib.Core.Bool.{Bool, true, false, not}
use mathlib.Core.List.{List, [], ◌∷◌, ◌++◌, Memᴰ, Mem, Nodup, Nodup-nil, Nodup-cons}
use mathlib.Core.List.Memᴰ
use mathlib.Core.HLevel.{⊥_prop}
use native.Mathlib.Omega.{arith}
use flash_code_graph.Common.Tests.{Bool-cases, if◌then◌else◌}
use flash_code_graph.Common.Lists.{any, length, keep_if}
use flash_code_graph.Common.Keep.{Memᴰ-keep_if}
use flash_code_graph.Common.Text.{Text, text_eq, text_eq_iff}

unfoldable pub in_set : Text → List Text → Bool
in_set x set = any (text_eq x) set

-- set[x] = true
unfoldable pub add_to_set : Text → List Text → List Text
unfolding in_set
add_to_set x set = if in_set x set then set else set ++ x ∷ []

pub in_set_iff : (x : Text) (set : List Text) → (in_set x set ≡ true) ↔ Memᴰ x set
unfolding in_set any
in_set_iff x [] = (λ h. absurd (ground arith), λ m. absurd (Memᴰ.not-nil m))
in_set_iff x (y ∷ set) = elim (Bool-cases (text_eq x y)) [
  | inl same ↦ (λ h. Memᴰ.head ((text_eq_iff x y).0 same), λ m. ground arith)
  | inr other ↦ (
    λ h. Memᴰ.tail ((in_set_iff x set).0 (ground arith)),
    λ m.
        ⊎_elim (λ e. absurd (ground (arith, text_eq_iff x y)))
          (λ t. let rest = (in_set_iff x set).1 t in ground arith) (Memᴰ.cases_cons m),
  )
]

pub in_set-not : (x : Text) (set : List Text) → in_set x set ≡ false → ¬ Memᴰ x set
in_set-not x set h m = let held = (in_set_iff x set).1 m in ground arith

pub Memᴰ-add_to_set :
    (x y : Text) (set : List Text) → Memᴰ y (add_to_set x set) ↔ (Memᴰ y set ⊎ (y ≡ x))
unfolding add_to_set
Memᴰ-add_to_set x y set = elim (Bool-cases (in_set x set)) [
  | inl old ↦ rw old (λ m. inl m, ⊎_elim (λ m. m) (λ e. rw e ((in_set_iff x set).0 old)))
  | inr fresh ↦ rw fresh (
    λ m. ⊎_elim (λ a. inl a) (λ b. inr (Memᴰ.eq_of_singleton b)) (Memᴰ.append_cases set m),
    ⊎_elim (λ m. Memᴰ.append_left (x ∷ []) m) (λ e. Memᴰ.append_right set (Memᴰ.head e)),
  )
]

-- No element stands twice.
abbrev pub Distinct : List Text → Type 0
Distinct [] = Unit
Distinct (x ∷ xs) = (¬ Memᴰ x xs) × Distinct xs

pub Distinct-append :
    (xs : List Text) (x : Text) → Distinct xs → ¬ Memᴰ x xs → Distinct (xs ++ x ∷ [])
Distinct-append [] x d n = (λ m. Memᴰ.not-nil m, tt)
Distinct-append (y ∷ xs) x d n = (
  λ m. ⊎_elim d.0 (λ b. n (Memᴰ.head (sym (Memᴰ.eq_of_singleton b)))) (Memᴰ.append_cases xs m),
  Distinct-append xs x d.1 (λ m. n (Memᴰ.tail m)),
)

pub Distinct-Nodup : (xs : List Text) → Distinct xs → Nodup xs
Distinct-Nodup [] d = Nodup-nil
Distinct-Nodup (x ∷ xs) d =
    Nodup-cons.1 (λ (n : Mem x xs). ∥∥₁_elim n ⊥_prop d.0, Distinct-Nodup xs d.1)

pub Distinct-add_to_set : (x : Text) (set : List Text) → Distinct set → Distinct (add_to_set x set)
unfolding add_to_set
Distinct-add_to_set x set d = elim (Bool-cases (in_set x set)) [
  | inl old ↦ rw old d
  | inr fresh ↦ rw fresh (Distinct-append set x d (in_set-not x set fresh))
]

pub Distinct-keep_if : (p : Text → Bool) (xs : List Text) → Distinct xs → Distinct (keep_if p xs)
unfolding keep_if
Distinct-keep_if p [] d = tt
Distinct-keep_if p (x ∷ xs) d = elim (Bool-cases (p x)) [
  | inl picked ↦
      rw (keep_if, picked) (λ m. d.0 ((Memᴰ-keep_if p x xs).0 m).0, Distinct-keep_if p xs d.1)
  | inr dropped ↦ rw (keep_if, dropped) (Distinct-keep_if p xs d.1)
]

-- How many of a list of names a set does not have.
abbrev pub missing : List Text → List Text → ℕ
missing names set = length (keep_if (λ n. not (in_set n set)) names)

in_set-append_self : (x : Text) (set : List Text) → in_set x (set ++ x ∷ []) ≡ true
in_set-append_self x set = (in_set_iff x (set ++ x ∷ [])).1 (Memᴰ.append_right set (Memᴰ.head refl))

in_set_mono :
    (x : Text) (set more : List Text)
    → ((y : Text) → Memᴰ y set → Memᴰ y more)
    → in_set x set ≡ true
    → in_set x more ≡ true
in_set_mono x set more f h = (in_set_iff x more).1 (f x ((in_set_iff x set).0 h))

pub missing_mono :
    (names set more : List Text)
    → ((y : Text) → Memᴰ y set → Memᴰ y more)
    → missing names more ≤ missing names set
unfolding keep_if
missing_mono [] set more f = omega arith
missing_mono (n ∷ names) set more f =
    ground (arith, in_set_mono n set more f, missing_mono names set more f)

pub missing_less :
    (names set : List Text) (x : Text)
    → Memᴰ x names
    → in_set x set ≡ false
    → missing names (set ++ x ∷ []) < missing names set
unfolding keep_if
missing_less [] set x m h = absurd (Memᴰ.not-nil m)
missing_less (n ∷ names) set x m h =
    let grows = missing_mono names set (set ++ x ∷ []) (λ y. Memᴰ.append_left (x ∷ [])) in
    ⊎_elim
      (λ e.
        let new : in_set n (set ++ x ∷ []) ≡ true = rw (← e) (in_set-append_self x set) in
        let old : in_set n set ≡ false = rw (← e) h in ground arith)
      (λ t.
        let rest = missing_less names set x t h in
        ground (arith, in_set_mono n set (set ++ x ∷ []) (λ y. Memᴰ.append_left (x ∷ []))))
      (Memᴰ.cases_cons m)

-- With nothing missing, every name is in the set.
pub missing_none :
    (names set : List Text) (x : Text) → missing names set ≤ 0 → Memᴰ x names → Memᴰ x set
unfolding keep_if
missing_none [] set x h m = absurd (Memᴰ.not-nil m)
missing_none (n ∷ names) set x h m = elim (Bool-cases (in_set n set)) [
  | inl held ↦
      ⊎_elim (λ e. rw e ((in_set_iff n set).0 held))
        (λ t. missing_none names set x (ground arith) t) (Memᴰ.cases_cons m)
  | inr out ↦ absurd (ground arith)
]
