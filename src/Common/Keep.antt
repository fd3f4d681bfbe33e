-- ===== src/Common/Keep.antt =====
-- What a Boolean test keeps of a list.
use mathlib.Core.Option.{some, none}
use Prim.Native.Nat.{◌≤◌}
use mathlib.Core.Path.{◌≡◌, refl, ap, sym, ◌∙◌, subst}
use mathlib.Core.Logic.{inl, inr, ◌↔◌, ⊎_elim}
use mathlib.Core.Bool.{Bool, true, false}
use mathlib.Core.List.{List, [], ◌∷◌, ◌++◌, Memᴰ, Permᴰ}
use mathlib.Core.List.Permᴰ
use mathlib.Core.List.Memᴰ
use native.Mathlib.Omega.{arith}
use flash_code_graph.Common.Tests.{Bool-cases}
use flash_code_graph.Common.Lists.{length, keep_if, All, find_first}

module _ {ℓ} {A : Type ℓ} (p : A → Bool) where
  pub keep_if-append : (xs ys : List A) → keep_if p (xs ++ ys) ≡ keep_if p xs ++ keep_if p ys
  unfolding keep_if
  keep_if-append [] ys = refl
  keep_if-append (x ∷ xs) ys = ground (arith, keep_if-append xs ys)

  pub Memᴰ-keep_if : (a : A) (xs : List A) → Memᴰ a (keep_if p xs) ↔ (Memᴰ a xs × (p a ≡ true))
  unfolding keep_if
  Memᴰ-keep_if a [] = (λ m. absurd (Memᴰ.not-nil m), λ h. h.0)
  Memᴰ-keep_if a (x ∷ xs) = elim (Bool-cases (p x)) [
    | inl yes_x ↦ (
      λ m.
          ⊎_elim (λ e. (Memᴰ.head e, rw e yes_x))
            (λ t. let (mem, ok) = (Memᴰ-keep_if a xs).0 t in (Memᴰ.tail mem, ok))
            (Memᴰ.cases_cons (rw yes_x at m)),
      λ h. rw yes_x (
          ⊎_elim (λ e. Memᴰ.head e) (λ t. Memᴰ.tail ((Memᴰ-keep_if a xs).1 (t, h.1)))
            (Memᴰ.cases_cons h.0)),
    )
    | inr no_x ↦ (
      λ m. let (mem, ok) = (Memᴰ-keep_if a xs).0 (rw no_x at m) in (Memᴰ.tail mem, ok),
      λ h. rw no_x (
          ⊎_elim (λ e. absurd (ground (arith, ap p e))) (λ t. (Memᴰ-keep_if a xs).1 (t, h.1))
            (Memᴰ.cases_cons h.0)),
    )
  ]

module _ {ℓ} {A : Type ℓ} where
  pub keep_if-keep_if :
      (p q : A → Bool) (xs : List A)
      → ((x : A) → p x ≡ true → q x ≡ true)
      → keep_if p (keep_if q xs) ≡ keep_if p xs
  unfolding keep_if
  keep_if-keep_if p q [] h = refl
  keep_if-keep_if p q (x ∷ xs) h = ground (arith, h x, keep_if-keep_if p q xs h)

  pub keep_if-none : (p : A → Bool) (xs : List A) → All (λ x. p x ≡ false) xs → keep_if p xs ≡ []
  unfolding keep_if
  keep_if-none p [] h = refl
  keep_if-none p (x ∷ xs) h = ground (arith, keep_if-none p xs h.1)

  pub length-keep_if-le : (p : A → Bool) (xs : List A) → length (keep_if p xs) ≤ length xs
  unfolding keep_if
  length-keep_if-le p [] = omega arith
  length-keep_if-le p (x ∷ xs) = ground (arith, length-keep_if-le p xs)

-- Reordering a list reorders what a test keeps of it.
pub keep_if-Permᴰ {ℓ} :
    {A : Type ℓ} (p : A → Bool) {xs ys : List A} → Permᴰ xs ys → Permᴰ (keep_if p xs) (keep_if p ys)
unfolding keep_if
keep_if-Permᴰ p Permᴰ.nil = Permᴰ.nil
keep_if-Permᴰ p (Permᴰ.cons {a} {b} e h) = elim (Bool-cases (p a)) [
  | inl in_a ↦ rw (in_a, ap p (sym e) ∙ in_a) (Permᴰ.cons e (keep_if-Permᴰ p h))
  | inr out_a ↦ rw (out_a, ap p (sym e) ∙ out_a) (keep_if-Permᴰ p h)
]
keep_if-Permᴰ p (Permᴰ.swap {a} {b} {a'} {b'} {l} d e) =
    rw (ap p (sym d), ap p (sym e))
      (elim (Bool-cases (p a)) [
        | inl in_a ↦ elim (Bool-cases (p b)) [
          | inl in_b ↦ rw (in_a, in_b) (Permᴰ.swap d e)
          | inr out_b ↦ rw (in_a, out_b) (Permᴰ.cons d (Permᴰ.refl _))
        ]
        | inr out_a ↦ elim (Bool-cases (p b)) [
          | inl in_b ↦ rw (out_a, in_b) (Permᴰ.cons e (Permᴰ.refl _))
          | inr out_b ↦ rw (out_a, out_b) (Permᴰ.refl _)
        ]
      ])
keep_if-Permᴰ p (Permᴰ.trans h k) = Permᴰ.trans (keep_if-Permᴰ p h) (keep_if-Permᴰ p k)

module _ {ℓ} {A : Type ℓ} where
  pub keep_if-keep_if-All :
      (p q : A → Bool) (xs : List A)
      → All (λ x. p x ≡ true → q x ≡ true) xs
      → keep_if p (keep_if q xs) ≡ keep_if p xs
  unfolding keep_if
  keep_if-keep_if-All p q [] h = refl
  keep_if-keep_if-All p q (x ∷ xs) h = ground (arith, h.0, keep_if-keep_if-All p q xs h.1)

  pub keep_if-keep_if_none :
      (p q : A → Bool) (xs : List A)
      → All (λ x. p x ≡ true → q x ≡ false) xs
      → keep_if p (keep_if q xs) ≡ []
  unfolding keep_if
  keep_if-keep_if_none p q [] h = refl
  keep_if-keep_if_none p q (x ∷ xs) h = ground (arith, h.0, keep_if-keep_if_none p q xs h.1)

pub find_first-some {ℓ} :
    {A : Type ℓ} (p : A → Bool) (xs : List A) (x : A)
    → find_first p xs ≡ some x
    → Memᴰ x xs × (p x ≡ true)
unfolding find_first
find_first-some p [] x h = absurd (ground arith)
find_first-some p (y ∷ xs) x h = elim (Bool-cases (p y)) [
  | inl e ↦
      let same : y ≡ x = ground (arith, h) in (Memᴰ.head (sym same), subst (λ z. p z ≡ true) same e)
  | inr n ↦ let (m, e) = find_first-some p xs x (ground (arith, h)) in (Memᴰ.tail m, e)
]

pub find_first-none {ℓ} :
    {A : Type ℓ} (p : A → Bool) (xs : List A) → find_first p xs ≡ none → All (λ x. p x ≡ false) xs
unfolding find_first
find_first-none p [] h = tt
find_first-none p (y ∷ xs) h = elim (Bool-cases (p y)) [
  | inl e ↦ absurd (ground (arith, h))
  | inr n ↦ (n, find_first-none p xs (ground (arith, h)))
]
