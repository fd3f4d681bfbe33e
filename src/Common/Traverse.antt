-- ===== src/Common/Traverse.antt =====
-- Loops that stop at the first failure, and members of lists.
use mathlib.Core.Path.{◌≡◌, refl, sym, subst, ◌∙◌}
use mathlib.Core.Logic.{◌↔◌, inl, inr, ⊎_elim}
use mathlib.Core.Option.{Option, none, some}
use mathlib.Core.List.{List, [], ◌∷◌, ◌++◌, Memᴰ, Permᴰ, Sublistᴰ}
use mathlib.Core.List.Memᴰ
use native.Mathlib.Omega.{arith}
use flash_code_graph.Common.Tests.{Option-cases}
use flash_code_graph.Common.Lists.{All, is_empty}

-- A loop that fills a result element by element and stops at the first failure.
module _ {ℓ κ} {A : Type ℓ} {B : Type κ} where
  unfoldable pub traverse : (A → Option B) → List A → Option (List B)
  traverse f [] = some []
  traverse f (x ∷ xs) = elim (f x) [
    | none ↦ none
    | some y ↦ elim (traverse f xs) [ none ↦ none | some ys ↦ some (y ∷ ys) ]
  ]

  pub traverse-cons :
      (f : A → Option B) (x : A) (xs : List A) {ys : List B}
      → traverse f (x ∷ xs) ≡ some ys
      → (y : B) × (rest : List B) × (f x ≡ some y) × (traverse f xs ≡ some rest) × (ys ≡ y ∷ rest)
  unfolding traverse
  traverse-cons f x xs {ys} h = elim (Option-cases (f x)) [
    | inl fails ↦ absurd (ground arith)
    | inr (y, e) ↦ elim (Option-cases (traverse f xs)) [
      | inl fails ↦ absurd (ground arith)
      | inr (rest, later) ↦ (y, rest, e, later, ground arith)
    ]
  ]

  -- A function that succeeds wherever another does, with the same value, serves as well.
  pub traverse_mono :
      (f g : A → Option B)
      → ((x : A) (y : B) → f x ≡ some y → g x ≡ some y)
      → (xs : List A) (ys : List B) → traverse f xs ≡ some ys
      → traverse g xs ≡ some ys
  unfolding traverse
  traverse_mono f g h [] ys e = e
  traverse_mono f g h (x ∷ xs) ys e =
      let (y, rest, here, later, shape) = traverse-cons f x xs e in
      ground (arith, h x y here, traverse_mono f g h xs rest later)

  pub traverse-concat :
      (f : A → Option B) (xs : List A) (x : A) (ys : List B) {y : B}
      → traverse f xs ≡ some ys
      → f x ≡ some y
      → traverse f (xs ++ x ∷ []) ≡ some (ys ++ y ∷ [])
  unfolding traverse
  traverse-concat f [] x ys h e = ground arith
  traverse-concat f (w ∷ xs) x ys h e =
      let (v, rest, here, later, shape) = traverse-cons f w xs h in
      ground (arith, traverse-concat f xs x rest later e)

  pub traverse-is_empty :
      (f : A → Option B) (xs : List A) {ys : List B}
      → traverse f xs ≡ some ys
      → is_empty xs ≡ is_empty ys
  unfolding traverse
  traverse-is_empty f [] h = ground arith
  traverse-is_empty f (x ∷ xs) h =
      let (y, rest, here, later, shape) = traverse-cons f x xs h in rw shape

module _ {ℓ} {A : Type ℓ} where
  pub Memᴰ-Permᴰ : (a : A) {xs ys : List A} → Permᴰ xs ys → Memᴰ a xs → Memᴰ a ys
  Memᴰ-Permᴰ a Permᴰ.nil m = m
  Memᴰ-Permᴰ a (Permᴰ.cons e h) m =
      ⊎_elim (λ d. Memᴰ.head (d ∙ e)) (λ t. Memᴰ.tail (Memᴰ-Permᴰ a h t)) (Memᴰ.cases_cons m)
  Memᴰ-Permᴰ a (Permᴰ.swap d e) m =
      ⊎_elim (λ c. Memᴰ.tail (Memᴰ.head (c ∙ d)))
        (λ t. ⊎_elim (λ c. Memᴰ.head (c ∙ e)) (λ u. Memᴰ.tail (Memᴰ.tail u)) (Memᴰ.cases_cons t))
        (Memᴰ.cases_cons m)
  Memᴰ-Permᴰ a (Permᴰ.trans h k) m = Memᴰ-Permᴰ a k (Memᴰ-Permᴰ a h m)

  pub Sublistᴰ-mem : (a : A) {xs ys : List A} → Sublistᴰ xs ys → Memᴰ a xs → Memᴰ a ys
  Sublistᴰ-mem a Sublistᴰ.slnil m = m
  Sublistᴰ-mem a (Sublistᴰ.cons h) m = Memᴰ.tail (Sublistᴰ-mem a h m)
  Sublistᴰ-mem a (Sublistᴰ.cons-cons e h) m =
      ⊎_elim (λ d. Memᴰ.head (d ∙ e)) (λ t. Memᴰ.tail (Sublistᴰ-mem a h t)) (Memᴰ.cases_cons m)

pub All-at {ℓ κ} : {A : Type ℓ} (P : A → Type κ) (xs : List A) (x : A) → All P xs → Memᴰ x xs → P x
All-at P [] x h m = absurd (Memᴰ.not-nil m)
All-at P (y ∷ xs) x h m = ⊎_elim (λ e. subst P (sym e) h.0) (All-at P xs x h.1) (Memᴰ.cases_cons m)

-- A traversal that succeeds pairs each element with its value.
module _ {ℓ κ} {A : Type ℓ} {B : Type κ} (f : A → Option B) where
  pub traverse-source :
      (xs : List A) (ys : List B) (y : B)
      → traverse f xs ≡ some ys
      → Memᴰ y ys
      → (x : A) × Memᴰ x xs × (f x ≡ some y)
  unfolding traverse
  traverse-source [] ys y h m = absurd (Memᴰ.not-nil (subst (Memᴰ y) (nothing ys h) m))
    where
      nothing : (ys : List B) → ◌≡◌ {A = Option (List B)} (some []) (some ys) → ys ≡ []
      nothing ys h = ground arith
  traverse-source (x ∷ xs) ys y h m =
      let (y', rest, here, later, shape) = traverse-cons f x xs h in
      ⊎_elim (λ e. (x, Memᴰ.head refl, rw e here))
        (λ t. let (z, at, found) = traverse-source xs rest y later t in (z, Memᴰ.tail at, found))
        (Memᴰ.cases_cons (subst (Memᴰ y) shape m))

  pub traverse-image :
      (xs : List A) (ys : List B) (x : A)
      → traverse f xs ≡ some ys
      → Memᴰ x xs
      → (y : B) × Memᴰ y ys × (f x ≡ some y)
  traverse-image [] ys x h m = absurd (Memᴰ.not-nil m)
  traverse-image (z ∷ xs) ys x h m =
      let (y, rest, here, later, shape) = traverse-cons f z xs h in
      let listed = λ (v : B) (at : Memᴰ v (y ∷ rest)). subst (Memᴰ v) (sym shape) at in
      ⊎_elim (λ e. (y, listed y (Memᴰ.head refl), subst (λ w. f w ≡ some y) (sym e) here))
        (λ t.
          let (w, at, found) = traverse-image xs rest x later t in
          (w, listed w (Memᴰ.tail at), found))
        (Memᴰ.cases_cons m)

  pub traverse_total :
      (xs : List A)
      → All (λ x. (y : B) × (f x ≡ some y)) xs
      → (ys : List B) × (traverse f xs ≡ some ys)
  unfolding traverse
  traverse_total [] h = ([], refl)
  traverse_total (x ∷ xs) h =
      let (y, e) = h.0 in let (ys, es) = traverse_total xs h.1 in (y ∷ ys, ground arith)

  pub traverse_fails : (xs : List A) (x : A) → Memᴰ x xs → f x ≡ none → traverse f xs ≡ none
  unfolding traverse
  traverse_fails [] x m e = absurd (Memᴰ.not-nil m)
  traverse_fails (y ∷ xs) x m e =
      ⊎_elim (λ same. let here : f y ≡ none = subst (λ z. f z ≡ none) same e in ground arith)
        (λ later.
          let rest = traverse_fails xs x later e in
          elim (Option-cases (f y)) [ inl fails ↦ ground arith | inr (v, found) ↦ ground arith ])
        (Memᴰ.cases_cons m)

-- A loop that appends what each element gives.
unfoldable pub flat_map {ℓ κ} : {A : Type ℓ} {B : Type κ} → (A → List B) → List A → List B
flat_map f [] = []
flat_map f (x ∷ xs) = f x ++ flat_map f xs

pub Memᴰ-flat_map {ℓ κ} :
    {A : Type ℓ} {B : Type κ} (f : A → List B) (xs : List A) (b : B)
    → Memᴰ b (flat_map f xs) ↔ ((x : A) × Memᴰ x xs × Memᴰ b (f x))
unfolding flat_map
Memᴰ-flat_map f [] b = (λ m. absurd (Memᴰ.not-nil m), λ (x, m, at). absurd (Memᴰ.not-nil m))
Memᴰ-flat_map f (y ∷ xs) b =
    let rest = Memᴰ-flat_map f xs b in
    (
      λ m.
          ⊎_elim (λ here. (y, Memᴰ.head refl, here))
            (λ there. let (x, at, found) = rest.0 there in (x, Memᴰ.tail at, found))
            (Memᴰ.append_cases (f y) m),
      λ (x, m, at).
          ⊎_elim (λ e. Memᴰ.append_left (flat_map f xs) (subst (λ z. Memᴰ b (f z)) e at))
            (λ t. Memᴰ.append_right (f y) (rest.1 (x, t, at))) (Memᴰ.cases_cons m),
    )
