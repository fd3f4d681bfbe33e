-- ===== src/Common/Keys.antt =====
-- The keys of a map: none stands twice, so that a loop over the map sees what `lookup` sees.
use mathlib.Core.Path.{◌≡◌, sym, subst, ap, ap₂}
use mathlib.Core.Logic.{◌⊎◌, ◌↔◌, inl, inr, ⊎_elim}
use mathlib.Core.Bool.{Bool, true}
use mathlib.Core.Option.{some}
use mathlib.Core.List.{List, [], ◌∷◌, map, Memᴰ}
use mathlib.Core.List.Memᴰ
use native.Mathlib.Omega.{arith}
use flash_code_graph.Common.Tests.{Bool-cases}
use flash_code_graph.Common.Lists.{keep_if}
use flash_code_graph.Common.Text.{Text, text_eq, text_eq_iff, text_eq_sound}
use flash_code_graph.Common.Maps.{Map, lookup, insert, remove}
use flash_code_graph.Common.Sets.{Distinct}

module _ {V : Type 0} where
  abbrev pub keys : Map V → List Text
  keys m = map (λ p. p.0) m

  Memᴰ-keys-insert :
      (k j : Text) (v : V) (m : Map V) → Memᴰ j (keys (insert k v m)) → (j ≡ k) ⊎ Memᴰ j (keys m)
  unfolding insert
  Memᴰ-keys-insert k j v [] h = inl (Memᴰ.eq_of_singleton h)
  Memᴰ-keys-insert k j v ((i, w) ∷ m) h = elim (Bool-cases (text_eq i k)) [
    | inl same ↦
        ⊎_elim (λ e. inl e) (λ t. inr (Memᴰ.tail t)) (Memᴰ.cases_cons (rw (insert, same) at h))
    | inr other ↦
        ⊎_elim (λ e. inr (Memᴰ.head e))
          (λ t. ⊎_elim (λ e. inl e) (λ l. inr (Memᴰ.tail l)) (Memᴰ-keys-insert k j v m t))
          (Memᴰ.cases_cons (rw (insert, other) at h))
  ]

  pub Distinct-insert :
      (k : Text) (v : V) (m : Map V) → Distinct (keys m) → Distinct (keys (insert k v m))
  unfolding insert
  Distinct-insert k v [] d = (λ h. Memᴰ.not-nil h, tt)
  Distinct-insert k v ((i, w) ∷ m) d = elim (Bool-cases (text_eq i k)) [
    | inl same ↦
        rw (insert, same) (subst (λ z. ¬ Memᴰ z (keys m)) (text_eq_sound i k same) d.0, d.1)
    | inr other ↦
        rw (insert, other)
          (
            λ h. ⊎_elim (λ e. ground (arith, text_eq_iff i k)) d.0 (Memᴰ-keys-insert k i v m h),
            Distinct-insert k v m d.1,
          )
  ]

  Memᴰ-keys-remove : (k j : Text) (m : Map V) → Memᴰ j (keys (remove k m)) → Memᴰ j (keys m)
  unfolding remove
  Memᴰ-keys-remove k j [] h = h
  Memᴰ-keys-remove k j ((i, w) ∷ m) h = elim (Bool-cases (text_eq i k)) [
    | inl same ↦ Memᴰ.tail (Memᴰ-keys-remove k j m (rw (remove, same) at h))
    | inr other ↦
        ⊎_elim (λ e. Memᴰ.head e) (λ t. Memᴰ.tail (Memᴰ-keys-remove k j m t))
          (Memᴰ.cases_cons (rw (remove, other) at h))
  ]

  pub Distinct-remove : (k : Text) (m : Map V) → Distinct (keys m) → Distinct (keys (remove k m))
  unfolding remove
  Distinct-remove k [] d = tt
  Distinct-remove k ((i, w) ∷ m) d = elim (Bool-cases (text_eq i k)) [
    | inl same ↦ rw (remove, same) (Distinct-remove k m d.1)
    | inr other ↦ rw (remove, other) (λ h. d.0 (Memᴰ-keys-remove k i m h), Distinct-remove k m d.1)
  ]

  -- The keys that a loop over the map picks by their values.
  abbrev pub keys_where : (V → Bool) → Map V → List Text
  keys_where p m = map (λ q. q.0) (keep_if (λ q. p q.1) m)

  keys_where-cons :
      (p : V → Bool) (i : Text) (w : V) (m : Map V) (k : Text)
      → Memᴰ k (keys_where p ((i, w) ∷ m)) ↔ (((k ≡ i) × (p w ≡ true)) ⊎ Memᴰ k (keys_where p m))
  unfolding keep_if
  keys_where-cons p i w m k = elim (Bool-cases (p w)) [
    | inl picked ↦ (
      λ h. ⊎_elim (λ e. inl (e, picked)) (λ t. inr t) (Memᴰ.cases_cons (rw (keep_if, picked) at h)),
      λ h. rw (keep_if, picked) (⊎_elim (λ (e, _). Memᴰ.head e) (λ t. Memᴰ.tail t) h),
    )
    | inr dropped ↦ (
      λ h. inr (rw (keep_if, dropped) at h),
      λ h. rw (keep_if, dropped) (⊎_elim (λ (_, e). absurd (ground arith)) (λ t. t) h),
    )
  ]

  keys_where-keys :
      (p : V → Bool) (m : Map V) (k : Text) → Memᴰ k (keys_where p m) → Memᴰ k (keys m)
  unfolding keep_if
  keys_where-keys p [] k h = h
  keys_where-keys p ((i, w) ∷ m) k h =
      ⊎_elim (λ (e, _). Memᴰ.head e) (λ t. Memᴰ.tail (keys_where-keys p m k t))
        ((keys_where-cons p i w m k).0 h)

  pub keys_where-lookup :
      (p : V → Bool) (m : Map V) (k : Text)
      → Distinct (keys m)
      → Memᴰ k (keys_where p m) ↔ ((v : V) × (lookup k m ≡ some v) × (p v ≡ true))
  unfolding keep_if lookup
  keys_where-lookup p [] k d = (λ h. absurd (Memᴰ.not-nil h), λ (v, e, _). absurd (ground arith))
  keys_where-lookup p ((i, w) ∷ m) k d = elim (Bool-cases (text_eq i k)) [
    | inl same ↦ (
      λ h.
          ⊎_elim (λ (_, picked). (w, ground arith, picked))
            (λ t. absurd (
              d.0 (
                subst (λ z. Memᴰ z (keys m)) (sym (text_eq_sound i k same))
                  (keys_where-keys p m k t))))
            ((keys_where-cons p i w m k).0 h),
      λ (v, e, picked).
          let same_value : w ≡ v = ground arith in
          (keys_where-cons p i w m k).1
            (inl (sym (text_eq_sound i k same), subst (λ z. p z ≡ true) (sym same_value) picked)),
    )
    | inr other ↦ (
      λ h.
          ⊎_elim (λ (e, _). absurd (ground (arith, text_eq_iff i k, sym e)))
            (λ t.
              let (v, e, picked) = (keys_where-lookup p m k d.1).0 t in (v, ground arith, picked))
            ((keys_where-cons p i w m k).0 h),
      λ (v, e, picked).
          (keys_where-cons p i w m k).1
            (inr ((keys_where-lookup p m k d.1).1 (v, ground arith, picked))),
    )
  ]

  keys-entry : (k : Text) (v : V) (m : Map V) → Memᴰ (k, v) m → Memᴰ k (keys m)
  keys-entry k v m at = Memᴰ.map (λ (p : Text × V). p.0) at

  -- In a map whose keys are distinct, the entries are what the lookups find.
  pub Memᴰ-lookup :
      (k : Text) (v : V) (m : Map V) → Distinct (keys m) → Memᴰ (k, v) m ↔ (lookup k m ≡ some v)
  unfolding lookup
  Memᴰ-lookup k v [] d = (λ h. absurd (Memᴰ.not-nil h), λ h. absurd (ground arith))
  Memᴰ-lookup k v ((i, w) ∷ m) d = elim (Bool-cases (text_eq i k)) [
    | inl same ↦ (
      λ h.
          ⊎_elim (λ e. rw (lookup, same) (ap (λ (q : Text × V). some (q.1)) (sym e)))
            (λ t. absurd (d.0 (rw (text_eq_sound i k same) (keys-entry k v m t))))
            (Memᴰ.cases_cons h),
      λ h. Memᴰ.head (ap₂ (λ a b. (a, b)) (sym (text_eq_sound i k same)) (ground arith)),
    )
    | inr other ↦ (
      λ h.
          ⊎_elim (λ e. absurd (ground (arith, text_eq_iff i k, ap (λ (q : Text × V). q.0) (sym e))))
            (λ t. rw (lookup, other) ((Memᴰ-lookup k v m d.1).0 t)) (Memᴰ.cases_cons h),
      λ h. Memᴰ.tail ((Memᴰ-lookup k v m d.1).1 (rw (lookup, other) at h)),
    )
  ]
