-- ===== src/Heritage/Search.antt =====
-- What breadth-first searches over the parents of classes find: the classes above those of the queue.
use Prim.Native.Nat.{ℕ, zero, suc}
use mathlib.Core.Path.{◌≡◌, refl, ap, ◌∙◌, subst}
use mathlib.Core.Logic.{◌⊎◌, inl, inr, ⊎_elim}
use mathlib.Core.Option.{Option, none, some}
use mathlib.Core.List.{List, [], ◌∷◌, ◌++◌, Memᴰ}
use mathlib.Core.List.Memᴰ
use native.Mathlib.Omega.{arith}
use flash_code_graph.Common.Tests.{Bool-cases, Option-cases}
use flash_code_graph.Common.Text.{Text}
use flash_code_graph.Common.Maps.{Map, slice_at}
use flash_code_graph.Heritage.{is_visited, search}
use flash_code_graph.Heritage.Walk.{Ancestor, self, up, is_visited-mem}

module _ (parents : Map (List Text)) where
  abbrev pub Known : List Text → List Text → Text → Type 0
  Known visited queue x = Memᴰ x visited ⊎ Memᴰ x queue

  -- The parents of every visited class are visited or wait on the queue.
  abbrev pub IsClosed : List Text → List Text → Type 0
  IsClosed visited queue =
      (v p : Text) → Memᴰ v visited → Memᴰ p (slice_at v parents) → Known visited queue p

  pub Known-seen :
      (c x : Text) (visited queue : List Text)
      → Memᴰ c visited
      → Known visited (c ∷ queue) x
      → Known visited queue x
  Known-seen c x visited queue seen k =
      ⊎_elim inl (λ m. ⊎_elim (λ e. inl (rw e seen)) inr (Memᴰ.cases_cons m)) k

  pub Known-fresh :
      (c x : Text) (visited queue : List Text)
      → Known visited (c ∷ queue) x
      → Known (c ∷ visited) (queue ++ slice_at c parents) x
  Known-fresh c x visited queue k =
      ⊎_elim (λ m. inl (Memᴰ.tail m))
        (λ m.
          ⊎_elim (λ e. inl (Memᴰ.head e)) (λ t. inr (Memᴰ.append_left (slice_at c parents) t))
            (Memᴰ.cases_cons m))
        k

  pub seen-IsClosed :
      (c : Text) (visited queue : List Text)
      → Memᴰ c visited
      → IsClosed visited (c ∷ queue)
      → IsClosed visited queue
  seen-IsClosed c visited queue seen h v p at is_parent =
      Known-seen c p visited queue seen (h v p at is_parent)

  pub fresh-IsClosed :
      (c : Text) (visited queue : List Text)
      → IsClosed visited (c ∷ queue)
      → IsClosed (c ∷ visited) (queue ++ slice_at c parents)
  fresh-IsClosed c visited queue h v p at is_parent =
      ⊎_elim
        (λ e. inr (Memᴰ.append_right queue (subst (λ z. Memᴰ p (slice_at z parents)) e is_parent)))
        (λ old. Known-fresh c p visited queue (h v p old is_parent)) (Memᴰ.cases_cons at)

  pub Known-end : (visited : List Text) (x : Text) → Known visited [] x → Memᴰ x visited
  Known-end visited x k = ⊎_elim (λ m. m) (λ m. absurd (Memᴰ.not-nil m)) k

  pub ancestor_visited :
      (visited : List Text) {s a : Text}
      → IsClosed visited []
      → Memᴰ s visited
      → Ancestor parents s a
      → Memᴰ a visited
  ancestor_visited visited h at self = at
  ancestor_visited visited {s} h at (up {p} is_parent r) =
      ancestor_visited visited h (Known-end visited p (h s p at is_parent)) r

  pub search_miss :
      {A : Type 0} (found : Text → Option A) (fuel : ℕ) (visited queue : List Text) (s a : Text)
      → search fuel parents found visited queue ≡ some none
      → IsClosed visited queue
      → ((v : Text) → Memᴰ v visited → found v ≡ none)
      → Known visited queue s
      → Ancestor parents s a
      → found a ≡ none
  unfolding search
  search_miss found zero visited queue s a run h clear k r = absurd (ground arith)
  search_miss found (suc fuel) visited [] s a run h clear k r =
      clear a (ancestor_visited visited h (Known-end visited s k) r)
  search_miss found (suc fuel) visited (c ∷ queue) s a run h clear k r =
      elim (Bool-cases (is_visited c visited)) [
        | inl seen ↦
            let at = is_visited-mem c visited seen in
            search_miss found fuel visited queue s a (ground (arith, run))
              (seen-IsClosed c visited queue at h) clear (Known-seen c s visited queue at k) r
        | inr fresh ↦ elim (Option-cases (found c)) [
          | inr (x, hit) ↦ absurd (ground (arith, run))
          | inl miss ↦
              search_miss found fuel (c ∷ visited) (queue ++ slice_at c parents) s a
                (ground (arith, run)) (fresh-IsClosed c visited queue h)
                (λ v m. ⊎_elim (λ e. ap found e ∙ miss) (λ t. clear v t) (Memᴰ.cases_cons m))
                (Known-fresh c s visited queue k) r
        ]
      ]

  pub search_hit :
      {A : Type 0} (found : Text → Option A) (fuel : ℕ) (visited queue : List Text) (x : A)
      → search fuel parents found visited queue ≡ some (some x)
      → (s : Text) × (a : Text) × Memᴰ s queue × Ancestor parents s a × (found a ≡ some x)
  unfolding search
  search_hit found zero visited queue x run = absurd (ground arith)
  search_hit found (suc fuel) visited [] x run = absurd (ground arith)
  search_hit found (suc fuel) visited (c ∷ queue) x run = elim (Bool-cases (is_visited c visited)) [
    | inl seen ↦
        let (s, a, at, r, e) = search_hit found fuel visited queue x (ground (arith, run)) in
        (s, a, Memᴰ.tail at, r, e)
    | inr fresh ↦ elim (Option-cases (found c)) [
      | inr (y, hit) ↦ (c, c, Memᴰ.head refl, self, hit ∙ ground (arith, run))
      | inl miss ↦
          let (s, a, at, r, e) =
            search_hit found fuel (c ∷ visited) (queue ++ slice_at c parents) x
              (ground (arith, run)) in
          ⊎_elim (λ m. (s, a, Memᴰ.tail m, r, e)) (λ m. (c, a, Memᴰ.head refl, up m r, e))
            (Memᴰ.append_cases queue at)
    ]
  ]
