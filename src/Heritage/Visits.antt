-- ===== src/Heritage/Visits.antt =====
-- What a walk over the parents of classes emits: that of each class above those of the queue.
use Prim.Native.Nat.{ℕ, zero, suc}
use mathlib.Core.Path.{◌≡◌, refl, sym, subst}
use mathlib.Core.Logic.{◌⊎◌, inl, inr, ◌↔◌, ⊎_elim}
use mathlib.Core.Bool.{false}
use mathlib.Core.Option.{some}
use mathlib.Core.List.{List, [], ◌∷◌, ◌++◌, Memᴰ}
use mathlib.Core.List.Memᴰ
use native.Mathlib.Omega.{arith}
use flash_code_graph.Common.Tests.{Bool-cases, Option-cases}
use flash_code_graph.Common.Text.{Text}
use flash_code_graph.Common.Maps.{Map, slice_at}
use flash_code_graph.Heritage.{is_visited, walk, enough_fuel}
use flash_code_graph.Heritage.Walk.{Ancestor, self, up, is_visited-mem, walk_fuel}
use flash_code_graph.Heritage.Search.{
  Known, IsClosed, Known-seen, Known-fresh, seen-IsClosed, fresh-IsClosed, Known-end,
  ancestor_visited,
}

module _ {A : Type 0} (parents : Map (List Text)) (emit : Text → List A) where
  walk_step :
      (fuel : ℕ) (c : Text) (visited queue : List Text) (out : List A)
      → is_visited c visited ≡ false
      → walk (suc fuel) parents emit visited (c ∷ queue) ≡ some out
      → (more : List A) × (walk fuel parents emit (c ∷ visited) (queue ++ slice_at c parents)
          ≡ some more)
        × (out ≡ emit c ++ more)
  unfolding walk
  walk_step fuel c visited queue out fresh run =
      elim (Option-cases (walk fuel parents emit (c ∷ visited) (queue ++ slice_at c parents))) [
        | inl fails ↦ absurd (ground (arith, run))
        | inr (more, e) ↦ (more, e, ground (arith, run))
      ]

  walk_sound :
      (fuel : ℕ) (visited queue : List Text) (out : List A) (x : A)
      → walk fuel parents emit visited queue ≡ some out
      → Memᴰ x out
      → (s : Text) × (a : Text) × Memᴰ s queue × Ancestor parents s a × Memᴰ x (emit a)
  unfolding walk
  walk_sound zero visited queue out x run m = absurd (ground arith)
  walk_sound (suc fuel) visited [] out x run m =
      let nothing : out ≡ [] = ground (arith, run) in
      absurd (Memᴰ.not-nil (subst (Memᴰ x) nothing m))
  walk_sound (suc fuel) visited (c ∷ queue) out x run m = elim (Bool-cases (is_visited c visited)) [
    | inl seen ↦
        let (s, a, at, r, e) = walk_sound fuel visited queue out x (ground (arith, run)) m in
        (s, a, Memᴰ.tail at, r, e)
    | inr fresh ↦
        let (more, rest, shape) = walk_step fuel c visited queue out fresh run in
        ⊎_elim (λ here. (c, c, Memᴰ.head refl, self, here))
          (λ there.
            let (s, a, at, r, e) =
              walk_sound fuel (c ∷ visited) (queue ++ slice_at c parents) more x rest there in
            ⊎_elim (λ old. (s, a, Memᴰ.tail old, r, e)) (λ new. (c, a, Memᴰ.head refl, up new r, e))
              (Memᴰ.append_cases queue at))
          (Memᴰ.append_cases (emit c) (subst (Memᴰ x) shape m))
  ]

  walk_complete :
      (fuel : ℕ) (visited queue : List Text) (out : List A) (s a : Text) (x : A)
      → walk fuel parents emit visited queue ≡ some out
      → IsClosed parents visited queue
      → Known parents visited queue s
      → Ancestor parents s a
      → Memᴰ x (emit a)
      → Memᴰ a visited ⊎ Memᴰ x out
  unfolding walk
  walk_complete zero visited queue out s a x run h k r m = absurd (ground arith)
  walk_complete (suc fuel) visited [] out s a x run h k r m =
      inl (ancestor_visited parents visited h (Known-end parents visited s k) r)
  walk_complete (suc fuel) visited (c ∷ queue) out s a x run h k r m =
      elim (Bool-cases (is_visited c visited)) [
        | inl seen ↦
            let at = is_visited-mem c visited seen in
            walk_complete fuel visited queue out s a x (ground (arith, run))
              (seen-IsClosed parents c visited queue at h)
              (Known-seen parents c s visited queue at k) r m
        | inr fresh ↦
            let (more, rest, shape) = walk_step fuel c visited queue out fresh run in
            ⊎_elim
              (λ at.
                ⊎_elim
                  (λ e. inr (
                    subst (Memᴰ x) (sym shape)
                      (Memᴰ.append_left more (subst (λ z. Memᴰ x (emit z)) e m))))
                  inl (Memᴰ.cases_cons at))
              (λ later. inr (subst (Memᴰ x) (sym shape) (Memᴰ.append_right (emit c) later)))
              (walk_complete fuel (c ∷ visited) (queue ++ slice_at c parents) more s a x rest
                (fresh-IsClosed parents c visited queue h) (Known-fresh parents c s visited queue k)
                r m)
      ]

  -- A walk from a queue ends within its fuel, and emits what the classes above the queue emit.
  pub walk_lem :
      (queue : List Text)
      → (out : List A) × (walk (enough_fuel parents queue) parents emit [] queue ≡ some out)
        × ((x : A)
            → Memᴰ x out
              ↔ ((s : Text) × (a : Text) × Memᴰ s queue × Ancestor parents s a × Memᴰ x (emit a)))
  unfolding enough_fuel
  walk_lem queue =
      let (out, run) = walk_fuel parents emit (enough_fuel parents queue) [] queue (omega arith) in
      (
        out,
        run,
        λ x. (
          walk_sound (enough_fuel parents queue) [] queue out x run,
          λ (s, a, at, r, m).
              ⊎_elim (λ n. absurd (Memᴰ.not-nil n)) (λ found. found)
                (walk_complete (enough_fuel parents queue) [] queue out s a x run
                  (λ v p n. absurd (Memᴰ.not-nil n)) (inr at) r m),
        ),
      )
