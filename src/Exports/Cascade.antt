-- ===== src/Exports/Cascade.antt =====
-- `propagateWaiters` ends, and gives the symbol to all that waits for the name, over any number of
-- steps, and to nothing else.
use Prim.Native.Nat.{ℕ, zero, suc, ◌<◌}
use mathlib.Core.Path.{◌≡◌, refl, sym, subst, ◌∙◌}
use mathlib.Core.Logic.{◌⊎◌, inl, inr, ⊎_elim}
use mathlib.Core.Option.{Option, none, some}
use mathlib.Core.List.{List, [], ◌∷◌, Memᴰ}
use mathlib.Core.List.Memᴰ
use native.Mathlib.Omega.{arith}
use flash_code_graph.Common.Tests.{Option-cases}
use flash_code_graph.Common.Lists.{length}
use flash_code_graph.Common.Text.{Text, text_eq_refl}
use flash_code_graph.Common.Maps.{lookup, remove, slice_at, lookup-remove}
use flash_code_graph.SymbolTable.{add_re_export}
use flash_code_graph.Exports.{Exporting}
use flash_code_graph.Exports.Waiters.{each_waiter, cascade_from, propagate_waiters}
use flash_code_graph.Exports.Steps.{
  exported, Waits, direct, onward, Cascades, exported-add, Cascades-refl, keeps, stays_deleted,
  Cascades-trans, Cascades-add, length-remove-lt, slice_at-eq, IsClosed, IsClosed-fewer, removed,
  Cascades-remove, Waits-served,
}

abbrev Ends : Text → (Text → Type 0) → Text → Exporting → Option Exporting → Type 0
Ends symbol_id S name before result =
    (after : Exporting) × (result ≡ some after)
    × Cascades symbol_id S before after
    × (lookup name after.waiting_for ≡ none)

module _ (symbol_id : Text) (S : Text → Type 0) where
  each_waiter-Cascades :
      (cascade : Text → Exporting → Option Exporting) (levels : ℕ)
      → ((name : Text) (s : Exporting)
          → length s.waiting_for < levels
          → S name
          → IsClosed S s
          → Ends symbol_id S name s (cascade name s))
      → (waiters : List Text) (s : Exporting) → length s.waiting_for < levels
      → ((x : Text) → Memᴰ x waiters → S x)
      → IsClosed S s
      → (after : Exporting) × (each_waiter cascade symbol_id waiters s ≡ some after)
        × Cascades symbol_id S s after
        × ((x : Text)
            → Memᴰ x waiters
            → (exported after x ≡ some symbol_id) × (lookup x after.waiting_for ≡ none))
  unfolding each_waiter
  each_waiter-Cascades cascade levels ends [] s few allowed closed =
      (s, refl, Cascades-refl s, λ x m. absurd (Memᴰ.not-nil m))
  each_waiter-Cascades cascade levels ends (waiter ∷ waiters) s few allowed closed =
      let added = record s { table = add_re_export s.table waiter symbol_id } in
      let add = Cascades-add s waiter (allowed waiter (Memᴰ.head refl)) in
      let (next, run, step, gone) =
        ends waiter added few (allowed waiter (Memᴰ.head refl))
          (IsClosed-fewer s added add.deleted closed) in
      let both = Cascades-trans add step in
      let (after, rest, later, given) =
        each_waiter-Cascades cascade levels ends waiters next
          (let smaller = both.shrinks in omega arith) (λ x m. allowed x (Memᴰ.tail m))
          (IsClosed-fewer s next both.deleted closed) in
      (
        after,
        rw (each_waiter, run) rest,
        Cascades-trans both later,
        λ x m.
            ⊎_elim
              (λ e.
                subst
                  (λ z. (exported after z ≡ some symbol_id) × (lookup z after.waiting_for ≡ none))
                  (sym e)
                  (
                    keeps later waiter (keeps step waiter (exported-add s waiter symbol_id)),
                    stays_deleted later waiter gone,
                  ))
              (given x) (Memᴰ.cases_cons m),
      )

  cascade_from-Ends :
      (levels : ℕ) (name : Text) (s : Exporting)
      → length s.waiting_for < levels
      → ((x : Text) → Memᴰ x (slice_at name s.waiting_for) → S x)
      → IsClosed S s
      → Ends symbol_id S name s (cascade_from levels symbol_id name s)
  unfolding cascade_from
  cascade_from-Ends zero name s few allowed closed = absurd (omega arith)
  cascade_from-Ends (suc levels) name s few allowed closed =
      elim (Option-cases (lookup name s.waiting_for)) [
        | inl nobody ↦ (s, rw (cascade_from, nobody) refl, Cascades-refl s, nobody)
        | inr (waiters, here) ↦
            let without = record s { waiting_for = remove name s.waiting_for } in
            let (after, run, step, given) =
              each_waiter-Cascades (cascade_from levels symbol_id) levels
                (λ n t fewer good inside.
                  cascade_from-Ends levels n t fewer (λ x m. inside n x good m) inside)
                waiters without
                (let less = length-remove-lt name s.waiting_for waiters here in omega arith)
                (λ x m. allowed x (subst (Memᴰ x) (sym (slice_at-eq name s.waiting_for here)) m))
                (IsClosed-fewer s without
                  (λ y. ⊎_elim (λ (_, e). inr e) (λ e. inl e) (removed name y s.waiting_for))
                  closed) in
            (
              after,
              rw (cascade_from, here) run,
              Cascades-remove s after name waiters here step given,
              stays_deleted step name
                  (lookup-remove name name s.waiting_for ∙ rw (text_eq_refl name) refl),
            )
      ]

-- `propagateWaiters` returns, whether the names wait for one another in a circle or not. It gives the
-- symbol to every name that waits for the resolved one over one or more steps, and leaves what any
-- other name stands for, and the symbols of the table, as they were.
pub propagate_waiters_lem :
    (name symbol_id : Text) (before : Exporting)
    → (after : Exporting) × (propagate_waiters name symbol_id before ≡ some after)
      × (after.table.shards ≡ before.table.shards)
      × ((x : Text)
          → (Waits before.waiting_for name x → exported after x ≡ some symbol_id)
            × ((exported after x ≡ exported before x) ⊎ Waits before.waiting_for name x))
unfolding propagate_waiters
propagate_waiters_lem name symbol_id before =
    let (after, run, c, gone) =
      cascade_from-Ends symbol_id (Waits before.waiting_for name) (suc (length before.waiting_for))
        name before (omega arith) (λ x m. direct m) (λ y z w m. onward w m) in
    (
      after,
      run,
      c.symbols_kept,
      λ x. (λ w. (Waits-served c gone w).0, ⊎_elim (λ e. inl e) (λ (_, w). inr w) (c.registered x)),
    )
