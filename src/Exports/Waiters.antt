-- ===== src/Exports/Waiters.antt =====
-- `propagateWaiters`. The levels of calls are bounded by the keys of the map, of which every level
-- deletes one.
use Prim.Native.Nat.{ℕ, zero, suc}
use mathlib.Core.Option.{Option, none, some}
use mathlib.Core.List.{List, [], ◌∷◌}
use flash_code_graph.Common.Lists.{length}
use flash_code_graph.Common.Text.{Text}
use flash_code_graph.Common.Maps.{lookup, remove}
use flash_code_graph.SymbolTable.{add_re_export}
use flash_code_graph.Exports.{Exporting}

-- The loop over the waiters, where `cascade` is the recursive call.
unfoldable pub each_waiter :
    (Text → Exporting → Option Exporting) → Text → List Text → Exporting → Option Exporting
each_waiter cascade symbol_id [] state = some state
each_waiter cascade symbol_id (waiter ∷ waiters) state =
    elim (cascade waiter (record state { table = add_re_export state.table waiter symbol_id })) [
      | none ↦ none
      | some next ↦ each_waiter cascade symbol_id waiters next
    ]

unfoldable pub cascade_from : ℕ → Text → Text → Exporting → Option Exporting
unfolding each_waiter
cascade_from zero symbol_id name state = none
cascade_from (suc levels) symbol_id name state = elim (lookup name state.waiting_for) [
  | none ↦ some state
  | some waiters ↦
      each_waiter (cascade_from levels symbol_id) symbol_id waiters
        (record state { waiting_for = remove name state.waiting_for })
]

unfoldable pub propagate_waiters : Text → Text → Exporting → Option Exporting
unfolding cascade_from
propagate_waiters name symbol_id state =
    cascade_from (suc (length state.waiting_for)) symbol_id name state
