-- ===== src/Exports/Steps.antt =====
-- What a run of `propagateWaiters` may change, and what it has done when an entry is gone.
use Prim.Native.Nat.{◌≤◌, ◌<◌}
use mathlib.Core.Path.{◌≡◌, refl, subst, ◌∙◌}
use mathlib.Core.Logic.{◌⊎◌, inl, inr, ⊎_elim}
use mathlib.Core.Option.{Option, none, some}
use mathlib.Core.List.{List, [], ◌∷◌, Memᴰ}
use mathlib.Core.List.Memᴰ
use native.Mathlib.Omega.{arith}
use flash_code_graph.Common.Tests.{Bool-cases, Option-cases}
use flash_code_graph.Common.Lists.{length}
use flash_code_graph.Common.Text.{Text, text_eq, text_eq_iff, text_eq_refl}
use flash_code_graph.Common.Maps.{Map, lookup, remove, slice_at, lookup-remove, lookup-insert}
use flash_code_graph.SymbolTable.{add_re_export, get_re_export}
use flash_code_graph.Exports.{Exporting}

abbrev pub exported : Exporting → Text → Option Text
exported state name = get_re_export state.table name

-- A name waits for another, over one or more entries.
pub data Waits (waiting : Map (List Text)) : Text → Text → Type 0 where
  direct : {n x : Text} → Memᴰ x (slice_at n waiting) → Waits waiting n x
  onward : {n y x : Text} → Waits waiting n y → Memᴰ x (slice_at y waiting) → Waits waiting n x

pub exported-add :
    (s : Exporting) (x symbol_id : Text)
    → exported (record s { table = add_re_export s.table x symbol_id }) x ≡ some symbol_id
unfolding add_re_export get_re_export
exported-add s x symbol_id =
    lookup-insert x x symbol_id s.table.re_export_index ∙ rw (text_eq_refl x) refl

-- What a run may change, where `S` holds of the names that it may register.
pub record Cascades (symbol_id : Text) (S : Text → Type 0) (before after : Exporting) : Type 0 where
  pub registered :
      (x : Text)
      → (exported after x ≡ exported before x) ⊎ ((exported after x ≡ some symbol_id) × S x)
  pub deleted :
      (y : Text)
      → (lookup y after.waiting_for ≡ lookup y before.waiting_for)
        ⊎ (lookup y after.waiting_for ≡ none)
  pub served :
      (y : Text) (waiters : List Text)
      → lookup y before.waiting_for ≡ some waiters
      → lookup y after.waiting_for ≡ none
      → (x : Text) → Memᴰ x waiters
      → (exported after x ≡ some symbol_id) × (lookup x after.waiting_for ≡ none)
  pub shrinks : length after.waiting_for ≤ length before.waiting_for
  pub symbols_kept : after.table.shards ≡ before.table.shards

module _ {symbol_id : Text} {S : Text → Type 0} where
  pub Cascades-refl : (s : Exporting) → Cascades symbol_id S s s
  Cascades-refl s = record {
    registered = λ x. inl refl;
    deleted = λ y. inl refl;
    served = λ y waiters here gone. absurd (ground arith);
    shrinks = omega arith;
    symbols_kept = refl;
  }

  pub keeps :
      {before after : Exporting}
      → Cascades symbol_id S before after
      → (x : Text) → exported before x ≡ some symbol_id
      → exported after x ≡ some symbol_id
  keeps c x h = ⊎_elim (λ e. e ∙ h) (λ (e, _). e) (c.registered x)

  pub stays_deleted :
      {before after : Exporting}
      → Cascades symbol_id S before after
      → (y : Text) → lookup y before.waiting_for ≡ none
      → lookup y after.waiting_for ≡ none
  stays_deleted c y h = ⊎_elim (λ e. e ∙ h) (λ e. e) (c.deleted y)

  pub Cascades-trans :
      {a b c : Exporting}
      → Cascades symbol_id S a b
      → Cascades symbol_id S b c
      → Cascades symbol_id S a c
  Cascades-trans f g = record {
    registered = λ x.
        ⊎_elim (λ e. ⊎_elim (λ d. inl (e ∙ d)) (λ (d, s). inr (e ∙ d, s)) (f.registered x))
          (λ h. inr h) (g.registered x);
    deleted = λ y.
        ⊎_elim (λ e. ⊎_elim (λ d. inl (e ∙ d)) (λ d. inr (e ∙ d)) (f.deleted y)) (λ e. inr e)
          (g.deleted y);
    served = λ y waiters here gone x m.
        ⊎_elim (λ same. g.served y waiters (same ∙ here) gone x m)
          (λ early.
            let (found, unkeyed) = f.served y waiters here early x m in
            (keeps g x found, stays_deleted g x unkeyed))
          (f.deleted y);
    shrinks = let one = f.shrinks in let two = g.shrinks in omega arith;
    symbols_kept = g.symbols_kept ∙ f.symbols_kept;
  }

  -- Registering one name.
  pub Cascades-add :
      (s : Exporting) (x : Text)
      → S x
      → Cascades symbol_id S s (record s { table = add_re_export s.table x symbol_id })
  unfolding add_re_export get_re_export
  Cascades-add s x allowed = record {
    registered = λ y. elim (Bool-cases (text_eq x y)) [
      | inl same ↦ inr (
        lookup-insert x y symbol_id s.table.re_export_index ∙ rw same refl,
        subst S ((text_eq_iff x y).0 same) allowed,
      )
      | inr other ↦ inl (lookup-insert x y symbol_id s.table.re_export_index ∙ rw other refl)
    ];
    deleted = λ y. inl refl;
    served = λ y waiters here gone. absurd (ground arith);
    shrinks = omega arith;
    symbols_kept = refl;
  }

length-remove-le : (k : Text) (m : Map (List Text)) → length (remove k m) ≤ length m
unfolding remove
length-remove-le k [] = omega arith
length-remove-le k ((j, v) ∷ m) = ground (arith, length-remove-le k m)

pub length-remove-lt :
    (k : Text) (m : Map (List Text)) (v : List Text)
    → lookup k m ≡ some v
    → length (remove k m) < length m
unfolding remove lookup
length-remove-lt k [] v h = absurd (ground arith)
length-remove-lt k ((j, w) ∷ m) v h = elim (Bool-cases (text_eq j k)) [
  | inl same ↦ ground (arith, length-remove-le k m)
  | inr other ↦ ground (arith, length-remove-lt k m v)
]

-- What waits for an allowed name is allowed.
abbrev pub IsClosed : (Text → Type 0) → Exporting → Type 0
IsClosed S s = (y z : Text) → S y → Memᴰ z (slice_at y s.waiting_for) → S z

pub slice_at-eq :
    (k : Text) (m : Map (List Text)) {o : Option (List Text)}
    → lookup k m ≡ o
    → slice_at k m ≡ (elim o as (λ _. List Text) [ none ↦ [] | some xs ↦ xs ])
unfolding slice_at
slice_at-eq k m e = rw (slice_at, e) refl

-- A map with fewer entries is closed as well.
pub IsClosed-fewer :
    {S : Text → Type 0} (before after : Exporting)
    → ((y : Text)
        → (lookup y after.waiting_for ≡ lookup y before.waiting_for)
          ⊎ (lookup y after.waiting_for ≡ none))
    → IsClosed S before
    → IsClosed S after
unfolding slice_at
IsClosed-fewer before after fewer closed y z h m =
    ⊎_elim (λ same. closed y z h (subst (Memᴰ z) (slice_at-eq y after.waiting_for same) m))
      (λ gone. absurd (Memᴰ.not-nil (subst (Memᴰ z) (slice_at-eq y after.waiting_for gone) m)))
      (fewer y)

pub removed :
    (name y : Text) (m : Map (List Text))
    → ((name ≡ y) × (lookup y (remove name m) ≡ none)) ⊎ (lookup y (remove name m) ≡ lookup y m)
removed name y m = elim (Bool-cases (text_eq name y)) [
  | inl same ↦ inl ((text_eq_iff name y).0 same, lookup-remove name y m ∙ rw same refl)
  | inr other ↦ inr (lookup-remove name y m ∙ rw other refl)
]

module _ {symbol_id : Text} {S : Text → Type 0} where
  -- Deleting the entry of a name whose waiters have all been served.
  pub Cascades-remove :
      (s after : Exporting) (name : Text) (waiters : List Text)
      → lookup name s.waiting_for ≡ some waiters
      → Cascades symbol_id S (record s { waiting_for = remove name s.waiting_for }) after
      → ((x : Text)
          → Memᴰ x waiters
          → (exported after x ≡ some symbol_id) × (lookup x after.waiting_for ≡ none))
      → Cascades symbol_id S s after
  Cascades-remove s after name waiters here c given = record {
    registered = c.registered;
    deleted = λ y.
        ⊎_elim (λ (same, none_left). inr (stays_deleted c y none_left))
          (λ same. ⊎_elim (λ e. inl (e ∙ same)) (λ e. inr e) (c.deleted y))
          (removed name y s.waiting_for);
    served = λ y mine at gone x m.
        ⊎_elim
          (λ (same, none_left).
            let mine_here : lookup name s.waiting_for ≡ some mine = rw same at in
            let equal : mine ≡ waiters = ground arith in given x (subst (Memᴰ x) equal m))
          (λ same. c.served y mine (same ∙ at) gone x m) (removed name y s.waiting_for);
    shrinks = let one = c.shrinks in let less = length-remove-le name s.waiting_for in omega arith;
    symbols_kept = c.symbols_kept;
  }

listed-some :
    (y x : Text) (m : Map (List Text))
    → Memᴰ x (slice_at y m)
    → (waiters : List Text) × (lookup y m ≡ some waiters) × Memᴰ x waiters
unfolding slice_at
listed-some y x m h = elim (Option-cases (lookup y m)) [
  | inl nobody ↦ absurd (Memᴰ.not-nil (subst (Memᴰ x) (slice_at-eq y m nobody) h))
  | inr (waiters, here) ↦ (waiters, here, subst (Memᴰ x) (slice_at-eq y m here) h)
]

pub Waits-served :
    {symbol_id : Text} {S : Text → Type 0} {before after : Exporting} {name : Text}
    → Cascades symbol_id S before after
    → lookup name after.waiting_for ≡ none
    → {x : Text} → Waits before.waiting_for name x
    → (exported after x ≡ some symbol_id) × (lookup x after.waiting_for ≡ none)
Waits-served {before} c gone (direct {n} {x} m) =
    let (waiters, here, at) = listed-some n x before.waiting_for m in
    c.served n waiters here gone x at
Waits-served {before} c gone (onward {y} {x} w m) =
    let (waiters, here, at) = listed-some y x before.waiting_for m in
    c.served y waiters here (Waits-served c gone w).1 x at
