-- ===== src/SymbolTable/Shards.antt =====
-- One shard of the table: its indices stay in step with its symbols (`add_to_shard`).
use Prim.Native.Nat.{ℕ, ◌<◌}
use mathlib.Core.Path.{◌≡◌, refl, ◌∙◌}
use mathlib.Core.Logic.{inl, inr}
use mathlib.Core.Bool.{Bool, false, not, ◌&&◌}
use mathlib.Core.Option
use mathlib.Core.Option.{Option, none, some}
use mathlib.Core.List.{List, [], ◌∷◌, ◌++◌, append-nil}
use native.Mathlib.Omega.{arith}
use flash_code_graph.Common.Tests.{if◌then◌else◌, Bool-cases, Option-cases, lt→ltb}
use flash_code_graph.Common.Traverse.{traverse, traverse_mono, traverse-concat, traverse-is_empty}
use flash_code_graph.Common.Lists.{length, keep_if, get_elem?-append, get_elem?-last, is_empty}
use flash_code_graph.Common.Keep.{keep_if-append}
use flash_code_graph.Common.Text.{Text, text_eq}
use flash_code_graph.Common.Maps.{
  Map, lookup, slice_at, append_at, slice_at-append_at, lookup-insert,
}
use flash_code_graph.Model.{Symbol}
use flash_code_graph.SymbolTable.{Shard, empty_shard, to_int32, index, read, add_to_shard}

-- The most symbols that a shard holds while an int32 index is not negative.
abbrev pub index_limit : ℕ
index_limit = 2147483648

index-append :
    (xs ys : List Symbol) (i : ℕ) {v : Symbol} → index xs i ≡ some v → index (xs ++ ys) i ≡ some v
unfolding index
index-append xs ys i {v} h = ground (arith, get_elem?-append xs ys i {v = v})

index-last :
    (xs : List Symbol) (s : Symbol)
    → length xs < index_limit
    → index (xs ++ s ∷ []) (to_int32 (length xs)) ≡ some s
unfolding index
index-last xs s h =
    let small : to_int32 (length xs) ≡ length xs = omega arith in
    rw (small, lt→ltb (length xs) index_limit h) (get_elem?-last xs s)

read-append :
    (xs ys : List Symbol) (is : List ℕ) {vs : List Symbol}
    → read xs is ≡ some vs
    → read (xs ++ ys) is ≡ some vs
unfolding read
read-append xs ys is {vs} h =
    traverse_mono (index xs) (index (xs ++ ys)) (λ i v e. index-append xs ys i e) is vs h

read-concat :
    (xs : List Symbol) (is : List ℕ) (i : ℕ) (vs : List Symbol) {v : Symbol}
    → read xs is ≡ some vs
    → index xs i ≡ some v
    → read xs (is ++ i ∷ []) ≡ some (vs ++ v ∷ [])
unfolding read
read-concat xs is i vs h e = traverse-concat (index xs) is i vs h e

pub is_empty-read :
    (xs : List Symbol) (is : List ℕ) {vs : List Symbol}
    → read xs is ≡ some vs
    → is_empty is ≡ is_empty vs
unfolding read
is_empty-read xs is h = traverse-is_empty (index xs) is h

-- An index lists, under each key, the positions of the symbols that fit the key.
abbrev Indexes : (Text → Symbol → Bool) → List Symbol → Map (List ℕ) → Type 0
Indexes fits xs m = (k : Text) → read xs (slice_at k m) ≡ some (keep_if (fits k) xs)

Indexes-skip :
    (fits : Text → Symbol → Bool) (xs : List Symbol) (m : Map (List ℕ)) (s : Symbol)
    → Indexes fits xs m
    → ((k : Text) → fits k s ≡ false)
    → Indexes fits (xs ++ s ∷ []) m
unfolding keep_if
Indexes-skip fits xs m s h skip k =
    read-append xs (s ∷ []) (slice_at k m) (h k)
    ∙ rw (keep_if-append (fits k) xs (s ∷ []))
        (ground (arith, skip k, append-nil (keep_if (fits k) xs)))

Indexes-add :
    (fits : Text → Symbol → Bool) (xs : List Symbol) (m : Map (List ℕ)) (s : Symbol) (key : Text)
    → Indexes fits xs m
    → ((k : Text) → fits k s ≡ text_eq key k)
    → length xs < index_limit
    → Indexes fits (xs ++ s ∷ []) (append_at key (to_int32 (length xs)) m)
unfolding keep_if
Indexes-add fits xs m s key h fit small k =
    let old = read-append xs (s ∷ []) (slice_at k m) (h k) in
    let new =
      read-concat (xs ++ s ∷ []) (slice_at k m) (to_int32 (length xs)) (keep_if (fits k) xs) old
        (index-last xs s small) in
    rw
      (
        slice_at-append_at key k (to_int32 (length xs)) m,
        keep_if-append (fits k) xs (s ∷ []),
        fit k,
      )
      (elim (Bool-cases (text_eq key k)) [
        | inl same ↦ rw same new
        | inr other ↦ rw (other, append-nil) old
      ])

-- The last symbol that passes a test.
unfoldable pub find_last {ℓ} : {A : Type ℓ} → (A → Bool) → List A → Option A
find_last p [] = none
find_last p (x ∷ xs) = elim (find_last p xs) [
  | none ↦ if p x then some x else none
  | some y ↦ some y
]

find_last-concat {ℓ} :
    {A : Type ℓ} (p : A → Bool) (xs : List A) (x : A)
    → find_last p (xs ++ x ∷ []) ≡ (if p x then some x else find_last p xs)
unfolding find_last
find_last-concat p [] x = refl
find_last-concat p (y ∷ xs) x = ground (arith, find_last-concat p xs x)

-- What `FindByID` reads in one shard.
unfoldable pub shard_by_id : Shard → Text → Option (Option Symbol)
shard_by_id shard id = elim (lookup id shard.by_id) [
  | none ↦ some none
  | some i ↦ Option.map some (index shard.symbols i)
]

abbrev pub named : Text → Symbol → Bool
named k s = text_eq s.name k

abbrev pub qualified : Text → Symbol → Bool
qualified k s = not (is_empty s.qualified_name) && text_eq s.qualified_name k

abbrev pub in_file : Text → Symbol → Bool
in_file k s = text_eq s.file_path k

abbrev pub has_id : Text → Symbol → Bool
has_id k s = text_eq s.id k

-- Each index of a shard describes the shard's symbols.
pub record IsIndexed (shard : Shard) : Type 0 where
  pub by_name : Indexes named shard.symbols shard.by_name
  pub by_qualified_name : Indexes qualified shard.symbols shard.by_qualified_name
  pub by_file : Indexes in_file shard.symbols shard.by_file
  pub by_id : (k : Text) → shard_by_id shard k ≡ some (find_last (has_id k) shard.symbols)

pub IsIndexed-empty_shard : IsIndexed empty_shard
unfolding read traverse slice_at lookup keep_if shard_by_id find_last
IsIndexed-empty_shard = record {
  by_name = λ k. refl;
  by_qualified_name = λ k. refl;
  by_file = λ k. refl;
  by_id = λ k. refl;
}

qualified_step :
    (shard : Shard) (s : Symbol)
    → IsIndexed shard
    → length shard.symbols < index_limit
    → Indexes qualified (shard.symbols ++ s ∷ []) (add_to_shard s shard).by_qualified_name
unfolding add_to_shard
qualified_step shard s h small = elim (Bool-cases (is_empty s.qualified_name)) [
  | inl empty ↦
      rw empty (Indexes-skip qualified shard.symbols _ s h.by_qualified_name (λ k. rw empty))
  | inr full ↦ rw full (
      Indexes-add qualified shard.symbols _ s s.qualified_name h.by_qualified_name (λ k. rw full)
        small)
]

id_step :
    (shard : Shard) (s : Symbol) (k : Text)
    → IsIndexed shard
    → length shard.symbols < index_limit
    → shard_by_id (add_to_shard s shard) k ≡ some (find_last (has_id k) (shard.symbols ++ s ∷ []))
unfolding add_to_shard shard_by_id
id_step shard s k h small =
    rw (lookup-insert s.id k (to_int32 (length shard.symbols)) shard.by_id, shard_by_id)
      (elim (Bool-cases (text_eq s.id k)) [
        | inl same ↦
            ground
              (arith, index-last shard.symbols s small, find_last-concat (has_id k) shard.symbols s)
        | inr other ↦ elim (Option-cases (lookup k shard.by_id)) [
          | inl fresh ↦ ground (arith, h.by_id k, find_last-concat (has_id k) shard.symbols s)
          | inr (i, e) ↦ elim (Option-cases (index shard.symbols i)) [
            | inl missing ↦ ground (arith, h.by_id k)
            | inr (v, found) ↦ ground (
              arith,
              h.by_id k,
              index-append shard.symbols (s ∷ []) i found,
              find_last-concat (has_id k) shard.symbols s,
            )
          ]
        ]
      ])

-- Adding a symbol keeps every index of the shard in step.
pub add_to_shard-IsIndexed :
    (shard : Shard) (s : Symbol)
    → IsIndexed shard
    → length shard.symbols < index_limit
    → IsIndexed (add_to_shard s shard)
unfolding add_to_shard
add_to_shard-IsIndexed shard s h small = record {
  by_name = Indexes-add named shard.symbols _ s s.name h.by_name (λ k. refl) small;
  by_qualified_name = qualified_step shard s h small;
  by_file = Indexes-add in_file shard.symbols _ s s.file_path h.by_file (λ k. refl) small;
  by_id = λ k. id_step shard s k h small;
}
