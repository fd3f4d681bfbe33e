-- ===== src/Mro/Level.antt =====
-- The parents of a class, and one call of `ComputeMRO`.
use flash_code_graph.Mro.Linear.{c3_merge_order}
use native.Mathlib.Omega.{arith}
use Prim.Native.Nat.{ℕ, suc, zero}
use mathlib.Core.Option.{Option, some}
use mathlib.Core.Path.{refl, ◌≡◌, ◌∙◌, sym}
use mathlib.Core.Logic.{inl, inr}
use mathlib.Core.Bool.{Bool}
use mathlib.Core.List.Memᴰ
use mathlib.Core.List.Sublistᴰ
use mathlib.Core.List.{List, [], ◌∷◌, ◌++◌, map, Memᴰ, Sublistᴰ, append_assoc, append-nil}
use flash_code_graph.Common.Tests.{Option-cases, Bool-cases}
use flash_code_graph.Common.Lists.{keep_if, All}
use flash_code_graph.Common.Traverse.{traverse}
use flash_code_graph.Common.Text.{Text, text_eq}
use flash_code_graph.Common.Maps.{Map, slice_at, append_at, slice_at-append_at, lookup}
use flash_code_graph.Model.{RawHeritage}
use flash_code_graph.Mro.{add_parents, build_parent_map, compute_mro, order_from, concat}

abbrev pub child_is : Text → RawHeritage → Bool
child_is class_name entry = text_eq entry.child_name class_name

-- The parents of a class, in the order of the heritage entries.
abbrev pub parents_of : List RawHeritage → Text → List Text
parents_of heritage class_name =
    map (λ entry. entry.parent_name) (keep_if (child_is class_name) heritage)

add_parents_lem :
    (m : Map (List Text)) (heritage : List RawHeritage) (c : Text)
    → slice_at c (add_parents m heritage) ≡ slice_at c m ++ parents_of heritage c
unfolding add_parents keep_if
add_parents_lem m [] c = sym (append-nil (slice_at c m))
add_parents_lem m (entry ∷ heritage) c =
    add_parents_lem (append_at entry.child_name entry.parent_name m) heritage c
    ∙ elim (Bool-cases (child_is c entry)) [
      | inl mine ↦
          rw (slice_at-append_at entry.child_name c entry.parent_name m, mine, append_assoc)
      | inr other ↦ rw (slice_at-append_at entry.child_name c entry.parent_name m, other)
    ]

-- `buildParentMap` groups the entries by child.
pub build_parent_map_lem :
    (heritage : List RawHeritage) (c : Text)
    → slice_at c (build_parent_map heritage) ≡ parents_of heritage c
unfolding build_parent_map slice_at lookup
build_parent_map_lem heritage c = add_parents_lem [] heritage c

traverse-one :
    (f : Text → Option (List Text)) (x : Text) {y : List Text}
    → f x ≡ some y
    → traverse f (x ∷ []) ≡ some (y ∷ [])
unfolding traverse
traverse-one f x e = ground arith

-- One call, whatever the recursive calls compute, as long as each of their lists starts with its class.
pub record Level (above : Text → Option (List Text)) (c : Text) (parents mro : List Text)
    : Type 0 where
  pub rest : List Text
  pub mros : List (List Text)
  pub shape : mro ≡ c ∷ rest
  pub calls : traverse above parents ≡ some mros
  pub ordered : All (λ seq. Sublistᴰ seq rest) (mros ++ parents ∷ [])
  pub closed : (a : Text) → Memᴰ a rest → Memᴰ a (concat (mros ++ parents ∷ []))

module _ (above : Text → Option (List Text)) (c : Text) where
  merge-Level :
      (p q : Text) (more mro : List Text)
      → order_from above c (p ∷ q ∷ more) ≡ some mro
      → Level above c (p ∷ q ∷ more) mro
  unfolding order_from
  merge-Level p q more mro h = elim (Option-cases (traverse above (p ∷ q ∷ more))) [
    | inl fails ↦ absurd (ground arith)
    | inr (mros, calls) ↦
        let (out, run, ordered, closed) = c3_merge_order (mros ++ (p ∷ q ∷ more) ∷ []) in
        record {
          rest = out;
          mros = mros;
          shape = ground arith;
          calls = calls;
          ordered = ordered;
          closed = closed;
        }
  ]

  level :
      ((p : Text) (m : List Text) → above p ≡ some m → (r : List Text) × (m ≡ p ∷ r))
      → (parents mro : List Text) → order_from above c parents ≡ some mro
      → Level above c parents mro
  unfolding order_from traverse concat
  level starts [] mro h = record {
    rest = [];
    mros = [];
    shape = ground arith;
    calls = refl;
    ordered = (Sublistᴰ.nil-sublist [], tt);
    closed = λ a m. m;
  }
  level starts (p ∷ []) mro h = elim (Option-cases (above p)) [
    | inl fails ↦ absurd (ground arith)
    | inr (m, found) ↦
        let (r, e) = starts p m found in
        record {
          rest = m;
          mros = m ∷ [];
          shape = ground arith;
          calls = traverse-one above p found;
          ordered =
              (Sublistᴰ.refl m, (rw e (Sublistᴰ.cons-cons refl (Sublistᴰ.nil-sublist r)), tt));
          closed = λ a at. Memᴰ.append_left (concat ((p ∷ []) ∷ [])) at;
        }
  ]
  level starts (p ∷ q ∷ more) mro h = merge-Level p q more mro h

-- Every list that `ComputeMRO` returns starts with the class.
pub mro_head :
    (heritage : List RawHeritage) (fuel : ℕ) (c : Text) (mro : List Text)
    → compute_mro fuel heritage c ≡ some mro
    → (rest : List Text) × (mro ≡ c ∷ rest)
unfolding compute_mro
mro_head heritage zero c mro h = absurd (ground arith)
mro_head heritage (suc fuel) c mro h =
    let l =
      level (compute_mro fuel heritage) c (mro_head heritage fuel)
        (slice_at c (build_parent_map heritage)) mro h in
    (l.rest, l.shape)

pub mro-Level :
    (heritage : List RawHeritage) (fuel : ℕ) (c : Text) (mro : List Text)
    → compute_mro (suc fuel) heritage c ≡ some mro
    → Level (compute_mro fuel heritage) c (parents_of heritage c) mro
unfolding compute_mro
mro-Level heritage fuel c mro h =
    level (compute_mro fuel heritage) c (mro_head heritage fuel) (parents_of heritage c) mro
      (rw (build_parent_map_lem heritage c) at h)
