-- ===== src/Candidates/Choice.antt =====
-- What the filters on candidates leave.
use mathlib.Core.Path.{◌≡◌, refl, sym, subst}
use mathlib.Core.Logic.{inl, inr}
use mathlib.Core.Bool.{Bool, false, not, ◌&&◌}
use mathlib.Core.Option.{some}
use mathlib.Core.List.{List, Memᴰ}
use mathlib.Core.List.Memᴰ
use native.Mathlib.Omega.{arith}
use flash_code_graph.Common.Tests.{ltb, Bool-cases, Option-cases}
use flash_code_graph.Common.Lists.{length, keep_if, any, is_empty}
use flash_code_graph.Common.Keep.{Memᴰ-keep_if}
use flash_code_graph.Common.Text.{Text}
use flash_code_graph.Model.{Symbol}
use flash_code_graph.Candidates.{
  TypeRules, is_varargs, is_unknown_type, takes_types, prefer_fixed, most_specific,
  filter_by_arg_types,
}

-- Candidates that are left of others: some of them, and not none.
abbrev pub IsChoice : List Symbol → List Symbol → Type 0
IsChoice left candidates =
    ((c : Symbol) → Memᴰ c left → Memᴰ c candidates) × (is_empty left ≡ false)

keep_if-IsChoice :
    (p : Symbol → Bool) (candidates : List Symbol)
    → is_empty (keep_if p candidates) ≡ false
    → IsChoice (keep_if p candidates) candidates
keep_if-IsChoice p candidates h = (λ c m. ((Memᴰ-keep_if p c candidates).0 m).0, h)

prefer_fixed-IsChoice :
    (remaining : List Symbol)
    → is_empty remaining ≡ false
    → IsChoice (prefer_fixed remaining) remaining
unfolding prefer_fixed
prefer_fixed-IsChoice remaining h =
    let p = λ (c : Symbol). not (is_varargs c.params) in
    let fixed = keep_if p remaining in
    elim (Bool-cases (is_empty fixed)) [
      | inl nothing ↦ rw nothing (ground (arith, h))
      | inr some_fixed ↦
          elim (Bool-cases (
            ltb 1 (length remaining)
            && (not (is_empty fixed) && ltb (length fixed) (length remaining)))) [
              | inl go ↦ rw (go, prefer_fixed) (keep_if-IsChoice p remaining some_fixed)
              | inr stay ↦ rw (stay, prefer_fixed) (λ c m. m, h)
            ]
    ]

module _ (rules : TypeRules)
    (picks : (cs : List Symbol) (types : List Text) (c : Symbol)
      → rules.resolve_overload cs types ≡ some c
      → Memᴰ c cs) where
  most_specific-IsChoice :
      (arg_types : List Text) (remaining : List Symbol)
      → is_empty remaining ≡ false
      → IsChoice (most_specific rules arg_types remaining) remaining
  unfolding most_specific
  most_specific-IsChoice arg_types remaining h =
      elim (Bool-cases (ltb 1 (length remaining) && any (λ a. not (is_unknown_type a)) arg_types)) [
        | inr few ↦ rw (few, most_specific) (prefer_fixed-IsChoice remaining h)
        | inl many ↦ elim (Option-cases (rules.resolve_overload remaining arg_types)) [
          | inl no_best ↦ rw (many, no_best, most_specific) (prefer_fixed-IsChoice remaining h)
          | inr (best, found) ↦
              rw (many, found, most_specific)
                (
                  λ c m.
                      subst (λ z. Memᴰ z remaining) (sym (Memᴰ.eq_of_singleton m))
                        (picks remaining arg_types best found),
                  refl,
                )
        ]
      ]

  -- If the rules for overloads pick one of the candidates that they are given, `filterByArgTypes`
  -- returns some of its candidates only, and never drops all of them.
  pub filter_by_arg_types-IsChoice :
      (candidates : List Symbol) (arg_types : List Text)
      → is_empty candidates ≡ false
      → IsChoice (filter_by_arg_types rules candidates arg_types) candidates
  unfolding filter_by_arg_types
  filter_by_arg_types-IsChoice candidates arg_types h =
      let remaining = keep_if (takes_types rules arg_types) candidates in
      elim (Bool-cases (is_empty arg_types)) [
        | inl no_types ↦ rw (no_types, filter_by_arg_types) (λ c m. m, h)
        | inr types ↦ elim (Bool-cases (is_empty remaining)) [
          | inl nothing ↦ rw (types, nothing, filter_by_arg_types) (λ c m. m, h)
          | inr some_left ↦
              let (sub, left) = most_specific-IsChoice arg_types remaining some_left in
              rw (types, some_left, filter_by_arg_types)
                (
                  λ c m. ((Memᴰ-keep_if (takes_types rules arg_types) c candidates).0 (sub c m)).0,
                  left,
                )
        ]
      ]
