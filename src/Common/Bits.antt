-- ===== src/Common/Bits.antt =====
-- Shifts and masks: a word that packs two fields gives both of them back, at every width.
use Prim.Native.Nat.{
  ℕ, zero, suc, ◌+◌, ◌*◌, ◌/◌, ◌%◌, ◌^◌, ◌-◌, ◌≤◌, ◌<◌, min, max, bit_and, bit_or, digits,
  bit_and-bitwise, bit_or-bitwise,
}
use mathlib.Core.Path.{◌≡◌, refl, ap, sym, ◌∙◌}
use native.Mathlib.Nat.{pow-suc, one-le-pow}
use native.Mathlib.Omega.{arith}

-- Digit by digit, for any operation on digits: the rounds that are left over change nothing.
module _ (last : ℕ → ℕ) (op : ℕ → ℕ → ℕ) where
  abbrev by_digits : ℕ → ℕ → ℕ → ℕ
  by_digits rounds a b = digits last op rounds a b

  by_digits-zero : (rounds b : ℕ) → by_digits rounds 0 b ≡ last b
  by_digits-zero zero b = refl
  by_digits-zero (suc rounds) b = refl

  spare_rounds : (n m a b : ℕ) → a ≤ n → a ≤ m → by_digits n a b ≡ by_digits m a b
  spare_rounds n m zero b low high = by_digits-zero n b ∙ sym (by_digits-zero m b)
  spare_rounds zero m (suc a) b low high = absurd (omega arith)
  spare_rounds (suc n) zero (suc a) b low high = absurd (omega arith)
  spare_rounds (suc n) (suc m) (suc a) b low high =
      let rest = spare_rounds n m (suc a / 2) (b / 2) (omega arith) (omega arith) in
      ap (λ (t : ℕ). t * 2 + op (suc a % 2) (b % 2)) rest

  halves :
      (a b : ℕ)
      → by_digits (suc a) (suc a) b
        ≡ by_digits (suc a / 2) (suc a / 2) (b / 2) * 2 + op (suc a % 2) (b % 2)
  halves a b =
      let rest = spare_rounds a (suc a / 2) (suc a / 2) (b / 2) (omega arith) (omega arith) in
      ap (λ (t : ℕ). t * 2 + op (suc a % 2) (b % 2)) rest

or_halves : (a b : ℕ) → bit_or a b ≡ bit_or (a / 2) (b / 2) * 2 + max (a % 2) (b % 2)
or_halves zero b = omega (arith, bit_or-bitwise 0 b, bit_or-bitwise 0 (b / 2))
or_halves (suc a) b =
    bit_or-bitwise (suc a) b
    ∙ halves (λ d. d) max a b
    ∙ ap (λ (t : ℕ). t * 2 + max (suc a % 2) (b % 2)) (sym (bit_or-bitwise (suc a / 2) (b / 2)))

and_halves : (a b : ℕ) → bit_and a b ≡ bit_and (a / 2) (b / 2) * 2 + min (a % 2) (b % 2)
and_halves zero b = omega (arith, bit_and-bitwise 0 b, bit_and-bitwise 0 (b / 2))
and_halves (suc a) b =
    bit_and-bitwise (suc a) b
    ∙ halves (λ d. 0) min a b
    ∙ ap (λ (t : ℕ). t * 2 + min (suc a % 2) (b % 2)) (sym (bit_and-bitwise (suc a / 2) (b / 2)))

or_nothing : (bound a : ℕ) → a < bound → bit_or a 0 ≡ a
or_nothing zero a h = absurd (omega arith)
or_nothing (suc bound) zero h = refl
or_nothing (suc bound) (suc a) h =
    let half = or_nothing bound (suc a / 2) (omega arith) in
    omega (arith, or_halves (suc a) 0, half)

and_nothing : (bound a : ℕ) → a < bound → bit_and a 0 ≡ 0
and_nothing zero a h = absurd (omega arith)
and_nothing (suc bound) zero h = refl
and_nothing (suc bound) (suc a) h =
    let half = and_nothing bound (suc a / 2) (omega arith) in
    omega (arith, and_halves (suc a) 0, half)

double_shift : (q k : ℕ) → q * 2 ^ suc k ≡ 2 * (q * 2 ^ k)
double_shift q k = omega (arith, ap (λ (t : ℕ). q * t) (pow-suc 2 k))

-- A low field that fits beside a shifted one is added to it by `|`.
pub bit_or_pack : (k q r : ℕ) → r < 2 ^ k → bit_or (q * 2 ^ k) r ≡ q * 2 ^ k + r
bit_or_pack zero q r fits = ground (arith, or_nothing (suc q) q (omega arith))
bit_or_pack (suc k) q r fits = ground (
  arith,
  or_halves (q * 2 ^ suc k) r,
  double_shift q k,
  pow-suc 2 k,
  bit_or_pack k q (r / 2) (omega (arith, pow-suc 2 k)),
)

-- A mask of `k` ones reads the low field.
bit_and_unpack : (k q r : ℕ) → r < 2 ^ k → bit_and (q * 2 ^ k + r) (2 ^ k - 1) ≡ r
bit_and_unpack zero q r fits =
    ground (arith, and_nothing (suc (q * 2 ^ 0 + r)) (q * 2 ^ 0 + r) (omega arith))
bit_and_unpack (suc k) q r fits = ground (
  arith,
  and_halves (q * 2 ^ suc k + r) (2 ^ suc k - 1),
  double_shift q k,
  pow-suc 2 k,
  one-le-pow k 2,
  bit_and_unpack k q (r / 2) (omega (arith, pow-suc 2 k)),
)

-- The word `q << 24 | r`, its upper part and its lower part.
pub pack_24 :
    (q r : ℕ)
    → r < 16777216
    → (bit_or (q * 16777216) r / 16777216 ≡ q) × (bit_and (bit_or (q * 16777216) r) 16777215 ≡ r)
pack_24 q r h =
    let packed : bit_or (q * 16777216) r ≡ q * 16777216 + r = bit_or_pack 24 q r h in
    rw packed (omega arith, bit_and_unpack 24 q r h)
