-- ===== src/Base/Bits.antt =====
-- `|` of fields that share no bit, and `&` with a mask, as arithmetic.
use Prim.Native.Nat.{
  ℕ, zero, suc, ◌+◌, ◌-◌, ◌*◌, ◌/◌, ◌%◌, ◌^◌, ◌≤◌, ◌<◌, min, max, bit_and, bit_or, digits,
  bit_and-bitwise, bit_or-bitwise,
}
use mathlib.Core.Path.{◌≡◌, refl, ap}
use mathlib.Core.Bool.{Bool, true, false}
use native.Mathlib.Nat.{pow-suc, one-le-pow}
use native.Mathlib.Omega.{arith}

-- Every value below the bound passes the test.
unfoldable pub passes_below : (ℕ → Bool) → ℕ → Bool
passes_below test zero = true
passes_below test (suc bound) = elim (test bound) [ false ↦ false | true ↦ passes_below test bound ]

pub passes_below-lt :
    (test : ℕ → Bool) (bound x : ℕ) → x < bound → passes_below test bound ≡ true → test x ≡ true
unfolding passes_below
passes_below-lt test (suc bound) x small all = ground (arith, passes_below-lt test bound x)
passes_below-lt test zero x small all = absurd (omega arith)

-- Any two amounts of fuel that cover the first operand give the same digits.
module _ (on_zero : ℕ → ℕ) (op : ℕ → ℕ → ℕ) where
  fuel_irrelevant :
      (k l x y : ℕ) → x ≤ k → x ≤ l → digits on_zero op k x y ≡ digits on_zero op l x y
  fuel_irrelevant zero zero x y h g = refl
  fuel_irrelevant (suc k) (suc l) zero y h g = refl
  fuel_irrelevant (suc k) zero zero y h g = refl
  fuel_irrelevant zero (suc l) zero y h g = refl
  fuel_irrelevant zero (suc l) (suc x) y h g = absurd (omega arith)
  fuel_irrelevant (suc k) zero (suc x) y h g = absurd (omega arith)
  fuel_irrelevant (suc k) (suc l) (suc x) y h g =
      ap (λ t. t * 2 + op (suc x % 2) (y % 2))
        (fuel_irrelevant k l (suc x / 2) (y / 2) (omega arith) (omega arith))

-- The lowest binary digit split off.
or_digit : (x y : ℕ) → bit_or x y ≡ bit_or (x / 2) (y / 2) * 2 + max (x % 2) (y % 2)
or_digit zero y = omega (arith, bit_or-bitwise 0 y, bit_or-bitwise 0 (y / 2))
or_digit (suc x) y = omega (
  arith,
  bit_or-bitwise (suc x) y,
  bit_or-bitwise (suc x / 2) (y / 2),
  fuel_irrelevant (λ b. b) max x (suc x / 2) (suc x / 2) (y / 2) (omega arith) (omega arith),
)

and_digit : (x y : ℕ) → bit_and x y ≡ bit_and (x / 2) (y / 2) * 2 + min (x % 2) (y % 2)
and_digit zero y = omega (arith, bit_and-bitwise 0 y, bit_and-bitwise 0 (y / 2))
and_digit (suc x) y = omega (
  arith,
  bit_and-bitwise (suc x) y,
  bit_and-bitwise (suc x / 2) (y / 2),
  fuel_irrelevant (λ b. zero) min x (suc x / 2) (suc x / 2) (y / 2) (omega arith) (omega arith),
)

or_zero_fuel : (k x : ℕ) → x ≤ k → bit_or x 0 ≡ x
or_zero_fuel k zero h = refl
or_zero_fuel zero (suc x) h = absurd (omega arith)
or_zero_fuel (suc k) (suc x) h =
    omega (arith, or_digit (suc x) 0, or_zero_fuel k (suc x / 2) (omega arith))

and_zero_fuel : (k x : ℕ) → x ≤ k → bit_and x 0 ≡ 0
and_zero_fuel k zero h = refl
and_zero_fuel zero (suc x) h = absurd (omega arith)
and_zero_fuel (suc k) (suc x) h =
    omega (arith, and_digit (suc x) 0, and_zero_fuel k (suc x / 2) (omega arith))

pub bit_or-zero : (x : ℕ) → bit_or x 0 ≡ x
bit_or-zero x = or_zero_fuel x x (omega arith)

pub bit_and-zero : (x : ℕ) → bit_and x 0 ≡ 0
bit_and-zero x = and_zero_fuel x x (omega arith)

double_shift : (q k : ℕ) → q * 2 ^ suc k ≡ q * 2 ^ k * 2
double_shift q k = omega (arith, ap (λ (t : ℕ). q * t) (pow-suc 2 k))

-- A field shifted past `k` bits, joined with a field of `k` bits, is their sum.
pub bit_or_sum : (k q r : ℕ) → r < 2 ^ k → bit_or (q * 2 ^ k) r ≡ q * 2 ^ k + r
bit_or_sum zero q r h = ground (arith, bit_or-zero q)
bit_or_sum (suc k) q r h = ground (
  arith,
  double_shift q k,
  pow-suc 2 k,
  or_digit (q * 2 ^ suc k) r,
  bit_or_sum k q (r / 2) (omega (arith, pow-suc 2 k)),
)

-- A mask keeps the `k` low bits and drops what stands above them.
pub bit_and_low : (k q r : ℕ) → r < 2 ^ k → bit_and (q * 2 ^ k + r) (2 ^ k - 1) ≡ r
bit_and_low zero q r h = omega (arith, bit_and-zero (q * 2 ^ 0 + r))
bit_and_low (suc k) q r h = ground (
  arith,
  double_shift q k,
  pow-suc 2 k,
  one-le-pow k 2,
  and_digit (q * 2 ^ suc k + r) (2 ^ suc k - 1),
  bit_and_low k q (r / 2) (omega (arith, pow-suc 2 k)),
)

-- A mask that ends in `k` zeros drops the `k` low bits.
pub bit_and_high :
    (k m q r : ℕ) → r < 2 ^ k → bit_and (q * 2 ^ k + r) (m * 2 ^ k) ≡ bit_and q m * 2 ^ k
bit_and_high zero m q r h = ground arith
bit_and_high (suc k) m q r h = ground (
  arith,
  double_shift q k,
  double_shift m k,
  double_shift (bit_and q m) k,
  pow-suc 2 k,
  and_digit (q * 2 ^ suc k + r) (m * 2 ^ suc k),
  bit_and_high k m q (r / 2) (omega (arith, pow-suc 2 k)),
)

-- The low bits of any number.
pub bit_and_mod : (k x : ℕ) → bit_and x (2 ^ k - 1) ≡ x % 2 ^ k
bit_and_mod k x =
    let positive : 1 ≤ 2 ^ k = one-le-pow k 2 (omega arith) in
    let e : x / 2 ^ k * 2 ^ k + x % 2 ^ k ≡ x = omega arith in
    rw e at (bit_and_low k (x / 2 ^ k) (x % 2 ^ k) (omega arith))

-- Two fields of `k` bits join to one of `k` bits.
pub bit_or_small : (k x y : ℕ) → x < 2 ^ k → y < 2 ^ k → bit_or x y < 2 ^ k
bit_or_small zero x y h h' = ground (arith, h, h')
bit_or_small (suc k) x y h h' = omega (
  arith,
  pow-suc 2 k,
  or_digit x y,
  bit_or_small k (x / 2) (y / 2) (omega (arith, pow-suc 2 k)) (omega (arith, pow-suc 2 k)),
)
