-- ===== src/Bits.antt =====
-- Single bits of a word: `n & (1 << i)`, `n | (1 << i)` and `n ^ (1 << i)` at every index.
pub mod Step
use Step.{bit_and_step, bit_or_step, bit_xor_step}
use Prim.Native.Nat.{differ}
use native.Mathlib.Nat.{pow-suc, one-le-pow}
use ex2_file_system.Base.{
  ℕ, zero, suc, ◌+◌, ◌-◌, ◌*◌, ◌/◌, ◌%◌, ◌^◌, ◌<◌, ◌≤◌, ◌≡◌, refl, Bool, true, false, not, arith,
  bit_and, bit_or, bit_xor, ◌==◌, if◌then◌else◌, ap, ◌⊎◌, inl, inr,
}

-- Bit `i` of `n`.
unfoldable pub testbit : ℕ → ℕ → Bool
testbit n zero = n % 2 == 1
testbit n (suc i) = testbit (n / 2) i

pub two_pow_half : (i : ℕ) → 2 ^ suc i / 2 ≡ 2 ^ i
two_pow_half i = omega (arith, pow-suc 2 i)

pub two_pow_even : (i : ℕ) → 2 ^ suc i % 2 ≡ 0
two_pow_even i = omega (arith, pow-suc 2 i)

pub two_pow_ne_zero : (i : ℕ) → (2 ^ i == 0) ≡ false
two_pow_ne_zero i = ground (arith, one-le-pow i 2)

digit_cases : (n : ℕ) → (n % 2 ≡ 0) ⊎ (n % 2 ≡ 1)
digit_cases n = omega arith

differ_one : (n : ℕ) → differ (n % 2) 1 ≡ 1 - n % 2
differ_one n = elim (digit_cases n) [ inl e ↦ rw e | inr e ↦ rw e ]

differ-zero : (n : ℕ) → differ n 0 ≡ n
differ-zero zero = refl
differ-zero (suc n) = refl

and_zero : (n : ℕ) → bit_and n 0 ≡ 0
and_zero n = rounds n n (omega arith)
  where
    rounds : (k n : ℕ) → n ≤ k → bit_and n 0 ≡ 0
    rounds zero zero h = refl
    rounds (suc k) zero h = refl
    rounds zero (suc n) h = absurd (omega arith)
    rounds (suc k) (suc n) h =
        omega (arith, bit_and_step (suc n) 0, rounds k (suc n / 2) (omega arith))

pub or_zero : (n : ℕ) → bit_or n 0 ≡ n
or_zero n = rounds n n (omega arith)
  where
    rounds : (k n : ℕ) → n ≤ k → bit_or n 0 ≡ n
    rounds zero zero h = refl
    rounds (suc k) zero h = refl
    rounds zero (suc n) h = absurd (omega arith)
    rounds (suc k) (suc n) h =
        omega (arith, bit_or_step (suc n) 0, rounds k (suc n / 2) (omega arith))

xor_zero : (n : ℕ) → bit_xor n 0 ≡ n
xor_zero n = rounds n n (omega arith)
  where
    rounds : (k n : ℕ) → n ≤ k → bit_xor n 0 ≡ n
    rounds zero zero h = refl
    rounds (suc k) zero h = refl
    rounds zero (suc n) h = absurd (omega arith)
    rounds (suc k) (suc n) h =
        omega (
          arith,
          bit_xor_step (suc n) 0,
          differ-zero (suc n % 2),
          rounds k (suc n / 2) (omega arith),
        )

-- The mask picks bit `i`.
pub bit_and-two_pow : (n i : ℕ) → bit_and n (2 ^ i) ≡ (if testbit n i then 2 ^ i else 0)
unfolding testbit
bit_and-two_pow n zero = ground (arith, bit_and_step n 1, and_zero (n / 2))
bit_and-two_pow n (suc i) = ground (
  arith,
  bit_and_step n (2 ^ suc i),
  ap (bit_and (n / 2)) (two_pow_half i),
  pow-suc 2 i,
  bit_and-two_pow (n / 2) i,
)

or_low : (n : ℕ) → (bit_or n 1 / 2 ≡ n / 2) × (bit_or n 1 % 2 ≡ 1)
or_low n = omega (arith, bit_or_step n 1, or_zero (n / 2))

or_high :
    (n i : ℕ)
    → (bit_or n (2 ^ suc i) / 2 ≡ bit_or (n / 2) (2 ^ i)) × (bit_or n (2 ^ suc i) % 2 ≡ n % 2)
or_high n i =
    omega (arith, bit_or_step n (2 ^ suc i), ap (bit_or (n / 2)) (two_pow_half i), two_pow_even i)

xor_low : (n : ℕ) → (bit_xor n 1 / 2 ≡ n / 2) × (bit_xor n 1 % 2 ≡ 1 - n % 2)
xor_low n = omega (arith, bit_xor_step n 1, xor_zero (n / 2), differ_one n)

xor_high :
    (n i : ℕ)
    → (bit_xor n (2 ^ suc i) / 2 ≡ bit_xor (n / 2) (2 ^ i)) × (bit_xor n (2 ^ suc i) % 2 ≡ n % 2)
xor_high n i = omega (
  arith,
  bit_xor_step n (2 ^ suc i),
  ap (bit_xor (n / 2)) (two_pow_half i),
  ap (differ (n % 2)) (two_pow_even i),
  differ-zero (n % 2),
)

-- `|` sets bit `i` and no other.
pub testbit-bit_or :
    (n i j : ℕ) → testbit (bit_or n (2 ^ i)) j ≡ (if i == j then true else testbit n j)
unfolding testbit
testbit-bit_or n zero zero = ground (arith, or_low n)
testbit-bit_or n zero (suc j) = ground (arith, ap (λ m. testbit m j) (or_low n).0)
testbit-bit_or n (suc i) zero = ground (arith, (or_high n i).1)
testbit-bit_or n (suc i) (suc j) =
    ground (arith, ap (λ m. testbit m j) (or_high n i).0, testbit-bit_or (n / 2) i j)

-- `^` turns bit `i` over and no other.
pub testbit-bit_xor :
    (n i j : ℕ)
    → testbit (bit_xor n (2 ^ i)) j ≡ (if i == j then not (testbit n j) else testbit n j)
unfolding testbit
testbit-bit_xor n zero zero = ground (arith, xor_low n)
testbit-bit_xor n zero (suc j) = ground (arith, ap (λ m. testbit m j) (xor_low n).0)
testbit-bit_xor n (suc i) zero = ground (arith, (xor_high n i).1)
testbit-bit_xor n (suc i) (suc j) =
    ground (arith, ap (λ m. testbit m j) (xor_high n i).0, testbit-bit_xor (n / 2) i j)

-- Neither leaves the width of the word.
pub bit_or_bound : (w n i : ℕ) → n < 2 ^ w → i < w → bit_or n (2 ^ i) < 2 ^ w
bit_or_bound zero n i h k = elim k [ ]
bit_or_bound (suc w) n zero h k = omega (arith, or_low n, pow-suc 2 w)
bit_or_bound (suc w) n (suc i) h k = omega (
  arith,
  or_high n i,
  pow-suc 2 w,
  bit_or_bound w (n / 2) i (omega (arith, pow-suc 2 w)) (omega arith),
)

pub bit_xor_bound : (w n i : ℕ) → n < 2 ^ w → i < w → bit_xor n (2 ^ i) < 2 ^ w
bit_xor_bound zero n i h k = elim k [ ]
bit_xor_bound (suc w) n zero h k = omega (arith, xor_low n, pow-suc 2 w)
bit_xor_bound (suc w) n (suc i) h k = omega (
  arith,
  xor_high n i,
  pow-suc 2 w,
  bit_xor_bound w (n / 2) i (omega (arith, pow-suc 2 w)) (omega arith),
)
