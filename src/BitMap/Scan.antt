-- ===== src/BitMap/Scan.antt =====
-- `Finds` for the scan of one word, and how two neighbouring searches join.
use ex2_file_system.Bits.{testbit, bit_and-two_pow, two_pow_ne_zero}
use ex2_file_system.Base.{
  ℕ, zero, suc, ◌+◌, ◌-◌, ◌≤◌, ◌<◌, ◌≡◌, ◌⊎◌, inl, inr, refl, Bool, true, false, arith, Bool-cases,
  Option, some, minus_one, leb,
}
use ex2_file_system.BitMap.{extract_loop, extract_least_significant}
use ex2_file_system.BitMap.Spec.{Finds, IsFirstClear}

pub lt_or_le : (j m : ℕ) → (j < m) ⊎ (m ≤ j)
lt_or_le j m = omega arith

module _ {p : ℕ → Bool} where
  pub Finds-range :
      {lo lo' hi hi' r : ℕ} → lo' ≡ lo → hi' ≡ hi → Finds p lo hi r → Finds p lo' hi' r
  Finds-range e e' f = rw (e, e') f

  pub IsFirstClear-widen :
      {lo lo' hi hi' r : ℕ}
      → lo' ≡ lo
      → hi ≤ hi'
      → IsFirstClear p lo hi r
      → IsFirstClear p lo' hi' r
  IsFirstClear-widen e le (a, b, c, f) = rw e (a, omega arith, c, f)

  -- The first part finds nothing: the answer is that of the second.
  pub Finds-skip :
      (lo mid hi r : ℕ)
      → ((j : ℕ) → lo ≤ j → j < mid → p j ≡ true)
      → lo ≤ mid
      → Finds p mid hi r
      → Finds p lo hi r
  Finds-skip lo mid hi r all le (inl (e, f)) =
      inl (e, λ j h k. elim (lt_or_le j mid) [ inl q ↦ all j h q | inr q ↦ f j q k ])
  Finds-skip lo mid hi r all le (inr (a, b, c, f)) =
      inr
        (omega arith, b, c, λ j h k. elim (lt_or_le j mid) [ inl q ↦ all j h q | inr q ↦ f j q k ])

  pub Finds-step : (lo hi r : ℕ) → p lo ≡ true → Finds p (suc lo) hi r → Finds p lo hi r
  Finds-step lo hi r on f =
      Finds-skip lo (suc lo) hi r (λ j h k. let e : j ≡ lo = omega arith in rw e on) (omega arith) f

-- The loop looks at `k` bits from `i` on, and `extract_least_significant` from `start` to `end`.
abbrev pub Extracted : Option ℕ → ℕ → ℕ → ℕ → Type 0
Extracted o num lo hi = (r : ℕ) × (o ≡ some r) × Finds (testbit num) lo hi r

extract_loop-Finds : (k num i : ℕ) → i + k ≤ 32 → Extracted (extract_loop k num i) num i (i + k)
unfolding extract_loop
extract_loop-Finds zero num i h = (minus_one, refl, inl (refl, λ j h k. absurd (omega arith)))
extract_loop-Finds (suc k) num i h =
    let short : leb 32 i ≡ false = ground arith in
    let (r, runs, f) = extract_loop-Finds k num (i + 1) (omega arith) in
    elim (Bool-cases (testbit num i)) [
      | inl on ↦ (
        r,
        rw (short, bit_and-two_pow num i, on) (rw (two_pow_ne_zero i) runs),
        Finds-step i (i + suc k) r on (Finds-range (omega arith) (omega arith) f),
      )
      | inr off ↦ (
        i,
        rw (short, bit_and-two_pow num i, off) refl,
        inr (omega arith, omega arith, off, λ j h k. absurd (omega arith)),
      )
    ]

pub extract-Finds :
    (num start end : ℕ)
    → start ≤ end
    → end ≤ 32
    → Extracted (extract_least_significant num start end) num start end
unfolding extract_least_significant
extract-Finds num start end h short =
    let (r, runs, f) = extract_loop-Finds (end - start) num start (omega arith) in
    (r, runs, Finds-range refl (omega arith) f)
