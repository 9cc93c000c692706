-- ===== src/FileSystem/Permissions.antt =====
-- ex2.cpp: the test of `check_permissions`, bit by bit.
use ex2_file_system.Memory.{Bytes}
use ex2_file_system.Bits.{or_zero}
use ex2_file_system.Bits.Step.{bit_and_step, bit_or_step}
use ex2_file_system.FileSystem.{permits, inode_mode}
use ex2_file_system.Base.{
  ℕ, ◌*◌, ◌+◌, ◌/◌, ◌%◌, ◌^◌, ◌<◌, ◌≤◌, ◌≡◌, ◌&&◌, Bool, bit_and, bit_or, leb, arith, refl, ap, ◌∙◌,
  zero, suc, min, ◌⊎◌, inl, inr,
}

-- A mask asks for no bit but 1 (read) and 2 (write), and the mode has each bit that it asks for.
abbrev pub allows : ℕ → ℕ → Bool
allows mask mode = leb mask 3 && (leb (mask % 2) (mode % 2) && leb (mask / 2 % 2) (mode / 2 % 2))

or_three : (mask : ℕ) → bit_or mask 3 ≡ mask / 4 * 4 + 3
or_three mask = omega (arith, bit_or_step mask 3, bit_or_step (mask / 2) 1, or_zero (mask / 2 / 2))

none_left : (n : ℕ) → bit_and 0 n ≡ 0
none_left n = rounds n n (omega arith)
  where
    rounds : (k n : ℕ) → n ≤ k → bit_and 0 n ≡ 0
    rounds zero zero h = refl
    rounds (suc k) zero h = refl
    rounds zero (suc n) h = absurd (omega arith)
    rounds (suc k) (suc n) h =
        omega (arith, bit_and_step 0 (suc n), rounds k (suc n / 2) (omega arith))

and_mask :
    (mask mode : ℕ)
    → mask < 4
    → bit_and mask mode ≡ min (mask / 2 % 2) (mode / 2 % 2) * 2 + min (mask % 2) (mode % 2)
and_mask mask mode h =
    let gone : bit_and (mask / 2 / 2) (mode / 2 / 2) ≡ 0 =
      ap (λ k. bit_and k (mode / 2 / 2)) (omega arith) ∙ none_left (mode / 2 / 2) in
    omega (arith, bit_and_step mask mode, bit_and_step (mask / 2) (mode / 2), gone)

-- For a mask below 2^31, the comparisons of `check_permissions` hold exactly when the mask asks for no
-- bit but read and write and the inode's mode has each bit that it asks for.
pub permits-allows :
    (mask : ℕ) (inode : Bytes) → mask < 2 ^ 31 → permits mask inode ≡ allows mask (inode_mode inode)
unfolding permits
permits-allows mask inode h = elim (small mask) [
  | inl low ↦ ground (arith, or_three mask, and_mask mask (inode_mode inode) low)
  | inr high ↦ ground (arith, or_three mask)
]
  where
    small : (mask : ℕ) → (mask < 4) ⊎ (4 ≤ mask)
    small mask = ground arith
