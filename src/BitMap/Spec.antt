-- ===== src/BitMap/Spec.antt =====
-- What a bit map stands for: a Boolean for each index below `T`.
use ex2_file_system.Bits.{testbit}
use ex2_file_system.Base.{
  ℕ, ◌*◌, ◌/◌, ◌%◌, ◌^◌, ◌≤◌, ◌<◌, ◌≡◌, ◌⊎◌, Bool, true, false, minus_one, length, get_or,
}
use ex2_file_system.BitMap.{BitMap}

-- Bit `i`, in words of 31 bits.
abbrev pub bit : BitMap → ℕ → Bool
bit b i = testbit (get_or b.blocks (i / 31) 0) (i % 31)

-- A map as the constructor makes it: 31 bits to a word, as many words as `size` says, room for `T`
-- bits, and no word that uses the sign bit of its `int`.
pub record IsValid (T : ℕ) (b : BitMap) : Type 0 where
  pub word_size : b.block_size ≡ 31
  pub sized : length b.blocks ≡ b.size
  pub room : T ≤ 31 * b.size
  pub fits : T < 2 ^ 31
  pub words : (i : ℕ) → get_or b.blocks i 0 < 2 ^ 31

-- `p` is true from `lo` up to `hi`, `hi` excluded.
abbrev pub AllSet : (ℕ → Bool) → ℕ → ℕ → Type 0
AllSet p lo hi = (j : ℕ) → lo ≤ j → j < hi → p j ≡ true

-- `r` is the first index of `lo ≤ r < hi` at which `p` is false.
abbrev pub IsFirstClear : (ℕ → Bool) → ℕ → ℕ → ℕ → Type 0
IsFirstClear p lo hi r = (lo ≤ r) × (r < hi) × (p r ≡ false) × AllSet p lo r

-- The first clear index, or -1 if there is none.
abbrev pub Finds : (ℕ → Bool) → ℕ → ℕ → ℕ → Type 0
Finds p lo hi r = ((r ≡ minus_one) × AllSet p lo hi) ⊎ IsFirstClear p lo hi r
