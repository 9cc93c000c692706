-- ===== src/BitMap.antt =====
-- data_structures/bitmap/bitmap.h and bitmap.cpp: `BitMap<T>`, `T` bits in words of `block_size`
-- bits each. An `int` is its pattern below 2 ^ 32 and -1 is `minus_one`. An operation returns `none`
-- where the C++ has undefined behaviour: an access outside `blocks`, a division by zero, or a
-- shift by 32 or more.
-- The field `memory_initialized` is never read or written and is left out, and the destructor only
-- frees `blocks`.
pub mod Spec
pub mod Scan
pub mod Update
pub mod Search
pub mod Tests
use ex2_file_system.Bits.{testbit}
use ex2_file_system.Base.{
  ℕ, zero, suc, ◌+◌, ◌-◌, ◌*◌, ◌/◌, ◌%◌, ◌^◌, ◌<◌, Bool, true, false, ◌&&◌, not, Option, none, some,
  List, [], ◌∷◌, bit_and, bit_or, bit_xor, ◌==◌, leb, if◌then◌else◌, ◌>>=◌, minus_one, is_negative,
  lt_int, get_elem?, set, replicate,
}

pub record BitMap : Type 0 where
  pub size : ℕ
  pub block_size : ℕ
  pub blocks : List ℕ

-- A division of `int`s; the quotient is used only where neither is negative.
unfoldable pub quotient : ℕ → ℕ → Option ℕ
quotient a b = if b == 0 then none else some (a / b)

-- The loop of `extract_least_significant`, with the rounds that are left: `none` where `1 << i` shifts
-- by more than an `int` has bits.
unfoldable pub extract_loop : ℕ → ℕ → ℕ → Option ℕ
extract_loop zero num i = some minus_one
extract_loop (suc k) num i =
    let rest = extract_loop k num (i + 1) in
    if leb 32 i then none else if bit_and num (2 ^ i) == 0 then some i else rest

unfoldable pub extract_least_significant : ℕ → ℕ → ℕ → Option ℕ
extract_least_significant num start end = extract_loop (end - start) num start

-- `BitMap()`: for `T` below 2 ^ 24, as in the instances of 7800 bits, the `float` quotient is exact
-- enough to round up to this `size`.
unfoldable pub fresh : ℕ → BitMap
fresh T = record { size = (T + 30) / 31; block_size = 31; blocks = replicate ((T + 30) / 31) 0 }

-- The copying loop of the constructor from memory: `none` past the end of the source.
unfoldable pub copy_words : ℕ → List ℕ → Option (List ℕ)
copy_words zero my_blocks = some []
copy_words (suc n) [] = none
copy_words (suc n) (w ∷ ws) = do rest ← copy_words n ws; some (w ∷ rest)

-- `BitMap(int *block_size, int *size, int *my_blocks)`
unfoldable pub from_memory : ℕ → ℕ → List ℕ → Option BitMap
unfolding copy_words
from_memory block_size size my_blocks = do
  blocks ← copy_words size my_blocks
  some (record { size = size; block_size = block_size; blocks = blocks })

unfoldable pub check_boundaries : ℕ → ℕ → Bool
check_boundaries T index = if is_negative index then false else if leb T index then false else true

-- `1 << (index % block_size)`
unfoldable pub mask_of : ℕ → BitMap → Option ℕ
mask_of index b =
    if b.block_size == 0
    then none
    else if leb 32 (index % b.block_size)
    then none
    else some (2 ^ (index % b.block_size))

-- `blocks[index / block_size] = word`
unfoldable pub put_word : ℕ → ℕ → BitMap → BitMap
put_word index word b = record b { blocks = set b.blocks (index / b.block_size) word }

module _ (T : ℕ) where
  -- Each of the four divides before it tests the bounds.
  unfoldable pub is_set : ℕ → BitMap → Option ℕ
  is_set index b = do
    block_idx ← quotient index b.block_size
    if not (check_boundaries T index) then some minus_one else do
      word ← get_elem? b.blocks block_idx
      mask ← mask_of index b
      some (bit_and word mask)

  unfoldable pub set_bit : ℕ → BitMap → Option (ℕ × BitMap)
  set_bit index b = do
    block_idx ← quotient index b.block_size
    if not (check_boundaries T index) then some (minus_one, b) else do
      word ← get_elem? b.blocks block_idx
      mask ← mask_of index b
      some (0, put_word index (bit_or word mask) b)

  unfoldable pub unset_bit : ℕ → BitMap → Option (ℕ × BitMap)
  unset_bit index b = do
    block_idx ← quotient index b.block_size
    if not (check_boundaries T index) then some (minus_one, b) else do
      was_set ← is_set index b
      word ← get_elem? b.blocks block_idx
      mask ← mask_of index b
      some (0, if was_set == 0 then b else put_word index (bit_xor word mask) b)

  unfoldable pub flip : ℕ → BitMap → Option (ℕ × BitMap)
  flip index b = do
    block_idx ← quotient index b.block_size
    if not (check_boundaries T index) then some (minus_one, b) else do
      word ← get_elem? b.blocks block_idx
      mask ← mask_of index b
      let b' = put_word index (bit_xor word mask) b
      now_set ← is_set index b'
      some (now_set, b')

-- The loop over the blocks strictly between the first and the last, with the rounds that are left.
unfoldable pub between_loop : ℕ → ℕ → BitMap → Option ℕ
between_loop zero block b = some minus_one
between_loop (suc k) block b =
    let rest = between_loop k (block + 1) b in
    do
      word ← get_elem? b.blocks block
      desired_bit ← extract_least_significant word 0 b.block_size
      if desired_bit == minus_one then rest else some (block * b.block_size + desired_bit)

-- The end of the search: the loop over the blocks between, then the last block.
unfoldable pub search_rest : ℕ → ℕ → ℕ → BitMap → Option ℕ
search_rest starting_block ending_block end_range b = do
  found ← between_loop (ending_block - (starting_block + 1)) (starting_block + 1) b
  if not (found == minus_one)
      then some found
      else if starting_block == ending_block
      then some minus_one
      else do
        last_word ← get_elem? b.blocks ending_block
        desired_bit ← extract_least_significant last_word 0 (end_range % b.block_size + 1)
        if desired_bit == minus_one
            then some minus_one
            else some (ending_block * b.block_size + desired_bit)

unfoldable pub search_blocks : ℕ → ℕ → BitMap → Option ℕ
search_blocks start_range end_range b = do
  starting_block ← quotient start_range b.block_size
  ending_block ← quotient end_range b.block_size
  let bound_end =
      if starting_block == ending_block then end_range % b.block_size + 1 else b.block_size
  word ← get_elem? b.blocks starting_block
  desired_bit ← extract_least_significant word (start_range % b.block_size) bound_end
  if desired_bit == minus_one
      then search_rest starting_block ending_block end_range b
      else some (starting_block * b.block_size + desired_bit)

unfoldable pub get_least_significant_bit : ℕ → ℕ → ℕ → BitMap → Option ℕ
get_least_significant_bit T start_range end_range b =
    if lt_int end_range start_range
    then some minus_one
    else if not (check_boundaries T start_range && check_boundaries T end_range)
    then some minus_one
    else search_blocks start_range end_range b
