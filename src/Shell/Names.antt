-- ===== src/Shell/Names.antt =====
-- shell_manager.cpp: `split_file_name` and `extract_permissions`, on strings as bytes, and what
-- `strcmp` compares.
pub mod Splitting
pub mod Permissions
use mathlib.Core.Option.{map}
use ex2_file_system.Memory.{Bytes}
use ex2_file_system.Base.{
  ℕ, ◌==◌, if◌then◌else◌, Option, none, some, List, [], ◌∷◌, ◌++◌, bit_or, minus_one,
}

abbrev pub slash : ℕ
slash = b'/'

-- The two loops of `split_file_name`, over the characters from `curr_idx` on. The outer loop starts
-- a new name; its first test of the inner loop is part of its step.
unfoldable mutual
  pub next_name : Bytes → List Bytes → List Bytes
  next_name [] v = v
  next_name (c ∷ cs) v =
      let ended = next_name cs (v ++ [] ∷ []) in
      let longer = rest_of_name cs (c ∷ []) v in if c == slash then ended else longer

  pub rest_of_name : Bytes → Bytes → List Bytes → List Bytes
  rest_of_name [] curr_file_name v = v ++ curr_file_name ∷ []
  rest_of_name (c ∷ cs) curr_file_name v =
      let ended = next_name cs (v ++ curr_file_name ∷ []) in
      let longer = rest_of_name cs (curr_file_name ++ c ∷ []) v in
      if c == slash then ended else longer

-- The names are put behind those that `v` holds.
unfoldable pub split_file_name : Bytes → List Bytes → List Bytes
split_file_name file_name v = next_name file_name v

-- The loop of `extract_permissions` from the permission so far.
unfoldable pub permissions_loop : Bytes → ℕ → ℕ
permissions_loop [] permission = permission
permissions_loop (chr ∷ chrs) permission =
    let read = permissions_loop chrs (bit_or permission 1) in
    let write = permissions_loop chrs (bit_or permission 2) in
    if chr == b'R' then read else if chr == b'W' then write else minus_one

unfoldable pub extract_permissions : Bytes → ℕ
extract_permissions permissions = permissions_loop permissions 0

-- The characters up to the first NUL; `none` when the object holds none.
unfoldable pub c_string : Bytes → Option Bytes
c_string [] = none
c_string (b ∷ bs) = if b == 0 then some [] else map (λ s. b ∷ s) (c_string bs)
