-- ===== src/BitMap/Tests.antt =====
-- Bit maps of 100 bits.
use ex2_file_system.BitMap.{
  BitMap, fresh, is_set, set_bit, unset_bit, flip, get_least_significant_bit, check_boundaries,
  search_blocks, search_rest, between_loop, extract_least_significant, extract_loop, quotient,
}
use ex2_file_system.BitMap.Spec.{bit, IsValid, Finds}
use ex2_file_system.BitMap.Update.{fresh-IsValid, one_bit_operations, out_of_bounds}
use ex2_file_system.BitMap.Search.{get_least_significant_bit-Finds}
use ex2_file_system.Base.{
  ℕ, ◌^◌, ◌≡◌, refl, inl, if◌then◌else◌, true, false, not, ◌==◌, some, minus_one, arith, [], ◌∷◌,
}

-- Bits 0 to 31 and 33 are set.
abbrev nearly : BitMap
nearly = record { size = 4; block_size = 31; blocks = 2147483647 ∷ 5 ∷ 0 ∷ 0 ∷ [] }

finds_32 : get_least_significant_bit 100 0 99 nearly ≡ some 32
unfolding get_least_significant_bit check_boundaries search_blocks search_rest between_loop
    extract_least_significant extract_loop quotient
finds_32 = refl

abbrev ok : IsValid 100 (fresh 100)
ok = fresh-IsValid 100 (omega arith)

get_least_significant_bit-Finds_example :
    (r : ℕ) × (get_least_significant_bit 100 0 99 (fresh 100) ≡ some r)
    × Finds (bit (fresh 100)) 0 100 r
get_least_significant_bit-Finds_example =
    get_least_significant_bit-Finds ok 0 99 (omega arith) (omega arith)

one_bit_operations_example :
    (is_set 100 40 (fresh 100) ≡ some (if bit (fresh 100) 40 then 2 ^ 9 else 0))
    × ((b : BitMap) × (set_bit 100 40 (fresh 100) ≡ some (0, b))
        × IsValid 100 b
        × (b.size ≡ (fresh 100).size)
        × ((j : ℕ) → bit b j ≡ (if 40 == j then true else bit (fresh 100) j)))
    × ((b : BitMap) × (unset_bit 100 40 (fresh 100) ≡ some (0, b))
        × IsValid 100 b
        × ((j : ℕ) → bit b j ≡ (if 40 == j then false else bit (fresh 100) j)))
    × ((b : BitMap) × (flip 100 40 (fresh 100) ≡ some (if bit (fresh 100) 40 then 0 else 2 ^ 9, b))
        × IsValid 100 b
        × ((j : ℕ) → bit b j ≡ (if 40 == j then not (bit (fresh 100) j) else bit (fresh 100) j)))
one_bit_operations_example = one_bit_operations ok 40 (omega arith)

out_of_bounds_example :
    (is_set 100 100 nearly ≡ some minus_one)
    × (set_bit 100 100 nearly ≡ some (minus_one, nearly))
    × (unset_bit 100 100 nearly ≡ some (minus_one, nearly))
    × (flip 100 100 nearly ≡ some (minus_one, nearly))
out_of_bounds_example = out_of_bounds 100 nearly 100 (omega arith) (omega arith) (inl (omega arith))
