-- ===== src/BlockGroup/BitMapBlock/Reading.antt =====
-- What `write_inode_bitmap` reads from a block that holds a map of 252 words.
use ex2_file_system.Memory.{Bytes, get_field}
use ex2_file_system.Memory.Words.{get_ints}
use ex2_file_system.BitMap.{fresh}
use ex2_file_system.BlockGroup.BitMapBlock.{GroupBitMap, write_inode_bitmap}
use mathlib.Core.List.{append-nil}
use ex2_file_system.Base.{
  ℕ, zero, suc, ◌+◌, ◌*◌, ◌≤◌, ◌≡◌, refl, ap, ap₂, sym, ◌∙◌, some, length, le→leb, arith, ◌∷◌,
}

-- The map in the fields of a block.
abbrev pub fields_of : Bytes → GroupBitMap
fields_of d = record {
  bits = record { size = 252; block_size = get_field 4 4 d; blocks = get_ints 8 252 d };
  block_number = get_field 4 1016 d;
}

pub read_bitmap :
    (d : Bytes)
    → get_field 4 0 d ≡ 252
    → 1020 ≤ length d
    → write_inode_bitmap d ≡ some (fields_of d)
unfolding write_inode_bitmap fresh
read_bitmap d is room = rw (is, le→leb 1020 (length d) room) (rw (append-nil (get_ints 8 252 d)))

-- Two blocks that agree on their first 1020 bytes, field by field.
abbrev pub SameFields : Bytes → Bytes → Type 0
SameFields d d' = (w o : ℕ) → o + w ≤ 1020 → get_field w o d ≡ get_field w o d'

get_ints_same :
    (d d' : Bytes)
    → SameFields d d'
    → (ptr n : ℕ) → ptr + 4 * n ≤ 1020
    → get_ints ptr n d ≡ get_ints ptr n d'
unfolding get_ints
get_ints_same d d' same ptr zero h = refl
get_ints_same d d' same ptr (suc n) h =
    ap₂ (λ x xs. x ∷ xs) (same 4 ptr (omega arith))
      (get_ints_same d d' same (ptr + 4) n (omega arith))

pub fields_same : (d d' : Bytes) → SameFields d d' → fields_of d ≡ fields_of d'
fields_same d d' same i = record {
  bits = record {
    size = 252;
    block_size = same 4 4 (omega arith) i;
    blocks = get_ints_same d d' same 8 252 (omega arith) i;
  };
  block_number = same 4 1016 (omega arith) i;
}

-- hold the same map.
pub read_bitmap_same :
    (d d' : Bytes)
    → SameFields d d'
    → get_field 4 0 d ≡ 252
    → 1020 ≤ length d
    → 1020 ≤ length d'
    → write_inode_bitmap d' ≡ write_inode_bitmap d
read_bitmap_same d d' same is room room' =
    read_bitmap d' (sym (same 4 0 (omega arith)) ∙ is) room'
    ∙ ap some (sym (fields_same d d' same))
    ∙ sym (read_bitmap d is room)
