-- ===== src/BlockGroup/Tests.antt =====
-- A blank image with the maps of group 1 in place.
use ex2_file_system.Memory.{Bytes, from_bytes, get_field}
use ex2_file_system.Disk.Tests.{image_disk, image-IsDisk, blank, blank-IsReady, RamFile}
use ex2_file_system.Block.Transfer.{
  block, both_halves, block-both_halves, both_halves-IsReady, num_blocks,
}
use ex2_file_system.BitMap.{fresh}
use ex2_file_system.Bits.{testbit}
use ex2_file_system.BitMap.Spec.{bit}
use ex2_file_system.BitMap.Update.{fresh-IsValid}
use ex2_file_system.BlockGroup.Address.{
  get_starting_block_inode, get_starting_block_inode_bitmap, get_starting_block_bitmap,
  get_starting_block_group_descriptor, group_stride,
}
use ex2_file_system.BlockGroup.Address.Layout.{inode_blocks_apart, inode_inside_iff}
use ex2_file_system.BlockGroup.BitMapBlock.{
  GroupBitMap, copy_write_memory_block, write_inode_bitmap, inode_bitmap_from_block,
  block_bitmap_from_block,
}
use ex2_file_system.BlockGroup.BitMapBlock.RoundTrip.{
  IsGroupMap, image, write-read_bitmap, length-image,
}
use ex2_file_system.BlockGroup.BitMapBlock.Swapped.{constructors_differ}
use ex2_file_system.BlockGroup.Manager.{
  find_first_empty_inode, free_inodes_count, write_inode_info, read_inode_info,
}
use ex2_file_system.BlockGroup.Manager.Claim.{StoresMap, Claims, stored_image}
use ex2_file_system.BlockGroup.Manager.Allocate.{find_first_empty_inode-Claims}
use ex2_file_system.BlockGroup.Manager.Inode.{write-read_inode}
use ex2_file_system.Effect.{done}
use ex2_file_system.Base.{
  zero, suc, ℕ, ◌+◌, ◌*◌, ◌^◌, ◌≡◌, ◌≢◌, ◌≤◌, ◌<◌, ◌==◌, replicate, arith, length-replicate, length,
  refl, some, subst, sym, ◌∙◌, false, [], ◌∷◌, ==_refl,
}

abbrev pub stack : Bytes
stack = replicate 2048 0

abbrev pub behind : Bytes
behind = replicate 1000 0

pub big : length stack ≡ 2048
big = length-replicate {A = ℕ} 2048 0

abbrev pub map_at : ℕ → GroupBitMap
map_at n = record { bits = fresh 7800; block_number = n }

map_at-IsGroupMap : (n : ℕ) → n < 2 ^ 32 → IsGroupMap (map_at n)
unfolding fresh
map_at-IsGroupMap n h = record { valid = fresh-IsValid 7800 (omega arith); size = refl; number = h }

pub fresh_clear : bit (fresh 7800) 0 ≡ false
unfolding fresh testbit
fresh_clear = refl

abbrev pub contents : RamFile → ℕ → Bytes
contents = block image_disk image-IsDisk

abbrev pub formatted : ℕ → RamFile
formatted n = both_halves image_disk image-IsDisk blank n (image (map_at n) stack)

long : (n : ℕ) → n < 2 ^ 32 → 1024 ≤ length (image (map_at n) stack)
long n h =
    omega (arith, big, length-image (map_at n) (map_at-IsGroupMap n h) stack (omega (arith, big)))

pub formatted-StoresMap : (n : ℕ) → n < num_blocks → StoresMap (contents (formatted n) n) (map_at n)
formatted-StoresMap n h =
    subst (λ bs. StoresMap bs (map_at n))
      (sym (
        block-both_halves image_disk image-IsDisk n n (image (map_at n) stack) blank h
          (long n (omega arith))
        ∙ rw (==_refl n)))
      (stored_image stack big (map_at n) (map_at-IsGroupMap n (omega arith)))

pub formatted-IsReady : (n : ℕ) → n < num_blocks → image-IsDisk.IsReady (formatted n)
formatted-IsReady n h =
    both_halves-IsReady image_disk image-IsDisk n (image (map_at n) stack) blank h
      (long n (omega arith)) blank-IsReady

write-read_bitmap_example :
    (d : Bytes) × (copy_write_memory_block (map_at 5) stack ≡ some d)
    × (length d ≡ length stack)
    × (write_inode_bitmap d ≡ some (map_at 5))
write-read_bitmap_example =
    write-read_bitmap (map_at 5) (map_at-IsGroupMap 5 (omega arith)) stack (omega (arith, big))

constructors_differ_example :
    (d : Bytes) × (h : GroupBitMap) × (copy_write_memory_block (map_at 5) stack ≡ some d)
    × (block_bitmap_from_block d ≡ some (map_at 5))
    × (inode_bitmap_from_block d ≡ some h)
    × (h.bits.size ≡ 31)
    × (h.bits.block_size ≡ 252)
constructors_differ_example =
    constructors_differ (map_at 5) (map_at-IsGroupMap 5 (omega arith)) stack (omega (arith, big))

inode_blocks_apart_example :
    (get_starting_block_inode 10 ≡ get_starting_block_inode 20 → ◌≡◌ {A = ℕ} 10 20)
    × (get_starting_block_inode 10 ≢ get_starting_block_group_descriptor 1)
    × (get_starting_block_inode 10 ≢ get_starting_block_bitmap 1)
    × (get_starting_block_inode 10 ≢ get_starting_block_inode_bitmap 1)
inode_blocks_apart_example = inode_blocks_apart 10 20 1 (omega arith) (omega arith) (omega arith)

inode_inside_example :
    (700 < 612 → get_starting_block_inode 700 < num_blocks)
    × (612 ≤ 700 → num_blocks ≤ get_starting_block_inode 700)
inode_inside_example = inode_inside_iff 700 (omega arith)

abbrev pub descriptor : Bytes
descriptor =
    0 ∷ 0 ∷ 0 ∷ 0 ∷ 0 ∷ 0 ∷ 0 ∷ 0 ∷ 0 ∷ 0 ∷ 0 ∷ 0 ∷ 120 ∷ 30 ∷ 120 ∷ 30 ∷ 0 ∷ 0 ∷ 0 ∷ 0 ∷ 0 ∷ 0 ∷ 0
    ∷ 0 ∷ []

pub counted : (free_inodes_count descriptor == 0) ≡ false
unfolding get_field from_bytes
counted = refl

find_first_empty_inode_example :
    (lowest : ℕ) × (s' : RamFile) × (find_first_empty_inode image_disk stack behind 0 descriptor
        (formatted 5)
      ≡ done (0 * group_stride + 6 + lowest) s')
    × Claims image_disk image-IsDisk (formatted 5) s' 5 lowest (map_at 5)
unfolding get_starting_block_inode_bitmap
find_first_empty_inode_example =
    find_first_empty_inode-Claims image_disk image-IsDisk stack behind big (formatted 5) 0
      descriptor (map_at 5) 0 (formatted-IsReady 5 (omega arith)) (omega arith) counted
      (formatted-StoresMap 5 (omega arith)) refl (omega arith) fresh_clear

abbrev inode : Bytes
inode = replicate 144 1

abbrev target : Bytes
target = replicate 144 2

write-read_inode_example :
    (s' s'' : RamFile) × (result : Bytes) × (write_inode_info image_disk stack behind 8 inode blank
      ≡ done 0 s')
    × (read_inode_info image_disk stack behind 8 target s' ≡ done result s'')
    × ((w o : ℕ) → o + w ≤ 133 → get_field w o result ≡ get_field w o inode)
    × ((w o : ℕ) → 133 ≤ o → get_field w o result ≡ get_field w o target)
write-read_inode_example =
    write-read_inode image_disk image-IsDisk stack behind big blank 8 inode target blank-IsReady
      (omega arith) (length-replicate {A = ℕ} 144 1) (length-replicate {A = ℕ} 144 2)

-- A word of `w` set bits.
abbrev set_word : ℕ → ℕ
set_word zero = 0
set_word (suc w) = 2 * set_word w + 1

abbrev full_map : GroupBitMap
full_map = record {
  bits = record { size = 252; block_size = 31; blocks = replicate 252 (set_word 31) };
  block_number = 5;
}

abbrev full_disk : RamFile
full_disk = both_halves image_disk image-IsDisk blank 5 (image full_map stack)
