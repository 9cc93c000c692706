-- ===== src/BlockGroup/Manager/Claim.antt =====
-- The steps that the two allocations share: a map is read from its block, its first clear bit is
-- found and set, and the destructor writes it back.
use ex2_file_system.Memory.{Bytes, overwrite, get_field, length-overwrite}
use ex2_file_system.Memory.Copies.{get_field-overwrite_front, get_field-take}
use ex2_file_system.Disk.Store.{SectorStore, IsDisk}
use ex2_file_system.Block.Transfer.{
  block, num_blocks, both_halves, write_steps, block-both_halves, both_halves-IsReady, after_both,
  block-after_both, after_both-IsReady,
}
use ex2_file_system.BitMap.{BitMap, get_least_significant_bit, set_bit}
use ex2_file_system.BitMap.Spec.{bit, AllSet, Finds}
use ex2_file_system.BitMap.Search.{get_least_significant_bit-Finds}
use ex2_file_system.BitMap.Update.{set_bit_lem}
use ex2_file_system.BlockGroup.BitMapBlock.{GroupBitMap, write_inode_bitmap}
use ex2_file_system.BlockGroup.BitMapBlock.Reading.{
  fields_of, read_bitmap, read_bitmap_same, fields_same,
}
use ex2_file_system.BlockGroup.BitMapBlock.RoundTrip.{
  IsGroupMap, image, copy_write-image, length-image, image_size, image_block_size, image_words,
  image_number,
}
use ex2_file_system.BlockGroup.Manager.{destroy_block_bitmap, destroy_inode_bitmap}
use ex2_file_system.Effect.{done}
use ex2_file_system.Base.{
  ℕ, ◌+◌, ◌%◌, ◌^◌, ◌<◌, ◌≤◌, ◌≡◌, ◌≢◌, refl, ap, sym, ◌∙◌, true, false, some, length, arith,
  if◌then◌else◌, ◌==◌, take, ==_refl, inl, inr, int_mod, to_u64,
}

-- A block of the disk that holds the map `g`.
pub record StoresMap (bs : Bytes) (g : GroupBitMap) : Type 0 where
  pub header : get_field 4 0 bs ≡ 252
  pub fields : fields_of bs ≡ g
  pub is_map : IsGroupMap g

module _ (stack : Bytes) (big : length stack ≡ 2048) where
  -- The map as the code reads it, behind the copy into a local block.
  pub read_stored :
      (bs : Bytes) (g : GroupBitMap)
      → length bs ≡ 1024
      → StoresMap bs g
      → write_inode_bitmap (overwrite stack 0 bs) ≡ some g
  read_stored bs g len st =
      read_bitmap_same bs (overwrite stack 0 bs)
        (λ w o h. sym (get_field-overwrite_front w o stack bs (omega arith) (omega arith)))
        st.header (omega arith) (omega (arith, length-overwrite stack 0 bs))
      ∙ read_bitmap bs st.header (omega arith)
      ∙ ap some st.fields

  -- The block that a map leaves on the disk holds it.
  pub stored_image : (g : GroupBitMap) → IsGroupMap g → StoresMap (take 1024 (image g stack)) g
  stored_image g m = record {
    header =
        get_field-take 4 0 1024 (image g stack) (omega arith) ∙ image_size g m stack (omega arith);
    fields =
        fields_same (take 1024 (image g stack)) (image g stack)
          (λ w o h. get_field-take w o 1024 (image g stack) (omega arith))
        ∙ (λ i. record {
          bits = record {
            size = sym m.size i;
            block_size = image_block_size g m stack (omega arith) i;
            blocks = image_words g m stack (omega arith) i;
          };
          block_number = image_number g m stack (omega arith) i;
        });
    is_map = m;
  }

-- The search and the update of the two functions, on a map with a clear bit.
pub record Picks (g g' : GroupBitMap) (lowest : ℕ) : Type 0 where
  pub below : lowest < 7800
  pub was_clear : bit g.bits lowest ≡ false
  pub first : AllSet (bit g.bits) 0 lowest
  pub marked : (j : ℕ) → bit g'.bits j ≡ (if lowest == j then true else bit g.bits j)
  pub is_map : IsGroupMap g'
  pub same_number : g'.block_number ≡ g.block_number

abbrev pub Picked : GroupBitMap → Type 0
Picked g =
    (lowest : ℕ) × (b' : BitMap) × (get_least_significant_bit 7800 0 7799 g.bits ≡ some lowest)
    × (set_bit 7800 lowest g.bits ≡ some (0, b'))
    × Picks g (record g { bits = b' }) lowest

pub pick : (g : GroupBitMap) → IsGroupMap g → (i : ℕ) → i < 7800 → bit g.bits i ≡ false → Picked g
pick g m i h clear = go (get_least_significant_bit-Finds m.valid 0 7799 (omega arith) (omega arith))
  where
    go :
        ((r : ℕ) × (get_least_significant_bit 7800 0 7799 g.bits ≡ some r)
          × Finds (bit g.bits) 0 7800 r)
        → Picked g
    go (r, e, inl (none_left, all)) = absurd (ground (arith, all i))
    go (r, e, inr (p, q, off, f)) =
        let (b', set, valid, size, marked) = set_bit_lem m.valid r q in
        (
          r,
          b',
          e,
          set,
          record {
            below = q;
            was_clear = off;
            first = f;
            marked = marked;
            is_map = record { valid = valid; size = size ∙ m.size; number = m.number };
            same_number = refl;
          },
        )

-- The numbers that the two functions return.
pub data_number :
    (start lowest : ℕ)
    → start < 2 ^ 20
    → lowest < 7800
    → (to_u64 start + 3 + 7800 + to_u64 lowest) % int_mod ≡ start + 7803 + lowest
data_number start lowest h k = ground arith

pub inode_number :
    (start lowest : ℕ)
    → start < 2 ^ 20
    → lowest < 7800
    → (to_u64 start + 3 + to_u64 lowest) % int_mod ≡ start + 3 + lowest
inode_number start lowest h k = ground arith

-- What a successful allocation does to the disk: in the map at block `addr` the bit `lowest`, the
-- first clear one, is set and no other bit changes, and no other block changes.
pub record Claims (d : SectorStore) (disk : IsDisk d) (s s' : d.State) (addr lowest : ℕ)
    (g : GroupBitMap) : Type 0 where
  pub after : GroupBitMap
  pub picks : Picks g after lowest
  pub stored : StoresMap (block d disk s' addr) after
  pub others : (n : ℕ) → addr ≢ n → block d disk s' n ≡ block d disk s n
  pub ready : disk.IsReady s'

module _ (d : SectorStore) (disk : IsDisk d) (stack behind : Bytes)
    (big : length stack ≡ 2048) where
  -- The map is read into a local, changed, and written back by its destructor.
  pub claim :
      (s : d.State) (addr : ℕ) (g g' : GroupBitMap) (lowest : ℕ)
      → disk.IsReady s
      → addr < num_blocks
      → Picks g g' lowest
      → Claims d disk s
          (both_halves d disk (after_both d disk s addr) addr (image g' stack))
          addr
          lowest
          g
  claim s addr g g' lowest ready h p = record {
    after = g';
    picks = p;
    stored =
        rw (block-both_halves d disk addr addr (image g' stack) s1 h long, ==_refl addr)
          (stored_image stack big g' p.is_map);
    others = λ n ne.
        rw (block-both_halves d disk addr n (image g' stack) s1 h long, elsewhere n ne)
          (block-after_both d disk addr n s);
    ready =
        both_halves-IsReady d disk addr (image g' stack) s1 h long
          (after_both-IsReady d disk addr s ready);
  }
    where
      s1 : d.State
      s1 = after_both d disk s addr

      long : 1024 ≤ length (image g' stack)
      long = omega (arith, length-image g' p.is_map stack (omega arith))

      elsewhere : (n : ℕ) → addr ≢ n → (addr == n) ≡ false
      elsewhere n ne = ground arith

  unfoldable pub claimed_state : d.State → ℕ → GroupBitMap → d.State
  claimed_state s addr g' = both_halves d disk (after_both d disk s addr) addr (image g' stack)

  pub write_back :
      (g : GroupBitMap) (addr : ℕ) (s : d.State)
      → IsGroupMap g
      → g.block_number ≡ addr
      → addr < num_blocks
      → (destroy_block_bitmap d stack behind g s
          ≡ done 0 (both_halves d disk s addr (image g stack)))
        × (destroy_inode_bitmap d stack behind g s
            ≡ done 0 (both_halves d disk s addr (image g stack)))
  unfolding destroy_block_bitmap destroy_inode_bitmap
  write_back g addr s m num h =
      let long : 1024 ≤ length (image g stack) =
        omega (arith, length-image g m stack (omega arith)) in
      let copied = copy_write-image g m stack (omega arith) in
      let steps = write_steps d disk addr (image g stack) s h long in
      (simp (copied, num, steps), simp (copied, num, steps))
