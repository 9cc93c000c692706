-- ===== src/BlockGroup/Manager/DataBlock.antt =====
-- `find_first_empty_data_block` hands out the first clear bit of the map of the inode's group and marks
-- it on the disk; the destructor of its descriptor writes that back.
use ex2_file_system.Memory.{Bytes, overwrite, get_field, length-overwrite}
use ex2_file_system.Memory.Copies.{get_field-overwrite_front, get_field-take, take-overwrite_front}
use ex2_file_system.Disk.Store.{SectorStore, IsDisk}
use ex2_file_system.Block.Transfer.{
  block, num_blocks, after_both, read_steps, length-block, block-after_both, after_both-IsReady,
  both_halves, write_steps, block-both_halves, both_halves-IsReady,
}
use ex2_file_system.BitMap.Spec.{bit}
use ex2_file_system.BlockGroup.Address.{
  get_starting_block_bitmap, get_starting_block_group_descriptor, group_stride,
  num_inodes_per_group,
}
use ex2_file_system.BlockGroup.Address.Layout.{metadata_blocks}
use ex2_file_system.BlockGroup.BitMapBlock.{GroupBitMap, write_block_bitmap}
use ex2_file_system.BlockGroup.Manager.{
  find_first_empty_data_block, free_blocks_count, descriptor_block_number, descriptor_bytes,
  read_block_descriptor, destroy_descriptor,
}
use ex2_file_system.Effect.{done}
use ex2_file_system.Base.{
  ℕ, ◌+◌, ◌*◌, ◌/◌, ◌%◌, ◌<◌, ◌≤◌, ◌≡◌, ◌≢◌, ap, sym, ◌∙◌, false, length, arith, ◌==◌, take,
  length-take, ◌++◌, subst, to_u64, int_mod, if◌then◌else◌, length-append, refl, [], ◌∷◌, zero, suc,
  ==_refl,
}
use ex2_file_system.BlockGroup.Manager.Claim.{
  StoresMap, read_stored, pick, data_number, Picks, claim, claimed_state, write_back,
}

-- A disk after a data block of the group was handed out: in the group's map the bit `lowest`, the
-- first clear one, is set and no other bit changes; the descriptor's 24 bytes are as they were, and so
-- is every block but those of the map and the descriptor.
pub record Takes (d : SectorStore) (disk : IsDisk d) (s s' : d.State) (group lowest : ℕ)
    (g : GroupBitMap) : Type 0 where
  pub after : GroupBitMap
  pub picks : Picks g after lowest
  pub stored : StoresMap (block d disk s' (get_starting_block_bitmap group)) after
  pub descriptor :
      (w o : ℕ)
      → o + w ≤ 24
      → get_field w o (block d disk s' (get_starting_block_group_descriptor group))
        ≡ get_field w o (block d disk s (get_starting_block_group_descriptor group))
  pub others :
      (n : ℕ)
      → get_starting_block_bitmap group ≢ n
      → get_starting_block_group_descriptor group ≢ n
      → block d disk s' n ≡ block d disk s n
  pub ready : disk.IsReady s'

take_append : (n : ℕ) (xs ys : Bytes) → length xs ≡ n → take n (xs ++ ys) ≡ xs
take_append zero [] ys h = refl
take_append zero (x ∷ xs) ys h = absurd (omega arith)
take_append (suc n) [] ys h = absurd (omega arith)
take_append (suc n) (x ∷ xs) ys h = ap (◌∷◌ x) (take_append n xs ys (omega arith))

elsewhere : (a m : ℕ) → a ≢ m → (a == m) ≡ false
elsewhere a m ne = ground arith

module _ (d : SectorStore) (disk : IsDisk d) (stack behind : Bytes)
    (big : length stack ≡ 2048) where
  -- The descriptor that the block of the disk gives, and what its destructor writes.
  abbrev descriptor_of : d.State → ℕ → Bytes
  descriptor_of s addr = overwrite (take descriptor_bytes stack) 0 (take 24 (block d disk s addr))

  read_descriptor :
      (s : d.State) (group : ℕ)
      → disk.IsReady s
      → get_starting_block_group_descriptor group < num_blocks
      → read_block_descriptor d stack behind group (take descriptor_bytes stack) s
        ≡ done
            (descriptor_of s (get_starting_block_group_descriptor group))
            (after_both d disk s (get_starting_block_group_descriptor group))
  unfolding read_block_descriptor
  read_descriptor s group ready h =
      let addr = get_starting_block_group_descriptor group in
      let len = length-block d disk s addr in
      simp (read_steps d disk addr stack s ready h) (
        ap (λ bs. done (overwrite (take descriptor_bytes stack) 0 bs) (after_both d disk s addr))
          (take-overwrite_front stack (block d disk s addr) 24 (omega arith) (omega arith)))

  descriptor_field :
      (s : d.State) (addr w o : ℕ)
      → o + w ≤ 24
      → get_field w o (descriptor_of s addr) ≡ get_field w o (block d disk s addr)
  descriptor_field s addr w o h =
      let len = length-block d disk s addr in
      get_field-overwrite_front w o (take descriptor_bytes stack) (take 24 (block d disk s addr))
        (omega (arith, length-take 24 (block d disk s addr)))
        (omega (arith, length-take 24 (block d disk s addr), length-take 24 stack))
      ∙ get_field-take w o 24 (block d disk s addr) h

  length-descriptor_of : (s : d.State) (addr : ℕ) → length (descriptor_of s addr) ≡ 24
  length-descriptor_of s addr =
      length-overwrite (take descriptor_bytes stack) 0 (take 24 (block d disk s addr))
      ∙ omega (arith, length-take 24 stack)

  abbrev image_of : Bytes → Bytes
  image_of descriptor = overwrite stack 0 (descriptor ++ behind)

  -- The front of what the destructor writes are the descriptor's fields.
  image_field :
      (s : d.State) (addr w o : ℕ)
      → length behind ≡ 1000
      → o + w ≤ 24
      → get_field w o (take 1024 (image_of (descriptor_of s addr)))
        ≡ get_field w o (block d disk s addr)
  image_field s addr w o rest h =
      let bd = descriptor_of s addr in
      let len = length-descriptor_of s addr in
      get_field-take w o 1024 (image_of bd) (omega arith)
      ∙ get_field-overwrite_front w o stack (bd ++ behind) (omega (arith, length-append bd behind))
          (omega (arith, length-append bd behind))
      ∙ sym (get_field-take w o 24 (bd ++ behind) h)
      ∙ ap (get_field w o) (take_append 24 bd behind len)
      ∙ descriptor_field s addr w o h

  module _ (s : d.State) (n : ℕ) (g : GroupBitMap) (i : ℕ) (ready : disk.IsReady s)
      (small : n < 31200) (rest : length behind ≡ 1000) where
    abbrev group : ℕ
    group = n / 7800

    abbrev at : ℕ
    at = get_starting_block_group_descriptor group

    -- On a disk that is ready, for one of the 31200 inode numbers, when the descriptor of its group
    -- counts free blocks and carries its own block number, and the map of data blocks does so too and
    -- has a clear bit: `find_first_empty_data_block` returns the group's stride times its number, plus
    -- 7806 and the index of the first clear bit. It sets that bit in the map on the disk, and leaves
    -- the descriptor's fields and every block but those two as they were.
    pub find_first_empty_data_block-Takes :
        (free_blocks_count (block d disk s at) == 0) ≡ false
        → descriptor_block_number (block d disk s at) ≡ at
        → StoresMap (block d disk s (get_starting_block_bitmap group)) g
        → g.block_number ≡ get_starting_block_bitmap group
        → i < 7800
        → bit g.bits i ≡ false
        → (lowest : ℕ) × (s' : d.State) × (find_first_empty_data_block d stack behind n s
            ≡ done (group * group_stride + 7806 + lowest) s')
          × Takes d disk s s' group lowest g
    unfolding find_first_empty_data_block write_block_bitmap claimed_state destroy_descriptor
    find_first_empty_data_block-Takes counted own st num h clear =
        let (lowest, b', found, set, p) = pick g st.is_map i h clear in
        let meta = metadata_blocks group (omega arith) in
        let addr = get_starting_block_bitmap group in
        let inside : addr < num_blocks = omega (arith, meta.1, meta.2, meta.3) in
        let inside' : at < num_blocks = omega (arith, meta.0, meta.2, meta.3) in
        let number : to_u64 n / num_inodes_per_group % int_mod ≡ group = ground arith in
        let bd = descriptor_of s at in
        let s1 = after_both d disk s at in
        let ready1 = after_both-IsReady d disk at s ready in
        let st1 : StoresMap (block d disk s1 addr) g =
          subst (λ bs. StoresMap bs g) (sym (block-after_both d disk at addr s)) st in
        let s2 = claimed_state d disk stack behind big s1 addr (record g { bits = b' }) in
        let claims =
          claim d disk stack behind big s1 addr g (record g { bits = b' }) lowest ready1 inside p in
        let long : 1024 ≤ length (image_of bd) =
          omega (arith, length-overwrite stack 0 (bd ++ behind)) in
        let counted' : (free_blocks_count bd == 0) ≡ false =
          rw (descriptor_field s at 2 12 (omega arith)) counted in
        let own' : descriptor_block_number bd ≡ at =
          descriptor_field s at 4 20 (omega arith) ∙ own in
        let written : (m : ℕ)
            → block d disk (both_halves d disk s2 at (image_of bd)) m
              ≡ (if at == m then take 1024 (image_of bd) else block d disk s2 m) =
          λ m. block-both_halves d disk at m (image_of bd) s2 inside' long in
        (
          lowest,
          both_halves d disk s2 at (image_of bd),
          simp
              (
                number,
                read_descriptor s group ready inside',
                counted',
                read_steps d disk addr stack s1 ready1 inside,
                read_stored stack big (block d disk s1 addr) g (length-block d disk s1 addr) st1,
                found,
                set,
                (write_back d disk stack behind big (record g { bits = b' }) addr
                    (after_both d disk s1 addr) p.is_map num inside).0,
                own',
                write_steps d disk at (image_of bd) s2 inside' long,
              )
              (ap (λ k. done k (both_halves d disk s2 at (image_of bd)))
                (data_number at lowest (omega (arith, inside')) p.below ∙ omega (arith, meta.0))),
          record {
            after = claims.after;
            picks = claims.picks;
            stored =
                subst (λ bs. StoresMap bs claims.after)
                  (sym (written addr ∙ rw (elsewhere at addr (omega (arith, meta.0, meta.1))) refl))
                  claims.stored;
            descriptor = λ w o k.
                ap (get_field w o) (written at ∙ rw (==_refl at) refl)
                ∙ image_field s at w o rest k;
            others = λ m ne ne'.
                written m
                ∙ rw (elsewhere at m ne') (claims.others m ne ∙ block-after_both d disk at m s);
            ready = both_halves-IsReady d disk at (image_of bd) s2 inside' long claims.ready;
          },
        )
