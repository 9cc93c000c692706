-- ===== src/FileSystem/Blocks/Writing.antt =====
-- A write of bytes that lie in one block, and the fields of an inode that it changes.
use ex2_file_system.Memory.{
  Bytes, overwrite, slice, get_field, put_field, get-put_field, get-put_field_ne, length-overwrite,
}
use ex2_file_system.Memory.Copies.{take-overwrite_front}
use ex2_file_system.Disk.Store.{SectorStore, IsDisk}
use ex2_file_system.Block.Transfer.{
  block, num_blocks, after_both, read_steps, write_steps, both_halves, length-block,
}
use ex2_file_system.FileSystem.{MyFile}
use ex2_file_system.FileSystem.Blocks.{
  write_blocks, write_part, write_helper, get_data_block, bytes_per_block, quotient_u64,
  remainder_u64, add_int,
}
use ex2_file_system.FileSystem.Blocks.Reading.{entry_lem}
use ex2_file_system.Effect.{done}
use ex2_file_system.Base.{
  ℕ, zero, suc, ◌+◌, ◌-◌, ◌*◌, ◌/◌, ◌%◌, ◌^◌, ◌<◌, ◌≤◌, ◌≡◌, ◌==◌, ◌⊎◌, false, some, refl, ap, ◌∙◌,
  length, arith, int_mod, take, take_all, inl, [], ◌∷◌, le→leb, ltb, to_u64, minus_one, ==_refl,
}

take-overwrite_inside :
    (obj : Bytes) (off : ℕ) (new : Bytes) (k : ℕ)
    → off + length new ≤ k
    → take k (overwrite obj off new) ≡ overwrite (take k obj) off new
unfolding overwrite
take-overwrite_inside [] off new zero h = refl
take-overwrite_inside [] off new (suc k) h = refl
take-overwrite_inside (x ∷ obj) zero [] zero h = refl
take-overwrite_inside (x ∷ obj) zero [] (suc k) h = refl
take-overwrite_inside (x ∷ obj) zero (y ∷ new) zero h = absurd (omega arith)
take-overwrite_inside (x ∷ obj) zero (y ∷ new) (suc k) h =
    ap (◌∷◌ y) (take-overwrite_inside obj zero new k (omega arith))
take-overwrite_inside (x ∷ obj) (suc off) new zero h = absurd (omega arith)
take-overwrite_inside (x ∷ obj) (suc off) new (suc k) h =
    ap (◌∷◌ x) (take-overwrite_inside obj off new k (omega arith))

-- Inside both objects `write_helper` copies.
write_helper_lem :
    (start end : ℕ) (destination src : Bytes) (ptr : ℕ)
    → start ≤ end
    → end ≤ length destination
    → ptr + (end - start) ≤ length src
    → write_helper start end destination src ptr
      ≡ some (overwrite destination start (slice ptr (end - start) src), ptr + (end - start))
unfolding write_helper
write_helper_lem start end destination src ptr h k room = rw (
  le→leb start end h,
  le→leb end (length destination) k,
  le→leb (ptr + (end - start)) (length src) room,
)

-- Fields beside the size and the time of modification.
abbrev pub Untouched : ℕ → ℕ → Type 0
Untouched w o = (o + w ≤ 8) ⊎ ((12 ≤ o) × (o + w ≤ 72)) ⊎ (80 ≤ o)

pub other_field :
    (now size w o : ℕ) (inode : Bytes)
    → Untouched w o
    → get_field w o (put_field 8 72 now (put_field 4 8 size inode)) ≡ get_field w o inode
other_field now size w o inode h =
    get-put_field_ne w o 8 72 now (put_field 4 8 size inode) (ground arith)
    ∙ get-put_field_ne w o 4 8 size inode (ground arith)

pub size_field :
    (now size : ℕ) (inode : Bytes)
    → size < 2 ^ 32
    → length inode ≡ 144
    → get_field 4 8 (put_field 8 72 now (put_field 4 8 size inode)) ≡ size
size_field now size inode small whole =
    get-put_field_ne 4 8 8 72 now (put_field 4 8 size inode) (inl (omega arith))
    ∙ get-put_field 4 8 size inode (omega arith) (omega arith)

pub fits_lem : (a : ℕ) → a ≤ 9216 → ltb (9 * 1024) (to_u64 (a % int_mod)) ≡ false
fits_lem a h = ground arith

module _ (d : SectorStore) (disk : IsDisk d) (stack behind : Bytes)
    (big : length stack ≡ 2048) where
  -- The local block once the bytes are in it.
  abbrev pub filled : d.State → ℕ → ℕ → Bytes → Bytes
  filled s e start new = overwrite (overwrite stack 0 (block d disk s e)) start new

  pub length-filled :
      (s : d.State) (e start : ℕ) (new : Bytes) → length (filled s e start new) ≡ 2048
  length-filled s e start new =
      length-overwrite (overwrite stack 0 (block d disk s e)) start new
      ∙ length-overwrite stack 0 (block d disk s e)
      ∙ big

  -- What of it is stored.
  pub stored_part :
      (s : d.State) (e start : ℕ) (new : Bytes)
      → start + length new ≤ 1024
      → take 1024 (filled s e start new) ≡ overwrite (block d disk s e) start new
  stored_part s e start new h =
      let len = length-block d disk s e in
      take-overwrite_inside (overwrite stack 0 (block d disk s e)) start new 1024 h
      ∙ ap (λ b. overwrite b start new)
          (take-overwrite_front stack (block d disk s e) 1024 (omega arith) (omega arith)
            ∙ take_all 1024 (block d disk s e) (omega arith))

  write_part_lem :
      (s : d.State) (n i start end : ℕ) (inode buffer : Bytes)
      → disk.IsReady s
      → i < 9
      → (get_field 4 (16 + 4 * i) inode == 0) ≡ false
      → get_field 4 (16 + 4 * i) inode < num_blocks
      → start ≤ end
      → end ≤ 1024
      → end - start ≤ length buffer
      → write_part d stack behind n i start end inode stack buffer 0 s
        ≡ done
            (
              inode,
              filled s (get_field 4 (16 + 4 * i) inode) start (slice 0 (end - start) buffer),
              0 + (end - start),
            )
            (both_halves d disk
              (after_both d disk s (get_field 4 (16 + 4 * i) inode))
              (get_field 4 (16 + 4 * i) inode)
              (filled s (get_field 4 (16 + 4 * i) inode) start (slice 0 (end - start) buffer)))
  unfolding write_part get_data_block
  write_part_lem s n i start end inode buffer ready h named inside le le' room =
      let e = get_field 4 (16 + 4 * i) inode in
      let new = slice 0 (end - start) buffer in
      let long : 1024 ≤ length (filled s e start new) =
        omega (arith, length-filled s e start new) in
      simp (
        entry_lem i inode h,
        named,
        read_steps d disk e stack s ready inside,
        write_helper_lem start end (overwrite stack 0 (block d disk s e)) buffer 0 le
            (omega (arith, length-overwrite stack 0 (block d disk s e))) (omega arith),
        write_steps d disk e (filled s e start new) (after_both d disk s e) inside long,
      )

  -- The lines of `my_file_system_write` for bytes that go into one block, the last of the file.
  pub write_blocks_lem :
      (s : d.State) (file : MyFile) (size : ℕ) (inode buffer : Bytes)
      → disk.IsReady s
      → 0 < size
      → file.file_size < 9 * 1024
      → file.file_size % 1024 + size ≤ 1024
      → (file.position + size - 1) / 1024 ≡ file.file_size / 1024
      → file.position + size < 2 ^ 31
      → (get_field 4 (16 + 4 * (file.file_size / 1024)) inode == 0) ≡ false
      → get_field 4 (16 + 4 * (file.file_size / 1024)) inode < num_blocks
      → size ≤ length buffer
      → write_blocks d stack behind file size inode buffer s
        ≡ done inode (
            both_halves d disk
              (after_both d disk s (get_field 4 (16 + 4 * (file.file_size / 1024)) inode))
              (get_field 4 (16 + 4 * (file.file_size / 1024)) inode)
              (filled s
                (get_field 4 (16 + 4 * (file.file_size / 1024)) inode)
                (file.file_size % 1024)
                (slice 0 size buffer)))
  unfolding write_blocks
  write_blocks_lem s file size inode buffer ready some_bytes small one_block same room31 named
        inside room =
      let i = file.file_size / 1024 in
      let start = file.file_size % 1024 in
      let first : quotient_u64 file.file_size bytes_per_block ≡ i = ground arith in
      let end : add_int (add_int file.position size) minus_one ≡ file.position + size - 1 =
        omega arith in
      let divided : quotient_u64 (file.position + size - 1) bytes_per_block
          ≡ (file.position + size - 1) / 1024 =
        ground arith in
      let last : quotient_u64 (add_int (add_int file.position size) minus_one) bytes_per_block ≡ i =
        ap (λ k. quotient_u64 k bytes_per_block) end ∙ divided ∙ same in
      let first_byte : remainder_u64 file.file_size bytes_per_block ≡ start = ground arith in
      let ending : add_int start size ≡ start + size = omega arith in
      let only : start + size - start ≡ size = omega arith in
      simp (
        first,
        last,
        first_byte,
        ending,
        ==_refl i,
        write_part_lem s file.inode_number i start (start + size) inode buffer ready (omega arith)
            named inside (omega arith) one_block (omega arith),
        only,
      )
