-- ===== src/Shell/Commands/Appending.antt =====
-- An entry that a command appends to a directory on the disk.
use mathlib.Core.List.{append_assoc, append-nil}
use ex2_file_system.Memory.{Bytes, overwrite, get_field}
use ex2_file_system.Memory.Copies.{take-overwrite_front}
use ex2_file_system.Disk.Store.{SectorStore, IsDisk}
use ex2_file_system.Block.Transfer.{block, length-block}
use ex2_file_system.BlockGroup.Address.{get_starting_block_inode}
use ex2_file_system.BlockGroup.Manager.Stored.{inode_of, length-inode_of}
use ex2_file_system.FileSystem
use ex2_file_system.FileSystem.{
  MyFile, FileSystem, assign, erase, my_open, my_close, permits, inode_file_size, is_directory_flag,
}
use ex2_file_system.FileSystem.Table.{lookup-erase}
use ex2_file_system.FileSystem.Blocks.{my_file_system_write, add_int}
use ex2_file_system.FileSystem.Blocks.OnDisk.{Kept-IsFile, file_at, open_steps}
use ex2_file_system.FileSystem.Blocks.Appending.{my_file_system_write_lem}
use ex2_file_system.FileSystem.Blocks.Writing.{Untouched, other_field, size_field}
use ex2_file_system.Shell.Entry.{entry_bytes, write_char_bytes}
use ex2_file_system.Shell.Entry.RoundTrip.{length-write_char_bytes}
use ex2_file_system.Shell.Directory.Search.{directory_bytes}
use ex2_file_system.Shell.Directory.OnDisk.{IsDirectory}
use ex2_file_system.Shell.Commands.{append_entry}
use ex2_file_system.Effect.{done}
use ex2_file_system.Base.{
  ℕ, zero, suc, ◌+◌, ◌*◌, ◌/◌, ◌%◌, ◌^◌, ◌<◌, ◌≤◌, ◌≡◌, ◌==◌, true, false, not, if◌then◌else◌, some,
  none, Bool-cases, inl, inr, refl, ap, ap₂, sym, ◌∙◌, length, arith, take, take_all, List, [],
  ◌++◌, ◌∷◌, ==_refl, length-append,
}

-- Up to the end of what was put into it, an object is what was there before and the new bytes.
take-overwrite_end :
    (obj : Bytes) (off : ℕ) (new : Bytes) (k : ℕ)
    → k ≡ off + length new
    → k ≤ length obj
    → take k (overwrite obj off new) ≡ take off obj ++ new
unfolding overwrite
take-overwrite_end obj zero new k e h =
    take-overwrite_front obj new k (omega arith) (omega arith) ∙ take_all k new (omega arith)
take-overwrite_end [] (suc off) new k e h = absurd (omega arith)
take-overwrite_end (x ∷ obj) (suc off) new zero e h = absurd (omega arith)
take-overwrite_end (x ∷ obj) (suc off) new (suc k) e h =
    ap (◌∷◌ x) (take-overwrite_end obj off new k (omega arith) (omega arith))

directory_bytes-append :
    (rs : List Bytes) (r : Bytes) → directory_bytes (rs ++ r ∷ []) ≡ directory_bytes rs ++ r
directory_bytes-append [] r = append-nil r
directory_bytes-append (q ∷ rs) r =
    ap (λ bs. q ++ bs) (directory_bytes-append rs r) ∙ sym (append_assoc q (directory_bytes rs) r)

module _ (d : SectorStore) (disk : IsDisk d) (stack behind : Bytes) (big : length stack ≡ 2048)
    (now junk : ℕ) (fs : FileSystem d.State) (n mask : ℕ) (rs : List Bytes) (e buffer : Bytes)
    (buffer_whole : length buffer ≡ entry_bytes) (ready : disk.IsReady fs.disk)
    (directory : IsDirectory d disk stack behind big fs.disk n rs)
    (allowed : permits mask (inode_of d disk stack behind big fs.disk n) ≡ true)
    (more : fs.created_file_descriptors + 1 < 2 ^ 32) (room : length rs + 1 ≤ 17)
    (named : (get_field 4 16 (inode_of d disk stack behind big fs.disk n) == 0) ≡ false) where
  abbrev fd : ℕ
  fd = fs.created_file_descriptors

  abbrev inode : Bytes
  inode = inode_of d disk stack behind big fs.disk n

  abbrev opened_file : MyFile
  opened_file = file_at d disk stack behind big fs.disk junk n

  abbrev size_before : ℕ
  size_before = inode_file_size inode

  abbrev stored_record : Bytes
  stored_record = write_char_bytes e buffer

  abbrev first_block : ℕ
  first_block = get_field 4 16 inode

  length-record : length stored_record ≡ 60
  length-record = length-write_char_bytes e buffer ∙ buffer_whole

  abbrev opened : d.State → FileSystem d.State
  opened s = record {
    mp = assign fd opened_file fs.mp;
    created_file_descriptors = fd + 1;
    disk = s;
  }

  abbrev closed : d.State → FileSystem d.State
  closed s = record {
    mp = erase fd (erase fd (erase fd fs.mp));
    created_file_descriptors = fd + 1;
    disk = s;
  }

  calls :
      (s1 s2 : d.State)
      → my_open d stack behind junk n mask fs ≡ done fd (opened s1)
      → my_file_system_write d stack behind now fd stored_record entry_bytes (opened s1)
        ≡ done 0 (record (opened s1) {
          mp =
              assign fd
                (record opened_file { file_size = add_int entry_bytes size_before })
                (opened s1).mp;
          disk = s2;
        })
      → append_entry d stack behind now junk buffer n mask e fs ≡ done 0 (closed s2)
  unfolding my_close
  calls s1 s2 opens writes = simp (opens, writes, ==_refl fd)

  closed_table :
      (s : d.State) (j : ℕ)
      → FileSystem.get_file_info j (closed s)
        ≡ (if fd == j then none else FileSystem.get_file_info j fs)
  unfolding FileSystem.get_file_info
  closed_table s j = elim (Bool-cases (fd == j)) [
    | inl same ↦ simp (lookup-erase fd j (erase fd (erase fd fs.mp)), same)
    | inr other ↦ simp (
      lookup-erase fd j (erase fd (erase fd fs.mp)),
      lookup-erase fd j (erase fd fs.mp),
      lookup-erase fd j fs.mp,
      other,
    )
  ]

  -- What the disk has to be after the write, for the directory to have grown by the entry.
  grown :
      (s : d.State)
      → ((w o : ℕ)
          → o + w ≤ 133
          → Untouched w o
          → get_field w o (inode_of d disk stack behind big s n) ≡ get_field w o inode)
      → inode_file_size (inode_of d disk stack behind big s n) ≡ 60 + size_before
      → block d disk s first_block
        ≡ overwrite (block d disk fs.disk first_block) (length rs * 60) stored_record
      → IsDirectory d disk stack behind big s n (rs ++ stored_record ∷ [])
  unfolding permits
  grown s same size stored =
      let long : length (rs ++ stored_record ∷ []) ≡ length rs + 1 =
        length-append rs (stored_record ∷ []) in
      let sized = directory.size in
      let whole : length (rs ++ stored_record ∷ []) * 60 ≡ length rs * 60 + 60 =
        omega (arith, long) in
      let at : get_field 4 16 (inode_of d disk stack behind big s n) ≡ first_block =
        same 4 16 (omega arith) (inr (inl (omega arith, omega arith))) in
      record {
        file = record {
          inside = directory.file.inside;
          own = same 2 2 (omega arith) (inl (omega arith)) ∙ directory.file.own;
          linked =
              ap (λ k. k == 0) (same 4 12 (omega arith) (inr (inl (omega arith, omega arith))))
              ∙ directory.file.linked;
        };
        readable = rw (same 2 0 (omega arith) (inl (omega arith))) directory.readable;
        flag =
            ap (λ k. not (k == 0)) (same 1 88 (omega arith) (inr (inr (omega arith))))
            ∙ directory.flag;
        some_entries = omega arith;
        one_block = omega arith;
        size = omega arith;
        on_disk = omega (arith, at, directory.on_disk);
        apart = rw at directory.apart;
        content =
            ap₂ (λ k b. take k (block d disk s b)) whole at
            ∙ ap (take (length rs * 60 + 60)) stored
            ∙ take-overwrite_end (block d disk fs.disk first_block) (length rs * 60) stored_record
                (length rs * 60 + 60) (omega (arith, length-record))
                (omega (arith, length-block d disk fs.disk first_block))
            ∙ ap (λ bs. bs ++ stored_record) directory.content
            ∙ sym (directory_bytes-append rs stored_record);
      }

  -- On a ready disk, for a directory inode that permits reading and the mask, names its own number and
  -- has a link, with 1 to 16 records of 60 bytes in one block, which is on the disk, not block 0 and
  -- not the inode's own, with a descriptor to hand out: appending an entry returns 0, whatever the
  -- local buffer of 60 bytes held, and the inode is then such a directory with the records before and
  -- that which `write_char_bytes` makes of the entry. The descriptor is closed, every other open file
  -- is as it was, and so is every block but those of the inode and of the records.
  pub append_entry-IsDirectory :
      (fs' : FileSystem d.State) × (append_entry d stack behind now junk buffer n mask e fs
        ≡ done 0 fs')
      × (fs'.created_file_descriptors ≡ fd + 1)
      × disk.IsReady fs'.disk
      × IsDirectory d disk stack behind big fs'.disk n (rs ++ stored_record ∷ [])
      × ((j : ℕ)
          → FileSystem.get_file_info j fs'
            ≡ (if fd == j then none else FileSystem.get_file_info j fs))
      × ((m : ℕ)
          → (get_starting_block_inode n == m) ≡ false
          → (first_block == m) ≡ false
          → block d disk fs'.disk m ≡ block d disk fs.disk m)
  unfolding FileSystem.get_file_info
  append_entry-IsDirectory =
      let (s1, opens, kept) =
        open_steps d disk stack behind big fs junk n mask ready directory.file allowed more in
      let sized = directory.size in
      let first : 16 + 4 * (size_before / 1024) ≡ 16 = omega arith in
      let last : get_field 4 (16 + 4 * (size_before / 1024)) (inode_of d disk stack behind big s1 n)
          ≡ first_block =
        ap₂ (get_field 4) first kept.same_inode in
      let added : add_int entry_bytes size_before ≡ 60 + size_before = omega arith in
      let start : size_before % 1024 ≡ length rs * 60 = omega arith in
      let found : FileSystem.get_file_info fd (opened s1) ≡ some opened_file = rw (==_refl fd) in
      let (s2, writes, ready2, stored, others, fields) =
        my_file_system_write_lem d disk stack behind big (opened s1) kept.ready fd entry_bytes now
          opened_file stored_record found
          (Kept-IsFile d disk stack behind big fs.disk s1 n directory.file kept) (omega arith)
          (omega arith) (omega arith) (omega arith) (omega arith) (rw last named)
          (omega (arith, last, directory.on_disk)) (rw last directory.apart)
          (omega (arith, length-record)) in
      (
        closed s2,
        calls s1 s2 opens writes,
        refl,
        ready2,
        grown s2
            (λ w o h u.
              fields w o h
              ∙ other_field now (add_int entry_bytes size_before) w o _ u
              ∙ ap (get_field w o) kept.same_inode)
            (fields 4 8 (omega arith)
              ∙ size_field now (add_int entry_bytes size_before) _ (omega arith)
                  (length-inode_of d disk stack behind big s1 n)
              ∙ added)
            (ap (λ b. block d disk s2 b) (sym last)
              ∙ stored
              ∙ ap
                  (λ b.
                    overwrite (block d disk s1 b) (size_before % 1024)
                      (take entry_bytes stored_record))
                  last
              ∙ ap (λ bs. overwrite bs (size_before % 1024) (take entry_bytes stored_record))
                  (kept.others first_block directory.apart)
              ∙ ap₂ (overwrite (block d disk fs.disk first_block)) start
                  (take_all entry_bytes stored_record (omega (arith, length-record)))),
        closed_table s2,
        λ m other other'. others m other (rw last other') ∙ kept.others m other,
      )
