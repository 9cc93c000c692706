-- ===== src/Shell/Directory/OnDisk.antt =====
-- `get_file_info` of the shell on a directory that is on the disk.
use ex2_file_system.Memory.{Bytes, slice, overwrite, get_field}
use ex2_file_system.Memory.Copies.{overwrite_whole}
use ex2_file_system.Disk.Store.{SectorStore, IsDisk}
use ex2_file_system.Block.Transfer.{block, num_blocks, length-block}
use ex2_file_system.BlockGroup.Address.{get_starting_block_inode}
use ex2_file_system.BlockGroup.Manager.Stored.{inode_of, Kept}
use ex2_file_system.FileSystem
use ex2_file_system.FileSystem.{
  MyFile, FileSystem, assign, erase, my_open, my_close, my_file_system_seek, permits,
  inode_file_size, is_directory_flag,
}
use ex2_file_system.FileSystem.Table.{lookup-erase}
use ex2_file_system.FileSystem.Blocks.{my_file_system_read, add_int}
use ex2_file_system.FileSystem.Blocks.OnDisk.{
  IsFile, Kept-IsFile, file_at, open_steps, my_file_system_read_lem,
}
use ex2_file_system.Shell.Entry.{entry_bytes}
use ex2_file_system.Shell.Names.{c_string}
use ex2_file_system.Shell.Directory.{read_directory_info, read_entries, found_info, get_file_info}
use ex2_file_system.Shell.Directory.Search.{
  Listing, AreRecordsOf, Answers, directory_bytes, first_named, find_entry-first_named,
}
use ex2_file_system.Effect.{done}
use ex2_file_system.Base.{
  ℕ, ◌+◌, ◌*◌, ◌/◌, ◌^◌, ◌<◌, ◌≤◌, ◌≡◌, ◌==◌, true, false, if◌then◌else◌, some, none, Bool-cases,
  inl, inr, ap, sym, ◌∙◌, length, arith, lt_int, take, subst, length-take, List, [], ◌++◌, ◌∷◌,
  replicate, length-replicate, ==_refl, is_negative,
}

module _ (d : SectorStore) (disk : IsDisk d) (stack behind : Bytes)
    (big : length stack ≡ 2048) where
  -- The inode `n` is a directory that permits reading, with 1 to 17 records `rs` in one block, which
  -- is on the disk and not the inode's own. The inode carries its own number and has a link.
  pub record IsDirectory (s : d.State) (n : ℕ) (rs : List Bytes) : Type 0 where
    pub file : IsFile d disk stack behind big s n
    pub readable : permits 1 (inode_of d disk stack behind big s n) ≡ true
    pub flag : is_directory_flag (inode_of d disk stack behind big s n) ≡ true
    pub some_entries : 0 < length rs
    pub one_block : length rs ≤ 17
    pub size : inode_file_size (inode_of d disk stack behind big s n) ≡ length rs * 60
    pub on_disk : get_field 4 16 (inode_of d disk stack behind big s n) < num_blocks
    pub apart :
        (get_starting_block_inode n == get_field 4 16 (inode_of d disk stack behind big s n))
        ≡ false
    pub content :
        slice 0
          (length rs * 60)
          (block d disk s (get_field 4 16 (inode_of d disk stack behind big s n)))
        ≡ directory_bytes rs

  module _ (fs : FileSystem d.State) (now junk n : ℕ) (rs : List Bytes)
      (ready : disk.IsReady fs.disk) (directory : IsDirectory fs.disk n rs)
      (more : fs.created_file_descriptors + 1 < 2 ^ 32) where
    abbrev fd : ℕ
    fd = fs.created_file_descriptors

    abbrev inode : Bytes
    inode = inode_of d disk stack behind big fs.disk n

    abbrev opened_file : MyFile
    opened_file = record (file_at d disk stack behind big fs.disk junk n) { is_directory = true }

    abbrev bytes : ℕ
    bytes = inode_file_size inode

    -- The file system once the directory is open, at its start.
    abbrev at_start : d.State → FileSystem d.State
    at_start s = record {
      mp = (fd, opened_file) ∷ erase fd (erase fd fs.mp);
      created_file_descriptors = fd + 1;
      disk = s;
    }

    -- The file system once it is closed again.
    abbrev closed : d.State → FileSystem d.State
    closed s = record {
      mp = erase fd (erase fd (erase fd (erase fd fs.mp)));
      created_file_descriptors = fd + 1;
      disk = s;
    }

    found_at_start : (s : d.State) → FileSystem.get_file_info fd (at_start s) ≡ some opened_file
    unfolding FileSystem.get_file_info
    found_at_start s = rw (==_refl fd)

    -- What the read puts into the buffer.
    content_read :
        (s : d.State)
        → Kept d disk stack behind big fs.disk s n
        → overwrite
            (replicate bytes 0)
            0
            (slice 0 bytes (block d disk s (get_field 4 16 (inode_of d disk stack behind big s n))))
          ≡ directory_bytes rs
    content_read s kept =
        overwrite_whole (replicate bytes 0)
          (slice 0 bytes (block d disk s (get_field 4 16 (inode_of d disk stack behind big s n))))
          (omega (
            arith,
            length-replicate {A = ℕ} bytes 0,
            directory.size,
            directory.one_block,
            length-take bytes
                (block d disk s (get_field 4 16 (inode_of d disk stack behind big s n))),
            length-block d disk s (get_field 4 16 (inode_of d disk stack behind big s n)),
          ))
        ∙ ap (λ i. slice 0 bytes (block d disk s (get_field 4 16 i))) kept.same_inode
        ∙ ap (slice 0 bytes) (kept.others (get_field 4 16 inode) directory.apart)
        ∙ ap (λ k. slice 0 k (block d disk fs.disk (get_field 4 16 inode))) directory.size
        ∙ directory.content

    abbrev contents : Bytes
    contents = directory_bytes rs

    -- The calls in a row, for the disks that the two of them on the disk leave.
    calls :
        (s1 s2 : d.State) (buffer : Bytes)
        → my_open d stack behind junk n 1 fs
          ≡ done fd (record {
            mp = assign fd (file_at d disk stack behind big fs.disk junk n) fs.mp;
            created_file_descriptors = fd + 1;
            disk = s1;
          })
        → my_file_system_read d stack behind now fd (replicate bytes 0) bytes (at_start s1)
          ≡ done
              (0, buffer)
              (record (at_start s1) {
                mp = assign fd (record opened_file { position = add_int 0 bytes }) (at_start s1).mp;
                disk = s2;
              })
        → read_directory_info d stack behind now junk n fs
          ≡ done (1, read_entries (take entry_bytes stack) (length rs) buffer []) (closed s2)
    unfolding read_directory_info FileSystem.get_file_info my_close my_file_system_seek
    calls s1 s2 buffer opens reads =
        let one = directory.one_block in
        let some_one = directory.some_entries in
        let sized = directory.size in
        let not_empty : (bytes == 0) ≡ false = ground arith in
        let not_negative : is_negative bytes ≡ false = ground arith in
        let reaches : lt_int bytes 0 ≡ false = ground arith in
        let entries : bytes / entry_bytes ≡ length rs = omega arith in
        simp (opens, ==_refl fd, directory.flag, not_empty, not_negative, reaches, reads, entries)

    read_directory_lem :
        (s' : d.State) × (read_directory_info d stack behind now junk n fs
          ≡ done (1, read_entries (take entry_bytes stack) (length rs) contents []) (closed s'))
        × disk.IsReady s'
        × ((m : ℕ)
            → (get_starting_block_inode n == m) ≡ false
            → block d disk s' m ≡ block d disk fs.disk m)
    read_directory_lem =
        let (s1, opens, kept) =
          open_steps d disk stack behind big fs junk n 1 ready directory.file directory.readable
            more in
        let one = directory.one_block in
        let some_one = directory.some_entries in
        let sized = directory.size in
        let (s2, reads, ready2, others, _) =
          my_file_system_read_lem d disk stack behind big (at_start s1) kept.ready fd bytes now
            opened_file (replicate bytes 0) (found_at_start s1)
            (Kept-IsFile d disk stack behind big fs.disk s1 n directory.file kept) (ground arith)
            (omega arith) (omega arith) (omega arith)
            (subst (λ i. get_field 4 16 i < num_blocks) (sym kept.same_inode) directory.on_disk)
            (omega (arith, length-replicate {A = ℕ} bytes 0)) in
        (
          s2,
          calls s1 s2 _ opens reads
              ∙ ap
                  (λ b.
                    done (1, read_entries (take entry_bytes stack) (length rs) b []) (closed s2))
                  (content_read s1 kept),
          ready2,
          λ m other. others m other ∙ kept.others m other,
        )

    closed_table :
        (s : d.State) (j : ℕ)
        → FileSystem.get_file_info j (closed s)
          ≡ (if fd == j then none else FileSystem.get_file_info j fs)
    unfolding FileSystem.get_file_info
    closed_table s j = elim (Bool-cases (fd == j)) [
      | inl e ↦ simp (lookup-erase fd j (erase fd (erase fd (erase fd fs.mp))), e)
      | inr e ↦ simp (
        lookup-erase fd j (erase fd (erase fd (erase fd fs.mp))),
        lookup-erase fd j (erase fd (erase fd fs.mp)),
        lookup-erase fd j (erase fd fs.mp),
        lookup-erase fd j fs.mp,
        e,
      )
    ]

    -- On a ready disk, for a directory inode that permits reading, names its own number and has a
    -- link, with 1 to 17 records of 60 bytes in one block, which is on the disk and not the inode's
    -- own, each with a name that ends within its field and any padding, with a descriptor to hand
    -- out, for a name without a NUL: a search for the name returns, and answers as the listing of the
    -- directory does, with the name and members of the first file with the name, or with -1. Its
    -- descriptor is closed and every other open file is as it was, and so is every block of the disk
    -- but the inode's.
    pub get_file_info-first_named :
        (file_name name : Bytes) (dir : Listing) (dir_struct : Bytes)
        → c_string (file_name ++ 0 ∷ []) ≡ some name
        → AreRecordsOf rs dir
        → length dir_struct ≡ entry_bytes
        → (answer : ℕ × Bytes) × (fs' : FileSystem d.State) × (get_file_info d stack behind now junk
              n file_name dir_struct fs
            ≡ done answer fs')
          × Answers name dir_struct (first_named name dir) answer
          × ((j : ℕ)
              → FileSystem.get_file_info j fs'
                ≡ (if fd == j then none else FileSystem.get_file_info j fs))
          × disk.IsReady fs'.disk
          × ((m : ℕ)
              → (get_starting_block_inode n == m) ≡ false
              → block d disk fs'.disk m ≡ block d disk fs.disk m)
    unfolding get_file_info
    get_file_info-first_named file_name name dir dir_struct named listed whole =
        let (s', reads, ready', others) = read_directory_lem in
        let (found, finds, answers) =
          find_entry-first_named d stack behind big name rs dir dir_struct listed whole in
        (
          found_info d stack behind dir_struct found,
          closed s',
          simp (reads, named, finds),
          answers,
          closed_table s',
          ready',
          others,
        )
