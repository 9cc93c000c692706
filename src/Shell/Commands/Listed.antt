-- ===== src/Shell/Commands/Listed.antt =====
-- An entry that was appended to a directory is found in it.
use mathlib.Core.Option.{some-ne-none}
use ex2_file_system.Memory.{Bytes, get_field}
use ex2_file_system.Disk.Store.{SectorStore, IsDisk}
use ex2_file_system.Block.Transfer.{block}
use ex2_file_system.BlockGroup.Manager.Stored.{inode_of, inode_of_field}
use ex2_file_system.FileSystem.{FileSystem, permits}
use ex2_file_system.Shell.Entry.{entry_bytes, entry_name, write_char_bytes}
use ex2_file_system.Shell.Names.{c_string}
use ex2_file_system.Shell.Directory.{same_bytes, get_file_info}
use ex2_file_system.Shell.Directory.Search.{
  Members, members, Listing, IsEntryOf, IsRecordOf, AreRecordsOf, Answers, first_named,
  IsEntryOf-IsRecordOf,
}
use ex2_file_system.Shell.Directory.OnDisk.{IsDirectory, get_file_info-first_named}
use ex2_file_system.Shell.Commands.{append_entry}
use ex2_file_system.Shell.Commands.Appending.{append_entry-IsDirectory}
use ex2_file_system.Effect.{done}
use ex2_file_system.Base.{
  ℕ, ◌+◌, ◌*◌, take, not, ◌^◌, ◌<◌, ◌≤◌, ◌≡◌, ◌==◌, true, false, some, none, refl, ap, sym, ◌∙◌,
  length, List, [], ◌∷◌, ◌++◌, arith, subst, Bool-cases, inl, inr, ==_refl,
}

same_bytes_refl : (xs : Bytes) → same_bytes xs xs ≡ true
same_bytes_refl [] = refl
same_bytes_refl (x ∷ xs) = rw (==_refl x, same_bytes_refl xs)

-- A name that the listing lacks is found at its end.
first_named-append :
    (name : Bytes) (dir : Listing) (m : Members)
    → first_named name dir ≡ none
    → first_named name (dir ++ (name, m) ∷ []) ≡ some m
first_named-append name [] m h = rw (same_bytes_refl name)
first_named-append name ((k, other) ∷ dir) m h = elim (Bool-cases (same_bytes name k)) [
  | inl e ↦ absurd (some-ne-none other (sym (rw e) ∙ h))
  | inr e ↦ rw e (first_named-append name dir m (rw e at h))
]

AreRecordsOf-append :
    (rs : List Bytes) (dir : Listing) (r : Bytes) (f : Bytes × Members)
    → AreRecordsOf rs dir
    → IsRecordOf r f
    → AreRecordsOf (rs ++ r ∷ []) (dir ++ f ∷ [])
AreRecordsOf-append [] [] r f hs h = (h, tt)
AreRecordsOf-append [] (g ∷ dir) r f hs h = absurd hs
AreRecordsOf-append (k ∷ rs) [] r f hs h = absurd hs
AreRecordsOf-append (k ∷ rs) (g ∷ dir) r f (own, hs) h = (own, AreRecordsOf-append rs dir r f hs h)

-- What a directory is on the disk does not depend on what local objects held before.
module _ (d : SectorStore) (disk : IsDisk d) (stack behind : Bytes) (big : length stack ≡ 2048)
    (stack' behind' : Bytes) (big' : length stack' ≡ 2048) (s : d.State) (n : ℕ) where
  abbrev here : Bytes
  here = inode_of d disk stack behind big s n

  abbrev there : Bytes
  there = inode_of d disk stack' behind' big' s n

  same_field : (w o : ℕ) → o + w ≤ 133 → get_field w o there ≡ get_field w o here
  same_field w o h =
      inode_of_field d disk stack' behind' big' s n w o h
      ∙ sym (inode_of_field d disk stack behind big s n w o h)

  other_stack :
      (rs : List Bytes)
      → IsDirectory d disk stack behind big s n rs
      → IsDirectory d disk stack' behind' big' s n rs
  unfolding permits
  other_stack rs directory =
      let at : get_field 4 16 there ≡ get_field 4 16 here = same_field 4 16 (omega arith) in
      record {
        file = record {
          inside = directory.file.inside;
          own = same_field 2 2 (omega arith) ∙ directory.file.own;
          linked = ap (λ k. k == 0) (same_field 4 12 (omega arith)) ∙ directory.file.linked;
        };
        readable = rw (same_field 2 0 (omega arith)) directory.readable;
        flag = ap (λ k. not (k == 0)) (same_field 1 88 (omega arith)) ∙ directory.flag;
        some_entries = directory.some_entries;
        one_block = directory.one_block;
        size = same_field 4 8 (omega arith) ∙ directory.size;
        on_disk = omega (arith, at, directory.on_disk);
        apart = rw at directory.apart;
        content = ap (λ b. take (length rs * 60) (block d disk s b)) at ∙ directory.content;
      }

module _ (d : SectorStore) (disk : IsDisk d) (stack behind : Bytes) (big : length stack ≡ 2048)
    (now junk : ℕ) (fs : FileSystem d.State) (n mask : ℕ) (stack' behind' : Bytes)
    (big' : length stack' ≡ 2048) (now' junk' : ℕ) where
  -- On a ready disk, for a directory inode that permits reading and the mask, names its own number and
  -- has a link, with 1 to 16 records of 60 bytes in one block, which is on the disk, not block 0 and
  -- not the inode's own, each with a name that ends within its field and any padding, with two
  -- descriptors to hand out: an entry is appended under a name without a NUL that the directory lacks,
  -- which returns 0, and then a search for the name, whatever the clock, its own locals and `malloc`
  -- give it, returns 0 and that name and the members of that entry.
  pub get_file_info-append_entry :
      (rs : List Bytes) (dir : Listing) (e buffer name : Bytes) (m : Members) (dir_struct : Bytes)
      → length buffer ≡ entry_bytes
      → disk.IsReady fs.disk
      → IsDirectory d disk stack behind big fs.disk n rs
      → AreRecordsOf rs dir
      → IsEntryOf e (name, m)
      → first_named name dir ≡ none
      → c_string (name ++ 0 ∷ []) ≡ some name
      → permits mask (inode_of d disk stack behind big fs.disk n) ≡ true
      → fs.created_file_descriptors + 2 < 2 ^ 32
      → length rs + 1 ≤ 17
      → (get_field 4 16 (inode_of d disk stack behind big fs.disk n) == 0) ≡ false
      → length dir_struct ≡ entry_bytes
      → (fs' fs'' : FileSystem d.State) × (out : Bytes) × (append_entry d stack behind now junk
            buffer n mask e fs
          ≡ done 0 fs')
        × (get_file_info d stack' behind' now' junk' n name dir_struct fs' ≡ done (0, out) fs'')
        × (c_string (entry_name out) ≡ some name)
        × (members out ≡ m)
  get_file_info-append_entry rs dir e buffer name m dir_struct room_left ready directory listed
        entry new named allowed more room block whole =
      let r = write_char_bytes e buffer in
      let (fs', appends, created, ready', grown, _, _) =
        append_entry-IsDirectory d disk stack behind big now junk fs n mask rs e buffer room_left
          ready directory allowed (omega arith) room block in
      let records =
        AreRecordsOf-append rs dir r (name, m) listed
          (IsEntryOf-IsRecordOf e buffer name m entry room_left) in
      let (answer, fs'', finds, answers, _, _, _) =
        get_file_info-first_named d disk stack' behind' big' fs' now' junk' n (rs ++ r ∷ []) ready'
          (other_stack d disk stack behind big stack' behind' big' fs'.disk n (rs ++ r ∷ []) grown)
          (omega arith) name name (dir ++ (name, m) ∷ []) dir_struct named records whole in
      let (found, (_, field, held)) =
        subst (λ o. Answers name dir_struct o answer) (first_named-append name dir m new) answers in
      (fs', fs'', answer.1, appends, finds ∙ ap (λ k. done (k, answer.1) fs'') found, field, held)
