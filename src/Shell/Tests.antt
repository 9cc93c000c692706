-- ===== src/Shell/Tests.antt =====
-- Paths, permission strings, a directory entry, and the commands.
use ex2_file_system.Memory.{Bytes}
use ex2_file_system.Shell.Entry.{
  entry_name, entry_inode_number, entry_permissions, entry_is_directory, write_char_bytes,
  copy_char_bytes,
}
use ex2_file_system.Shell.Entry.RoundTrip.{copy-write_char_bytes}
use ex2_file_system.Shell.Names.{slash, split_file_name, extract_permissions}
use ex2_file_system.Shell.Names.Splitting.{split_file_name-join}
use ex2_file_system.Shell.Names.Permissions.{extract_permissions_lem}
use ex2_file_system.Shell.Directory.Search.{Listing}
use ex2_file_system.Base.{◌≡◌, refl, List, [], ◌∷◌, ◌++◌, replicate, true}

-- `c`, number 9, with the permissions 3 and the directory flag.
abbrev pub entry : Bytes
entry = b'c' ∷ 0 ∷ replicate 50 0 ++ 9 ∷ 0 ∷ 0 ∷ 0 ∷ 3 ∷ 0 ∷ 1 ∷ 0 ∷ []

copy-write_char_bytes_example :
    (entry_name (copy_char_bytes (write_char_bytes entry (replicate 60 7)) (replicate 60 9))
      ≡ entry_name entry)
    × (entry_inode_number
          (copy_char_bytes (write_char_bytes entry (replicate 60 7)) (replicate 60 9))
        ≡ entry_inode_number entry)
    × (entry_permissions
          (copy_char_bytes (write_char_bytes entry (replicate 60 7)) (replicate 60 9))
        ≡ entry_permissions entry)
    × (entry_is_directory
          (copy_char_bytes (write_char_bytes entry (replicate 60 7)) (replicate 60 9))
        ≡ entry_is_directory entry)
copy-write_char_bytes_example =
    copy-write_char_bytes entry (replicate 60 7) (replicate 60 9) refl refl refl

abbrev names : List Bytes
names = (b'a' ∷ []) ∷ [] ∷ (b'b' ∷ b'c' ∷ []) ∷ []

split_file_name_example :
    split_file_name (b'a' ∷ slash ∷ slash ∷ b'b' ∷ b'c' ∷ []) ((b'd' ∷ []) ∷ [])
    ≡ (b'd' ∷ []) ∷ names
split_file_name_example =
    split_file_name-join names ((b'd' ∷ []) ∷ []) ((refl, tt), (tt, (refl, (refl, tt))))

extract_permissions_example : extract_permissions (b'R' ∷ b'W' ∷ []) ≡ 3
extract_permissions_example = extract_permissions_lem (b'R' ∷ b'W' ∷ [])

abbrev pub listing : Listing
listing = (b'c' ∷ [], (9, 3, true)) ∷ []
