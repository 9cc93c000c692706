-- ===== src/Shell/Entry.antt =====
-- shell_manager.h: `DirectoryStructure`, 60 bytes with its padding: the name at 0, the inode number
-- at 52, the permissions at 56 and the directory flag at 58.
pub mod RoundTrip
use ex2_file_system.Memory.{Bytes, overwrite, slice, get_field, put_field}
use ex2_file_system.Base.{
  ℕ, ◌+◌, ◌%◌, ◌^◌, ◌++◌, ◌==◌, not, Bool, if◌then◌else◌, Option, none, some, [], ◌∷◌, length, leb,
}

abbrev pub entry_bytes : ℕ
entry_bytes = 60

abbrev pub name_bytes : ℕ
name_bytes = 50

abbrev pub entry_name : Bytes → Bytes
entry_name = slice 0 name_bytes

abbrev pub entry_inode_number : Bytes → ℕ
entry_inode_number = get_field 4 52

abbrev pub entry_permissions : Bytes → ℕ
entry_permissions = get_field 2 56

abbrev pub entry_is_directory : Bytes → Bool
entry_is_directory entry = not (get_field 1 58 entry == 0)

-- `write_char_bytes`: the name, then the seven bytes of the other members, without the padding.
unfoldable pub write_char_bytes : Bytes → Bytes → Bytes
write_char_bytes entry buffer =
    overwrite (overwrite buffer 0 (slice 0 name_bytes entry)) name_bytes (slice 52 7 entry)

unfoldable pub copy_char_bytes : Bytes → Bytes → Bytes
copy_char_bytes buffer entry =
    overwrite (overwrite entry 0 (slice 0 name_bytes buffer)) 52 (slice name_bytes 7 buffer)

-- `junk` is the local buffer of `copy_directory_info`.
unfoldable pub copy_directory_info : Bytes → Bytes → Bytes → Bytes
copy_directory_info junk other entry = copy_char_bytes (write_char_bytes other junk) entry

-- `DirectoryStructure(DirectoryStructure &)` on an object that held `junk`.
unfoldable pub copy_entry : Bytes → Bytes → Bytes
copy_entry junk other =
    let named = overwrite junk 0 (slice 0 name_bytes other) in
    let numbered = overwrite named 52 (slice 52 4 other) in
    let flagged = overwrite numbered 58 (slice 58 1 other) in
    overwrite flagged 56 (slice 56 2 other)

-- `memcpy(entry->file_name, name.c_str(), name.size() + 1)`: `none` when it runs out of the object.
unfoldable pub set_name : Bytes → Bytes → Option Bytes
set_name name entry =
    if leb (length name + 1) entry_bytes then some (overwrite entry 0 (name ++ 0 ∷ [])) else none
