-- ===== src/Shell/Names/Permissions.antt =====
-- `extract_permissions` against the letters that it reads.
use ex2_file_system.Memory.{Bytes}
use ex2_file_system.Shell.Names.{permissions_loop, extract_permissions}
use ex2_file_system.Base.{
  ℕ, ◌≡◌, ◌==◌, ◌&&◌, ◌||◌, ◌+◌, Bool, if◌then◌else◌, false, true, [], ◌∷◌, refl, inl, inr,
  Bool-cases, arith, bit_or, minus_one,
}

abbrev pub occurs : ℕ → Bytes → Bool
occurs c [] = false
occurs c (d ∷ ds) = d == c || occurs c ds

abbrev pub all_letters : Bytes → Bool
all_letters [] = true
all_letters (c ∷ cs) = (c == b'R' || c == b'W') && all_letters cs

-- The number of a set of permissions.
abbrev pub mask : Bool → Bool → ℕ
mask r w = (if r then 1 else 0) + (if w then 2 else 0)

or_read : (r w : Bool) → bit_or (mask r w) 1 ≡ mask true w
or_read true true = refl
or_read true false = refl
or_read false true = refl
or_read false false = refl

or_write : (r w : Bool) → bit_or (mask r w) 2 ≡ mask r true
or_write true true = refl
or_write true false = refl
or_write false true = refl
or_write false false = refl

loop_lem :
    (cs : Bytes) (r w : Bool)
    → permissions_loop cs (mask r w)
      ≡ (if all_letters cs then mask (r || occurs b'R' cs) (w || occurs b'W' cs) else minus_one)
unfolding permissions_loop
loop_lem [] true true = refl
loop_lem [] true false = refl
loop_lem [] false true = refl
loop_lem [] false false = refl
loop_lem (c ∷ cs) r w = elim (Bool-cases (c == b'R')) [
  | inl e ↦ rw (e, or_read r w, loop_lem cs true w) (ground arith)
  | inr e ↦ elim (Bool-cases (c == b'W')) [
    | inl e' ↦ rw (e, e', or_write r w, loop_lem cs r true) (ground arith)
    | inr e' ↦ rw (e, e')
  ]
]

-- `extract_permissions` returns -1 when a character is neither R nor W, and else the mask of the
-- letters that occur: 1 for R, 2 for W.
pub extract_permissions_lem :
    (cs : Bytes)
    → extract_permissions cs
      ≡ (if all_letters cs then mask (occurs b'R' cs) (occurs b'W' cs) else minus_one)
unfolding extract_permissions
extract_permissions_lem cs = loop_lem cs false false
