-- ===== src/Memory/Words.antt =====
-- A run of `int`s in memory, as the bit maps are written to and read from a block: a pointer that
-- moves up by four bytes.
use ex2_file_system.Memory.{
  Bytes, get_field, put_field, get-put_field, get-put_field_ne, length-put_field,
}
use ex2_file_system.Base.{
  ℕ, zero, suc, ◌+◌, ◌*◌, ◌^◌, ◌≤◌, ◌<◌, ◌≡◌, ◌⊎◌, inl, inr, refl, ap₂, List, [], ◌∷◌, length,
  arith, ◌∙◌,
}

-- `*start_ptr = w; start_ptr += 1;` for each word.
unfoldable pub put_ints : ℕ → List ℕ → Bytes → Bytes
put_ints ptr [] block = block
put_ints ptr (w ∷ ws) block = put_ints (ptr + 4) ws (put_field 4 ptr w block)

unfoldable pub get_ints : ℕ → ℕ → Bytes → List ℕ
get_ints ptr zero block = []
get_ints ptr (suc n) block = get_field 4 ptr block ∷ get_ints (ptr + 4) n block

-- Every word is an `int` pattern.
abbrev pub AreInts : List ℕ → Type 0
AreInts [] = Unit {0}
AreInts (w ∷ ws) = (w < 2 ^ 32) × AreInts ws

pub length-put_ints :
    (ptr : ℕ) (ws : List ℕ) (block : Bytes) → length (put_ints ptr ws block) ≡ length block
unfolding put_ints
length-put_ints ptr [] block = refl
length-put_ints ptr (w ∷ ws) block = length-put_ints (ptr + 4) ws _ ∙ length-put_field 4 ptr w block

pub get_field-put_ints :
    (v o ptr : ℕ) (ws : List ℕ) (block : Bytes)
    → (o + v ≤ ptr) ⊎ (ptr + 4 * length ws ≤ o)
    → get_field v o (put_ints ptr ws block) ≡ get_field v o block
unfolding put_ints
get_field-put_ints v o ptr [] block h = refl
get_field-put_ints v o ptr (w ∷ ws) block (inl h) =
    get_field-put_ints v o (ptr + 4) ws _ (inl (omega arith))
    ∙ get-put_field_ne v o 4 ptr w block (inl h)
get_field-put_ints v o ptr (w ∷ ws) block (inr h) =
    get_field-put_ints v o (ptr + 4) ws _ (inr (omega arith))
    ∙ get-put_field_ne v o 4 ptr w block (inr (omega arith))

-- The words come back as they were written.
pub get_ints-put_ints :
    (ptr : ℕ) (ws : List ℕ) (block : Bytes)
    → AreInts ws
    → ptr + 4 * length ws ≤ length block
    → get_ints ptr (length ws) (put_ints ptr ws block) ≡ ws
unfolding put_ints get_ints
get_ints-put_ints ptr [] block h fits = refl
get_ints-put_ints ptr (w ∷ ws) block (small, rest) fits =
    ap₂ (λ x xs. x ∷ xs)
      (get_field-put_ints 4 ptr (ptr + 4) ws _ (inl (omega arith))
        ∙ get-put_field 4 ptr w block small (omega arith))
      (get_ints-put_ints (ptr + 4) ws (put_field 4 ptr w block) rest
        (omega (arith, length-put_field 4 ptr w block)))

-- An assignment past the run, or below it, leaves the run alone.
pub get_ints-put_field :
    (ptr n w off x : ℕ) (block : Bytes)
    → (off + w ≤ ptr) ⊎ (ptr + 4 * n ≤ off)
    → get_ints ptr n (put_field w off x block) ≡ get_ints ptr n block
unfolding get_ints
get_ints-put_field ptr zero w off x block h = refl
get_ints-put_field ptr (suc n) w off x block h =
    ap₂ (λ y ys. y ∷ ys) (get-put_field_ne 4 ptr w off x block (omega arith))
      (get_ints-put_field (ptr + 4) n w off x block (omega arith))
