-- ===== src/Memory.antt =====
-- Objects as their bytes: `memcpy`, and little-endian fields at an offset, as on x86-64. A struct
-- that the C++ copies by `memcpy` is the list of its bytes, padding included.
pub mod Words
pub mod Copies
use native.Mathlib.Nat.{pow-suc}
use ex2_file_system.Base.{
  ℕ, zero, suc, ◌+◌, ◌-◌, ◌*◌, ◌/◌, ◌%◌, ◌^◌, ◌≤◌, ◌<◌, ◌≡◌, refl, ap, List, [], ◌∷◌, ◌++◌, length,
  take, drop, arith, length-take, ◌⊎◌, inl, inr, subst, sym, ◌∙◌,
}

abbrev pub Bytes : Type 0
Bytes = List ℕ

-- `memcpy` of all of `new` to `obj + off`. What would fall outside `obj` is dropped; every caller
-- stays inside, or its model tests first.
unfoldable pub overwrite : Bytes → ℕ → Bytes → Bytes
overwrite [] off new = []
overwrite (b ∷ bs) zero [] = b ∷ bs
overwrite (b ∷ bs) zero (x ∷ new) = x ∷ overwrite bs zero new
overwrite (b ∷ bs) (suc off) new = b ∷ overwrite bs off new

abbrev pub slice : ℕ → ℕ → Bytes → Bytes
slice off n obj = take n (drop off obj)

-- The `w` bytes of a number, lowest first.
unfoldable pub to_bytes : ℕ → ℕ → Bytes
to_bytes zero n = []
to_bytes (suc w) n = (n % 256) ∷ to_bytes w (n / 256)

unfoldable pub from_bytes : Bytes → ℕ
from_bytes [] = 0
from_bytes (b ∷ bs) = b + 256 * from_bytes bs

-- The field of `w` bytes at `off`, and an assignment to it.
unfoldable pub get_field : ℕ → ℕ → Bytes → ℕ
get_field w off obj = from_bytes (slice off w obj)

unfoldable pub put_field : ℕ → ℕ → ℕ → Bytes → Bytes
put_field w off n obj = overwrite obj off (to_bytes w n)

pub length-overwrite :
    (obj : Bytes) (off : ℕ) (new : Bytes) → length (overwrite obj off new) ≡ length obj
unfolding overwrite
length-overwrite [] off new = refl
length-overwrite (b ∷ bs) zero [] = refl
length-overwrite (b ∷ bs) zero (x ∷ new) = ap suc (length-overwrite bs zero new)
length-overwrite (b ∷ bs) (suc off) new = ap suc (length-overwrite bs off new)

pub take-overwrite :
    (obj new : Bytes) → length new ≤ length obj → take (length new) (overwrite obj 0 new) ≡ new
unfolding overwrite
take-overwrite [] [] h = refl
take-overwrite (b ∷ bs) [] h = refl
take-overwrite [] (x ∷ new) h = absurd (omega arith)
take-overwrite (b ∷ bs) (x ∷ new) h = ap (◌∷◌ x) (take-overwrite bs new (omega arith))

-- What was copied in is read back.
slice-overwrite_self :
    (obj : Bytes) (off : ℕ) (new : Bytes)
    → off + length new ≤ length obj
    → slice off (length new) (overwrite obj off new) ≡ new
unfolding overwrite
slice-overwrite_self obj zero new h = take-overwrite obj new (omega arith)
slice-overwrite_self [] (suc off) new h = absurd (omega arith)
slice-overwrite_self (b ∷ bs) (suc off) new h = slice-overwrite_self bs off new (omega arith)

-- A copy changes nothing below its offset.
pub slice-overwrite_below :
    (obj : Bytes) (off o n : ℕ) (new : Bytes)
    → o + n ≤ off
    → slice o n (overwrite obj off new) ≡ slice o n obj
unfolding overwrite
slice-overwrite_below [] off o n new h = refl
slice-overwrite_below (b ∷ bs) zero zero zero new h = refl
slice-overwrite_below (b ∷ bs) zero zero (suc n) new h = absurd (omega arith)
slice-overwrite_below (b ∷ bs) zero (suc o) n new h = absurd (omega arith)
slice-overwrite_below (b ∷ bs) (suc off) zero zero new h = refl
slice-overwrite_below (b ∷ bs) (suc off) zero (suc n) new h =
    ap (◌∷◌ b) (slice-overwrite_below bs off zero n new (omega arith))
slice-overwrite_below (b ∷ bs) (suc off) (suc o) n new h =
    slice-overwrite_below bs off o n new (omega arith)

-- Nor past its end.
pub slice-overwrite_above :
    (obj : Bytes) (off o n : ℕ) (new : Bytes)
    → off + length new ≤ o
    → slice o n (overwrite obj off new) ≡ slice o n obj
unfolding overwrite
slice-overwrite_above [] off o n new h = refl
slice-overwrite_above (b ∷ bs) zero o n [] h = refl
slice-overwrite_above (b ∷ bs) zero zero n (x ∷ new) h = absurd (omega arith)
slice-overwrite_above (b ∷ bs) zero (suc o) n (x ∷ new) h =
    slice-overwrite_above bs zero o n new (omega arith)
slice-overwrite_above (b ∷ bs) (suc off) zero n new h = absurd (omega arith)
slice-overwrite_above (b ∷ bs) (suc off) (suc o) n new h =
    slice-overwrite_above bs off o n new (omega arith)

pub length-to_bytes : (w n : ℕ) → length (to_bytes w n) ≡ w
unfolding to_bytes
length-to_bytes zero n = refl
length-to_bytes (suc w) n = ap suc (length-to_bytes w (n / 256))

pub from_bytes-to_bytes : (w n : ℕ) → n < 256 ^ w → from_bytes (to_bytes w n) ≡ n
unfolding to_bytes from_bytes
from_bytes-to_bytes zero n h = omega arith
from_bytes-to_bytes (suc w) n h =
    omega (arith, from_bytes-to_bytes w (n / 256) (omega (arith, pow-suc 256 w)))

-- A field that was assigned is read back.
pub get-put_field :
    (w off n : ℕ) (obj : Bytes)
    → n < 256 ^ w
    → off + w ≤ length obj
    → get_field w off (put_field w off n obj) ≡ n
unfolding get_field put_field
get-put_field w off n obj h fits =
    subst (λ k. from_bytes (slice off k (overwrite obj off (to_bytes w n))) ≡ n)
      (length-to_bytes w n)
      (rw (slice-overwrite_self obj off (to_bytes w n) (omega (arith, length-to_bytes w n)))
        (from_bytes-to_bytes w n h))

pub length-put_field : (w off n : ℕ) (obj : Bytes) → length (put_field w off n obj) ≡ length obj
unfolding put_field
length-put_field w off n obj = length-overwrite obj off (to_bytes w n)

-- An assignment changes no field beside its own.
pub get-put_field_ne :
    (v o w off n : ℕ) (obj : Bytes)
    → (o + v ≤ off) ⊎ (off + w ≤ o)
    → get_field v o (put_field w off n obj) ≡ get_field v o obj
unfolding get_field put_field
get-put_field_ne v o w off n obj (inl h) = ap from_bytes (slice-overwrite_below obj off o v _ h)
get-put_field_ne v o w off n obj (inr h) =
    ap from_bytes (slice-overwrite_above obj off o v _ (omega (arith, length-to_bytes w n)))
