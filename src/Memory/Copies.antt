-- ===== src/Memory/Copies.antt =====
-- Several copies into one object, and parts of what they leave.
use ex2_file_system.Memory.{Bytes, overwrite, slice, from_bytes, get_field, slice-overwrite_above}
use ex2_file_system.Base.{
  ℕ, zero, suc, ◌+◌, ◌≤◌, ◌≡◌, refl, ap, [], ◌∷◌, ◌++◌, length, take, drop, arith, subst, sym, ◌∙◌,
}

-- A copy as long as its target replaces it.
pub overwrite_whole : (obj new : Bytes) → length obj ≡ length new → overwrite obj 0 new ≡ new
unfolding overwrite
overwrite_whole [] [] h = refl
overwrite_whole [] (x ∷ new) h = absurd (omega arith)
overwrite_whole (b ∷ bs) [] h = absurd (omega arith)
overwrite_whole (b ∷ bs) (x ∷ new) h = ap (◌∷◌ x) (overwrite_whole bs new (omega arith))

overwrite-nil : (obj : Bytes) → overwrite obj 0 [] ≡ obj
unfolding overwrite
overwrite-nil [] = refl
overwrite-nil (b ∷ bs) = refl

-- Two copies that together fill the target.
pub overwrite_both :
    (obj front back : Bytes)
    → length obj ≡ length front + length back
    → overwrite (overwrite obj 0 front) (length front) back ≡ front ++ back
unfolding overwrite
overwrite_both obj [] back h = rw (overwrite-nil obj) (overwrite_whole obj back (omega arith))
overwrite_both [] (x ∷ front) back h = absurd (omega arith)
overwrite_both (b ∷ bs) (x ∷ front) back h = ap (◌∷◌ x) (overwrite_both bs front back (omega arith))

-- Reads behind a copy to the front of an object are reads of what was copied.
pub take-overwrite_front :
    (obj new : Bytes) (n : ℕ)
    → n ≤ length new
    → length new ≤ length obj
    → take n (overwrite obj 0 new) ≡ take n new
unfolding overwrite
take-overwrite_front obj new zero h k = refl
take-overwrite_front obj [] (suc n) h k = absurd (omega arith)
take-overwrite_front [] (x ∷ new) (suc n) h k = absurd (omega arith)
take-overwrite_front (b ∷ bs) (x ∷ new) (suc n) h k =
    ap (◌∷◌ x) (take-overwrite_front bs new n (omega arith) (omega arith))

pub slice-overwrite_front :
    (obj new : Bytes) (o n : ℕ)
    → o + n ≤ length new
    → length new ≤ length obj
    → slice o n (overwrite obj 0 new) ≡ slice o n new
unfolding overwrite
slice-overwrite_front obj new zero n h k = take-overwrite_front obj new n (omega arith) k
slice-overwrite_front [] [] (suc o) n h k = refl
slice-overwrite_front (b ∷ bs) [] (suc o) n h k = absurd (omega arith)
slice-overwrite_front [] (x ∷ new) (suc o) n h k = absurd (omega arith)
slice-overwrite_front (b ∷ bs) (x ∷ new) (suc o) n h k =
    slice-overwrite_front bs new o n (omega arith) (omega arith)

-- Reads inside what was copied.
pub slice-overwrite_inside :
    (obj new : Bytes) (off k o w : ℕ)
    → o ≡ off + k
    → k + w ≤ length new
    → off + length new ≤ length obj
    → slice o w (overwrite obj off new) ≡ slice k w new
unfolding overwrite
slice-overwrite_inside obj new zero k o w e h room =
    subst (λ i. slice i w (overwrite obj 0 new) ≡ slice k w new) (sym (e ∙ omega arith))
      (slice-overwrite_front obj new k w h (omega arith))
slice-overwrite_inside [] new (suc off) k o w e h room = absurd (omega arith)
slice-overwrite_inside (b ∷ bs) new (suc off) k zero w e h room = absurd (omega arith)
slice-overwrite_inside (b ∷ bs) new (suc off) k (suc o) w e h room =
    slice-overwrite_inside bs new off k o w (omega arith) h (omega arith)

drop-drop : (k off : ℕ) (bs : Bytes) (o : ℕ) → o ≡ off + k → drop k (drop off bs) ≡ drop o bs
drop-drop k zero bs o e = ap (λ i. drop i bs) (omega arith)
drop-drop zero (suc off) [] zero e = refl
drop-drop zero (suc off) [] (suc o) e = refl
drop-drop (suc k) (suc off) [] zero e = refl
drop-drop (suc k) (suc off) [] (suc o) e = refl
drop-drop k (suc off) (b ∷ bs) zero e = absurd (omega arith)
drop-drop k (suc off) (b ∷ bs) (suc o) e = drop-drop k off bs o (omega arith)

pub take-take : (n k : ℕ) (bs : Bytes) → n ≤ k → take n (take k bs) ≡ take n bs
take-take zero k bs h = refl
take-take (suc n) zero bs h = absurd (omega arith)
take-take (suc n) (suc k) [] h = refl
take-take (suc n) (suc k) (b ∷ bs) h = ap (◌∷◌ b) (take-take n k bs (omega arith))

slice-take : (o n k : ℕ) (bs : Bytes) → o + n ≤ k → slice o n (take k bs) ≡ slice o n bs
slice-take zero n k bs h = take-take n k bs (omega arith)
slice-take (suc o) n zero bs h = absurd (omega arith)
slice-take (suc o) n (suc k) [] h = refl
slice-take (suc o) n (suc k) (b ∷ bs) h = slice-take o n k bs (omega arith)

-- A read of a read.
pub slice-slice :
    (k w off n o : ℕ) (bs : Bytes)
    → o ≡ off + k
    → k + w ≤ n
    → slice k w (slice off n bs) ≡ slice o w bs
slice-slice k w off n o bs e h =
    slice-take k w n (drop off bs) h ∙ ap (take w) (drop-drop k off bs o e)

pub get_field-overwrite_front :
    (w o : ℕ) (obj new : Bytes)
    → o + w ≤ length new
    → length new ≤ length obj
    → get_field w o (overwrite obj 0 new) ≡ get_field w o new
unfolding get_field
get_field-overwrite_front w o obj new h k = ap from_bytes (slice-overwrite_front obj new o w h k)

pub get_field-take :
    (w o k : ℕ) (bs : Bytes) → o + w ≤ k → get_field w o (take k bs) ≡ get_field w o bs
unfolding get_field
get_field-take w o k bs h = ap from_bytes (slice-take o w k bs h)

-- A copy behind a copy is one copy.
pub overwrite_append :
    (obj : Bytes) (off at : ℕ) (front back : Bytes)
    → at ≡ off + length front
    → overwrite (overwrite obj off front) at back ≡ overwrite obj off (front ++ back)
unfolding overwrite
overwrite_append [] off at front back h = refl
overwrite_append (b ∷ bs) zero zero [] back h = refl
overwrite_append (b ∷ bs) zero (suc at) [] back h = absurd (omega arith)
overwrite_append (b ∷ bs) zero zero (x ∷ front) back h = absurd (omega arith)
overwrite_append (b ∷ bs) zero (suc at) (x ∷ front) back h =
    ap (◌∷◌ x) (overwrite_append bs zero at front back (omega arith))
overwrite_append (b ∷ bs) (suc off) zero front back h = absurd (omega arith)
overwrite_append (b ∷ bs) (suc off) (suc at) front back h =
    ap (◌∷◌ b) (overwrite_append bs off at front back (omega arith))

pub get_field-overwrite_above :
    (w o off : ℕ) (obj new : Bytes)
    → off + length new ≤ o
    → get_field w o (overwrite obj off new) ≡ get_field w o obj
unfolding get_field
get_field-overwrite_above w o off obj new h =
    ap from_bytes (slice-overwrite_above obj off o w new h)
