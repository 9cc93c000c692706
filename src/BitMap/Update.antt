-- ===== src/BitMap/Update.antt =====
-- `set_bit`, `unset_bit`, `flip` and `is_set` against the Boolean view.
use ex2_file_system.Bits.{
  testbit, bit_and-two_pow, testbit-bit_or, testbit-bit_xor, two_pow_ne_zero, bit_or_bound,
  bit_xor_bound,
}
use ex2_file_system.Base.{
  ℕ, ◌+◌, ◌/◌, ◌%◌, ◌^◌, ◌≤◌, ◌<◌, ◌≡◌, ◌⊎◌, inl, inr, refl, ap, true, false, not, some, minus_one,
  leb, get_elem?, get_or, arith, if◌then◌else◌, ◌==◌, bit_or, bit_xor, get_elem?-eq-some,
  get_or-set_self, get_or-set_ne, length-set, get_or-replicate, length-replicate, Bool-cases,
  ==_refl,
}
use ex2_file_system.BitMap.{
  BitMap, fresh, quotient, check_boundaries, mask_of, put_word, is_set, set_bit, unset_bit, flip,
}
use ex2_file_system.BitMap.Spec.{bit, IsValid}

-- The constructor makes a valid map, for a `T` below 2 ^ 24.
pub fresh-IsValid : (T : ℕ) → T < 2 ^ 24 → IsValid T (fresh T)
unfolding fresh
fresh-IsValid T h = record {
  word_size = refl;
  sized = length-replicate _ 0;
  room = omega arith;
  fits = omega arith;
  words = λ i. omega (arith, get_or-replicate {A = ℕ} ((T + 30) / 31) i 0);
}

check_outside : (T i : ℕ) → (T ≤ i) ⊎ (2 ^ 31 ≤ i) → check_boundaries T i ≡ false
unfolding check_boundaries
check_outside T i h = ground arith

module _ {T : ℕ} {b : BitMap} (v : IsValid T b) where
  pub check_below : {i : ℕ} → i < T → check_boundaries T i ≡ true
  unfolding check_boundaries
  check_below h = ground (arith, v.fits)

  pub quotient_lem : (i : ℕ) → quotient i b.block_size ≡ some (i / 31)
  unfolding quotient
  quotient_lem i = rw v.word_size refl

  pub word_at_lem :
      (i : ℕ) → i < T → get_elem? b.blocks (i / 31) ≡ some (get_or b.blocks (i / 31) 0)
  word_at_lem i h = get_elem?-eq-some b.blocks (i / 31) 0 (omega (arith, v.room, v.sized))

  pub mask_of_lem : (i : ℕ) → mask_of i b ≡ some (2 ^ (i % 31))
  unfolding mask_of
  mask_of_lem i =
      let short : leb 32 (i % 31) ≡ false = ground arith in rw v.word_size (rw short refl)

  bit-put_word :
      (i j word : ℕ)
      → i < T
      → bit (put_word i word b) j ≡ (if i / 31 == j / 31 then testbit word (j % 31) else bit b j)
  unfolding put_word
  bit-put_word i j word h = rw v.word_size (
      ground (
        arith,
        v.room,
        v.sized,
        get_or-set_self b.blocks (i / 31) word 0,
        get_or-set_ne b.blocks (i / 31) (j / 31) word 0,
      ))

  put_word-IsValid : (i word : ℕ) → i < T → word < 2 ^ 31 → IsValid T (put_word i word b)
  unfolding put_word
  put_word-IsValid i word h k = record {
    word_size = v.word_size;
    sized = rw (length-set b.blocks (i / b.block_size) word) v.sized;
    room = v.room;
    fits = v.fits;
    words = λ j. rw v.word_size (
        ground (
          arith,
          v.room,
          v.sized,
          v.words j,
          get_or-set_self b.blocks (i / 31) word 0,
          get_or-set_ne b.blocks (i / 31) j word 0,
        ));
  }

  -- `is_set` is the mask of bit `i` where the bit is set, and 0 where it is not.
  is_set_lem : (i : ℕ) → i < T → is_set T i b ≡ some (if bit b i then 2 ^ (i % 31) else 0)
  unfolding is_set
  is_set_lem i h =
      rw (quotient_lem i, check_below h, word_at_lem i h, mask_of_lem i)
        (ap some (bit_and-two_pow _ (i % 31)))

  -- Inside the bounds `set_bit` returns 0, sets bit `index`, leaves every other bit and the size as
  -- they were and keeps the map valid.
  pub set_bit_lem :
      (i : ℕ)
      → i < T
      → (b' : BitMap) × (set_bit T i b ≡ some (0, b'))
        × IsValid T b'
        × (b'.size ≡ b.size)
        × ((j : ℕ) → bit b' j ≡ (if i == j then true else bit b j))
  unfolding set_bit put_word
  set_bit_lem i h = (
    put_word i word b,
    rw (quotient_lem i, check_below h, word_at_lem i h, mask_of_lem i),
    put_word-IsValid i word h (bit_or_bound 31 _ (i % 31) (v.words (i / 31)) (omega arith)),
    refl,
    λ j.
        rw (bit-put_word i j word h)
          (ground (arith, testbit-bit_or (get_or b.blocks (i / 31) 0) (i % 31) (j % 31))),
  )
    where
      word : ℕ
      word = bit_or (get_or b.blocks (i / 31) 0) (2 ^ (i % 31))

  -- The map with bit `i` turned over.
  toggled : ℕ → BitMap
  toggled i = put_word i (bit_xor (get_or b.blocks (i / 31) 0) (2 ^ (i % 31))) b

  toggled-IsValid : (i : ℕ) → i < T → IsValid T (toggled i)
  unfolding toggled
  toggled-IsValid i h =
      put_word-IsValid i _ h (bit_xor_bound 31 _ (i % 31) (v.words (i / 31)) (omega arith))

  bit-toggled : (i j : ℕ) → i < T → bit (toggled i) j ≡ (if i == j then not (bit b j) else bit b j)
  unfolding toggled
  bit-toggled i j h =
      rw (bit-put_word i j _ h)
        (ground (arith, testbit-bit_xor (get_or b.blocks (i / 31) 0) (i % 31) (j % 31)))

module _ {T : ℕ} {b : BitMap} (v : IsValid T b) where
  -- Inside the bounds `flip` turns bit `index` over, returns its new value in the form of `is_set`,
  -- leaves every other bit as it was and keeps the map valid.
  flip_lem :
      (i : ℕ)
      → i < T
      → (b' : BitMap) × (flip T i b ≡ some (if bit b i then 0 else 2 ^ (i % 31), b'))
        × IsValid T b'
        × ((j : ℕ) → bit b' j ≡ (if i == j then not (bit b j) else bit b j))
  unfolding flip toggled
  flip_lem i h = (
    toggled v i,
    rw
        (
          quotient_lem v i,
          check_below v h,
          word_at_lem v i h,
          mask_of_lem v i,
          is_set_lem (toggled-IsValid v i h) i h,
          bit-toggled v i i h,
          ==_refl i,
        )
        (elim (Bool-cases (bit b i)) [ inl e ↦ rw e | inr e ↦ rw e ]),
    toggled-IsValid v i h,
    λ j. bit-toggled v i j h,
  )

  -- Inside the bounds `unset_bit` returns 0, clears bit `index`, leaves every other bit as it was
  -- and keeps the map valid.
  unset_bit_lem :
      (i : ℕ)
      → i < T
      → (b' : BitMap) × (unset_bit T i b ≡ some (0, b'))
        × IsValid T b'
        × ((j : ℕ) → bit b' j ≡ (if i == j then false else bit b j))
  unfolding unset_bit toggled
  unset_bit_lem i h = elim (Bool-cases (bit b i)) [
    | inl on ↦ (
      toggled v i,
      rw
          (
            quotient_lem v i,
            check_below v h,
            is_set_lem v i h,
            word_at_lem v i h,
            mask_of_lem v i,
            on,
          )
          (rw (two_pow_ne_zero (i % 31))),
      toggled-IsValid v i h,
      λ j. rw (bit-toggled v i j h) (ground arith),
    )
    | inr off ↦ (
      b,
      rw (
        quotient_lem v i,
        check_below v h,
        is_set_lem v i h,
        word_at_lem v i h,
        mask_of_lem v i,
        off,
      ),
      v,
      λ j. ground arith,
    )
  ]

  -- Inside the bounds, on a valid map: `is_set` is the mask of the bit if it is set and 0 if not;
  -- `set_bit` and `unset_bit` return 0, and `flip` the bit's new value in the form of `is_set`. They
  -- set, clear and turn over that bit, leave every other bit as it was, and keep the map valid.
  pub one_bit_operations :
      (i : ℕ)
      → i < T
      → (is_set T i b ≡ some (if bit b i then 2 ^ (i % 31) else 0))
        × ((b' : BitMap) × (set_bit T i b ≡ some (0, b'))
            × IsValid T b'
            × (b'.size ≡ b.size)
            × ((j : ℕ) → bit b' j ≡ (if i == j then true else bit b j)))
        × ((b' : BitMap) × (unset_bit T i b ≡ some (0, b'))
            × IsValid T b'
            × ((j : ℕ) → bit b' j ≡ (if i == j then false else bit b j)))
        × ((b' : BitMap) × (flip T i b ≡ some (if bit b i then 0 else 2 ^ (i % 31), b'))
            × IsValid T b'
            × ((j : ℕ) → bit b' j ≡ (if i == j then not (bit b j) else bit b j)))
  one_bit_operations i h = (is_set_lem v i h, set_bit_lem v i h, unset_bit_lem i h, flip_lem i h)

-- For a map whose `block_size` is positive and below 2^31: at an index outside the bounds, negative
-- ones included, the four operations return -1 and leave the map as it was.
pub out_of_bounds :
    (T : ℕ) (b : BitMap) (i : ℕ)
    → 0 < b.block_size
    → b.block_size < 2 ^ 31
    → (T ≤ i) ⊎ (2 ^ 31 ≤ i)
    → (is_set T i b ≡ some minus_one)
      × (set_bit T i b ≡ some (minus_one, b))
      × (unset_bit T i b ≡ some (minus_one, b))
      × (flip T i b ≡ some (minus_one, b))
unfolding is_set set_bit unset_bit flip quotient
out_of_bounds T b i positive small h =
    let outside : check_boundaries T i ≡ false = check_outside T i h in
    let divides : (b.block_size == 0) ≡ false = ground arith in
    (rw (divides, outside), rw (divides, outside), rw (divides, outside), rw (divides, outside))
