-- ===== src/BitMap/Search.antt =====
-- `get_least_significant_bit` finds the first clear bit of its range.
use ex2_file_system.Bits.{testbit}
use ex2_file_system.Base.{
  ℕ, zero, suc, ◌+◌, ◌-◌, ◌*◌, ◌/◌, ◌%◌, ◌≤◌, ◌<◌, ◌≡◌, ◌⊎◌, inl, inr, refl, true, false, minus_one,
  arith, if◌then◌else◌, ◌==◌, lt_int, Bool-cases, Option, some, get_or, get_elem?,
  get_elem?-eq-some,
}
use ex2_file_system.BitMap.{
  BitMap, quotient, extract_least_significant, between_loop, search_rest, search_blocks,
  get_least_significant_bit,
}
use ex2_file_system.BitMap.Spec.{bit, IsValid, Finds, AllSet, IsFirstClear}
use ex2_file_system.BitMap.Scan.{extract-Finds, Finds-range, IsFirstClear-widen, Finds-skip}
use ex2_file_system.BitMap.Update.{check_below}

-- Bit `j` of block `blk`.
bit_in_block :
    (b : BitMap) (blk j : ℕ)
    → blk * 31 ≤ j
    → j < blk * 31 + 31
    → bit b j ≡ testbit (get_or b.blocks blk 0) (j - blk * 31)
bit_in_block b blk j h k =
    let e : j / 31 ≡ blk = omega arith in let e' : j % 31 ≡ j - blk * 31 = omega arith in rw (e, e')

-- What the scan of a part of one word says of the map.
abbrev Scanned : BitMap → ℕ → ℕ → ℕ → ℕ → Type 0
Scanned b blk s e d =
    (((d == minus_one) ≡ true) × AllSet (bit b) (blk * 31 + s) (blk * 31 + e))
    ⊎ (((d == minus_one) ≡ false)
        × IsFirstClear (bit b) (blk * 31 + s) (blk * 31 + e) (blk * 31 + d))

abbrev ScannedBlock : BitMap → ℕ → ℕ → ℕ → Type 0
ScannedBlock b blk s e =
    (d : ℕ) × (extract_least_significant (get_or b.blocks blk 0) s e ≡ some d) × Scanned b blk s e d

scan_block : (b : BitMap) (blk s e : ℕ) → s ≤ e → e ≤ 31 → ScannedBlock b blk s e
scan_block b blk s e h k =
    let (d, runs, f) = extract-Finds (get_or b.blocks blk 0) s e h (omega arith) in
    (d, runs, go d f)
  where
    all :
        (d : ℕ)
        → d ≤ 31
        → AllSet (testbit (get_or b.blocks blk 0)) s d
        → AllSet (bit b) (blk * 31 + s) (blk * 31 + d)
    all d le f j p q =
        rw (bit_in_block b blk j (omega arith) (omega arith))
          (f (j - blk * 31) (omega arith) (omega arith))

    go : (d : ℕ) → Finds (testbit (get_or b.blocks blk 0)) s e d → Scanned b blk s e d
    go d (inl (is, f)) = inl (ground arith, all e k f)
    go d (inr (p, q, off, f)) =
        let at : blk * 31 + d - blk * 31 ≡ d = omega arith in
        inr (
          ground arith,
          (
            omega arith,
            omega arith,
            rw (bit_in_block b blk (blk * 31 + d) (omega arith) (omega arith), at) off,
            all d (omega arith) f,
          ),
        )

module _ {T : ℕ} {b : BitMap} (v : IsValid T b) where
  word_lem : (blk : ℕ) → blk < b.size → get_elem? b.blocks blk ≡ some (get_or b.blocks blk 0)
  word_lem blk h = get_elem?-eq-some b.blocks blk 0 (omega (arith, v.sized))

  -- The result of a search that cannot fail, with what it found.
  abbrev Searched : Option ℕ → ℕ → ℕ → Type 0
  Searched o lo hi = (r : ℕ) × (o ≡ some r) × Finds (bit b) lo hi r

  between-Finds :
      (k blk : ℕ)
      → blk + k ≤ b.size
      → (blk + k) * 31 < minus_one
      → Searched (between_loop k blk b) (blk * 31) ((blk + k) * 31)
  unfolding between_loop
  between-Finds zero blk h fits = (minus_one, refl, inl (refl, λ j p q. absurd (omega arith)))
  between-Finds (suc k) blk h fits =
      go (between-Finds k (blk + 1) (omega arith) (omega arith))
        (scan_block b blk 0 31 (omega arith) (omega arith))
    where
      go :
          Searched (between_loop k (blk + 1) b) ((blk + 1) * 31) ((blk + 1 + k) * 31)
          → ScannedBlock b blk 0 31
          → Searched (between_loop (suc k) blk b) (blk * 31) ((blk + suc k) * 31)
      go (r, e, f) (d, runs, inl (full, all)) = (
        r,
        simp (word_lem blk (omega arith), v.word_size, runs, full) e,
        Finds-skip (blk * 31) ((blk + 1) * 31) ((blk + suc k) * 31) r
            (λ j p q. all j (omega arith) (omega arith)) (omega arith)
            (Finds-range refl (omega arith) f),
      )
      go (r, e, f) (d, runs, inr (hit, first)) = (
        blk * 31 + d,
        simp (word_lem blk (omega arith), v.word_size, runs, hit),
        inr (IsFirstClear-widen (omega arith) (omega arith) first),
      )

  -- After the blocks between come the low bits of the last block.
  search_rest-Finds :
      (first last end : ℕ)
      → first ≤ last
      → last ≡ end / 31
      → end < T
      → Searched (search_rest first last end b) ((first + 1) * 31) (end + 1)
  unfolding search_rest
  search_rest-Finds first last end le is below =
      go
        (between-Finds (last - (first + 1)) (first + 1) (omega (arith, v.room))
          (omega (arith, v.fits)))
        (scan_block b last 0 (end % 31 + 1) (omega arith) (omega arith))
        (Bool-cases (first == last))
    where
      go :
          Searched
            (between_loop (last - (first + 1)) (first + 1) b)
            ((first + 1) * 31)
            ((first + 1 + (last - (first + 1))) * 31)
          → ScannedBlock b last 0 (end % 31 + 1)
          → ((first == last) ≡ true) ⊎ ((first == last) ≡ false)
          → Searched (search_rest first last end b) ((first + 1) * 31) (end + 1)
      go (r, e, inr (p, q, off, f)) _ _ =
          let hit : (r == minus_one) ≡ false = ground (arith, v.fits) in
          (r, simp (e, hit), inr (p, omega arith, off, f))
      go (r, e, inl (none_left, all)) _ (inl one) =
          let miss : (r == minus_one) ≡ true = ground arith in
          (minus_one, simp (e, miss, one), inl (refl, λ j p q. absurd (ground arith)))
      go (r, e, inl (none_left, all)) (d, runs, inl (full, rest)) (inr more) =
          let miss : (r == minus_one) ≡ true = ground arith in
          (
            minus_one,
            simp (e, miss, more, word_lem last (omega (arith, v.room)), v.word_size, runs, full),
            Finds-skip ((first + 1) * 31) (last * 31) (end + 1) minus_one
                (λ j p q. all j p (omega arith)) (ground arith)
                (inl (refl, λ j p q. rest j (omega arith) (omega arith))),
          )
      go (r, e, inl (none_left, all)) (d, runs, inr (hit, found)) (inr more) =
          let miss : (r == minus_one) ≡ true = ground arith in
          (
            last * 31 + d,
            simp (e, miss, more, word_lem last (omega (arith, v.room)), v.word_size, runs, hit),
            Finds-skip ((first + 1) * 31) (last * 31) (end + 1) _ (λ j p q. all j p (omega arith))
                (ground arith) (inr (IsFirstClear-widen (omega arith) (omega arith) found)),
          )

  search_blocks-Finds :
      (start end : ℕ) → start ≤ end → end < T → Searched (search_blocks start end b) start (end + 1)
  unfolding search_blocks quotient
  search_blocks-Finds start end le below = elim (Bool-cases (start / 31 == end / 31)) [
    | inl one ↦
        go (end % 31 + 1) (rw one) (ground arith) (omega arith) (inl (ground arith))
          (scan_block b (start / 31) (start % 31) (end % 31 + 1) (ground arith) (omega arith))
          (search_rest-Finds (start / 31) (end / 31) end (omega arith) refl below)
    | inr more ↦
        go 31 (rw more) (ground arith) (omega arith) (inr (omega arith))
          (scan_block b (start / 31) (start % 31) 31 (omega arith) (omega arith))
          (search_rest-Finds (start / 31) (end / 31) end (omega arith) refl below)
  ]
    where
      go :
          (bound : ℕ)
          → (if start / 31 == end / 31 then end % 31 + 1 else 31) ≡ bound
          → start / 31 * 31 + bound ≤ end + 1
          → bound ≤ 31
          → (start / 31 * 31 + bound ≡ end + 1) ⊎ (start / 31 * 31 + bound ≡ (start / 31 + 1) * 31)
          → ScannedBlock b (start / 31) (start % 31) bound
          → Searched (search_rest (start / 31) (end / 31) end b) ((start / 31 + 1) * 31) (end + 1)
          → Searched (search_blocks start end b) start (end + 1)
      go bound is inside narrow covers (d, runs, inr (hit, found)) _ = (
        start / 31 * 31 + d,
        simp (v.word_size, word_lem (start / 31) (omega (arith, v.room)), is, runs, hit),
        inr (IsFirstClear-widen (omega arith) inside found),
      )
      go bound is inside narrow (inl whole) (d, runs, inl (full, all)) (r, e, f) = (
        r,
        simp (v.word_size, word_lem (start / 31) (omega (arith, v.room)), is, runs, full) e,
        elim f [
          | inl (none_left, rest) ↦ inl (none_left, λ j p q. all j (omega arith) (omega arith))
          | inr (p, q, off, rest) ↦ absurd (omega arith)
        ],
      )
      go bound is inside narrow (inr part) (d, runs, inl (full, all)) (r, e, f) = (
        r,
        simp (v.word_size, word_lem (start / 31) (omega (arith, v.room)), is, runs, full) e,
        Finds-skip start ((start / 31 + 1) * 31) (end + 1) r
            (λ j p q. all j (omega arith) (omega arith)) (omega arith) f,
      )

  -- Over a range inside the bounds the search never leaves the array and returns the first clear
  -- bit from `start` to `end`, both included, or -1 when every bit of the range is set.
  pub get_least_significant_bit-Finds :
      (start end : ℕ)
      → start ≤ end
      → end < T
      → (r : ℕ) × (get_least_significant_bit T start end b ≡ some r)
        × Finds (bit b) start (end + 1) r
  unfolding get_least_significant_bit
  get_least_significant_bit-Finds start end le below =
      rw (in_order, check_below v {i = start} (omega arith), check_below v below)
        (search_blocks-Finds start end le below)
    where
      in_order : lt_int end start ≡ false
      in_order = ground (arith, v.fits)
