-- ===== src/Bits/Init.antt =====
-- `whbits_init`: sizing a bitset, growing and shrinking it; and the bound that the accessors test.
use whefs.Common.{
  ℕ, ◌+◌, ◌-◌, ◌*◌, ◌/◌, ◌%◌, ◌<◌, ◌≤◌, ◌≡◌, refl, arith, Bool, true, none, some, ◌==◌, ltb, leb,
  List, ◌++◌, length, get_or, take, replicate, length-append, length-take, length-replicate,
  get_or-append_left, get_or-append_right, get_or-replicate, get_or-take, get_or-outside,
  Bool-cases, inl, inr, min, ltb→lt, leb→le, ◌∙◌,
}
use whefs.Bits.{
  Whbits, byte_get, whbits_set, whbits_unset, whbits_get, whbits_init, bytes_for, fill_from,
}
use whefs.Bits.Laws.{IsValid, get_inside}

length-fill_from : (xs : List ℕ) (f v : ℕ) → f ≤ length xs → length (fill_from xs f v) ≡ length xs
length-fill_from xs f v h = omega (
  arith,
  length-append (take f xs) (replicate (length xs - f) v),
  length-take f xs,
  length-replicate (length xs - f) v,
)

-- Bytes kept up to `f`, and `v` behind them up to the end `n`.
record Filled (xs : List ℕ) (f v n : ℕ) (ys : List ℕ) : Type 0 where
  size : length ys ≡ n
  kept : (i : ℕ) → i < f → get_or ys i 0 ≡ get_or xs i 0
  filled : (i : ℕ) → f ≤ i → i < n → get_or ys i 0 ≡ v

append-Filled :
    (xs : List ℕ) (v k : ℕ) → Filled xs (length xs) v (length xs + k) (xs ++ replicate k v)
append-Filled xs v k = record {
  size = omega (arith, length-append xs (replicate k v), length-replicate k v);
  kept = λ i h. get_or-append_left xs (replicate k v) i 0 h;
  filled = λ i h h'.
      get_or-append_right xs (replicate k v) i 0 h
      ∙ get_or-replicate k v (i - length xs) 0 (omega arith);
}

fill_from-Filled :
    (xs : List ℕ) (f v : ℕ) → f ≤ length xs → Filled xs f v (length xs) (fill_from xs f v)
fill_from-Filled xs f v h =
    let e : length (take f xs) ≡ f = omega (arith, length-take f xs) in
    let a = append-Filled (take f xs) v (length xs - f) in
    record {
      size = length-fill_from xs f v h;
      kept = λ i hi. a.kept i (omega arith) ∙ get_or-take f xs i 0 hi;
      filled = λ i hi hn. a.filled i (omega arith) (omega arith);
    }

Filled-bytes :
    {xs : List ℕ} {f v n : ℕ} {ys : List ℕ}
    → Filled xs f v n ys
    → ((i : ℕ) → get_or xs i 0 < 256)
    → v < 256
    → (i : ℕ) → get_or ys i 0 < 256
Filled-bytes {xs} {f} {v} {n} {ys} w all hv i = elim (Bool-cases (ltb i f)) [
  | inl below ↦ omega (arith, w.kept i (ltb→lt i f below), all i)
  | inr above ↦ elim (Bool-cases (ltb i n)) [
    | inl inside ↦ omega (arith, w.filled i (ground arith) (ltb→lt i n inside))
    | inr outside ↦
        let o : n ≤ i = ground arith in omega (arith, get_or-outside ys i 0 (omega (arith, w.size)))
  ]
]

-- `b'` is `b` resized to `n` bits: the bits that both have are kept, and those that lie beyond the
-- old allocation are those of the byte `initial`.
pub record Resized (b : Whbits) (n initial : ℕ) (b' : Whbits) : Type 0 where
  pub valid : IsValid b'
  pub size : b'.sz_bits ≡ n
  pub kept : (j : ℕ) → j < n → j < b.sz_bits → whbits_get (some b') j ≡ whbits_get (some b) j
  pub fresh :
      (j : ℕ)
      → j < n
      → b.sz_alloc ≤ j / 8
      → whbits_get (some b') j ≡ some (byte_get initial (j % 8))

module _ (allocates : ℕ → Bool) {b : Whbits} (n initial : ℕ) (v : IsValid b)
    (small : initial < 256) where
  Resized-bytes :
      (f m : ℕ) (ys : List ℕ) (b' : Whbits)
      → Filled b.bytes f initial m ys
      → b' ≡ record { sz_bits = n; sz_bytes = bytes_for n; sz_alloc = m; bytes = ys }
      → bytes_for n ≤ m
      → (min b.sz_bytes (bytes_for n)) ≤ f
      → f ≤ b.sz_alloc
      → Resized b n initial b'
  Resized-bytes f m ys b' w e fits keeps old = rw e record {
    valid = valid';
    size = refl;
    kept = λ j h h'.
        let k : get_or ys (j / 8) 0 ≡ get_or b.bytes (j / 8) 0 =
          w.kept (j / 8) (ground (arith, v.sized)) in
        ground (arith, get_inside j valid' h, get_inside j v h', k);
    fresh = λ j h h'.
        let k : get_or ys (j / 8) 0 ≡ initial = w.filled (j / 8) (omega arith) (ground arith) in
        ground (arith, get_inside j valid' h, k);
  }
    where
      r : Whbits
      r = record { sz_bits = n; sz_bytes = bytes_for n; sz_alloc = m; bytes = ys }

      valid' : IsValid r
      valid' = record {
        alloced = w.size;
        sized = refl;
        fits = fits;
        bytes_ok = Filled-bytes w v.bytes_ok small;
      }

  module _ (some_bits : 0 < n) where
    reused :
        bytes_for n ≤ b.sz_alloc
        → (b' : Whbits) × (whbits_init allocates (some b) n initial ≡ (true, some b'))
          × Resized b n initial b'
    unfolding whbits_init
    reused fits = elim (Bool-cases (b.sz_bytes == bytes_for n)) [
      | inl same ↦ (
        record b { sz_bits = n },
        ground arith,
        Resized-bytes b.sz_alloc b.sz_alloc b.bytes _
            (record {
              size = v.alloced;
              kept = λ i h. refl;
              filled = λ i h h'. absurd (omega arith);
            })
            (ground arith) fits (omega (arith, v.fits)) (omega arith),
      )
      | inr differ ↦ elim (Bool-cases (ltb b.sz_bytes (bytes_for n))) [
        | inl grows ↦ (
          record b {
            sz_bits = n;
            sz_bytes = bytes_for n;
            bytes = fill_from b.bytes b.sz_bytes initial;
          },
          ground arith,
          Resized-bytes b.sz_bytes b.sz_alloc _ _ (filled b.sz_bytes v.fits) refl fits (omega arith)
              v.fits,
        )
        | inr shrinks ↦ (
          record b {
            sz_bits = n;
            sz_bytes = bytes_for n;
            bytes = fill_from b.bytes (bytes_for n) initial;
          },
          ground arith,
          Resized-bytes (bytes_for n) b.sz_alloc _ _ (filled (bytes_for n) fits) refl fits
              (omega arith) fits,
        )
      ]
    ]
      where
        filled :
            (f : ℕ)
            → f ≤ b.sz_alloc
            → Filled b.bytes f initial b.sz_alloc (fill_from b.bytes f initial)
        filled f h =
            let w = fill_from-Filled b.bytes f initial (omega (arith, v.alloced)) in
            record {
              size = w.size ∙ v.alloced;
              kept = w.kept;
              filled = λ i hi hn. w.filled i hi (omega (arith, v.alloced));
            }

    reallocated :
        b.sz_alloc < bytes_for n
        → allocates (bytes_for n) ≡ true
        → (b' : Whbits) × (whbits_init allocates (some b) n initial ≡ (true, some b'))
          × Resized b n initial b'
    unfolding whbits_init
    reallocated grows room =
        let w = append-Filled b.bytes initial (bytes_for n - b.sz_alloc) in
        (
          record {
            sz_bits = n;
            sz_bytes = bytes_for n;
            sz_alloc = bytes_for n;
            bytes = b.bytes ++ replicate (bytes_for n - b.sz_alloc) initial;
          },
          ground arith,
          Resized-bytes b.sz_alloc (bytes_for n) _ _
              (record {
                size = omega (arith, w.size, v.alloced);
                kept = λ i h. w.kept i (omega (arith, v.alloced));
                filled = λ i h h'. w.filled i (omega (arith, v.alloced)) (omega (arith, v.alloced));
              })
              refl (omega arith) (omega (arith, v.fits)) (omega arith),
        )

  -- A valid bitset is resized by `whbits_init` to any positive number of bits, if the memory that
  -- this takes is allocated: it stays valid, keeps the bits that both sizes have, and the bits beyond
  -- the old allocation are those of `initial`.
  init-Resized :
      0 < n
      → allocates (bytes_for n) ≡ true
      → (b' : Whbits) × (whbits_init allocates (some b) n initial ≡ (true, some b'))
        × Resized b n initial b'
  init-Resized some_bits room = elim (Bool-cases (leb (bytes_for n) b.sz_alloc)) [
    | inl fits ↦ reused some_bits (leb→le _ _ fits)
    | inr grows ↦ reallocated some_bits (ground arith) room
  ]

-- The accessors test `bitNum > sz_bits`, so they admit the number `sz_bits` itself: on a valid bitset
-- whose bits fill the allocation, each of them then goes outside the allocated bytes.
accessors_past_end :
    {b : Whbits}
    → IsValid b
    → b.sz_bits ≡ 8 * b.sz_alloc
    → (whbits_set (some b) b.sz_bits ≡ none)
      × (whbits_unset (some b) b.sz_bits ≡ none)
      × (whbits_get (some b) b.sz_bits ≡ none)
unfolding whbits_set whbits_unset whbits_get
accessors_past_end {b} v full = ground (arith, v.alloced)
