-- ===== src/Bits/Laws.antt =====
-- `whbits_set`, `whbits_unset`, `whbits_toggle` and `whbits_get` on a well-formed bitset.
use whefs.Common.{
  ℕ, ◌/◌, ◌%◌, ◌<◌, ◌≤◌, ◌≡◌, refl, arith, Bool, true, false, some, ◌==◌, if◌then◌else◌, List,
  length, get_or, set, length-set, get_or-set_self, get_or-set_ne, not, ◌∙◌, ap, Bool-cases, inl,
  inr, ==_iff, [], ◌∷◌, zero, suc,
}
use whefs.Bits.{
  Whbits, byte_set, byte_unset, byte_get, whbits_set, whbits_unset, whbits_get, whbits_toggle,
  now_set, now_unset, bytes_for,
}
use whefs.Bits.Byte.{Entry, byte_entry}

-- A bitset whose bytes are its allocation, and whose bits fit in it.
pub record IsValid (b : Whbits) : Type 0 where
  pub alloced : length b.bytes ≡ b.sz_alloc
  pub sized : b.sz_bytes ≡ bytes_for b.sz_bits
  pub fits : b.sz_bytes ≤ b.sz_alloc
  pub bytes_ok : (i : ℕ) → get_or b.bytes i 0 < 256

-- The index of a bit's byte lies in the allocation.
pub in_bounds : {b : Whbits} {n : ℕ} → IsValid b → n < b.sz_bits → n / 8 < length b.bytes
in_bounds {b} {n} v h = ground (arith, v.alloced, v.sized, v.fits)

pub set_bytes_ok :
    (xs : List ℕ) (i v : ℕ)
    → ((j : ℕ) → get_or xs j 0 < 256)
    → v < 256
    → (j : ℕ) → get_or (set xs i v) j 0 < 256
set_bytes_ok [] i v all hv j = omega arith
set_bytes_ok (x ∷ xs) zero v all hv zero = hv
set_bytes_ok (x ∷ xs) zero v all hv (suc j) = all (suc j)
set_bytes_ok (x ∷ xs) (suc i) v all hv zero = all 0
set_bytes_ok (x ∷ xs) (suc i) v all hv (suc j) = set_bytes_ok xs i v (λ k. all (suc k)) hv j

-- The bit `j` of a bitset, where its byte is allocated.
abbrev bit : List ℕ → ℕ → Bool
bit bytes j = byte_get (get_or bytes (j / 8) 0) (j % 8)

pub get_inside :
    {b : Whbits} (j : ℕ) → IsValid b → j < b.sz_bits → whbits_get (some b) j ≡ some (bit b.bytes j)
unfolding whbits_get
get_inside {b} j v h = ground (arith, in_bounds v h)

-- Replacing the byte of `n` by `w` replaces the bit `n` by `x`, if `w` does so in that byte.
bit-set :
    (bytes : List ℕ) (n w j : ℕ) (x : Bool)
    → n / 8 < length bytes
    → ((k : ℕ)
        → k < 8
        → byte_get w k ≡ (if n % 8 == k then x else byte_get (get_or bytes (n / 8) 0) k))
    → bit (set bytes (n / 8) w) j ≡ (if n == j then x else bit bytes j)
bit-set bytes n w j x inside law = elim (Bool-cases (n / 8 == j / 8)) [
  | inl same ↦
      let e : n / 8 ≡ j / 8 = (==_iff _ _).0 same in
      ground (
        arith,
        e,
        law (j % 8) (omega arith),
        get_or-set_self bytes (n / 8) w 0 inside,
        ap (λ i. get_or (set bytes (n / 8) w) i 0) e,
        ap (λ i. get_or bytes i 0) e,
      )
  | inr other ↦ ground (arith, get_or-set_ne bytes (n / 8) (j / 8) w 0 (λ e. ground arith))
]

-- `b'` is `b` with the bit `n` equal to `x`, and no other bit changed.
pub record Puts (b : Whbits) (n : ℕ) (x : Bool) (b' : Whbits) : Type 0 where
  pub valid : IsValid b'
  pub same_size : b'.sz_bits ≡ b.sz_bits
  pub reads :
      (j : ℕ)
      → j < b.sz_bits
      → whbits_get (some b') j ≡ (if n == j then some x else whbits_get (some b) j)

Puts-byte :
    {b : Whbits} (n w : ℕ) (x : Bool)
    → IsValid b
    → n < b.sz_bits
    → w < 256
    → ((k : ℕ)
        → k < 8
        → byte_get w k ≡ (if n % 8 == k then x else byte_get (get_or b.bytes (n / 8) 0) k))
    → Puts b n x (record b { bytes = set b.bytes (n / 8) w })
Puts-byte {b} n w x v h small law = record {
  valid = valid';
  same_size = refl;
  reads = λ j hj. ground (
    arith,
    get_inside j valid' hj,
    get_inside j v hj,
    bit-set b.bytes n w j x (in_bounds v h) law,
  );
}
  where
    valid' : IsValid (record b { bytes = set b.bytes (n / 8) w })
    valid' = record {
      alloced = length-set b.bytes (n / 8) w ∙ v.alloced;
      sized = v.sized;
      fits = v.fits;
      bytes_ok = set_bytes_ok b.bytes (n / 8) w v.bytes_ok small;
    }

module _ {b : Whbits} (n : ℕ) (v : IsValid b) (h : n < b.sz_bits) where
  at : (j : ℕ) → j < 8 → Entry (get_or b.bytes (n / 8) 0) (n % 8) j
  at j hj = byte_entry _ _ j (v.bytes_ok (n / 8)) (omega arith) hj

  -- On a valid bitset, `whbits_set` of a bit in range succeeds without leaving the allocation, keeps
  -- the bitset valid, and changes that bit alone, to 1.
  pub set-Puts : (b' : Whbits) × (whbits_set (some b) n ≡ some (true, some b')) × Puts b n true b'
  unfolding whbits_set
  set-Puts = (
    record b { bytes = set b.bytes (n / 8) (byte_set (get_or b.bytes (n / 8) 0) (n % 8)) },
    ground (arith, in_bounds v h),
    Puts-byte n _ true v h (at 0 (omega arith)).set-lt (λ k hk. (at k hk).set_lem),
  )

  -- On a valid bitset, `whbits_unset` of a bit in range succeeds without leaving the allocation,
  -- keeps the bitset valid, and changes that bit alone, to 0.
  pub unset-Puts :
      (b' : Whbits) × (whbits_unset (some b) n ≡ some (true, some b')) × Puts b n false b'
  unfolding whbits_unset
  unset-Puts = (
    record b { bytes = set b.bytes (n / 8) (byte_unset (get_or b.bytes (n / 8) 0) (n % 8)) },
    ground (arith, in_bounds v h),
    Puts-byte n _ false v h (at 0 (omega arith)).unset-lt (λ k hk. (at k hk).unset_lem),
  )

  toggle_of :
      (x : Bool)
      → whbits_get (some b) n ≡ some x
      → (b' : Whbits) × (whbits_toggle (some b) n
          ≡ some (if x then now_unset else now_set, some b'))
        × Puts b n (not x) b'
  unfolding whbits_toggle whbits_get
  toggle_of true e =
      let s = unset-Puts in
      (
        record b { bytes = set b.bytes (n / 8) (byte_unset (get_or b.bytes (n / 8) 0) (n % 8)) },
        ground (arith, in_bounds v h),
        Puts-byte n _ false v h (at 0 (omega arith)).unset-lt (λ k hk. (at k hk).unset_lem),
      )
  toggle_of false e = (
    record b { bytes = set b.bytes (n / 8) (byte_set (get_or b.bytes (n / 8) 0) (n % 8)) },
    ground (arith, in_bounds v h),
    Puts-byte n _ true v h (at 0 (omega arith)).set-lt (λ k hk. (at k hk).set_lem),
  )

  -- On a valid bitset, `whbits_toggle` of a bit in range reports the new value of the bit, which is
  -- the negation of what `whbits_get` read, and changes no other bit.
  toggle-Puts :
      (x : Bool) × (b' : Whbits) × (whbits_get (some b) n ≡ some x)
      × (whbits_toggle (some b) n ≡ some (if x then now_unset else now_set, some b'))
      × Puts b n (not x) b'
  toggle-Puts =
      let t = toggle_of (bit b.bytes n) (get_inside n v h) in
      (bit b.bytes n, t.0, get_inside n v h, t.1, t.2)
