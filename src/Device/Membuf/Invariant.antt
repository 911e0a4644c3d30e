-- ===== src/Device/Membuf/Invariant.antt =====
-- Reads, seeks and truncations keep a buffer sound, and the factory makes a sound one.
use whefs.Common.{
  ℕ, ◌+◌, ◌%◌, ◌<◌, ◌≤◌, ◌≡◌, ◌⊎◌, refl, arith, Bool, true, false, Option, none, some, leb, ℤ, pos,
  negsuc, Bool-cases, inl, inr, ap,
}
use whefs.Rc.{Rc, ok, alloc_error, size_bound}
use whefs.Device.{Whence}
use whefs.Device.Seek.{mem_target, mem_target-lt}
use whefs.Device.Membuf.{
  Growth, Membuf, Dev, wanted, resize, trunc, read, seek, clipped, leaves, land, close,
}
use whefs.Device.Membuf.Resize.{IsSound, Resized, resize-cases}

-- A closed device, or a sound one.
abbrev pub IsSafe : Dev → Type 0
IsSafe none = Unit {0}
IsSafe (some mb) = IsSound mb

module _ (mb : Membuf) (v : IsSound mb) where
  moved : (t : ℕ) → t < size_bound → IsSound (record mb { at = t })
  moved t h = record {
    holds = v.holds;
    alloc = v.alloc;
    alloc-lt = v.alloc-lt;
    at-lt = h;
    safe = v.safe;
  }

  read-inside :
      (n : ℕ)
      → mb.at < mb.size
      → n < size_bound
      → (mb.at + clipped mb.size mb.at n ≤ mb.size) × (leaves mb (clipped mb.size mb.at n) ≡ false)
  read-inside n h h' = ground (arith, v.holds, v.alloc, v.alloc-lt, v.safe)

  read-IsSafe : (dest : Bool) (n : ℕ) → n < size_bound → IsSafe (read (some mb) dest n).1
  unfolding read
  read-IsSafe false n h = v
  read-IsSafe true n h = elim (Bool-cases (leb mb.size mb.at)) [
    | inl past ↦ rw past v
    | inr inside ↦
        let r = read-inside n (ground arith) h in
        rw (inside, r.1)
          (record {
            holds = v.holds;
            alloc = v.alloc;
            alloc-lt = v.alloc-lt;
            at-lt = omega arith;
            safe = refl;
          })
  ]

  land-IsSafe : (o : Option ℕ) → ((t : ℕ) → o ≡ some t → t < size_bound) → IsSafe (land mb o).1
  land-IsSafe none h = v
  land-IsSafe (some t) h = moved t (h t refl)

  seek-IsSafe : (off : ℤ) (whence : Whence) → IsSafe (seek (some mb) off whence).1
  unfolding seek
  seek-IsSafe off whence =
      land-IsSafe (mem_target mb.size mb.at off whence) (mem_target-lt mb.size mb.at off whence)

module _ (g : Growth) (bounded : (a : ℕ) → g.grown a < size_bound) where
  trunc-IsSafe : (mb : Membuf) → IsSound mb → (len : ℤ) → IsSafe (trunc g (some mb) len).1
  unfolding trunc
  trunc-IsSafe mb v (negsuc n) = v
  trunc-IsSafe mb v (pos n) = elim (resize-cases g bounded v (n % size_bound) (omega arith)) [
    | inl (done, r) ↦ r.sound
    | inr (more, refused, same) ↦ rw same v
  ]

  -- Reads, seeks and truncations of a device, with any arguments, and `close`, keep it sound, whatever
  -- the allocator answers: no read leaves the allocation.
  pub membuf_operations-IsSafe :
      (d : Dev) (dest : Bool) (n : ℕ) (off len : ℤ) (whence : Whence)
      → n < size_bound
      → IsSafe d
      → IsSafe (read d dest n).1
        × IsSafe (seek d off whence).1
        × IsSafe (trunc g d len).1
        × IsSafe (close d).1
  unfolding read seek trunc close
  membuf_operations-IsSafe none dest n off len whence h v = (tt, tt, tt, tt)
  membuf_operations-IsSafe (some mb) dest n off len whence h v =
      (read-IsSafe mb v dest n h, seek-IsSafe mb v off whence, trunc-IsSafe mb v len, tt)

  -- A truncation of a sound device to a length that is a `whio_size_t` sets the size and keeps the
  -- bytes that both sizes have; only more memory than there is, asked for and refused, is an error,
  -- which changes nothing.
  pub trunc-cases :
      (mb : Membuf) (n : ℕ)
      → IsSound mb
      → n < size_bound
      → ((mb' : Membuf) × (trunc g (some mb) (pos n) ≡ (ok, some mb')) × Resized mb n mb')
        ⊎ ((mb.alloced < n)
            × (g.allocates (wanted g mb n) ≡ false)
            × (trunc g (some mb) (pos n) ≡ (alloc_error, some mb)))
  unfolding trunc
  trunc-cases mb n v h =
      let e : n % size_bound ≡ n = omega arith in
      rw e (elim (resize-cases g bounded v n h) [
        | inl (done, r) ↦
            inl ((resize g mb n).1, ap (λ (c : Rc). (c, some (resize g mb n).1)) done, r)
        | inr (more, refused, same) ↦
            inr (more, refused, ap (λ (r : Rc × Membuf). (r.0, some r.1)) same)
      ])
