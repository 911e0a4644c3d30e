-- ===== src/Device/Memmap/Invariant.antt =====
-- The bounds of a memory range device, kept by every operation.
use whefs.Common.{
  ℕ, ◌<◌, ◌≤◌, ◌≡◌, refl, ap, ◌∙◌, ◌+◌, ◌==◌, ◌||◌, not, inl, inr, false, leb, ltb, Bool-cases,
  arith, Bool, Option, none, some, length, take, overwrite, ℤ, pos, negsuc, length-overwrite,
}
use whefs.Rc.{size_bound, add_size}
use whefs.Encode.{Bytes, Ptr}
use whefs.Device.{Whence}
use whefs.Device.Seek.{mem_target, mem_target-lt}
use whefs.Device.Memmap.{
  Memmap, Dev, clipped, leaves, land, read, write, seek, trunc, close, for_memmap,
}
use whefs.Device.Memmap.Reads.{InRange}

-- A closed device, or one in bounds.
abbrev pub IsSafe : Dev → Type 0
IsSafe none = Unit {0}
IsSafe (some mb) = InRange mb

clipped_fits :
    (size at n : ℕ) → size < size_bound → at < size → n < size_bound → at + clipped size at n ≤ size
clipped_fits size at n hs ha hn = ground arith

module _ (mb : Memmap) (v : InRange mb) where
  moved :
      (t : ℕ) (mem : Bytes)
      → t < size_bound
      → length mem ≡ length mb.mem
      → InRange (record mb { at = t; mem = mem })
  moved t mem h e = record {
    shrunk = v.shrunk;
    fits = omega (arith, v.fits, e);
    size-lt = v.size-lt;
    at-lt = h;
    kept_in = v.kept_in;
  }

  -- The bytes that a call for `n` moves are in the memory.
  stays :
      (n : ℕ)
      → n < size_bound
      → leb mb.size mb.at ≡ false
      → leaves mb (clipped mb.size mb.at n) ≡ false
  stays n h inside =
      let lt : mb.at < mb.size = ground (arith, inside) in
      let c = clipped_fits mb.size mb.at n (omega (arith, v.shrunk, v.size-lt)) lt h in
      let room : mb.at + clipped mb.size mb.at n ≤ length mb.mem =
        omega (arith, c, v.shrunk, v.fits) in
      ap (λ b. b || ltb (length mb.mem) (mb.at + clipped mb.size mb.at n)) v.kept_in
      ∙ ground (arith, room)

  -- A range after a call that moved bytes.
  moved_on :
      (n t : ℕ) (mem : Bytes)
      → n < size_bound
      → t < size_bound
      → length mem ≡ length mb.mem
      → leb mb.size mb.at ≡ false
      → InRange (record mb { at = t; mem = mem; overrun = leaves mb (clipped mb.size mb.at n) })
  moved_on n t mem h h' e inside =
      let m = moved t mem h' e in
      record {
        shrunk = m.shrunk;
        fits = m.fits;
        size-lt = m.size-lt;
        at-lt = m.at-lt;
        kept_in = stays n h inside;
      }

  read-IsSafe : (dest : Bool) (n : ℕ) → n < size_bound → IsSafe (read (some mb) dest n).1
  unfolding read
  read-IsSafe dest n h = elim (Bool-cases (not dest || not mb.ro)) [
    | inl refused ↦ rw refused v
    | inr asked ↦ elim (Bool-cases (leb mb.size mb.at)) [
      | inl past ↦ rw (asked, past) v
      | inr inside ↦
          rw (asked, inside)
            (moved_on n (add_size mb.at (clipped mb.size mb.at n)) mb.mem h (omega arith) refl
              inside)
    ]
  ]

  write-IsSafe : (src : Ptr) (n : ℕ) → n < size_bound → IsSafe (write (some mb) src n).1
  unfolding write
  write-IsSafe none n h = v
  write-IsSafe (some src) n h = elim (Bool-cases (n == 0 || not mb.rw)) [
    | inl refused ↦ rw refused v
    | inr asked ↦ elim (Bool-cases (leb mb.size mb.at)) [
      | inl past ↦ rw (asked, past) v
      | inr inside ↦
          rw (asked, inside)
            (moved_on n (add_size mb.at (clipped mb.size mb.at n))
              (overwrite mb.mem mb.at (take (clipped mb.size mb.at n) src)) h (omega arith)
              (length-overwrite mb.mem mb.at (take (clipped mb.size mb.at n) src)) inside)
    ]
  ]

  land-IsSafe : (o : Option ℕ) → ((t : ℕ) → o ≡ some t → t < size_bound) → IsSafe (land mb o).1
  land-IsSafe none h = v
  land-IsSafe (some t) h = moved t mb.mem (h t refl) refl

  seek-IsSafe : (off : ℤ) (whence : Whence) → IsSafe (seek (some mb) off whence).1
  unfolding seek
  seek-IsSafe off whence =
      land-IsSafe (mem_target mb.size mb.at off whence) (mem_target-lt mb.size mb.at off whence)

  trunc-IsSafe : (len : ℤ) → IsSafe (trunc (some mb) len).1
  unfolding trunc
  trunc-IsSafe (negsuc n) = v
  trunc-IsSafe (pos n) = ground (arith, v.shrunk, v.fits, v.size-lt, v.at-lt, v.kept_in)

-- Every operation keeps a memory range device sound: reads, writes, seeks and truncations, with any
-- arguments of their widths, and `close`. No read and no write touches a byte outside of the memory, the
-- size stays within the range, and the cursor stays a `whio_size_t`.
pub memmap_operations-IsSafe :
    (d : Dev) (dest : Bool) (src : Ptr) (n : ℕ) (off len : ℤ) (whence : Whence)
    → n < size_bound
    → IsSafe d
    → IsSafe (read d dest n).1
      × IsSafe (write d src n).1
      × IsSafe (seek d off whence).1
      × IsSafe (trunc d len).1
      × IsSafe (close d).1
unfolding read write seek trunc close
memmap_operations-IsSafe none dest src n off len whence h v = (tt, tt, tt, tt, tt)
memmap_operations-IsSafe (some mb) dest src n off len whence h v = (
  read-IsSafe mb v dest n h,
  write-IsSafe mb v src n h,
  seek-IsSafe mb v off whence,
  trunc-IsSafe mb v len,
  tt,
)

-- What the factory makes over a range of `size` bytes is in bounds, if the caller's memory is that
-- long and `size` is a `whio_size_t`; and it makes a device only for at least one byte.
for_memmap-IsSafe :
    (allocated rw ro same : Bool) (mem : Bytes) (size : ℕ) (d : Dev)
    → size ≤ length mem
    → size < size_bound
    → for_memmap allocated rw ro same mem size ≡ some d
    → IsSafe d × (0 < size)
unfolding for_memmap
for_memmap-IsSafe allocated rw ro same mem size none long small h = ground arith
for_memmap-IsSafe allocated rw ro same mem size (some mb) long small h = ground arith
