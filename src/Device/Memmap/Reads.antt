-- ===== src/Device/Memmap/Reads.antt =====
-- What the memory range device does at its edges: short reads and writes, read-only ranges, seeks,
-- truncation and the factories.
use whefs.Common.{
  ℕ, ◌+◌, ◌-◌, ◌<◌, ◌≤◌, ◌≡◌, arith, Bool, true, false, some, leb, ◌==◌, if◌then◌else◌, length,
  take, slice, overwrite, ap, ◌∙◌, min, overwrite-nil, Bool-cases, inl, inr, sym,
}
use whefs.Rc.{size_bound, add_size}
use whefs.Encode.{Bytes}
use whefs.Device.Memmap.{Memmap, Dev, clipped, read, write}

-- The fields of a range that every operation keeps in their bounds, and that no byte outside of its memory
-- was touched.
pub record InRange (mb : Memmap) : Type 0 where
  pub shrunk : mb.size ≤ mb.maxsize
  pub fits : mb.maxsize ≤ length mb.mem
  pub size-lt : mb.maxsize < size_bound
  pub at-lt : mb.at < size_bound
  pub kept_in : mb.overrun ≡ false

clipped-min :
    (size at n : ℕ)
    → size < size_bound
    → at < size
    → n < size_bound
    → clipped size at n ≡ min n (size - at)
clipped-min size at n hs ha hn = ground arith

-- On a range in bounds a read of `n` bytes, wherever the cursor stands, gives the bytes from the
-- cursor to the end of the range, `n` at most, and moves the cursor by their number.
memmap_read_lem :
    (mb : Memmap) (n : ℕ)
    → InRange mb
    → mb.ro ≡ true
    → n < size_bound
    → read (some mb) true n ≡ (
      slice mb.mem mb.at (min n (mb.size - mb.at)),
      some (record mb { at = mb.at + min n (mb.size - mb.at) }),
    )
unfolding read
memmap_read_lem mb n v readable h = elim (Bool-cases (leb mb.size mb.at)) [
  | inl past ↦ let z : min n (mb.size - mb.at) ≡ 0 = ground arith in rw z (ground arith)
  | inr inside ↦
      let lt : mb.at < mb.size = ground arith in
      let s : mb.size < size_bound = omega (arith, v.shrunk, v.size-lt) in
      let m : add_size mb.at (min n (mb.size - mb.at)) ≡ mb.at + min n (mb.size - mb.at) =
        omega arith in
      ground (arith, clipped-min mb.size mb.at n s lt h, m)
]

-- The count and the device after storing `count` of the bytes of `src` at the cursor.
abbrev wrote : Memmap → Bytes → ℕ → ℕ × Dev
wrote mb src count =
    (count, some (record mb { at = mb.at + count; mem = overwrite mb.mem mb.at (take count src) }))

write_rw :
    (mb : Memmap) (src : Bytes) (n : ℕ)
    → InRange mb
    → mb.rw ≡ true
    → n < size_bound
    → write (some mb) (some src) n ≡ wrote mb src (min n (mb.size - mb.at))
unfolding write
write_rw mb src n v writable h = elim (Bool-cases (leb mb.size mb.at)) [
  | inl past ↦
      let z : min n (mb.size - mb.at) ≡ 0 = ground arith in
      rw z (ground (arith, overwrite-nil mb.mem mb.at))
  | inr inside ↦ elim (Bool-cases (n == 0)) [
    | inl none_asked ↦
        let z : min n (mb.size - mb.at) ≡ 0 = ground arith in
        rw z (ground (arith, overwrite-nil mb.mem mb.at))
    | inr some_asked ↦
        let lt : mb.at < mb.size = ground arith in
        let s : mb.size < size_bound = omega (arith, v.shrunk, v.size-lt) in
        let m : add_size mb.at (min n (mb.size - mb.at)) ≡ mb.at + min n (mb.size - mb.at) =
          omega arith in
        ground (arith, clipped-min mb.size mb.at n s lt h, m)
  ]
]

-- A write stores as many of the bytes as there is room for up to the end of the range, at the
-- cursor, and moves the cursor by their number, which it returns; with a read-only range it stores
-- nothing and returns 0.
memmap_write_lem :
    (mb : Memmap) (src : Bytes) (n : ℕ)
    → InRange mb
    → n < size_bound
    → write (some mb) (some src) n ≡ wrote mb src (if mb.rw then min n (mb.size - mb.at) else 0)
unfolding write
memmap_write_lem mb src n v h = elim (Bool-cases mb.rw) [
  | inr read_only ↦ ground (arith, overwrite-nil mb.mem mb.at)
  | inl writable ↦
      write_rw mb src n v writable h
      ∙ ap (λ (b : Bool). wrote mb src (if b then min n (mb.size - mb.at) else 0)) (sym writable)
]
