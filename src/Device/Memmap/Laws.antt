-- ===== src/Device/Memmap/Laws.antt =====
-- A memory range in use keeps the laws of a device.
use whefs.Common.{
  ℕ, zero, suc, ◌+◌, ◌%◌, ◌<◌, ◌≤◌, ◌≡◌, refl, arith, true, false, none, some, [], length, take,
  slice, overwrite, pos, length-take, length-overwrite, slice-take, take-overwrite, overwrite-nil,
}
use whefs.Rc.{size_bound, size_t_error}
use whefs.Encode.{Bytes}
use whefs.Device.{DevLaws, seek_set}
use whefs.Device.Seek.{mem_target}
use whefs.Device.Memmap.{Memmap, Dev, read, write, seek, tell, api, clipped}

-- A read/write range that is long enough, with the cursor in it.
pub record IsInside (mb : Memmap) : Type 0 where
  pub writable : mb.rw ≡ true
  pub readable : mb.ro ≡ true
  pub long : mb.size ≤ length mb.mem
  pub small : mb.size < size_t_error
  pub inside : mb.at ≤ mb.size
  pub kept_in : mb.overrun ≡ false

abbrev pub IsOpen : Dev → Type 0
IsOpen none = ⊥
IsOpen (some mb) = IsInside mb

abbrev pub contents : Dev → Bytes
contents none = []
contents (some mb) = take mb.size mb.mem

abbrev pub cursor : Dev → ℕ
cursor none = 0
cursor (some mb) = mb.at

pub length-contents : (mb : Memmap) → IsInside mb → length (take mb.size mb.mem) ≡ mb.size
length-contents mb v = omega (arith, length-take mb.size mb.mem)

module _ (mb : Memmap) (v : IsInside mb) where
  pub seek_inside :
      (n : ℕ)
      → n ≤ length (contents (some mb))
      → (d' : Dev) × (seek (some mb) (pos n) seek_set ≡ (n, d'))
        × IsOpen d'
        × (contents d' ≡ contents (some mb))
        × (cursor d' ≡ n)
  unfolding seek mem_target
  seek_inside n h =
      let l = length-contents mb v in
      let e : n % size_bound ≡ n = omega (arith, l, v.small) in
      (
        some (record mb { at = n }),
        rw e refl,
        record {
          writable = v.writable;
          readable = v.readable;
          long = v.long;
          small = v.small;
          inside = omega (arith, l);
          kept_in = v.kept_in;
        },
        refl,
        refl,
      )

  clipped_inside : (n : ℕ) → mb.at + n ≤ mb.size → clipped mb.size mb.at n ≡ n
  clipped_inside n h = ground (arith, v.small, v.inside)

  moved :
      (n : ℕ) (mem : Bytes)
      → length mem ≡ length mb.mem
      → mb.at + n ≤ mb.size
      → IsInside (record mb { at = mb.at + n; mem = mem })
  moved n mem e h = record {
    writable = v.writable;
    readable = v.readable;
    long = omega (arith, v.long);
    small = v.small;
    inside = h;
    kept_in = v.kept_in;
  }

  read_eq :
      (n : ℕ)
      → mb.at + n ≤ mb.size
      → read (some mb) true n
        ≡ (slice (contents (some mb)) mb.at n, some (record mb { at = mb.at + n }))
  unfolding read
  read_eq zero k = ground (arith, v.readable, v.small, v.inside)
  read_eq (suc n) k = ground (
    arith,
    v.readable,
    v.small,
    clipped_inside (suc n) k,
    slice-take mb.size mb.at (suc n) mb.mem k v.long,
  )

  write_eq :
      (src : Bytes) (n : ℕ)
      → n ≤ length src
      → mb.at + n ≤ mb.size
      → write (some mb) (some src) n
        ≡ (n, some (record mb { at = mb.at + n; mem = overwrite mb.mem mb.at (take n src) }))
  unfolding write
  write_eq src zero e k = ground (arith, v.inside, overwrite-nil mb.mem mb.at)
  write_eq src (suc n) e k = ground (arith, v.writable, v.small, clipped_inside (suc n) k)

  pub read_inside :
      (n : ℕ)
      → mb.at + n ≤ length (contents (some mb))
      → (d' : Dev) × (read (some mb) true n ≡ (slice (contents (some mb)) mb.at n, d'))
        × IsOpen d'
        × (contents d' ≡ contents (some mb))
        × (cursor d' ≡ mb.at + n)
  unfolding read
  read_inside n h =
      let l = length-contents mb v in
      let k : mb.at + n ≤ mb.size = omega (arith, l) in
      (some (record mb { at = mb.at + n }), read_eq n k, moved n mb.mem refl k, refl, refl)

  pub write_inside :
      (src : Bytes) (n : ℕ)
      → n ≤ length src
      → mb.at + n ≤ length (contents (some mb))
      → (d' : Dev) × (write (some mb) (some src) n ≡ (n, d'))
        × IsOpen d'
        × (contents d' ≡ overwrite (contents (some mb)) mb.at (take n src))
        × (cursor d' ≡ mb.at + n)
  unfolding write
  write_inside src n e h =
      let l = length-contents mb v in
      let k : mb.at + n ≤ mb.size = omega (arith, l) in
      (
        some (record mb { at = mb.at + n; mem = overwrite mb.mem mb.at (take n src) }),
        write_eq src n e k,
        moved n _ (length-overwrite mb.mem mb.at (take n src)) k,
        take-overwrite mb.size mb.mem mb.at (take n src),
        refl,
      )

-- A read/write memory range that is in use, with its cursor in it, keeps the laws of a device: seeks,
-- reads and writes inside the range act on its bytes as on a file.
unfoldable pub memmap_laws : DevLaws api
unfolding tell
memmap_laws = record {
  Valid = IsOpen;
  view = contents;
  cursor = cursor;
  cursor-le = elim [
    | none ↦ λ v. absurd v
    | some mb ↦ λ v. omega (arith, length-contents mb v, v.inside)
  ];
  view-lt = elim [
    | none ↦ λ v. absurd v
    | some mb ↦ λ v. omega (arith, length-contents mb v, v.small)
  ];
  tell_lem = elim [ none ↦ λ v. absurd v | some mb ↦ λ v. refl ];
  seek_lem = elim [ none ↦ λ n v h. absurd v | some mb ↦ λ n v h. seek_inside mb v n h ];
  read_lem = elim [ none ↦ λ n v h. absurd v | some mb ↦ λ n v h. read_inside mb v n h ];
  write_lem = elim [
    | none ↦ λ src n v e h. absurd v
    | some mb ↦ λ src n v e h. write_inside mb v src n e h
  ];
}
