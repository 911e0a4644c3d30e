-- ===== src/Device/Memmap.antt =====
-- src/whio_dev_mem.c, the device over a client's memory range: `whio_dev_memmap`.
-- A device is its private data, or `none` once it is closed. Memory for the device itself is a
-- Boolean answer of the allocator.
pub mod Laws
pub mod Reads
pub mod Invariant
use whefs.Common.{
  ℕ, ◌+◌, ◌-◌, ◌%◌, ◌^◌, Bool, true, false, Option, none, some, List, [], ◌∷◌, ltb, leb, ◌==◌,
  if◌then◌else◌, ◌&&◌, ◌||◌, not, length, take, drop, slice, overwrite, ℤ, pos, negsuc,
}
use whefs.Rc.{
  Rc, ok, arg_error, range_error, unsupported_error, size_bound, size_t_error, add_size, sub_size,
}
use whefs.Encode.{Bytes, Ptr}
use whefs.Device.{DevApi, Whence, seek_set, seek_end, seek_cur, other}
use whefs.Device.Seek.{mem_target}

-- `whio_dev_memmap`: `rw` and `ro` say whether those pointers are set. They have one address, and `mem` is
-- the memory there. `overrun` is not in the source: it is set when a read or a write leaves that memory.
pub record Memmap : Type 0 where
  pub size : ℕ
  pub maxsize : ℕ
  pub at : ℕ
  pub rw : Bool
  pub ro : Bool
  pub mem : Bytes
  pub overrun : Bool

-- `impl.data` of the device.
abbrev pub Dev : Type 0
Dev = Option Memmap

-- The bytes that a read or a write of `n` moves, given the size and the position before it: up to
-- the end if the end of the range is reached or the sum overflows.
abbrev pub clipped : ℕ → ℕ → ℕ → ℕ
clipped size at n =
    if leb size (add_size at n) || ltb (add_size at n) at then sub_size size at else n

-- Whether `n` bytes from the cursor on leave the memory.
abbrev pub leaves : Memmap → ℕ → Bool
leaves mb n = mb.overrun || ltb (length mb.mem) (mb.at + n)

unfoldable pub read : Dev → Bool → ℕ → Bytes × Dev
read none dest n = ([], none)
read (some mb) dest n =
    if not dest || not mb.ro then ([], some mb) else if leb mb.size mb.at then ([], some mb) else (
      slice mb.mem mb.at (clipped mb.size mb.at n),
      some (record mb {
        at = add_size mb.at (clipped mb.size mb.at n);
        overrun = leaves mb (clipped mb.size mb.at n);
      }),
    )

unfoldable pub write : Dev → Ptr → ℕ → ℕ × Dev
write none src n = (0, none)
write (some mb) none n = (0, some mb)
write (some mb) (some src) n =
    if n == 0 || not mb.rw then (0, some mb) else if leb mb.size mb.at then (0, some mb) else (
      clipped mb.size mb.at n,
      some (record mb {
        at = add_size mb.at (clipped mb.size mb.at n);
        mem = overwrite mb.mem mb.at (take (clipped mb.size mb.at n) src);
        overrun = leaves mb (clipped mb.size mb.at n);
      }),
    )

unfoldable pub error : Dev → Rc
error none = arg_error
error (some mb) = if mb.ro && leb mb.at mb.size then ok else range_error

-- `none` is the code for a closed device, and otherwise whether the end is reached.
unfoldable pub eof : Dev → Option Bool
eof none = none
eof (some mb) = some (if ltb mb.at mb.size then false else true)

unfoldable pub tell : Dev → ℕ
tell none = size_t_error
tell (some mb) = mb.at

-- The end of `seek`: the error value, or the new position.
abbrev pub land : Memmap → Option ℕ → ℕ × Dev
land mb none = (size_t_error, some mb)
land mb (some too) = (too, some (record mb { at = too }))

unfoldable pub seek : Dev → ℤ → Whence → ℕ × Dev
seek none off whence = (size_t_error, none)
seek (some mb) off whence = land mb (mem_target mb.size mb.at off whence)

unfoldable pub trunc : Dev → ℤ → Rc × Dev
trunc none len = (arg_error, none)
trunc (some mb) (negsuc n) = (range_error, some mb)
trunc (some mb) (pos n) =
    if ltb mb.maxsize (n % size_bound)
    then (range_error, some mb)
    else (ok, some (record mb { size = n % size_bound }))

-- `none` is the -1 for a closed device, and otherwise whether it can be written to.
unfoldable pub iomode : Dev → Option Bool
iomode none = none
iomode (some mb) = some mb.rw

-- The operations of `ioctl` that the device knows, and any other.
pub data Ioctl : Type 0 where
  general_size buffer_size other_op : Ioctl

-- `target` says whether the pointer for the answer is not null; the answer is what is stored there.
unfoldable pub ioctl : Dev → Ioctl → Bool → Rc × Option ℕ
ioctl none op target = (unsupported_error, none)
ioctl (some mb) general_size target = if target then (ok, some mb.size) else (arg_error, none)
ioctl (some mb) buffer_size target = if target then (ok, some mb.maxsize) else (arg_error, none)
ioctl (some mb) other_op target = (unsupported_error, none)

-- `close` releases the private data, and answers whether there was any.
unfoldable pub close : Dev → Bool × Dev
close none = (false, none)
close (some mb) = (true, none)

-- `whio_dev_for_memmap` over the range `mem`, whose pointers `rw` and `ro` are set or null; where both
-- are, `same` says that they have one address. `allocated` is whether there is memory for the device.
unfoldable pub for_memmap : Bool → Bool → Bool → Bool → Bytes → ℕ → Option Dev
for_memmap allocated rw ro same mem size =
    if (not rw && not ro) || size == 0
    then none
    else if rw && (ro && not same)
    then none
    else if allocated
    then some (
        some (record {
          size = size;
          maxsize = size;
          at = 0;
          rw = rw;
          ro = ro || rw;
          mem = mem;
          overrun = false;
        }))
    else none

unfoldable pub for_memmap_rw : Bool → Bytes → ℕ → Option Dev
unfolding for_memmap
for_memmap_rw allocated mem size = for_memmap allocated true true true mem size

unfoldable pub for_memmap_ro : Bool → Bytes → ℕ → Option Dev
unfolding for_memmap
for_memmap_ro allocated mem size = for_memmap allocated false true true mem size

-- `whio_dev_api_memmap`.
abbrev pub api : DevApi Dev
api = record { read = read; write = write; seek = seek; tell = tell }
