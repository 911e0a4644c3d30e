-- ===== src/Device/Membuf.antt =====
-- src/whio_dev_mem.c, the device over a buffer that it allocates: `whio_dev_membuf`.
-- A device is its private data, or `none` once it is closed.
pub mod Resize
pub mod Copy
pub mod Writes
pub mod Invariant
pub mod Overrun
use whefs.Common.{
  ℕ, ◌+◌, ◌-◌, ◌%◌, ◌^◌, ◌<◌, Bool, true, false, Option, none, some, List, [], ◌∷◌, ◌++◌, ltb, leb,
  ◌==◌, if◌then◌else◌, ◌&&◌, ◌||◌, not, length, take, drop, slice, replicate, overwrite, ℤ, pos,
  negsuc,
}
use whefs.Rc.{
  Rc, ok, arg_error, range_error, alloc_error, unsupported_error, size_bound, size_t_error,
  add_size, sub_size,
}
use whefs.Encode.{Bytes, Ptr}
use whefs.Device.{DevApi, Whence}
use whefs.Device.Seek.{mem_target}

-- What the code asks of the C library and of the floating point unit: whether `realloc` of so many
-- bytes succeeds; `(whio_size_t)(alloced * (expfactor + 0.01))`; and `alen < alloced / expfactor`.
pub record Growth : Type 0 where
  pub allocates : ℕ → Bool
  pub grown : ℕ → ℕ
  pub releases : ℕ → ℕ → Bool

-- `whio_dev_membuf_meta`: `buffer` holds the `alloced` bytes. `overrun` is not in the source: it is set
-- when a `memcpy` leaves the allocation, which C does not define.
pub record Membuf : Type 0 where
  pub size : ℕ
  pub alloced : ℕ
  pub buffer : Bytes
  pub at : ℕ
  pub expandable : Bool
  pub overrun : Bool

-- `impl.data` of the device.
abbrev pub Dev : Type 0
Dev = Option Membuf

-- The bytes that a read of `n` moves: up to the end, if that is reached or the sum overflows.
abbrev pub clipped : ℕ → ℕ → ℕ → ℕ
clipped size at n =
    if leb size (add_size at n) || ltb (add_size at n) at then sub_size size at else n

-- Whether `n` bytes from `at` on leave the allocation.
abbrev pub leaves : Membuf → ℕ → Bool
leaves mb n = mb.overrun || ltb (length mb.buffer) (mb.at + n)

unfoldable pub read : Dev → Bool → ℕ → Bytes × Dev
read none dest n = ([], none)
read (some mb) dest n =
    if not dest then ([], some mb) else if leb mb.size mb.at then ([], some mb) else (
      slice mb.buffer mb.at (clipped mb.size mb.at n),
      some (record mb {
        at = add_size mb.at (clipped mb.size mb.at n);
        overrun = leaves mb (clipped mb.size mb.at n);
      }),
    )

-- The last step: copy `wlen` bytes to the cursor.
unfoldable pub copy_in : Membuf → Bytes → ℕ → ℕ × Membuf
copy_in mb src wlen = if wlen == 0 then (0, mb) else (
  wlen,
  record mb {
    at = add_size mb.at wlen;
    buffer = overwrite mb.buffer mb.at (take wlen src);
    overrun = leaves mb wlen;
    size = if ltb mb.size (add_size mb.at wlen) then add_size mb.at wlen else mb.size;
  },
)

-- The step in between: a cursor behind the end moves the end of an expandable buffer.
unfoldable pub write_at_end : Membuf → Bytes → ℕ → ℕ → ℕ × Membuf
write_at_end mb src n new_end =
    if leb mb.size mb.at
    then (if mb.expandable
        then copy_in (record mb { size = new_end }) src (sub_size new_end mb.at)
        else (0, mb))
    else copy_in mb src (if leb mb.size new_end then sub_size mb.size mb.at else n)

module _ (g : Growth) where
  -- How much memory is asked for to hold `ulen` bytes.
  abbrev pub wanted : Membuf → ℕ → ℕ
  wanted mb ulen =
      if mb.expandable
      then (if ltb (g.grown mb.alloced) ulen then ulen else g.grown mb.alloced)
      else ulen

  -- The part of `truncate` that needs more memory; new bytes are zero.
  unfoldable pub grow : Membuf → ℕ → Rc × Membuf
  grow mb ulen =
      let alen = wanted mb ulen in
      if g.allocates alen
      then (
        ok,
        record mb {
          size = ulen;
          alloced = alen;
          buffer = take alen mb.buffer ++ replicate (alen - mb.alloced) 0;
        },
      )
      else (alloc_error, mb)

  -- The part of `truncate` for a length that the buffer holds: an expandable one may be shrunk.
  unfoldable pub shrink : Membuf → ℕ → Membuf
  shrink mb ulen =
      if mb.expandable && (ltb ulen mb.alloced && (g.releases ulen mb.alloced && g.allocates ulen))
      then record mb { size = ulen; alloced = ulen; buffer = take ulen mb.buffer }
      else record mb { size = ulen }

  unfoldable pub resize : Membuf → ℕ → Rc × Membuf
  unfolding grow shrink
  resize mb ulen =
      if ulen == 0
      then (if mb.expandable
          then (ok, record mb { size = 0; alloced = 0; buffer = [] })
          else (ok, record mb { size = 0 }))
      else if mb.alloced == 0 || ltb mb.alloced ulen
      then grow mb ulen
      else (ok, shrink mb ulen)

  unfoldable pub trunc : Dev → ℤ → Rc × Dev
  trunc none len = (arg_error, none)
  trunc (some mb) (negsuc n) = (range_error, some mb)
  trunc (some mb) (pos n) = let (rc, mb') = resize mb (n % size_bound) in (rc, some mb')

  -- The first step of a write that would end at `new_end`: make room, or try to.
  unfoldable pub make_room : Membuf → ℕ → Membuf
  make_room mb new_end =
      if leb mb.size new_end
      then (if mb.expandable
          then (resize mb new_end).1
          else record mb { size = if ltb mb.alloced new_end then mb.alloced else new_end })
      else mb

  unfoldable pub write : Dev → Ptr → ℕ → ℕ × Dev
  write none src n = (0, none)
  write (some mb) none n = (0, some mb)
  write (some mb) (some src) n =
      if n == 0 || ltb (add_size mb.at n) mb.at
      then (0, some mb)
      else let (count, mb') =
          write_at_end (make_room mb (add_size mb.at n)) src n (add_size mb.at n) in
        (count, some mb')

  -- `whio_dev_for_membuf`: `expandable` is `expFactor >= 1.0`, and `allocated` whether there is memory
  -- for the device itself.
  unfoldable pub for_membuf : Bool → Bool → ℕ → Option Dev
  unfolding trunc
  for_membuf allocated expandable size =
      if allocated
      then (let (rc, d) =
            trunc
              (some (record {
                size = 0;
                alloced = 0;
                buffer = [];
                at = 0;
                expandable = expandable;
                overrun = false;
              }))
              (pos size) in
          elim rc [ ok ↦ some d | _ ↦ none ])
      else none

unfoldable pub error : Dev → Rc
error none = arg_error
error (some mb) = if leb mb.at mb.size then ok else range_error

-- `none` is the code for a closed device, and otherwise whether the end is reached.
unfoldable pub eof : Dev → Option Bool
eof none = none
eof (some mb) = some (if ltb mb.at mb.size then false else true)

unfoldable pub tell : Dev → ℕ
tell none = size_t_error
tell (some mb) = mb.at

-- The end of `seek`: the error value, or the new position.
abbrev pub land : Membuf → Option ℕ → ℕ × Dev
land mb none = (size_t_error, some mb)
land mb (some too) = (too, some (record mb { at = too }))

unfoldable pub seek : Dev → ℤ → Whence → ℕ × Dev
seek none off whence = (size_t_error, none)
seek (some mb) off whence = land mb (mem_target mb.size mb.at off whence)

-- `none` is the -1 for a closed device; an open one can be written to.
unfoldable pub iomode : Dev → Option Bool
iomode none = none
iomode (some mb) = some true

pub data Ioctl : Type 0 where
  buffer_uchar_ptr general_size buffer_size other_op : Ioctl

pub data Answer : Type 0 where
  nothing : Answer
  number : ℕ → Answer
  pointer : Bytes → Answer

-- `target` says whether the pointer for the answer is not null; the answer is what is stored there.
unfoldable pub ioctl : Dev → Ioctl → Bool → Rc × Answer
ioctl none op target = (unsupported_error, nothing)
ioctl (some mb) buffer_uchar_ptr target =
    if target then (ok, pointer mb.buffer) else (arg_error, nothing)
ioctl (some mb) general_size target = if target then (ok, number mb.size) else (arg_error, nothing)
ioctl (some mb) buffer_size target =
    if target then (ok, number mb.alloced) else (arg_error, nothing)
ioctl (some mb) other_op target = (unsupported_error, nothing)

-- `close` releases the buffer and the private data, and answers whether there were any.
unfoldable pub close : Dev → Bool × Dev
close none = (false, none)
close (some mb) = (true, none)

-- `whio_dev_api_membuf`.
abbrev pub api : Growth → DevApi Dev
api g = record { read = read; write = write g; seek = seek; tell = tell }
