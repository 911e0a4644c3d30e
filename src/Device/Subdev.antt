-- ===== src/Device/Subdev.antt =====
-- src/whio_dev_subdev.c: a device over a part of another one, its parent. The parent's state is in
-- the subdevice's, passed in and out. `Dev` is a device that may be closed; the operations on an open
-- one come first, and `read_dev`, `write_dev` and `seek_dev` are the calls of the interface.
pub mod Steps
pub mod Laws
pub mod Fence
pub mod Bounds
use whefs.Common.{
  ℕ, suc, ◌+◌, ◌-◌, ◌%◌, ◌^◌, Bool, true, false, Option, none, some, List, [], ltb, leb, ◌==◌,
  if◌then◌else◌, ◌&&◌, ◌||◌, not, length, ℤ, pos, negsuc,
}
use whefs.Rc.{
  Rc, ok, arg_error, unsupported_error, type_error, size_bound, size_t_error, add_size, sub_size,
}
use whefs.Encode.{Bytes, Ptr}
use whefs.Device.{DevApi, Whence, seek_set, seek_end, seek_cur, other}
use whefs.Device.Seek.{offset_size}

-- `whio_dev_subdev_meta`: the bounds and the cursor are positions in the parent.
pub record Subdev (P : Type 0) : Type 0 where
  pub parent : P
  pub lower : ℕ
  pub upper : ℕ
  pub at : ℕ

-- `impl.data` of the device.
abbrev pub Dev : Type 0 → Type 0
Dev P = Option (Subdev P)

-- `whio_dev_subdev_create` over a parent, where `allocated` is whether there is memory for it.
unfoldable pub create : {P : Type 0} → Bool → P → ℕ → ℕ → Option (Dev P)
create allocated parent lower upper =
    if not (upper == 0) && leb upper lower
    then none
    else if allocated
    then some (some (record { parent = parent; lower = lower; upper = upper; at = lower }))
    else none

-- `whio_dev_subdev_rebound`.
unfoldable pub rebound : {P : Type 0} → Dev P → ℕ → ℕ → Rc × Dev P
rebound none lower upper =
    if not (upper == 0) && leb upper lower then (arg_error, none) else (type_error, none)
rebound (some sub) lower upper =
    if not (upper == 0) && leb upper lower
    then (arg_error, some sub)
    else (ok, some (record sub { lower = lower; upper = upper; at = lower }))

unfoldable pub tell : {P : Type 0} → Subdev P → ℕ
tell sub = if ltb sub.at sub.lower then size_t_error else sub_size sub.at sub.lower

unfoldable pub tell_dev : {P : Type 0} → Dev P → ℕ
unfolding tell
tell_dev none = size_t_error
tell_dev (some sub) = tell sub

-- `none` is the code for a closed device, and otherwise whether the end is reached.
unfoldable pub eof : {P : Type 0} → Dev P → Option Bool
eof none = none
eof (some sub) = some (leb sub.upper sub.at)

-- `truncate` is not supported, whatever the device.
unfoldable pub trunc : {P : Type 0} → Dev P → ℤ → Rc × Dev P
trunc d len = (unsupported_error, d)

-- The bounds that `ioctl` answers with.
unfoldable pub bounds_get : {P : Type 0} → Dev P → Rc × Option (ℕ × ℕ)
bounds_get none = (arg_error, none)
bounds_get (some sub) = (ok, some (sub.lower, sub.upper))

-- Whether the cursor is outside the bounds, which is tested before a read or a write.
abbrev pub outside : {P : Type 0} → Subdev P → Bool
outside sub = ltb sub.at sub.lower || leb sub.upper sub.at

-- The bytes that a read or a write of `n` moves. The sum is a `whio_size_t`, and may wrap.
abbrev pub fenced : {P : Type 0} → Subdev P → ℕ → ℕ
fenced sub n =
    let end : ℕ = add_size sub.at n in
    sub_size (if ltb sub.upper end then sub.upper else end) sub.at

-- The position that `seek` comes to, where `end` is what the parent's `seek` to its end answers. The
-- comparisons are the source's: both use `sub->upper`, also where there is no bound.
unfoldable pub target : {P : Type 0} → Subdev P → ℕ → ℤ → Whence → Option ℕ
unfolding offset_size
target sub end (negsuc n) seek_set = none
target sub end (pos n) seek_set =
    if ltb (offset_size sub.lower (pos n)) sub.lower
    then none
    else some (offset_size sub.lower (pos n))
target sub end (pos n) seek_end =
    let top : ℕ = if sub.upper == 0 then end else sub.upper in
    if sub.upper == 0 && end == size_t_error
    then none
    else if ltb 0 n && ltb (offset_size top (pos n)) sub.upper
    then none
    else some (offset_size top (pos n))
target sub end (negsuc n) seek_end =
    let top : ℕ = if sub.upper == 0 then end else sub.upper in
    if sub.upper == 0 && end == size_t_error
    then none
    else if ltb sub.upper (offset_size top (negsuc n))
    then none
    else some (offset_size top (negsuc n))
target sub end (pos n) seek_cur =
    if ltb 0 n && ltb (offset_size sub.at (pos n)) sub.at
    then none
    else some (offset_size sub.at (pos n))
target sub end (negsuc n) seek_cur =
    if ltb sub.at (offset_size sub.at (negsuc n))
    then none
    else some (offset_size sub.at (negsuc n))
target sub end off other = none

module _ {P : Type 0} (api : DevApi P) where
  -- The read itself, and the seek of the parent back to `opos`.
  unfoldable pub read_part : Subdev P → P → ℕ → Bool → ℕ → Bytes × Subdev P
  read_part sub p opos dest rlen =
      let (bytes, p') = if rlen == 0 then ([], p) else api.read p dest rlen in
      (
        bytes,
        record sub {
          parent = (api.seek p' (pos opos) seek_set).1;
          at = add_size sub.at (length bytes);
        },
      )

  unfoldable pub read : Subdev P → Bool → ℕ → Bytes × Subdev P
  read sub dest n =
      let opos = api.tell sub.parent in
      let (there, p) = api.seek sub.parent (pos sub.at) seek_set in
      if outside sub
      then ([], sub)
      else if opos == size_t_error
      then ([], sub)
      else if sub.at == there
      then read_part sub p opos dest (fenced sub n)
      else ([], record sub { parent = p })

  -- A closed device answers with the error value, `none`.
  unfoldable pub read_dev : Dev P → Bool → ℕ → Option Bytes × Dev P
  unfolding read
  read_dev none dest n = (none, none)
  read_dev (some sub) dest n = let (bytes, sub') = read sub dest n in (some bytes, some sub')

  unfoldable pub write_part : Subdev P → P → ℕ → Ptr → ℕ → ℕ × Subdev P
  write_part sub p opos src wlen =
      let (count, p') = if wlen == 0 then (0, p) else api.write p src wlen in
      (
        count,
        record sub { parent = (api.seek p' (pos opos) seek_set).1; at = add_size sub.at count },
      )

  unfoldable pub write : Subdev P → Ptr → ℕ → ℕ × Subdev P
  write sub src n =
      let opos = api.tell sub.parent in
      let (there, p) = api.seek sub.parent (pos sub.at) seek_set in
      if outside sub
      then (0, sub)
      else if opos == size_t_error
      then (0, sub)
      else if sub.at == there
      then write_part sub p opos src (fenced sub n)
      else (0, record sub { parent = p })

  unfoldable pub write_dev : Dev P → Ptr → ℕ → ℕ × Dev P
  unfolding write
  write_dev none src n = (0, none)
  write_dev (some sub) src n = let (count, sub') = write sub src n in (count, some sub')

  -- The end of `seek`: the cursor moves, then the parent is sought there.
  unfoldable pub land : Subdev P → Option ℕ → ℕ × Subdev P
  land sub none = (size_t_error, sub)
  land sub (some too) =
      let (upos, p) = api.seek sub.parent (pos too) seek_set in
      (
        if upos == too then sub_size too sub.lower else size_t_error,
        record sub { parent = p; at = too },
      )

  -- The parent's end is only asked for by a seek from the end of a device with no bound.
  abbrev pub measured : Subdev P → Whence → ℕ × Subdev P
  measured sub seek_end =
      let ppos = api.tell sub.parent in
      let (end, p) = api.seek sub.parent (pos 0) seek_end in
      if sub.upper == 0
      then (end, record sub { parent = (api.seek p (pos ppos) seek_set).1 })
      else (0, sub)
  measured sub _ = (0, sub)

  unfoldable pub seek : Subdev P → ℤ → Whence → ℕ × Subdev P
  unfolding target
  seek sub off whence =
      let (end, sub') = measured sub whence in land sub' (target sub' end off whence)

  unfoldable pub seek_dev : Dev P → ℤ → Whence → ℕ × Dev P
  unfolding seek
  seek_dev none off whence = (size_t_error, none)
  seek_dev (some sub) off whence = let (there, sub') = seek sub off whence in (there, some sub')

  -- `whio_dev_api_subdev` on open devices.
  abbrev pub fence : DevApi (Subdev P)
  fence = record { read = read; write = write; seek = seek; tell = tell }
