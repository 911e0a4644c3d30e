-- ===== src/Blockdev.antt =====
-- The block devices of src/whio_dev.c: fixed size blocks of a device, addressed by their number.
-- The pointers to a block device and to its parent are not null.
pub mod Blocks
mod Tests
use whefs.Common.{
  ℕ, ◌+◌, ◌-◌, ◌*◌, ◌%◌, ◌^◌, Bool, true, false, Option, none, some, List, [], ltb, ◌==◌,
  if◌then◌else◌, ◌||◌, not, length, pos,
}
use whefs.Rc.{
  Rc, ok, arg_error, range_error, io_error, alloc_error, size_bound, size_t_error, add_size,
}
use whefs.Encode.{Bytes, Ptr}
use whefs.Device.{DevApi, seek_set}
use whefs.Device.Subdev.{Subdev, create}

-- `whio_blockdev` over a device in use, the fence.
pub record Blockdev (F : Type 0) : Type 0 where
  pub fence : F
  pub size : ℕ
  pub count : ℕ
  pub prototype : Ptr

-- `whio_blockdev_setup`: `count` blocks of the parent from `offset` on. `allocated` is whether there is
-- memory for the subdevice. With a code other than OK there is no fence.
unfoldable pub setup : {P : Type 0} → Bool → P → ℕ → ℕ → ℕ → Ptr → Rc × Option (Blockdev (Subdev P))
unfolding create
setup allocated parent offset size count prototype =
    if count == 0 || size == 0
    then (arg_error, none)
    else elim (create allocated parent offset (add_size offset (count * size % size_bound))) [
      | some (some sub) ↦
          (ok, some (record { fence = sub; size = size; count = count; prototype = prototype }))
      | _ ↦ (alloc_error, none)
    ]

-- `whio_blockdev_setup2`: the whole of a device, with no bound on the number of blocks.
unfoldable pub setup2 : {F : Type 0} → F → ℕ → Ptr → Rc × Option (Blockdev F)
setup2 parent size prototype =
    if size == 0
    then (arg_error, none)
    else (ok, some (record { fence = parent; size = size; count = 0; prototype = prototype }))

unfoldable pub in_range : {F : Type 0} → Blockdev F → ℕ → Bool
in_range self id = if self.count == 0 then true else ltb id self.count

-- `whio_block_offset_for_id`.
unfoldable pub offset_for_id : {F : Type 0} → Blockdev F → ℕ → ℕ
unfolding in_range
offset_for_id self id = if in_range self id then id * self.size % size_bound else size_t_error

module _ {F : Type 0} (api : DevApi F) where
  -- A write of a block at its position.
  unfoldable pub write_at : Blockdev F → ℕ → Ptr → Rc × Blockdev F
  write_at self at src =
      let (there, f) = api.seek self.fence (pos at) seek_set in
      let (count, f') = api.write f src self.size in
      if at == there
      then ((if self.size == count then ok else io_error), record self { fence = f' })
      else (io_error, record self { fence = f })

  unfoldable pub write : Blockdev F → ℕ → Ptr → Rc × Blockdev F
  unfolding offset_for_id
  write self id none = (arg_error, self)
  write self id (some src) =
      if offset_for_id self id == size_t_error
      then (range_error, self)
      else write_at self (offset_for_id self id) (some src)

  unfoldable pub read_at : Blockdev F → ℕ → Bool → Rc × Bytes × Blockdev F
  read_at self at dest =
      let (there, f) = api.seek self.fence (pos at) seek_set in
      let (bytes, f') = api.read f dest self.size in
      if at == there
      then ((if self.size == length bytes then ok else io_error), bytes, record self { fence = f' })
      else (io_error, [], record self { fence = f })

  -- The code, the bytes that are copied to the caller's memory, and the device.
  unfoldable pub read : Blockdev F → ℕ → Bool → Rc × Bytes × Blockdev F
  unfolding offset_for_id
  read self id dest =
      if offset_for_id self id == size_t_error
      then (range_error, [], self)
      else read_at self (offset_for_id self id) dest

  unfoldable pub wipe : Blockdev F → ℕ → Rc × Blockdev F
  unfolding write
  wipe self id = write self id self.prototype
