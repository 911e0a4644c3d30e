-- ===== src/Inode.antt =====
-- src/whefs_inode.c: the inodes of a container, each with a record on the disk. `whefs_inode` is in
-- src/whefs_inode.h. The pointers to the filesystem and to inodes are not null, except where an operation
-- says so.
pub mod Record
pub mod Place
pub mod Flush
pub mod Short
pub mod Search
pub mod Table
pub mod Loading
pub mod Free
pub mod Taking
pub mod Opened
mod Tests
use Prim.Native.Nat.{bit_or}
use whefs.Common.{
  ℕ, zero, suc, ◌+◌, ◌-◌, ◌*◌, ◌%◌, Bool, true, false, Option, none, some, List, [], ◌∷◌, ◌++◌, ltb,
  leb, ◌==◌, if◌then◌else◌, ◌&&◌, not, length, get_or, take, drop, replicate, overwrite, pos, min,
}
use whefs.Rc.{
  Rc, ok, arg_error, io_error, internal_error, access_error, consistency_error, fs_full, size_bound,
  id_bound, add_size,
}
use whefs.Encode.{
  Bytes, encode_uint8, decode_uint8, encode_uint32, decode_uint32, sizeof_uint8, sizeof_uint32,
}
use whefs.Device.{DevApi, seek_set}
use whefs.Fs.{
  Fs, id_encode, id_decode, sizeof_encoded_id_type, sizeof_encoded_inode, flag_used, has_flag,
  is_rw, bcache_set_used, bcache_unset_used, bcache_is_used, fs_seek, fs_write, fs_read,
}
use whefs.Block.{Block, encode_at, value}

-- `whefs_inode`. A writer is a pointer, with 0 for null.
pub record Inode : Type 0 where
  pub id : ℕ
  pub flags : ℕ
  pub first_block : ℕ
  pub data_size : ℕ
  pub mtime : ℕ
  pub open_count : ℕ
  pub writer : ℕ
  pub blocks : List Block

-- `whefs_inode_empty_m`.
abbrev pub empty : Inode
empty = record {
  id = 0;
  flags = 0;
  first_block = 0;
  data_size = 0;
  mtime = 0;
  open_count = 0;
  writer = 0;
  blocks = [];
}

-- `whefs_inode_id_is_valid_m`.
unfoldable pub id_is_valid : {D : Type 0} → Fs D → ℕ → Bool
id_is_valid fs nid = not (nid == 0) && leb nid fs.options.inode_count

unfoldable pub id_pos : {D : Type 0} → Fs D → ℕ → ℕ
unfolding id_is_valid
id_pos fs nid =
    if id_is_valid fs nid
    then add_size fs.offsets.inodes_no_str ((nid - 1) * fs.sizes.inode_no_str % size_bound)
    else 0

-- `whefs_inode_update_used`.
unfoldable pub update_used : {D : Type 0} → Fs D → Inode → Fs D
unfolding id_is_valid
update_used fs ino =
    if not (id_is_valid fs ino.id)
    then fs
    else if has_flag ino.flags flag_used
    then record fs { used_inodes = bcache_set_used fs.used_inodes ino.id }
    else record fs {
      used_inodes = bcache_unset_used fs.used_inodes ino.id;
      unused_inode_start = min fs.unused_inode_start ino.id;
    }

-- `whefs_inode_tag_char`.
abbrev pub tag_char : ℕ
tag_char = 73

-- `whefs_inode_encode`, into the buffer of zeros that `whefs_inode_flush` has.
unfoldable pub encode : Inode → Bytes
unfolding id_encode
encode src =
    let at_flags : ℕ = 1 + sizeof_encoded_id_type in
    let at_mtime : ℕ = at_flags + sizeof_uint8 in
    let at_size : ℕ = at_mtime + sizeof_uint32 in
    let at_block : ℕ = at_size + sizeof_uint32 in
    let start : Bytes = overwrite (replicate sizeof_encoded_inode 0) 0 (tag_char ∷ []) in
    let (_, buf) = encode_at (λ p. id_encode p src.id) 1 start in
    let (_, buf2) = encode_at (λ p. encode_uint8 p src.flags) at_flags buf in
    let (_, buf3) = encode_at (λ p. encode_uint32 p src.mtime) at_mtime buf2 in
    let (_, buf4) = encode_at (λ p. encode_uint32 p src.data_size) at_size buf3 in
    (encode_at (λ p. id_encode p src.first_block) at_block buf4).1

-- A step of `whefs_inode_decode`: the member that is decoded is stored, and the rest done, or the error
-- returned.
abbrev pub then_do : Rc × Option ℕ → Inode → ℕ → (ℕ → Inode) → (Inode → Rc × Inode) → Rc × Inode
then_do (rc, v) dest old put rest = elim rc [
  | ok ↦ rest (put (value v old))
  | other ↦ (other, dest)
]

abbrev pub decode_first_block : Bytes → Inode → Rc × Inode
decode_first_block x dest =
    let (rc, v) = id_decode (some x) (some dest.first_block) in
    (rc, record dest { first_block = value v dest.first_block })

abbrev pub decode_data_size : Bytes → Inode → Rc × Inode
decode_data_size x dest =
    then_do (decode_uint32 (some x) (some dest.data_size)) dest dest.data_size
      (λ n. record dest { data_size = n }) (decode_first_block (drop sizeof_uint32 x))

abbrev pub decode_mtime : Bytes → Inode → Rc × Inode
decode_mtime x dest =
    then_do (decode_uint32 (some x) (some dest.mtime)) dest dest.mtime
      (λ n. record dest { mtime = n }) (decode_data_size (drop sizeof_uint32 x))

abbrev pub decode_flags : Bytes → Inode → Rc × Inode
decode_flags x dest =
    then_do (decode_uint8 (some x) (some dest.flags)) dest dest.flags
      (λ n. record dest { flags = n }) (decode_mtime (drop sizeof_uint8 x))

-- `whefs_inode_decode`, with the inode afterwards.
unfoldable pub decode : Inode → Bytes → Rc × Inode
unfolding id_decode
decode dest src =
    let x = drop 1 src in
    if tag_char == get_or src 0 0
    then then_do (id_decode (some x) (some dest.id)) dest dest.id (λ n. record dest { id = n })
        (decode_flags (drop sizeof_encoded_id_type x))
    else (consistency_error, dest)

module _ {D : Type 0} (api : DevApi D) where
  unfoldable pub id_seek : Fs D → ℕ → Rc × Fs D
  unfolding id_pos fs_seek
  id_seek fs nid =
      let p : ℕ = id_pos fs nid in
      let (sk, fs') = fs_seek api fs (pos p) seek_set in
      if p == 0 then (arg_error, fs) else ((if p == sk then ok else io_error), fs')

  -- `whefs_inode_seek`; `none` is a null pointer.
  unfoldable pub seek : Fs D → Option Inode → Rc × Fs D
  unfolding id_seek
  seek fs none = (ok, fs)
  seek fs (some n) = id_seek fs n.id

  -- The write of an inode where the device stands.
  unfoldable pub write_inode : Fs D → Inode → Rc × Fs D
  unfolding encode fs_write
  write_inode fs n =
      let (wsz, fs') = fs_write api fs (some (encode n)) sizeof_encoded_inode in
      ((if wsz == sizeof_encoded_inode then ok else io_error), fs')

  unfoldable pub flush : Fs D → Inode → Rc × Fs D
  unfolding id_is_valid update_used id_seek write_inode
  flush fs n =
      let (rc, fs') = id_seek (update_used fs n) n.id in
      if not (id_is_valid fs n.id)
      then (arg_error, fs)
      else if not (is_rw fs)
      then (access_error, fs)
      else elim rc [ ok ↦ write_inode fs' n | other ↦ (other, fs') ]

  -- The read of an inode where the device stands. A read of fewer bytes returns OK and decodes nothing.
  unfoldable pub read_inode : Fs D → Inode → Rc × Inode × Fs D
  unfolding decode fs_read update_used
  read_inode fs tgt =
      let (bytes, fs') = fs_read api fs true sizeof_encoded_inode in
      let (rc, tgt') = decode tgt (overwrite (replicate sizeof_encoded_inode 0) 0 bytes) in
      if length bytes == sizeof_encoded_inode
      then elim rc [ ok ↦ (ok, tgt', update_used fs' tgt') | other ↦ (other, tgt', fs') ]
      else (ok, tgt, fs')

  -- The code, the inode afterwards and the filesystem.
  unfoldable pub id_read : Fs D → ℕ → Inode → Rc × Inode × Fs D
  unfolding id_is_valid id_seek read_inode
  id_read fs nid tgt =
      let (rc, fs') = id_seek fs nid in
      if not (id_is_valid fs nid)
      then (arg_error, tgt, fs)
      else elim rc [ ok ↦ read_inode fs' tgt | other ↦ (other, tgt, fs') ]

  -- The code and the flags that are stored through `flags`, if they are.
  unfoldable pub read_flags : Fs D → ℕ → Rc × Option ℕ × Fs D
  unfolding id_is_valid id_read
  read_flags fs nid =
      let (rc, ino, fs') = id_read fs nid empty in
      if not (id_is_valid fs nid)
      then (arg_error, none, fs)
      else elim rc [ ok ↦ (ok, some ino.flags, fs') | other ↦ (other, none, fs') ]
