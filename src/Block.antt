-- ===== src/Block.antt =====
-- src/whefs_block.c: the blocks of a container, each with a header on the disk, and the search for a
-- free one. `whefs_block` and `whefs_block_empty_m` are in src/whefs_inode.h. The pointers to the
-- filesystem and to blocks are not null.
pub mod Wiping
pub mod Alloc
pub mod Header
pub mod Place
pub mod Steps
pub mod Flush
pub mod Zeros
pub mod Wipe
pub mod Protected
pub mod Table
pub mod Rounds
pub mod Free
pub mod Marks
pub mod Taking
pub mod Clean
pub mod Chain
pub mod Freed
pub mod Loading
pub mod Blank
pub mod Format
pub mod Container
mod Tests
use whefs.Common.{
  ℕ, zero, suc, ◌+◌, ◌-◌, ◌*◌, ◌%◌, ◌^◌, Bool, true, false, Option, none, some, List, [], ◌∷◌, ◌++◌,
  ltb, leb, ◌==◌, if◌then◌else◌, ◌&&◌, ◌||◌, not, length, get_or, take, drop, replicate, overwrite,
  pos, min,
}
use whefs.Rc.{
  Rc, ok, arg_error, io_error, internal_error, range_error, access_error, consistency_error,
  fs_full, size_bound, size_t_error, id_bound, add_size,
}
use whefs.Encode.{Bytes, Ptr, encode_uint8, decode_uint8, sizeof_uint8}
use whefs.Device.{DevApi, seek_set}
use whefs.Fs.{
  Fs, id_encode, id_decode, sizeof_encoded_id_type, sizeof_encoded_block, flag_used, has_flag,
  is_rw, bcache_set_used, bcache_unset_used, bcache_is_used, fs_seek, fs_write,
}

-- `whefs_block`.
pub record Block : Type 0 where
  pub id : ℕ
  pub next_block : ℕ
  pub flags : ℕ

-- `whefs_block_empty_m`.
abbrev pub empty : Block
empty = record { id = 0; next_block = 0; flags = 0 }

abbrev pub tag_char : ℕ
tag_char = 66

-- `whefs_block_id_is_valid_m`.
unfoldable pub id_is_valid : {D : Type 0} → Fs D → ℕ → Bool
id_is_valid fs id = not (id == 0) && leb id fs.options.block_count

-- `whefs_block_is_valid_m`, where `none` is a null pointer to a block.
unfoldable pub is_valid : {D : Type 0} → Fs D → Option Block → Bool
unfolding id_is_valid
is_valid fs none = false
is_valid fs (some bl) = id_is_valid fs bl.id

unfoldable pub id_pos : {D : Type 0} → Fs D → ℕ → ℕ
unfolding id_is_valid
id_pos fs id =
    if id_is_valid fs id
    then add_size fs.offsets.blocks ((id - 1) * fs.sizes.block % size_bound)
    else 0

unfoldable pub id_data_pos : {D : Type 0} → Fs D → ℕ → ℕ
unfolding id_pos
id_data_pos fs id =
    let rc : ℕ = id_pos fs id in if rc == 0 then rc else add_size rc sizeof_encoded_block

unfoldable pub data_pos : {D : Type 0} → Fs D → Option Block → ℕ
unfolding id_data_pos
data_pos fs none = 0
data_pos fs (some bl) = id_data_pos fs bl.id

unfoldable pub update_used : {D : Type 0} → Fs D → Block → Fs D
update_used fs bl =
    if not fs.b_loaded
    then fs
    else if has_flag bl.flags flag_used
    then record fs { used_blocks = bcache_set_used fs.used_blocks bl.id }
    else record fs {
      used_blocks = bcache_unset_used fs.used_blocks bl.id;
      unused_block_start = min fs.unused_block_start bl.id;
    }

-- A call of an encoder at an offset of a buffer: the count, and the buffer after it.
abbrev pub encode_at : (Ptr → ℕ × Ptr) → ℕ → Bytes → ℕ × Bytes
encode_at encode off buf =
    let (n, dest) = encode (some (drop off buf)) in
    (n, elim dest [ none ↦ buf | some bytes ↦ take off buf ++ bytes ])

-- The buffer that `whefs_block_flush` fills.
unfoldable pub encode : Block → Bytes
unfolding id_encode
encode bl =
    let (n, buf) =
      encode_at (λ p. id_encode p bl.id) 1
        (overwrite (replicate sizeof_encoded_block 0) 0 (tag_char ∷ [])) in
    let (m, buf') = encode_at (λ p. encode_uint8 p bl.flags) (1 + n) buf in
    (encode_at (λ p. id_encode p bl.next_block) (1 + n + m) buf').1

-- `*v` after a decoder.
abbrev pub value : Option ℕ → ℕ → ℕ
value none old = old
value (some v) old = v

-- The rest of `whefs_block_decode` after each of its steps.
abbrev pub decode_next_block : Block → Bytes → Rc × Block
decode_next_block dest x =
    let (rc, v) = id_decode (some x) (some dest.next_block) in
    (rc, record dest { next_block = value v dest.next_block })

abbrev pub decode_flags : Block → Bytes → Rc × Block
decode_flags dest x =
    let (rc, v) = decode_uint8 (some x) (some dest.flags) in
    elim rc [
      | ok ↦ decode_next_block (record dest { flags = value v dest.flags }) (drop sizeof_uint8 x)
      | other ↦ (other, dest)
    ]

abbrev pub decode_id : Block → Bytes → Rc × Block
decode_id dest x =
    let (rc, v) = id_decode (some x) (some dest.id) in
    elim rc [
      | ok ↦ decode_flags (record dest { id = value v dest.id }) (drop sizeof_encoded_id_type x)
      | other ↦ (other, dest)
    ]

-- `whefs_block_decode`, with the block afterwards.
unfoldable pub decode : Block → Bytes → Rc × Block
unfolding id_decode
decode dest src =
    if tag_char == get_or src 0 0 then decode_id dest (drop 1 src) else (consistency_error, dest)

module _ {D : Type 0} (api : DevApi D) where
  unfoldable pub id_seek : Fs D → ℕ → Rc × Fs D
  unfolding id_pos
  id_seek fs id =
      let p : ℕ = id_pos fs id in
      let (sk, d) = api.seek fs.dev (pos p) seek_set in
      if p == 0
      then (arg_error, fs)
      else ((if p == sk then ok else io_error), record fs { dev = d })

  unfoldable pub seek : Fs D → Option Block → Rc × Fs D
  unfolding id_seek
  seek fs none = (ok, fs)
  seek fs (some bl) = id_seek fs bl.id

  -- The code, what `*tgt` holds afterwards, and the filesystem; `tgt` is `none` for null.
  unfoldable pub id_seek_data : Fs D → ℕ → Option ℕ → Rc × Option ℕ × Fs D
  unfolding id_data_pos
  id_seek_data fs id tgt =
      let p : ℕ = id_data_pos fs id in
      let (sk, d) = api.seek fs.dev (pos p) seek_set in
      if p == 0
      then (arg_error, tgt, fs)
      else if p == sk
      then (ok, elim tgt [ none ↦ none | some old ↦ some sk ], record fs { dev = d })
      else (io_error, tgt, record fs { dev = d })

  unfoldable pub seek_data : Fs D → Option Block → Option ℕ → Rc × Option ℕ × Fs D
  unfolding id_seek_data
  seek_data fs none tgt = (ok, tgt, fs)
  seek_data fs (some bl) tgt = id_seek_data fs bl.id tgt

  -- The write of a header where the device stands.
  unfoldable pub write_header : Fs D → Block → Rc × Fs D
  unfolding encode update_used
  write_header fs bl =
      let (wsz, d) = api.write fs.dev (some (encode bl)) sizeof_encoded_block in
      let fs' = record fs { dev = d } in
      if sizeof_encoded_block == wsz then (ok, update_used fs' bl) else (io_error, fs')

  unfoldable pub flush : Fs D → Block → Rc × Fs D
  unfolding id_seek write_header
  flush fs bl =
      let (rc, fs') = id_seek fs bl.id in
      if is_rw fs
      then elim rc [ ok ↦ write_header fs' bl | other ↦ (other, fs') ]
      else (access_error, fs)

  -- The read of a header where the device stands.
  unfoldable pub read_header : Fs D → Block → Rc × Block × Fs D
  unfolding decode update_used
  read_header fs bl =
      let (bytes, d) = api.read fs.dev true sizeof_encoded_block in
      let fs' = record fs { dev = d } in
      let (rc, bl') = decode bl (overwrite (replicate sizeof_encoded_block 0) 0 bytes) in
      if length bytes == sizeof_encoded_block
      then elim rc [ ok ↦ (ok, bl', update_used fs' bl') | other ↦ (other, bl', fs') ]
      else (io_error, bl, fs')

  -- The code, the block afterwards and the filesystem.
  unfoldable pub read : Fs D → ℕ → Block → Rc × Block × Fs D
  unfolding id_is_valid id_pos read_header
  read fs bid bl =
      let (to, d) = api.seek fs.dev (pos (id_pos fs bid)) seek_set in
      let fs' = record fs { dev = d } in
      if not (id_is_valid fs bid)
      then (ok, empty, fs)
      else if size_t_error == to
      then (io_error, bl, fs')
      else read_header fs' bl

  -- The block after `bl`, which may be where the answer goes: `next` is what is there before.
  unfoldable pub read_next : Fs D → Block → Block → Rc × Block × Fs D
  unfolding id_is_valid read
  read_next fs bl next =
      let there = read fs bl.next_block empty in
      if not (id_is_valid fs bl.id)
      then (arg_error, next, fs)
      else if bl.next_block == 0
      then (range_error, next, fs)
      else there
