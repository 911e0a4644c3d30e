-- ===== src/Mkfs.antt =====
-- src/whefs_fs.c, parts of a new container: its magic bytes, options and hints, and the table of inodes.
-- The member `err` of the filesystem, where the calls for the hints leave what they return, is left out.
pub mod Hints
pub mod Inodelist
mod Tests
use whefs.Common.{
  ℕ, List, zero, suc, ◌+◌, ◌%◌, true, some, [], ◌∷◌, ltb, ◌==◌, if◌then◌else◌, not, length, get_or,
  drop, replicate, overwrite, pos,
}
use whefs.Rc.{Rc, ok, access_error, io_error, consistency_error, id_bound}
use whefs.Encode.{Bytes}
use whefs.Device.{DevApi, seek_set}
use whefs.Codec.{dev_encode_uint16, dev_encode_uint32, dev_encode_uint32_array, dev_encode_size_t}
use whefs.Fs.{
  Fs, id_encode, id_decode, sizeof_encoded_id_type, sizeof_encoded_hints, sizeof_encoded_inode,
  is_rw, fs_seek, fs_writeat,
}
use whefs.Block.{encode_at, value}
use whefs.Inode.{Inode, empty, encode, id_pos}

-- `whefs_hints_tag_char`.
abbrev pub hints_tag_char : ℕ
hints_tag_char = 72

-- The buffer of `whefs_fs_hints_write`, every byte of which is written.
abbrev pub encode_hints : ℕ → ℕ → Bytes
encode_hints inode_start block_start =
    let start = overwrite (replicate sizeof_encoded_hints 0) 0 (hints_tag_char ∷ []) in
    let (n, buf) = encode_at (λ p. id_encode p inode_start) 1 start in
    (encode_at (λ p. id_encode p block_start) (1 + n) buf).1

-- The hints in the bytes that `whefs_fs_hints_read` has read.
abbrev pub decode_hints : {D : Type 0} → Fs D → Bytes → Rc × Fs D
decode_hints fs buf =
    let (rc, i) = id_decode (some (drop 1 buf)) (some fs.unused_inode_start) in
    let fs' = record fs { unused_inode_start = value i fs.unused_inode_start } in
    let (rc', b) =
      id_decode (some (drop (1 + sizeof_encoded_id_type) buf)) (some fs.unused_block_start) in
    if get_or buf 0 0 == hints_tag_char
    then elim rc [
      | ok ↦ (rc', record fs' { unused_block_start = value b fs.unused_block_start })
      | other ↦ (other, fs')
    ]
    else (consistency_error, fs)

-- The inodes of a new container.
abbrev pub blank : ℕ → Inode
blank i = record empty { id = i % id_bound }

-- `whefs_fs_magic_bytes` without its last number, as `whefs_fs_magic_bytes_len` counts them.
abbrev pub magic_bytes : List ℕ
magic_bytes = 2009 ∷ 12 ∷ 1 ∷ 16 ∷ []

module _ {D : Type 0} (api : DevApi D) where
  -- `whefs_fs_hints_write`. Where the seek ends is not looked at.
  unfoldable pub hints_write : Fs D → Rc × Fs D
  unfolding id_encode
  hints_write fs =
      let d = (api.seek fs.dev (pos fs.offsets.hints) seek_set).1 in
      let (wrc, d') =
        api.write d (some (encode_hints fs.unused_inode_start fs.unused_block_start))
          sizeof_encoded_hints in
      if not (is_rw fs)
      then (access_error, fs)
      else ((if wrc == sizeof_encoded_hints then ok else io_error), record fs { dev = d' })

  -- `whefs_fs_hints_read`.
  unfoldable pub hints_read : Fs D → Rc × Fs D
  unfolding id_decode
  hints_read fs =
      let (sk, d) = api.seek fs.dev (pos fs.offsets.hints) seek_set in
      let (bytes, d') = api.read d true sizeof_encoded_hints in
      if not (sk == fs.offsets.hints)
      then (io_error, record fs { dev = d })
      else if not (sizeof_encoded_hints == length bytes)
      then (io_error, record fs { dev = d' })
      else decode_hints (record fs { dev = d' }) bytes

  -- `whefs_mkfs_write_magic`, for a file size and the magic bytes of a client. Only the last write is
  -- looked at.
  unfoldable pub write_magic : Fs D → ℕ → Bytes → Rc × Fs D
  unfolding dev_encode_uint32_array dev_encode_uint32 dev_encode_uint16
  write_magic fs filesize magic =
      let len = fs.options.magic_length in
      let d1 = (api.seek fs.dev (pos 0) seek_set).1 in
      let d2 = (dev_encode_uint32_array api d1 (some magic_bytes)).1 in
      let d3 = (dev_encode_uint32 api d2 filesize).1 in
      let d4 = (dev_encode_uint16 api d3 len).1 in
      let (wrc, d5) = api.write d4 (some magic) len in
      ((if wrc == len then ok else io_error), record fs { dev = d5 })

  -- `whefs_mkfs_write_options`. What the codec of `block_size` writes is only counted.
  unfoldable pub write_options : Fs D → Rc × Fs D
  unfolding fs_seek dev_encode_uint16 dev_encode_size_t
  write_options fs =
      let there = (fs_seek api fs (pos fs.offsets.options) seek_set).1 in
      let (at, d1) = dev_encode_size_t api there.dev fs.options.block_size in
      let (sz, d2) = dev_encode_uint16 api d1 fs.options.block_count in
      let (sz', d3) = dev_encode_uint16 api d2 fs.options.inode_count in
      let (n, d4) = dev_encode_uint16 api d3 fs.options.filename_length in
      if not (sizeof_encoded_id_type == sz)
      then (io_error, record fs { dev = d2 })
      else if not (sizeof_encoded_id_type == sz')
      then (io_error, record fs { dev = d3 })
      else ((if ltb 0 (at + n) then ok else io_error), record fs { dev = d4 })

  -- The rounds of `whefs_mkfs_write_inodelist` that are left, from an id on.
  unfoldable pub inodelist_loop : ℕ → Fs D → ℕ → Rc × Fs D
  unfolding encode id_pos fs_writeat
  inodelist_loop zero fs i = (ok, fs)
  inodelist_loop (suc left) fs i =
      let (check, fs') =
        fs_writeat api fs (id_pos fs (i % id_bound)) (some (encode (blank i)))
          sizeof_encoded_inode in
      let rest = inodelist_loop left fs' (i + 1) in
      if check == sizeof_encoded_inode then rest else (io_error, fs')

  unfoldable pub write_inodelist : Fs D → Rc × Fs D
  unfolding inodelist_loop fs_seek
  write_inodelist fs =
      inodelist_loop fs.options.inode_count
        (fs_seek api fs (pos fs.offsets.inodes_no_str) seek_set).1 1
