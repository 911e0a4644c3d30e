-- ===== src/Fs.antt =====
-- The filesystem object of src/whefs_details.c, as far as blocks and inodes use it, with what
-- src/whefs_fs.c and src/whefs_encode.c give them: the ids on disk, the sizes and offsets, and the calls of
-- the device. The pointers to the object and to its device are not null. `assert` does nothing, as with
-- `NDEBUG`.
pub mod Layout
pub mod Bcache
pub mod Calls
mod Tests
use Prim.Native.Nat.{bit_and}
use whefs.Common.{
  ℕ, ◌+◌, ◌-◌, ◌*◌, ◌/◌, ◌%◌, ◌^◌, Bool, true, false, Option, none, some, List, [], ltb, leb, ◌==◌,
  if◌then◌else◌, ◌&&◌, not, ℤ, pos,
}
use whefs.Rc.{Rc, ok, alloc_error, size_bound, add_size}
use whefs.Encode.{
  Bytes, Ptr, encode_uint16, decode_uint16, sizeof_uint8, sizeof_uint16, sizeof_uint32,
}
use whefs.Bits.{Whbits, set_macro, unset_macro, get_macro, whbits_init}
use whefs.Device.{DevApi, Whence, seek_set}

-- `whefs_id_encode` and `whefs_id_decode`, with `WHEFS_ID_TYPE_BITS` 16.
unfoldable pub id_encode : Ptr → ℕ → ℕ × Ptr
id_encode dest v = encode_uint16 dest v

unfoldable pub id_decode : Ptr → Option ℕ → Rc × Option ℕ
id_decode src v = decode_uint16 src v

abbrev pub sizeof_encoded_id_type : ℕ
sizeof_encoded_id_type = 16 / 8 + 1

abbrev pub sizeof_encoded_inode : ℕ
sizeof_encoded_inode =
    1 + sizeof_encoded_id_type + sizeof_uint8 + sizeof_uint32 + sizeof_uint32
    + sizeof_encoded_id_type

abbrev pub sizeof_encoded_inode_name_header : ℕ
sizeof_encoded_inode_name_header = 1 + sizeof_encoded_id_type + sizeof_uint16

abbrev pub sizeof_encoded_block : ℕ
sizeof_encoded_block = 1 + sizeof_encoded_id_type + sizeof_uint16 + sizeof_encoded_id_type

abbrev pub sizeof_encoded_hints : ℕ
sizeof_encoded_hints = 1 + sizeof_encoded_id_type + sizeof_encoded_id_type

-- `whefs_fs_options`, with the length of its magic cookie in the place of the cookie.
pub record Options : Type 0 where
  pub magic_length : ℕ
  pub block_size : ℕ
  pub block_count : ℕ
  pub inode_count : ℕ
  pub filename_length : ℕ

-- `whefs_fs_sizes` and `whefs_fs_offsets`, those that are used.
pub record Sizes : Type 0 where
  pub inode_no_str : ℕ
  pub inode_name : ℕ
  pub block : ℕ
  pub options : ℕ
  pub hints : ℕ

pub record Offsets : Type 0 where
  pub core_magic : ℕ
  pub size : ℕ
  pub client_magic : ℕ
  pub options : ℕ
  pub hints : ℕ
  pub inode_names : ℕ
  pub inodes_no_str : ℕ
  pub blocks : ℕ
  pub eof : ℕ

-- The members of `whefs_fs` that the blocks and the inodes use, over a device in use.
pub record Fs (D : Type 0) : Type 0 where
  pub flags : ℕ
  pub offsets : Offsets
  pub sizes : Sizes
  pub dev : D
  pub used_blocks : Whbits
  pub b_loaded : Bool
  pub used_inodes : Whbits
  pub i_loaded : Bool
  pub unused_block_start : ℕ
  pub unused_inode_start : ℕ
  pub options : Options

-- `WHEFS_FLAG_Used` and `WHEFS_FLAG_Write`.
abbrev pub flag_used : ℕ
flag_used = 1

abbrev pub flag_write : ℕ
flag_write = 4

abbrev pub has_flag : ℕ → ℕ → Bool
has_flag flags flag = not (bit_and flags flag == 0)

unfoldable pub is_rw : {D : Type 0} → Fs D → Bool
is_rw fs = has_flag fs.flags flag_write

-- `WHEFS_BCACHE_PRECHECK`: there is a bitset, and the id is one of its bits.
abbrev pub prechecked : Whbits → ℕ → Bool
prechecked b id = not (b.sz_alloc == 0) && ltb id b.sz_bits

-- A macro's bitset. The bit of the id lies in the allocation in every bitset that `whbits_init` made.
abbrev pub or_same : Whbits → Option Whbits → Whbits
or_same b none = b
or_same b (some b') = b'

-- `WHEFS_BCACHE_SET_USED`, `WHEFS_BCACHE_UNSET_USED` and `WHEFS_BCACHE_IS_USED`, on a bitset. The macros
-- that begin with `WHEFS_ICACHE` are the same on the bitset of inodes.
unfoldable pub bcache_set_used : Whbits → ℕ → Whbits
bcache_set_used b id = if prechecked b id then or_same b (set_macro b id) else b

unfoldable pub bcache_unset_used : Whbits → ℕ → Whbits
bcache_unset_used b id = if prechecked b id then or_same b (unset_macro b id) else b

unfoldable pub bcache_is_used : Whbits → ℕ → Bool
bcache_is_used b id =
    if prechecked b id then elim (get_macro b id) [ none ↦ false | some used ↦ used ] else false

unfoldable pub fs_sizeof_options : ℕ
fs_sizeof_options = sizeof_uint32 + sizeof_encoded_id_type + sizeof_encoded_id_type + sizeof_uint16

unfoldable pub fs_sizeof_name : Options → ℕ
fs_sizeof_name opt = sizeof_encoded_inode_name_header + opt.filename_length

unfoldable pub fs_sizeof_block : Options → ℕ
fs_sizeof_block opt = add_size opt.block_size sizeof_encoded_block

-- `whefs_fs_magic_bytes_len`.
abbrev pub magic_bytes_len : ℕ
magic_bytes_len = 4

-- `whefs_fs_init_sizes`: the sizes, and the offsets from them. `uint32_t` holds each.
unfoldable pub init_sizes : Options → Sizes
unfolding fs_sizeof_options fs_sizeof_name fs_sizeof_block
init_sizes opt = record {
  inode_no_str = sizeof_encoded_inode;
  inode_name = fs_sizeof_name opt;
  block = fs_sizeof_block opt;
  options = fs_sizeof_options;
  hints = sizeof_encoded_hints;
}

unfoldable pub init_offsets : Options → Offsets
unfolding init_sizes
init_offsets opt =
    let sizes = init_sizes opt in
    let size : ℕ = sizeof_uint32 * magic_bytes_len in
    let client_magic = add_size size sizeof_uint32 in
    let options = add_size client_magic (sizeof_uint16 + opt.magic_length) in
    let hints = add_size options sizes.options in
    let inode_names = add_size hints sizes.hints in
    let inodes_no_str = add_size inode_names (opt.inode_count * sizes.inode_name % size_bound) in
    let blocks = add_size inodes_no_str (opt.inode_count * sizes.inode_no_str % size_bound) in
    record {
      core_magic = 0;
      size = size;
      client_magic = client_magic;
      options = options;
      hints = hints;
      inode_names = inode_names;
      inodes_no_str = inodes_no_str;
      blocks = blocks;
      eof = add_size blocks (opt.block_count * sizes.block % size_bound);
    }

-- `whefs_fs_calculate_size`.
unfoldable pub calculate_size : Options → ℕ
unfolding fs_sizeof_options fs_sizeof_name fs_sizeof_block
calculate_size opt =
    (sizeof_uint32 * magic_bytes_len
      + sizeof_uint32
      + sizeof_uint16
      + opt.magic_length
      + fs_sizeof_options
      + sizeof_encoded_hints
      + fs_sizeof_name opt * opt.inode_count
      + sizeof_encoded_inode * opt.inode_count
      + fs_sizeof_block opt * opt.block_count)
    % size_bound

-- `whefs_fs_init_bitset_inodes`, which marks the id 0 and the root.
unfoldable pub init_bitset_inodes : {D : Type 0} → (ℕ → Bool) → Fs D → Rc × Fs D
unfolding whbits_init bcache_set_used
init_bitset_inodes allocates fs =
    let (done, b) = whbits_init allocates (some fs.used_inodes) (fs.options.inode_count + 1) 0 in
    elim b [
      | none ↦ (alloc_error, fs)
      | some b' ↦
          if done
          then (ok, record fs { used_inodes = bcache_set_used (bcache_set_used b' 0) 1 })
          else (alloc_error, fs)
    ]

-- `whefs_fs_init_bitset_blocks`, whose mark for the id 0 goes into the bitset of inodes.
unfoldable pub init_bitset_blocks : {D : Type 0} → (ℕ → Bool) → Fs D → Rc × Fs D
unfolding whbits_init bcache_set_used
init_bitset_blocks allocates fs =
    let (done, b) = whbits_init allocates (some fs.used_blocks) (fs.options.block_count + 1) 0 in
    elim b [
      | none ↦ (alloc_error, fs)
      | some b' ↦
          if done
          then (ok, record fs { used_blocks = b'; used_inodes = bcache_set_used fs.used_inodes 0 })
          else (alloc_error, fs)
    ]

-- `whefs_fs_init_bitsets`.
unfoldable pub init_bitsets : {D : Type 0} → (ℕ → Bool) → Fs D → Rc × Fs D
unfolding init_bitset_inodes init_bitset_blocks
init_bitsets allocates fs =
    let (rc, fs') = init_bitset_inodes allocates fs in
    elim rc [ ok ↦ init_bitset_blocks allocates fs' | other ↦ (other, fs') ]

module _ {D : Type 0} (api : DevApi D) where
  unfoldable pub fs_read : Fs D → Bool → ℕ → Bytes × Fs D
  fs_read fs dest n = let (bytes, d) = api.read fs.dev dest n in (bytes, record fs { dev = d })

  unfoldable pub fs_write : Fs D → Ptr → ℕ → ℕ × Fs D
  fs_write fs src n = let (count, d) = api.write fs.dev src n in (count, record fs { dev = d })

  unfoldable pub fs_seek : Fs D → ℤ → Whence → ℕ × Fs D
  fs_seek fs offset whence =
      let (at, d) = api.seek fs.dev offset whence in (at, record fs { dev = d })

  unfoldable pub fs_tell : Fs D → ℕ
  fs_tell fs = api.tell fs.dev

  unfoldable pub fs_writeat : Fs D → ℕ → Ptr → ℕ → ℕ × Fs D
  unfolding fs_seek fs_write
  fs_writeat fs at src n =
      let (x, fs') = fs_seek fs (pos at) seek_set in
      let done = fs_write fs' src n in if x == at then done else (0, fs')

  unfoldable pub fs_readat : Fs D → ℕ → Bool → ℕ → Bytes × Fs D
  unfolding fs_seek fs_read
  fs_readat fs at dest n =
      let (x, fs') = fs_seek fs (pos at) seek_set in
      let done = fs_read fs' dest n in if x == at then done else ([], fs')
