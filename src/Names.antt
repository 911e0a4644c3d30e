-- ===== src/Names.antt =====
-- src/whefs_fs.c, the table of inode names: `whefs_inode_name_get`, `whefs_fs_name_write` and
-- `whefs_mkfs_write_names_table`; and the loop of src/whefs_cache.c that fills the cache of names. The
-- result `none` is one that C leaves undefined.
pub mod Record
pub mod RoundTrip
pub mod Reading
mod Tests
use whefs.Common.{
  ℕ, zero, suc, ◌+◌, ◌-◌, ◌*◌, ◌%◌, Bool, true, false, Option, none, some, List, [], ◌∷◌, ◌++◌, ltb,
  ◌==◌, if◌then◌else◌, ◌&&◌, not, length, get_or, take, drop, replicate, overwrite, pos, min,
}
use whefs.Rc.{
  Rc, ok, arg_error, io_error, alloc_error, range_error, consistency_error, size_bound, id_bound,
  add_size,
}
use whefs.Encode.{Bytes, encode_uint16, decode_uint16, sizeof_uint16}
use whefs.Encode.Cstring.{strlen}
use whefs.Device.{DevApi, seek_set}
use whefs.Fs.{
  Fs, id_encode, fs_sizeof_name, sizeof_encoded_id_type, sizeof_encoded_inode_name_header, fs_seek,
  fs_readat, fs_writeat, bcache_is_used,
}
use whefs.Block.{encode_at}
use whefs.Strings.{WhefsString, copy_cstring}
use whefs.Hash.{HashList, Library, alloc, sort}
use whefs.Inode.{id_is_valid}
use whefs.NameCache.{Cache, is_enabled, hash_cache, cache_sort}

-- `WHEFS_MAX_FILENAME_LENGTH` of include/wh/whefs/whefs_config.h.
abbrev pub max_filename_length : ℕ
max_filename_length = 128

-- `whefs_sizeof_encoded_inode_name`.
abbrev pub sizeof_encoded_inode_name : ℕ
sizeof_encoded_inode_name = 1 + sizeof_encoded_inode_name_header + max_filename_length + 1

-- `whefs_inode_name_tag_char`.
abbrev pub name_tag_char : ℕ
name_tag_char = 34

-- The position of a name.
abbrev pub name_pos : {D : Type 0} → Fs D → ℕ → ℕ
name_pos fs id = add_size fs.offsets.inode_names (fs.sizes.inode_name * (id - 1) % size_bound)

-- The buffer that `whefs_fs_name_write` fills, of `bsz` bytes that are written.
unfoldable pub encode_name : ℕ → ℕ → ℕ → Bytes → Bytes
unfolding id_encode
encode_name bsz id slen name =
    let start = overwrite (replicate (sizeof_encoded_inode_name + 1) 0) 0 (name_tag_char ∷ []) in
    let (n, buf) = encode_at (λ p. id_encode p id) 1 start in
    let (m, buf') = encode_at (λ p. encode_uint16 p slen) (1 + n) buf in
    let off : ℕ = 1 + n + m in
    let text = overwrite buf' off (take slen name) in
    if ltb (off + slen) bsz
    then overwrite text (off + slen) (replicate (bsz - (off + slen)) 0)
    else text

module _ {D : Type 0} (api : DevApi D) where
  unfoldable pub name_write : Fs D → ℕ → Option Bytes → Rc × Fs D
  unfolding id_is_valid strlen encode_name fs_writeat
  name_write fs id none = (arg_error, fs)
  name_write fs id (some name) =
      let slen : ℕ = min (strlen name) fs.options.filename_length in
      let bsz = fs.sizes.inode_name in
      let (sz, fs') =
        fs_writeat api fs (name_pos fs id) (some (encode_name bsz id slen name)) bsz in
      if not (id_is_valid fs id)
      then (arg_error, fs)
      else if slen == fs.options.filename_length && not (get_or name slen 0 == 0)
      then (range_error, fs)
      else ((if bsz == sz then ok else io_error), fs')

  -- `whefs_mkfs_write_names_table`: its loop from the id `i` on, and all of it.
  unfoldable pub names_loop : ℕ → Fs D → ℕ → Option (Rc × Fs D)
  unfolding name_write
  names_loop zero fs i = none
  names_loop (suc rounds) fs i =
      let (rc, fs') = name_write fs i (some (0 ∷ [])) in
      let rest = names_loop rounds fs' ((i + 1) % id_bound) in
      if ltb fs.options.inode_count i
      then some (ok, fs)
      else elim rc [ ok ↦ rest | other ↦ some (other, fs') ]

  unfoldable pub write_names_table : ℕ → Fs D → Option (Rc × Fs D)
  unfolding names_loop fs_seek
  write_names_table rounds fs =
      elim (names_loop rounds (fs_seek api fs (pos fs.offsets.inode_names) seek_set).1 1) [
        | none ↦ none
        | some (rc, fs') ↦
            let there = (fs_seek api fs' (pos fs'.offsets.inodes_no_str) seek_set).1 in
            elim rc [ ok ↦ some (ok, there) | other ↦ some (other, fs') ]
      ]

-- The buffer of `whefs_inode_name_get` after a read, with zeros behind that.
abbrev pub buffered : Bytes → Bytes
buffered bytes = overwrite (replicate (sizeof_encoded_inode_name + 1) 0) 0 bytes

-- The tag and the length of a name in the buffer; the length is not looked at.
unfoldable pub decode_head : Bytes → Rc
decode_head buf =
    if get_or buf 0 0 == name_tag_char
    then (decode_uint16 (some (drop (1 + sizeof_encoded_id_type) buf)) (some 0)).0
    else consistency_error

-- The bytes behind a string's pointer.
abbrev pub chars : WhefsString → Bytes
chars s = elim s.string [ none ↦ [] | some buf ↦ buf ]

module _ {D : Type 0} (api : DevApi D) (lib : Library) (allocates : Bool) where
  -- A sort that is wanted after a name is entered in the cache.
  abbrev pub auto_sort : Cache → Cache
  auto_sort c = elim c.hashes [
    | none ↦ c
    | some li ↦ if li.skip_auto_sort then c else cache_sort lib c
  ]

  -- A name that was read goes into the cache of names, unless it is empty.
  unfoldable pub remember : Fs D → Cache → ℕ → WhefsString → Option Cache
  unfolding hash_cache cache_sort
  remember fs c id tgt =
      if tgt.length == 0 then some c else elim (hash_cache lib fs c id (chars tgt)) [
        | none ↦ none
        | some (rc, c') ↦ some (auto_sort c')
      ]

  -- The string, copied out of the buffer, and entered in the cache.
  unfoldable pub take_name :
      Fs D → Cache → ℕ → Bytes → WhefsString → Option (Rc × WhefsString × Fs D × Cache)
  unfolding copy_cstring remember
  take_name fs c id text tgt = elim (copy_cstring allocates (some tgt) (some text)) [
    | none ↦ none
    | some (rc, s) ↦
        let t : WhefsString = elim s [ none ↦ tgt | some s' ↦ s' ] in
        elim (remember fs c id t) [ none ↦ none | some c' ↦ some (rc, t, fs, c') ]
  ]

  -- `whefs_inode_name_get`: the code, the string, the filesystem and the cache.
  unfoldable pub name_get :
      Fs D → Cache → ℕ → WhefsString → Option (Rc × WhefsString × Fs D × Cache)
  unfolding id_is_valid fs_sizeof_name fs_readat decode_head take_name
  name_get fs c id tgt =
      let to_read = fs_sizeof_name fs.options in
      let (bytes, fs') = fs_readat api fs (name_pos fs id) true to_read in
      let buf = buffered bytes in
      if not (id_is_valid fs id)
      then some (arg_error, tgt, fs, c)
      else if not (to_read == length bytes)
      then some (io_error, tgt, fs', c)
      else elim (decode_head buf) [
        | ok ↦ take_name fs' c id (drop sizeof_encoded_inode_name_header buf) tgt
        | other ↦ some (other, tgt, fs', c)
      ]

  -- The loop of `whefs_inode_hash_cache_load`, from the last inode down; `name` is a string that is used
  -- again.
  unfoldable pub cache_loop : ℕ → Fs D → Cache → WhefsString → Option (Rc × Fs D × Cache)
  unfolding name_get
  cache_loop zero fs c name = some (ok, fs, c)
  cache_loop (suc i) fs c name =
      let skipped = cache_loop i fs c name in
      if fs.i_loaded && not (bcache_is_used fs.used_inodes (suc i))
      then skipped
      else elim (name_get fs c (suc i) name) [
        | none ↦ none
        | some (rc, name', fs', c') ↦
            let rest = cache_loop i fs' c' name' in
            elim rc [ ok ↦ rest | other ↦ some (other, fs', c') ]
      ]

  -- The list of hashes that loading begins with, if there is memory.
  unfoldable pub prepared : Fs D → Cache → Option (Option HashList)
  prepared fs c =
      let made : Option (Option HashList) = elim c.hashes [
        | some li ↦ some (some li)
        | none ↦ elim (alloc lib none (min 16 fs.options.inode_count)) [
          | none ↦ none
          | some (rc, li) ↦ some li
        ]
      ] in
      elim made [
        | none ↦ none
        | some none ↦ some none
        | some (some li) ↦ some (
            some
              (if li.max_alloc == 0 then record li { max_alloc = fs.options.inode_count } else li))
      ]

  -- What loading does to the list after its loop.
  abbrev pub finish : Cache → Cache
  finish c = elim c.hashes [
    | none ↦ c
    | some li ↦ record c { hashes = some (sort lib (record li { skip_auto_sort = false })) }
  ]

  -- `whefs_inode_hash_cache_load`.
  unfoldable pub cache_load : Fs D → Cache → Option (Rc × Fs D × Cache)
  unfolding prepared cache_loop
  cache_load fs c =
      let name : WhefsString = record {
        string = some (replicate (max_filename_length + 1) 0);
        length = 0;
        alloced = max_filename_length + 1;
      } in
      if not (is_enabled fs) then some (ok, fs, c) else elim (prepared fs c) [
        | none ↦ none
        | some none ↦ some (alloc_error, fs, record c { hashes = none })
        | some (some li) ↦
            elim (cache_loop fs.options.inode_count fs
              (record c { hashes = some (record li { skip_auto_sort = true }) }) name) [
                | none ↦ none
                | some (rc, fs', c') ↦ some (rc, fs', finish c')
              ]
      ]
