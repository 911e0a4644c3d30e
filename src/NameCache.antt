-- ===== src/NameCache.antt =====
-- src/whefs_cache.c: the cache of inode names, over the list of name hashes. Pointers to names are not
-- null, and a name is the memory from there on. An index that is not found, `whefs_rc.IDTypeEnd`, is
-- `none`.
use whefs.Common.{
  ℕ, ◌/◌, Bool, false, Option, none, some, ◌==◌, if◌then◌else◌, not, min, get_or, set,
}
use whefs.Rc.{Rc, ok, arg_error, internal_error}
use whefs.Encode.{Bytes}
use whefs.Fs.{Fs, has_flag}
use whefs.Hash.{HashId, HashList, Library, empty, count, sort, alloc, add, index_of, chomp_lv}

-- `WHEFS_FLAG_FS_EnableHashCache`, and `WHEFS_FS_HASH_CACHE_IS_ENABLED`.
abbrev pub flag_hash_cache : ℕ
flag_hash_cache = 32

abbrev pub is_enabled : {D : Type 0} → Fs D → Bool
is_enabled fs = has_flag fs.flags flag_hash_cache

-- The member `cache` of `whefs_fs`.
pub record Cache : Type 0 where
  pub hashes : Option HashList
  pub hashfunc : Bytes → ℕ

-- `sizeof(whefs_hashid)`, as its declaration counts it.
abbrev pub sizeof_hashid : ℕ
sizeof_hashid = 8

-- A cell with a hash and an id.
abbrev pub cell : ℕ → ℕ → HashId
cell h id = record empty { hash = h; id = id }

module _ (lib : Library) where
  -- `whefs_inode_hash_cache_sort`.
  unfoldable pub cache_sort : Cache → Cache
  cache_sort c = elim c.hashes [
    | none ↦ c
    | some li ↦ if li.is_sorted then c else record c { hashes = some (sort lib li) }
  ]

  -- The list of hashes, which is made when it is first wanted; `none` where memory is lacking and a null
  -- pointer is followed.
  unfoldable pub wanted : {D : Type 0} → Fs D → Cache → Option (Rc × Option HashList)
  wanted fs c = elim c.hashes [
    | some li ↦ some (ok, some li)
    | none ↦ elim (alloc lib none (min (100 / sizeof_hashid) fs.options.inode_count)) [
      | none ↦ none
      | some (rc, made) ↦ some (
        rc,
        elim made [
          | none ↦ none
          | some li ↦ some (record li { max_alloc = fs.options.inode_count })
        ],
      )
    ]
  ]

  -- A hash that is there for the same id is left, and one that is not is added. What `add` returns is not
  -- looked at.
  unfoldable pub enter : Option HashList → ℕ → ℕ → Rc × Option HashList
  enter none h id = (ok, none)
  enter (some li) h id =
      let (ndx, li') = index_of lib li h in
      elim ndx [
        | some i ↦ ((if (get_or li'.list i empty).id == id then ok else internal_error), some li')
        | none ↦ (ok, some (add lib li' (cell h id)).1)
      ]

  -- `whefs_inode_hash_cache`.
  unfoldable pub hash_cache : {D : Type 0} → Fs D → Cache → ℕ → Bytes → Option (Rc × Cache)
  unfolding wanted enter
  hash_cache fs c id name =
      if not (is_enabled fs)
      then some (ok, c)
      else if get_or name 0 0 == 0
      then some (arg_error, c)
      else elim (wanted fs c) [
        | none ↦ none
        | some (rc, hashes) ↦
            let (rc', after) = enter hashes (c.hashfunc name) id in
            some (elim rc [
              | ok ↦ (rc', record c { hashes = after })
              | other ↦ (other, record c { hashes = hashes })
            ])
      ]

  -- `whefs_inode_hash_cache_search_ndx`, with the cache afterwards.
  unfoldable pub search_ndx : {D : Type 0} → Fs D → Cache → Bytes → Option ℕ × Cache
  unfolding cache_sort
  search_ndx fs c name =
      let c' = cache_sort c in
      if not (is_enabled fs) then (none, c) else elim c'.hashes [
        | none ↦ (none, c')
        | some li ↦
            let (ndx, li') = index_of lib li (c.hashfunc name) in
            (ndx, record c' { hashes = some li' })
      ]

  -- The id of a cell of the cache.
  abbrev pub id_at : Cache → ℕ → ℕ
  id_at c i = elim c.hashes [ none ↦ 0 | some li ↦ (get_or li.list i empty).id ]

  -- `whefs_inode_hash_cache_search_id`, which gives 0 for a name that is not there.
  unfoldable pub search_id : {D : Type 0} → Fs D → Cache → Bytes → ℕ × Cache
  unfolding search_ndx
  search_id fs c name =
      let (ndx, c') = search_ndx fs c name in
      elim ndx [ none ↦ (0, c') | some i ↦ (id_at c' i, c') ]

  -- `whefs_inode_name_uncache`.
  unfoldable pub name_uncache : {D : Type 0} → Fs D → Cache → Bytes → Cache
  unfolding search_ndx
  name_uncache fs c name =
      let (ndx, c') = search_ndx fs c name in
      let cleared : Option HashList = elim c'.hashes [
        | none ↦ none
        | some li ↦ elim ndx [
          | none ↦ some li
          | some i ↦ some (record li { list = set li.list i empty; is_sorted = false })
        ]
      ] in
      elim c.hashes [
        | none ↦ c
        | some li ↦ if get_or name 0 0 == 0 then c else record c' { hashes = cleared }
      ]

  -- `whefs_inode_hash_cache_chomp_lv`, which returns OK.
  unfoldable pub cache_chomp_lv : Cache → Cache
  cache_chomp_lv c = elim c.hashes [
    | none ↦ c
    | some li ↦ if count li == 0 then c else record c { hashes = some (chomp_lv lib li) }
  ]
