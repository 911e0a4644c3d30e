-- ===== src/Lookup.antt =====
-- src/whefs_inode.c, the operations on an inode by its name: `whefs_inode_name_set`, `whefs_inode_unlink`,
-- `whefs_inode_id_unlink` and `whefs_inode_by_name`. Pointers are not null. The result `none` is one that C
-- leaves undefined, or a wipe that has not ended after so many rounds.
pub mod Unlink
pub mod Alike
pub mod Renaming
mod Tests
use whefs.Common.{
  ℕ, zero, suc, ◌+◌, ◌%◌, Bool, true, false, Option, none, some, List, [], ◌∷◌, ltb, ◌==◌,
  if◌then◌else◌, ◌&&◌, ◌||◌, not, get_or, set, replicate, overwrite,
}
use whefs.Rc.{
  Rc, ok, arg_error, access_error, internal_error, range_error, consistency_error, id_bound,
}
use whefs.Encode.{Bytes}
use whefs.Encode.Cstring.{strlen}
use whefs.Device.{DevApi}
use whefs.Fs.{Fs, bcache_is_used}
use whefs.Hash.{HashId, HashList, Library, sort, index_of}
use whefs.Hash
use whefs.Block.{Block, read}
use whefs.Block
use whefs.Block.Wiping.{wipe}
use whefs.Inode.{Inode, empty, id_is_valid, flush, id_read}
use whefs.Inode.Opened.{Vfs, search_opened}
use whefs.Strings.{WhefsString}
use whefs.NameCache.{Cache, cache_sort, search_ndx, id_at}
use whefs.Names.{max_filename_length, chars, name_write, name_get}

-- Whether `strcmp` finds no difference.
unfoldable pub same_text : Bytes → Bytes → Bool
same_text [] s = get_or s 0 0 == 0
same_text (c ∷ r) [] = c == 0
same_text (c ∷ r) (e ∷ s) =
    let rest = same_text r s in if not (c == e) then false else if c == 0 then true else rest

-- The string over a buffer on the stack, which a name is read into.
abbrev pub on_stack : WhefsString
on_stack = record {
  string = some (replicate (max_filename_length + 1) 0);
  length = 0;
  alloced = max_filename_length + 1;
}

module _ (lib : Library) where
  -- A cell of the cache of names gets a new hash, and the list is sorted.
  unfoldable pub rehash : Cache → ℕ → Bytes → Cache
  rehash c i name = elim c.hashes [
    | none ↦ c
    | some li ↦
        let changed : HashId = record (get_or li.list i Hash.empty) { hash = c.hashfunc name } in
        record c { hashes = some (sort lib (record li { list = set li.list i changed })) }
  ]

  -- The search of `whefs_inode_by_name` in the cache. A cell that is found has one visit more.
  unfoldable pub cached_id : Cache → ℕ → Option ℕ × Cache
  cached_id c hash = elim c.hashes [
    | none ↦ (none, c)
    | some li ↦
        let (ndx, li') = index_of lib li hash in
        elim ndx [
          | none ↦ (none, record c { hashes = some li' })
          | some i ↦
              let h : HashId = get_or li'.list i Hash.empty in
              let changed : HashId = record h { hits = (h.hits + 1) % id_bound } in
              (some h.id, record c { hashes = some (record li' { list = set li'.list i changed }) })
        ]
  ]

-- What `whefs_inode_by_name` returns: a code, or what `strcmp` gave for two names that differ.
pub data Result : Type 0 where
  code : Rc → Result
  compared : Result

module _ {D : Type 0} (api : DevApi D) (lib : Library) (allocates : Bool) where
  -- The new name is written, and the cell of the cache with the old one, if there is one, is changed.
  unfoldable pub write_new : Fs D → Cache → ℕ → Bytes → Option ℕ → Rc × Fs D × Cache
  unfolding name_write rehash
  write_new fs c nid name ndx =
      let (rc, fs') = name_write api fs nid (some name) in
      elim rc [
        | ok ↦ (ok, fs', elim ndx [ none ↦ c | some i ↦ rehash lib c i name ])
        | other ↦ (other, fs', c)
      ]

  -- The rest of `whefs_inode_name_set`, where the name of the inode was read.
  unfoldable pub replace_name : Fs D → Cache → ℕ → Bytes → Bytes → Rc × Fs D × Cache
  unfolding write_new search_ndx same_text
  replace_name fs c nid name old =
      let is_named : Bool = not (get_or old 0 0 == 0) in
      let (ndx, c') = search_ndx lib fs c (if is_named then old else name) in
      let collides : Bool = elim ndx [ none ↦ false | some i ↦ not (id_at lib c' i == nid) ] in
      if is_named && same_text old name
      then (ok, fs, c)
      else if collides
      then (internal_error, fs, c')
      else write_new fs c' nid name ndx

  -- `whefs_inode_name_set`.
  unfoldable pub name_set : Fs D → Cache → ℕ → Bytes → Option (Rc × Fs D × Cache)
  unfolding id_is_valid name_get replace_name
  name_set fs c nid name =
      if not (id_is_valid fs nid)
      then some (arg_error, fs, c)
      else elim (name_get api lib allocates fs c nid on_stack) [
        | none ↦ none
        | some (rc, ncheck, fs', c') ↦
            let replaced = replace_name fs' c' nid name (chars ncheck) in
            elim rc [ ok ↦ some replaced | other ↦ some (other, fs', c') ]
      ]

  -- The wipe of the blocks of an inode. What the read returns is not looked at.
  unfoldable pub wipe_blocks : ℕ → Fs D → Inode → Option (Rc × Fs D)
  unfolding read wipe
  wipe_blocks rounds fs n =
      let (_, bl, fs') = read api fs n.first_block Block.empty in
      if n.first_block == 0 then some (ok, fs) else elim (wipe api rounds fs' bl true true true) [
        | none ↦ none
        | some (rc, bl', fs2) ↦ some (rc, fs2)
      ]

  -- An inode without its blocks is emptied, loses its name and is flushed.
  unfoldable pub clear_inode : Fs D → Cache → Inode → Option (Rc × Inode × Fs D × Cache)
  unfolding name_set flush
  clear_inode fs c n =
      let n' : Inode = record empty { id = n.id } in
      elim (name_set fs c n.id (0 ∷ [])) [
        | none ↦ none
        | some (rc, fs', c') ↦
            let (frc, fs2) = flush api fs' n' in
            elim rc [ ok ↦ some (frc, n', fs2, c') | other ↦ some (other, n', fs', c') ]
      ]

  -- `whefs_inode_unlink`: the code, the inode, the filesystem and the cache.
  unfoldable pub unlink : ℕ → Vfs D → Cache → Inode → Option (Rc × Inode × Vfs D × Cache)
  unfolding id_is_valid search_opened wipe_blocks clear_inode
  unlink rounds v c n =
      let wiped = wipe_blocks rounds v.fs n in
      if not (id_is_valid v.fs n.id)
      then some (arg_error, n, v, c)
      else elim (search_opened v n.id).0 [
        | ok ↦ some (access_error, n, v, c)
        | other ↦ elim wiped [
          | none ↦ none
          | some (ok, fs') ↦ elim (clear_inode fs' c n) [
            | none ↦ none
            | some (rc, n', fs2, c') ↦ some (rc, n', record v { fs = fs2 }, c')
          ]
          | some (bad, fs') ↦ some (bad, n, record v { fs = fs' }, c)
        ]
      ]

  -- `whefs_inode_id_unlink`.
  unfoldable pub id_unlink : ℕ → Vfs D → Cache → ℕ → Option (Rc × Vfs D × Cache)
  unfolding id_is_valid id_read unlink
  id_unlink rounds v c nid =
      let (rc, n, fs') = id_read api v.fs nid empty in
      let v' = record v { fs = fs' } in
      if not (id_is_valid v.fs nid) then some (arg_error, v, c) else elim rc [
        | ok ↦ elim (unlink rounds v' c n) [
          | none ↦ none
          | some (urc, n', v2, c') ↦ some (urc, v2, c')
        ]
        | other ↦ some (other, v', c)
      ]

  -- The inode that was found is read.
  unfoldable pub read_found : Fs D → Cache → ℕ → Option Inode → Result × Option Inode × Fs D × Cache
  unfolding id_read
  read_found fs c i tgt =
      let (rc, n, fs') = id_read api fs i empty in
      elim rc [ ok ↦ (code ok, some n, fs', c) | other ↦ (code other, tgt, fs', c) ]

  -- After the loop of `whefs_inode_by_name`, with what it has for a result, where no name was found equal.
  unfoldable pub not_found :
      Fs D → Cache → ℕ → WhefsString → Result → Option Inode → Result × Option Inode × Fs D × Cache
  unfolding read_found
  not_found fs c i ns rc tgt = elim rc [
    | code ok ↦
        if get_or (chars ns) 0 0 == 0 then (code range_error, tgt, fs, c) else read_found fs c i tgt
    | other ↦ (other, tgt, fs, c)
  ]

  -- The bytes of a name in the buffer are set to zero.
  abbrev pub wiped : WhefsString → WhefsString
  wiped ns = record ns { string = some (overwrite (chars ns) 0 (replicate ns.length 0)) }

  -- The loop of `whefs_inode_by_name` from an id on; `exact` is for an id from the cache.
  unfoldable pub by_name_loop :
      ℕ
      → Fs D
      → Cache
      → Bytes
      → Bool
      → ℕ
      → WhefsString
      → Result
      → Option Inode
      → Option (Result × Option Inode × Fs D × Cache)
  unfolding name_get not_found read_found same_text
  by_name_loop zero fs c name exact i ns rc tgt = none
  by_name_loop (suc rounds) fs c name exact i ns rc tgt =
      let next : ℕ = (i + 1) % id_bound in
      let skipped = by_name_loop rounds fs c name exact next ns rc tgt in
      if ltb fs.options.inode_count i
      then some (not_found fs c i ns rc tgt)
      else if fs.i_loaded && not (bcache_is_used fs.used_inodes i)
      then (if exact then some (code consistency_error, tgt, fs, c) else skipped)
      else elim (name_get api lib allocates fs c i ns) [
        | none ↦ none
        | some (grc, ns', fs', c') ↦
            let unnamed = by_name_loop rounds fs' c' name exact next ns' (code ok) tgt in
            let differs = by_name_loop rounds fs' c' name exact next (wiped ns') compared tgt in
            elim grc [
              | ok ↦
                  if get_or (chars ns') 0 0 == 0 || ns'.length == 0
                  then unnamed
                  else if same_text (chars ns') name
                  then some (read_found fs' c' i tgt)
                  else if exact
                  then some (code consistency_error, tgt, fs', c')
                  else differs
              | other ↦ some (code other, tgt, fs', c')
            ]
      ]

  -- `whefs_inode_by_name`: the result, what is stored through `tgt`, the filesystem and the cache.
  unfoldable pub by_name :
      ℕ → Fs D → Cache → Bytes → Option Inode → Option (Result × Option Inode × Fs D × Cache)
  unfolding cached_id by_name_loop strlen
  by_name rounds fs c name tgt =
      let (id, c') = cached_id lib (cache_sort lib c) (c.hashfunc name) in
      let direct : Bool = elim id [ none ↦ false | some i ↦ true ] in
      let first : ℕ = elim id [ none ↦ 2 | some i ↦ i ] in
      if get_or name 0 0 == 0
      then some (code arg_error, tgt, fs, c)
      else if fs.options.inode_count == 0
      then some (code range_error, tgt, fs, c)
      else if ltb fs.options.filename_length (strlen name)
      then some (code range_error, tgt, fs, c)
      else by_name_loop rounds fs c' name direct first on_stack (code range_error) tgt
