-- ===== src/Block/Alloc.antt =====
-- src/whefs_block.c, the search for a free block; and the loops of src/whefs_fs.c over all blocks.
use whefs.Common.{
  ℕ, zero, suc, ◌+◌, ◌%◌, Bool, true, false, Option, none, some, ltb, ◌==◌, if◌then◌else◌, ◌&&◌,
  not, pos,
}
use whefs.Rc.{Rc, ok, internal_error, fs_full, id_bound}
use whefs.Device.{DevApi, seek_set}
use whefs.Fs.{Fs, flag_used, has_flag, bcache_is_used, fs_seek}
use whefs.Block.{Block, empty, update_used, flush, read}
use whefs.Block.Wiping.{wipe}

module _ {D : Type 0} (api : DevApi D) where
  -- A free block is found: it is marked as used if that is asked for.
  unfoldable pub found : Fs D → Block → Bool → Rc × Block × Fs D
  unfolding flush
  found fs bl mark_used =
      let used = record bl { flags = flag_used } in
      let fs' = (flush api fs used).1 in
      if mark_used
      then (ok, used, record fs' { unused_block_start = (bl.id + 1) % id_bound })
      else (ok, bl, fs)

  -- The loop of `whefs_block_next_free`, from the id `i` on. `bl` is the block that was read last, and
  -- `none` a loop that has not ended after so many rounds.
  unfoldable pub scan : ℕ → Fs D → ℕ → Block → Block → Bool → Option (Rc × Block × Fs D)
  unfolding read update_used found
  scan zero fs i bl tgt mark_used = none
  scan (suc rounds) fs i bl tgt mark_used =
      let next : ℕ = (i + 1) % id_bound in
      let skipped = scan rounds fs next bl tgt mark_used in
      let (rc, bl', fs') = read api fs i bl in
      let passed = scan rounds (update_used fs' bl') next bl' tgt mark_used in
      if ltb fs.options.block_count i
      then some (fs_full, tgt, fs)
      else if fs.b_loaded && bcache_is_used fs.used_blocks i
      then skipped
      else elim rc [
        | ok ↦
            if not (bl'.id == i)
            then some (internal_error, tgt, fs')
            else if has_flag bl'.flags flag_used
            then passed
            else some (found fs' bl' mark_used)
        | other ↦ some (other, tgt, fs')
      ]

  -- `whefs_block_next_free`, which starts at the hint.
  unfoldable pub next_free : ℕ → Fs D → Block → Bool → Option (Rc × Block × Fs D)
  unfolding scan
  next_free rounds fs tgt mark_used =
      let i : ℕ = if fs.unused_block_start == 0 then 1 else fs.unused_block_start in
      scan rounds (record fs { unused_block_start = i }) i empty tgt mark_used

  -- `whefs_mkfs_write_blocklist` of src/whefs_fs.c: its loop from the id `i` on, and the start of it.
  unfoldable pub write_blocklist_loop : ℕ → Fs D → ℕ → Block → Option (Rc × Fs D)
  unfolding wipe
  write_blocklist_loop zero fs i bl = none
  write_blocklist_loop (suc rounds) fs i bl =
      elim (wipe api 0 fs (record bl { id = i }) true true false) [
        | none ↦ none
        | some (rc, bl', fs') ↦
            let rest = write_blocklist_loop rounds fs' ((i + 1) % id_bound) bl' in
            if ltb fs.options.block_count i
            then some (ok, fs)
            else elim rc [ ok ↦ rest | other ↦ some (other, fs') ]
      ]

  unfoldable pub write_blocklist : ℕ → Fs D → Option (Rc × Fs D)
  unfolding write_blocklist_loop fs_seek
  write_blocklist rounds fs =
      write_blocklist_loop rounds (fs_seek api fs (pos fs.offsets.blocks) seek_set).1 1 empty

  -- `whefs_fs_block_cache_load` of src/whefs_fs.c, its loop over `size_t` ids up to the count of blocks.
  unfoldable pub block_cache_loop : ℕ → Fs D → ℕ → Rc × Fs D
  unfolding read
  block_cache_loop zero fs id = (ok, record fs { b_loaded = true })
  block_cache_loop (suc left) fs id =
      let (rc, bl, fs') = read api fs id empty in
      let rest = block_cache_loop left fs' (id + 1) in elim rc [ ok ↦ rest | other ↦ (other, fs') ]

  unfoldable pub block_cache_load : Fs D → Rc × Fs D
  unfolding block_cache_loop
  block_cache_load fs = block_cache_loop fs.options.block_count fs 1
