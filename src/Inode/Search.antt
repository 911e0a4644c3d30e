-- ===== src/Inode/Search.antt =====
-- src/whefs_inode.c, the search for a free inode and the walk over all of them; and the loop of
-- src/whefs_fs.c that fills the bitset of inodes. The time is an argument.
use Prim.Native.Nat.{bit_or}
use whefs.Common.{
  ℕ, zero, suc, ◌+◌, ◌%◌, Bool, true, Option, none, some, ltb, ◌==◌, if◌then◌else◌, ◌&&◌, not,
}
use whefs.Rc.{Rc, ok, internal_error, fs_full, id_bound, size_bound}
use whefs.Device.{DevApi}
use whefs.Fs.{Fs, flag_used, has_flag, bcache_is_used, bcache_set_used, bcache_unset_used}
use whefs.Inode.{Inode, empty, update_used, flush, id_read}

-- `whefs_inode_update_mtime`, at a time.
abbrev pub update_mtime : ℕ → Inode → Inode
update_mtime now n = record n { mtime = now % size_bound }

-- A free inode as it is taken.
abbrev pub taken : ℕ → Inode → Inode
taken now n = update_mtime now (record n { flags = bit_or n.flags flag_used })

module _ {D : Type 0} (api : DevApi D) where
  -- A free inode is found: it is marked as used if that is asked for. What the flush returns is not looked
  -- at.
  unfoldable pub found : ℕ → Fs D → Inode → Bool → Rc × Inode × Fs D
  unfolding flush
  found now fs n mark_used =
      let fs' = (flush api fs (taken now n)).1 in
      if mark_used
      then (ok, taken now n, record fs' { unused_inode_start = (n.id + 1) % id_bound })
      else (ok, n, fs)

  -- The loop of `whefs_inode_next_free`, from the id `i` on. `n` is the inode that was read last, and
  -- `none` a loop that has not ended after so many rounds.
  unfoldable pub scan : ℕ → ℕ → Fs D → ℕ → Inode → Inode → Bool → Option (Rc × Inode × Fs D)
  unfolding id_read update_used found
  scan now zero fs i n tgt mark_used = none
  scan now (suc rounds) fs i n tgt mark_used =
      let next : ℕ = (i + 1) % id_bound in
      let skipped = scan now rounds fs next n tgt mark_used in
      let (rc, n', fs') = id_read api fs i n in
      let passed = scan now rounds (update_used fs' n') next n' tgt mark_used in
      if ltb fs.options.inode_count i
      then some (fs_full, tgt, fs)
      else if fs.i_loaded && bcache_is_used fs.used_inodes i
      then skipped
      else elim rc [
        | ok ↦
            if not (n'.id == i)
            then some (internal_error, tgt, fs')
            else if has_flag n'.flags flag_used
            then passed
            else some (found now fs' n' mark_used)
        | other ↦ some (other, tgt, fs')
      ]

  -- `whefs_inode_next_free`, which starts at the hint, or behind the root.
  unfoldable pub next_free : ℕ → ℕ → Fs D → Inode → Bool → Option (Rc × Inode × Fs D)
  unfolding scan
  next_free now rounds fs tgt mark_used =
      let i : ℕ = if ltb fs.unused_inode_start 2 then 2 else fs.unused_inode_start in
      scan now rounds (record fs { unused_inode_start = i }) i empty tgt mark_used

  -- `whefs_inode_foreach` from the id `i` on, over a client's state that `func` may change. A predicate
  -- that is not given holds.
  unfoldable pub foreach_loop :
      {S : Type 0}
      → (Inode → S → Bool)
      → (Fs D → Inode → S → Rc × Fs D × S)
      → ℕ
      → Fs D
      → ℕ
      → Inode
      → Rc
      → S
      → Option (Rc × Fs D × S)
  unfolding id_read
  foreach_loop chosen func zero fs i n rc s = none
  foreach_loop chosen func (suc rounds) fs i n rc s =
      let next : ℕ = (i + 1) % id_bound in
      let skipped = foreach_loop chosen func rounds fs next n rc s in
      let (rrc, n', fs') = id_read api fs i n in
      let passed = foreach_loop chosen func rounds fs' next n' rrc s in
      let (frc, fs2, s') = func fs' n' s in
      let done = foreach_loop chosen func rounds fs2 next n' frc s' in
      if ltb fs.options.inode_count i
      then some (rc, fs, s)
      else if fs.i_loaded && not (bcache_is_used fs.used_inodes i)
      then skipped
      else elim rrc [
        | ok ↦
            if not (n'.id == i)
            then some (internal_error, fs', s)
            else if not (chosen n' s)
            then passed
            else elim frc [ ok ↦ done | other ↦ some (other, fs2, s') ]
        | other ↦ some (other, fs', s)
      ]

  -- The walk begins behind the root.
  unfoldable pub foreach :
      {S : Type 0}
      → (Inode → S → Bool)
      → (Fs D → Inode → S → Rc × Fs D × S)
      → ℕ
      → Fs D
      → S
      → Option (Rc × Fs D × S)
  unfolding foreach_loop
  foreach chosen func rounds fs s = foreach_loop chosen func rounds fs 2 empty ok s

  -- The bit of an inode that was read, by its flag.
  abbrev pub note : Fs D → ℕ → Inode → Fs D
  note fs id ino =
      if has_flag ino.flags flag_used
      then record fs { used_inodes = bcache_set_used fs.used_inodes id }
      else record fs { used_inodes = bcache_unset_used fs.used_inodes id }

  -- The loop of `whefs_fs_inode_cache_load` from an id on, and all of it.
  unfoldable pub inode_cache_loop : ℕ → Fs D → ℕ → Inode → Option (Rc × Fs D)
  unfolding id_read
  inode_cache_loop zero fs id ino = none
  inode_cache_loop (suc rounds) fs id ino =
      let (rc, ino', fs') = id_read api fs id ino in
      let rest = inode_cache_loop rounds (note fs' id ino') ((id + 1) % id_bound) ino' in
      if ltb fs.options.inode_count id
      then some (ok, record fs { i_loaded = true })
      else elim rc [ ok ↦ rest | other ↦ some (other, fs') ]

  unfoldable pub inode_cache_load : ℕ → Fs D → Option (Rc × Fs D)
  unfolding inode_cache_loop
  inode_cache_load rounds fs = inode_cache_loop rounds fs 2 empty
