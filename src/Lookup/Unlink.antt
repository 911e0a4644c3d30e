-- ===== src/Lookup/Unlink.antt =====
-- An inode that is opened is not unlinked.
use whefs.Common.{ℕ, ◌≡◌, ap, ◌∙◌, Bool, true, Option, none, some, if◌then◌else◌, not}
use whefs.Rc.{Rc, ok, arg_error, access_error, range_error}
use whefs.Device.{DevApi, DevLaws}
use whefs.Hash.{Library}
use whefs.Inode.{Inode, id_is_valid}
use whefs.Inode.Place.{Has}
use whefs.Inode.Table.{Table}
use whefs.Inode.Opened.{Entry, Vfs, find, search_opened, open_inode}
use whefs.Inode.Opened.Lists.{Ordered}
use whefs.Inode.Opened.Undoing.{FreeIn, opened}
use whefs.NameCache.{Cache}
use whefs.Lookup.{wipe_blocks, clear_inode, unlink}

module _ {D : Type 0} (api : DevApi D) (lib : Library) (allocates : Bool) where
  unlink_refused :
      (rounds : ℕ) (v : Vfs D) (c : Cache) (n : Inode) (e : Entry)
      → id_is_valid v.fs n.id ≡ true
      → find v.opened_nodes n.id ≡ some e
      → unlink api lib allocates rounds v c n ≡ some (access_error, n, v, c)
  unfolding unlink search_opened
  unlink_refused rounds v c n e valid f =
      let last : Rc → Option (Rc × Inode × Vfs D × Cache) = λ rc. elim rc [
        | ok ↦ some (access_error, n, v, c)
        | other ↦ elim (wipe_blocks api lib allocates rounds v.fs n) [
          | none ↦ none
          | some (ok, fs') ↦ elim (clear_inode api lib allocates fs' c n) [
            | none ↦ none
            | some (rc, n', fs2, c') ↦ some (rc, n', record v { fs = fs2 }, c')
          ]
          | some (bad, fs') ↦ some (bad, n, record v { fs = fs' }, c)
        ]
      ] in
      let sought : Bool → Option Entry → Rc × Option Entry = λ b o.
        if not b
        then (arg_error, none)
        else elim o [ none ↦ (range_error, none) | some e ↦ (ok, some e) ] in
      let from : Bool → Rc → Option (Rc × Inode × Vfs D × Cache) =
        λ b rc. if not b then some (arg_error, n, v, c) else last rc in
      ap (λ b. from b (sought b (find v.opened_nodes n.id)).0) valid
      ∙ ap (λ o. from true (sought true o).0) f

module _ {D : Type 0} {api : DevApi D} (L : DevLaws api) (nodes : ℕ → Inode) where
  -- Where the records of the inodes lie in a device that keeps its laws, and the list of opened inodes is
  -- in order, an inode with a number in range that is opened for a writer, or for none, cannot be unlinked
  -- while it is: with the inode that opening gave, unlinking returns AccessError, and the inode, the
  -- filesystem with its list of opened inodes, and the cache of names are left as they were.
  pub unlink-open :
      (lib : Library) (allocates : Bool) (rounds address : ℕ) (v : Vfs D) (c : Cache)
      (id writer : ℕ)
      → Table L nodes v.fs
      → Has v.fs id
      → Ordered 0 v.opened_nodes
      → FreeIn writer (find v.opened_nodes id)
      → (e : Entry) × (v' : Vfs D) × (open_inode api (some address) v id writer ≡ (ok, some e, v'))
        × (unlink api lib allocates rounds v' c e.inode ≡ some (access_error, e.inode, v', c))
  unlink-open lib allocates rounds address v c id writer t h ord free =
      let o = opened L nodes address v id writer t h ord free in
      (
        o.entry,
        o.after,
        o.is,
        unlink_refused api lib allocates rounds o.after c o.entry.inode o.entry
            (ap (λ i. id_is_valid o.after.fs i) o.numbered ∙ o.valid)
            (ap (λ i. find o.after.opened_nodes i) o.numbered ∙ o.here),
      )
