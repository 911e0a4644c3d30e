-- ===== src/Inode/Opened.antt =====
-- src/whefs_inode.c, the list of opened inodes: `whefs_inode_search_opened`, `whefs_inode_open` and
-- `whefs_inode_close`. The doubly linked list from `opened_nodes` on is a list; the object of an entry has
-- an address, which a pointer to the inode in it stands for. `tgt` is not null.
pub mod Lists
pub mod Sharing
pub mod Closing
pub mod Undoing
use whefs.Common.{
  ℕ, zero, suc, ◌+◌, ◌-◌, ◌%◌, ◌^◌, Bool, true, false, Option, none, some, List, [], ◌∷◌, ltb, ◌==◌,
  if◌then◌else◌, ◌&&◌, not,
}
use whefs.Rc.{Rc, ok, arg_error, alloc_error, internal_error, range_error, access_error}
use whefs.Device.{DevApi}
use whefs.Fs.{Fs}
use whefs.Inode.{Inode, empty, id_is_valid, flush, id_read}

-- `whefs_inode_list`, where it is and the inode that it holds.
pub record Entry : Type 0 where
  pub address : ℕ
  pub inode : Inode

-- The members of `whefs_fs` that opening uses.
pub record Vfs (D : Type 0) : Type 0 where
  pub fs : Fs D
  pub opened_nodes : List Entry

-- `open_count` is of 16 bits.
abbrev pub count_bound : ℕ
count_bound = 2 ^ 16

-- The walk over the list, which ends at a greater id.
unfoldable pub find : List Entry → ℕ → Option Entry
find [] id = none
find (li ∷ list) id =
    let later = find list id in
    if ltb li.inode.id id then later else if ltb id li.inode.id then none else some li

-- A new entry in its place in the list.
unfoldable pub insert : List Entry → Entry → List Entry
insert [] ent = ent ∷ []
insert (li ∷ list) ent =
    let later = insert list ent in
    if ltb li.inode.id ent.inode.id then li ∷ later else ent ∷ li ∷ list

-- What is stored through a pointer to the inode that the walk for `id` ends at.
unfoldable pub store : List Entry → ℕ → Inode → List Entry
store [] id n = []
store (li ∷ list) id n =
    let later = store list id n in
    if ltb li.inode.id id
    then li ∷ later
    else if ltb id li.inode.id
    then li ∷ list
    else record li { inode = n } ∷ list

-- The list without the entry that the walk for `id` ends at.
unfoldable pub unlink : List Entry → ℕ → List Entry
unlink [] id = []
unlink (li ∷ list) id =
    let later = unlink list id in
    if ltb li.inode.id id then li ∷ later else if ltb id li.inode.id then li ∷ list else list

-- `whefs_inode_search_opened`: the code, and what `*tgt` is then.
unfoldable pub search_opened : {D : Type 0} → Vfs D → ℕ → Rc × Option Entry
unfolding id_is_valid find
search_opened v id =
    if not (id_is_valid v.fs id)
    then (arg_error, none)
    else elim (find v.opened_nodes id) [ none ↦ (range_error, none) | some e ↦ (ok, some e) ]

-- One more handle on an inode, for a writer that may be null; and one less.
abbrev pub shared : Inode → ℕ → Inode
shared x writer = record x {
  writer = if x.writer == 0 then writer else x.writer;
  open_count = (x.open_count + 1) % count_bound;
}

abbrev pub released : Inode → Inode
released x = record x { open_count = (x.open_count + count_bound - 1) % count_bound }

-- An entry that is opened already.
unfoldable pub open_again : {D : Type 0} → Vfs D → Entry → ℕ → Rc × Option Entry × Vfs D
unfolding store
open_again v e writer =
    let n = shared e.inode writer in
    if not (e.inode.writer == 0) && e.inode.writer == writer
    then (ok, some e, v)
    else if not (e.inode.writer == 0) && not (writer == 0)
    then (access_error, none, v)
    else (
      ok,
      some (record e { inode = n }),
      record v { opened_nodes = store v.opened_nodes e.inode.id n },
    )

module _ {D : Type 0} (api : DevApi D) where
  -- A new entry; `malloc` gives its address, or nothing.
  unfoldable pub open_new : Option ℕ → Vfs D → ℕ → ℕ → Rc × Option Entry × Vfs D
  unfolding id_read insert
  open_new none v id writer = (alloc_error, none, v)
  open_new (some address) v id writer =
      let (rc, n, fs') = id_read api v.fs id (record empty { id = id }) in
      let ent : Entry = record {
        address = address;
        inode = record n { writer = writer; open_count = 1 };
      } in
      elim rc [
        | ok ↦ (ok, some ent, record { fs = fs'; opened_nodes = insert v.opened_nodes ent })
        | other ↦ (other, none, record v { fs = fs' })
      ]

  -- `whefs_inode_open`: the code, the entry that `*tgt` points into, and the filesystem.
  unfoldable pub open_inode : Option ℕ → Vfs D → ℕ → ℕ → Rc × Option Entry × Vfs D
  unfolding id_is_valid search_opened open_again open_new
  open_inode memory v id writer =
      let fresh = open_new memory v id writer in
      if not (id_is_valid v.fs id)
      then (arg_error, none, v)
      else elim (search_opened v id).1 [ none ↦ fresh | some x ↦ open_again v x writer ]

  -- The writer gives up its claim, and the inode is flushed; what the flush returns is not looked at.
  unfoldable pub close_writer : Fs D → Inode → ℕ → Inode × Fs D
  unfolding flush
  close_writer fs np writer =
      let n = record np { writer = 0 } in
      if not (np.writer == 0) && np.writer == writer then (n, (flush api fs n).1) else (np, fs)

  -- `whefs_inode_close` of the inode at an address, with what is there.
  unfoldable pub close : Vfs D → Entry → ℕ → Rc × Vfs D
  unfolding id_is_valid find store unlink close_writer
  close v src writer =
      if not (id_is_valid v.fs src.inode.id)
      then (arg_error, v)
      else elim (find v.opened_nodes src.inode.id) [
        | none ↦ (arg_error, v)
        | some li ↦
            let (np, fs') = close_writer v.fs li.inode writer in
            let n = released np in
            if not (li.address == src.address) then (internal_error, v) else (
              ok,
              record {
                fs = fs';
                opened_nodes =
                    if n.open_count == 0
                    then unlink v.opened_nodes src.inode.id
                    else store v.opened_nodes src.inode.id n;
              },
            )
      ]
