-- ===== src/Inode/Opened/Sharing.antt =====
-- Opening and closing inodes, as the map from ids to entries sees them.
use whefs.Common.{
  ℕ, ◌+◌, ◌<◌, ◌≡◌, inl, inr, refl, ap, sym, ◌∙◌, subst, arith, Bool, true, false, Option, none,
  some, List, ◌==◌, if◌then◌else◌, ◌&&◌, not, Bool-cases, ==_iff,
}
use whefs.Rc.{Rc, ok, arg_error, alloc_error, range_error, access_error}
use whefs.Device.{DevApi, DevLaws}
use whefs.Fs.{Fs}
use whefs.Inode.{Inode, empty, id_is_valid}
use whefs.Inode.Record.{stored_in}
use whefs.Inode.Place.{Has, Same, moved-Same, place_lem}
use whefs.Inode.Table.{Table, id_read-Reads}
use whefs.Inode.Opened.{
  Entry, Vfs, count_bound, find, insert, store, search_opened, shared, open_again, open_new,
  open_inode,
}
use whefs.Inode.Opened.Lists.{
  Ordered, find-id, find-store, find-insert, store-Ordered, insert-Ordered,
}

-- One entry changed in the map.
abbrev pub Changes : List Entry → ℕ → Option Entry → List Entry → Type 0
Changes list id o list' = (j : ℕ) → find list' j ≡ (if id == j then o else find list j)

-- What opening comes to for one inode, from what the map has for it: the code, what the caller gets, and
-- what the map has afterwards. `n` is the inode on the disk.
unfoldable pub opening : Option ℕ → Inode → ℕ → Option Entry → Rc × Option Entry × Option Entry
opening memory n writer none = elim memory [
  | none ↦ (alloc_error, none, none)
  | some address ↦
      let e : Entry = record {
        address = address;
        inode = record (stored_in empty n) { writer = writer; open_count = 1 };
      } in
      (ok, some e, some e)
]
opening memory n writer (some e) =
    let e' = record e { inode = shared e.inode writer } in
    if e.inode.writer == 0
    then (ok, some e', some e')
    else if e.inode.writer == writer
    then (ok, some e, some e)
    else if writer == 0
    then (ok, some e', some e')
    else (access_error, none, some e)

pub unchanged :
    (list : List Entry) (id : ℕ) (o : Option Entry) → find list id ≡ o → Changes list id o list
unchanged list id o e j = elim (Bool-cases (id == j)) [
  | inl same ↦
      ap (λ k. find list k) (sym ((==_iff _ _).0 same))
      ∙ e
      ∙ sym (ap (λ b. if b then o else find list j) same)
  | inr other ↦ sym (ap (λ b. if b then o else find list j) other)
]

-- The outcome of a call that opens.
pub record Opens {D : Type 0} (v : Vfs D) (id : ℕ) (s : Rc × Option Entry × Option Entry)
    (r : Rc × Option Entry × Vfs D) : Type 0 where
  pub after : Vfs D
  pub is : r ≡ (s.0, s.1, after)
  pub changes : Changes v.opened_nodes id s.2 after.opened_nodes
  pub ordered : Ordered 0 after.opened_nodes
  pub same : Same v.fs after.fs

fs_kept : {D : Type 0} (fs : Fs D) → Same fs fs
fs_kept fs = moved-Same fs fs.dev

-- One handle more.
shares :
    {D : Type 0} (v : Vfs D) (id : ℕ) (e : Entry) (writer : ℕ)
    → Ordered 0 v.opened_nodes
    → find v.opened_nodes id ≡ some e
    → e.inode.open_count + 1 < count_bound
    → (let e' = record e { inode = shared e.inode writer } in
        Opens v id
          (ok, some e', some e')
          (ok, some e', record v { opened_nodes = store v.opened_nodes e.inode.id e'.inode }))
shares v id e writer ord f small =
    let n = shared e.inode writer in
    let num : e.inode.id ≡ id = find-id v.opened_nodes id e f in
    let list : List Entry = store v.opened_nodes e.inode.id n in
    record {
      after = record v { opened_nodes = list };
      is = refl;
      changes = λ j.
          ap (λ i. find (store v.opened_nodes i n) j) num
          ∙ find-store 0 v.opened_nodes id e n j ord f num;
      ordered = store-Ordered 0 v.opened_nodes e.inode.id n ord refl (omega (arith, small));
      same = fs_kept v.fs;
    }

stays :
    {D : Type 0} (v : Vfs D) (id : ℕ) (o : Option Entry) (rc : Rc) (tgt : Option Entry)
    → Ordered 0 v.opened_nodes
    → find v.opened_nodes id ≡ o
    → Opens v id (rc, tgt, o) (rc, tgt, v)
stays v id o rc tgt ord f = record {
  after = v;
  is = refl;
  changes = unchanged v.opened_nodes id o f;
  ordered = ord;
  same = fs_kept v.fs;
}

-- The tests that opening makes: there is no writer, it is this one, and a reader asks.
by_tests :
    {D : Type 0} (v : Vfs D) (id : ℕ) (e : Entry) (writer : ℕ) (no_writer own reader : Bool)
    → Ordered 0 v.opened_nodes
    → find v.opened_nodes id ≡ some e
    → e.inode.open_count + 1 < count_bound
    → (let e' = record e { inode = shared e.inode writer } in
        let v' = record v { opened_nodes = store v.opened_nodes e.inode.id e'.inode } in
        Opens v id
          (if no_writer
            then (ok, some e', some e')
            else if own
            then (ok, some e, some e)
            else if reader
            then (ok, some e', some e')
            else (access_error, none, some e))
          (if not no_writer && own
            then (ok, some e, v)
            else if not no_writer && not reader
            then (access_error, none, v)
            else (ok, some e', v')))
by_tests v id e writer true own reader ord f small = shares v id e writer ord f small
by_tests v id e writer false true reader ord f small = stays v id (some e) ok (some e) ord f
by_tests v id e writer false false true ord f small = shares v id e writer ord f small
by_tests v id e writer false false false ord f small = stays v id (some e) access_error none ord f

again :
    {D : Type 0} (memory : Option ℕ) (n : Inode) (v : Vfs D) (id : ℕ) (e : Entry) (writer : ℕ)
    → Ordered 0 v.opened_nodes
    → find v.opened_nodes id ≡ some e
    → e.inode.open_count + 1 < count_bound
    → Opens v id (opening memory n writer (some e)) (open_again v e writer)
unfolding opening open_again
again memory n v id e writer ord f small =
    by_tests v id e writer (e.inode.writer == 0) (e.inode.writer == writer) (writer == 0) ord f
      small

-- The count of handles of an inode that is opened has room for one more.
abbrev pub Countable : {D : Type 0} → Vfs D → ℕ → Type 0
Countable v id =
    (e : Entry) → find v.opened_nodes id ≡ some e → e.inode.open_count + 1 < count_bound

module _ {D : Type 0} {api : DevApi D} (L : DevLaws api) (nodes : ℕ → Inode) where
  fresh :
      (memory : Option ℕ) (v : Vfs D) (id writer : ℕ)
      → Table L nodes v.fs
      → Has v.fs id
      → Ordered 0 v.opened_nodes
      → find v.opened_nodes id ≡ none
      → Opens v id (opening memory (nodes id) writer none) (open_new api memory v id writer)
  unfolding opening open_new
  fresh none v id writer t h ord f = stays v id none alloc_error none ord f
  fresh (some address) v id writer t h ord f =
      let q = id_read-Reads L nodes v.fs id (record empty { id = id }) t h in
      let e : Entry = record {
        address = address;
        inode = record (stored_in empty (nodes id)) { writer = writer; open_count = 1 };
      } in
      let num : (nodes id).id ≡ id = t.numbered id h in
      let absent : find v.opened_nodes (nodes id).id ≡ none =
        ap (λ i. find v.opened_nodes i) num ∙ f in
      record {
        after = record { fs = q.0; opened_nodes = insert v.opened_nodes e };
        is =
            ap
              (λ x. elim x.0 [
                | ok ↦ (
                  ok,
                  some (record {
                    address = address;
                    inode = record x.1 { writer = writer; open_count = 1 };
                  }),
                  record {
                    fs = x.2;
                    opened_nodes = insert v.opened_nodes (record {
                      address = address;
                      inode = record x.1 { writer = writer; open_count = 1 };
                    });
                  },
                )
                | other ↦ (other, none, record v { fs = x.2 })
              ])
              q.1;
        changes = λ j.
            find-insert 0 v.opened_nodes e j ord absent
            ∙ ap (λ i. if i == j then some e else find v.opened_nodes j) num;
        ordered =
            insert-Ordered 0 v.opened_nodes e ord absent (omega (arith, num, h.0)) (omega arith);
        same = q.2.same;
      }

  -- The walk has come to an entry, or to none.
  goes_on :
      (memory : Option ℕ) (v : Vfs D) (id writer : ℕ) (o : Option Entry) → Rc × Option Entry × Vfs D
  goes_on memory v id writer none = open_new api memory v id writer
  goes_on memory v id writer (some x) = open_again v x writer

  open_calls :
      (memory : Option ℕ) (v : Vfs D) (id writer : ℕ) (o : Option Entry)
      → id_is_valid v.fs id ≡ true
      → find v.opened_nodes id ≡ o
      → open_inode api memory v id writer ≡ goes_on memory v id writer o
  unfolding open_inode search_opened goes_on
  open_calls memory v id writer o valid f =
      let from : Bool → Option Entry → Rc × Option Entry × Vfs D = λ b x.
        let q : Rc × Option Entry =
          if not b
          then (arg_error, none)
          else elim x [ none ↦ (range_error, none) | some e ↦ (ok, some e) ] in
        if not b
        then (arg_error, none, v)
        else elim q.1 [ none ↦ open_new api memory v id writer | some e ↦ open_again v e writer ] in
      ap (λ b. from b (find v.opened_nodes id)) valid
      ∙ ap (λ x. from true x) f
      ∙ elim o as (λ x. from true x ≡ goes_on memory v id writer x) [ none ↦ refl | some x ↦ refl ]

  goes_on-Opens :
      (memory : Option ℕ) (v : Vfs D) (id writer : ℕ) (o : Option Entry)
      → Table L nodes v.fs
      → Has v.fs id
      → Ordered 0 v.opened_nodes
      → Countable v id
      → find v.opened_nodes id ≡ o
      → Opens v id (opening memory (nodes id) writer o) (goes_on memory v id writer o)
  unfolding goes_on
  goes_on-Opens memory v id writer none t h ord c f = fresh memory v id writer t h ord f
  goes_on-Opens memory v id writer (some e) t h ord c f =
      again memory (nodes id) v id e writer ord f (c e f)

  -- Where the records of the inodes lie in a device that keeps its laws, and the list of opened inodes is
  -- in order, opening an inode with a number in range does to the map from ids to opened inodes what
  -- `opening` says: it changes the entry of that inode alone, and so does what it returns follow from that
  -- entry. The list is in order again, and of the filesystem only the device and what is known of used
  -- inodes may change. The count of handles must have room for one more.
  pub open_refines :
      (memory : Option ℕ) (v : Vfs D) (id writer : ℕ)
      → Table L nodes v.fs
      → Has v.fs id
      → Ordered 0 v.opened_nodes
      → Countable v id
      → Opens v id
          (opening memory (nodes id) writer (find v.opened_nodes id))
          (open_inode api memory v id writer)
  open_refines memory v id writer t h ord c =
      let valid = (place_lem L v.fs id t.laid h).valid in
      subst (λ r. Opens v id (opening memory (nodes id) writer (find v.opened_nodes id)) r)
        (sym (open_calls memory v id writer (find v.opened_nodes id) valid refl))
        (goes_on-Opens memory v id writer (find v.opened_nodes id) t h ord c refl)
