-- ===== src/Inode/Opened/Undoing.antt =====
-- Closing what was opened before.
use whefs.Common.{
  ℕ, ◌+◌, ◌-◌, ◌%◌, ◌<◌, ◌≡◌, ◌⊎◌, inl, inr, refl, ap, ap₂, ◌∙◌, subst, arith, Bool, true, false,
  Option, none, some, List, leb, ◌==◌, if◌then◌else◌, ◌&&◌, not, Bool-cases, ==_iff, ==_refl,
}
use whefs.Rc.{Rc, ok, access_error}
use whefs.Device.{DevApi, DevLaws}
use whefs.Fs.{Fs}
use whefs.Inode.{Inode, empty, id_is_valid}
use whefs.Inode.Record.{stored_in}
use whefs.Inode.Place.{Has, Same, place_lem}
use whefs.Inode.Table.{Table}
use whefs.Inode.Opened.{Entry, Vfs, count_bound, find, shared, open_inode, close}
use whefs.Inode.Opened.Lists.{Ordered, find-id, find-count}
use whefs.Inode.Opened.Sharing.{Changes, opening, open_refines, Countable}
use whefs.Inode.Opened.Closing.{closing, close_refines}

-- One entry changed, and changed back.
changed_back :
    (a b c : List Entry) (id : ℕ) (o o' : Option Entry)
    → Changes a id o b
    → Changes b id o' c
    → o' ≡ find a id
    → (j : ℕ) → find c j ≡ find a j
changed_back a b c id o o' m n e j = elim (Bool-cases (id == j)) [
  | inl same ↦
      n j ∙ ap (λ t. if t then o' else find b j) same ∙ e ∙ ap (λ k. find a k) ((==_iff _ _).0 same)
  | inr other ↦
      n j
      ∙ ap (λ t. if t then o' else find b j) other
      ∙ m j
      ∙ ap (λ t. if t then o else find a j) other
]

writer_back :
    (x w : ℕ)
    → (x ≡ 0) ⊎ (w ≡ 0)
    → (let s : ℕ = if x == 0 then w else x in (if not (s == 0) && s == w then 0 else s) ≡ x)
writer_back x w (inl e) = ground (arith, e)
writer_back x w (inr e) = ground (arith, e)

-- A handle on an inode that was opened for this writer, or for none, is given up again.
closing-shared :
    (e : Entry) (writer : ℕ)
    → 0 < e.inode.open_count
    → e.inode.open_count + 1 < count_bound
    → (e.inode.writer ≡ 0) ⊎ (writer ≡ 0)
    → closing writer (record e { inode = shared e.inode writer }) ≡ some e
unfolding closing
closing-shared e writer h small free =
    let more : ((e.inode.open_count + 1) % count_bound == 1) ≡ false = ground (arith, h, small) in
    let count : (e.inode.open_count + 1) % count_bound - 1 ≡ e.inode.open_count =
      omega (arith, small) in
    ap₂ (λ b n. if b then none else some (record e { inode = n })) more
      (ap₂ (λ a c. record e.inode { writer = a; open_count = c })
        (writer_back e.inode.writer writer free) count)

-- An inode that is opened may be opened by this writer, and has room for a handle more.
abbrev pub Free : ℕ → Entry → Type 0
Free writer e = (e.inode.open_count + 1 < count_bound) × ((e.inode.writer ≡ 0) ⊎ (writer ≡ 0))

abbrev pub FreeIn : ℕ → Option Entry → Type 0
FreeIn writer none = Unit
FreeIn writer (some e) = Free writer e

opening_free :
    (memory : Option ℕ) (n : Inode) (writer : ℕ) (e : Entry)
    → (e.inode.writer ≡ 0) ⊎ (writer ≡ 0)
    → (let e' = record e { inode = shared e.inode writer } in
        opening memory n writer (some e) ≡ (ok, some e', some e'))
unfolding opening
opening_free memory n writer e free =
    let e' = record e { inode = shared e.inode writer } in
    let f : Bool → Bool → Bool → Rc × Option Entry × Option Entry = λ no_writer own reader.
      if no_writer
      then (ok, some e', some e')
      else if own
      then (ok, some e, some e)
      else if reader
      then (ok, some e', some e')
      else (access_error, none, some e) in
    let own : Bool = e.inode.writer == writer in
    elim (Bool-cases (e.inode.writer == 0)) [
      | inl none_yet ↦ ap (λ b. f b own (writer == 0)) none_yet
      | inr has_one ↦
          let reader : writer ≡ 0 = elim free [
            | inl x ↦ absurd (ground (arith, x, has_one))
            | inr w ↦ w
          ] in
          let other : own ≡ false = ground (arith, reader, has_one) in
          let reads : (writer == 0) ≡ true = ground (arith, reader) in
          ap (λ b. f b own (writer == 0)) has_one
          ∙ ap (λ b. f false b (writer == 0)) other
          ∙ ap (λ b. f false false b) reads
    ]

countable :
    {D : Type 0} (v : Vfs D) (id writer : ℕ)
    → FreeIn writer (find v.opened_nodes id)
    → Countable v id
countable v id writer free e f = (subst (λ o. FreeIn writer o) f free).0

-- What opening gives, if it may, and that closing undoes it.
record Undone (address : ℕ) (n : Inode) (id writer : ℕ) (o : Option Entry) : Type 0 where
  entry : Entry
  opens : opening (some address) n writer o ≡ (ok, some entry, some entry)
  numbered : entry.inode.id ≡ id
  small : entry.inode.open_count < count_bound
  back : closing writer entry ≡ o

undone :
    (list : List Entry) (address : ℕ) (n : Inode) (id writer : ℕ) (o : Option Entry)
    → Ordered 0 list
    → find list id ≡ o
    → n.id ≡ id
    → FreeIn writer o
    → Undone address n id writer o
unfolding opening closing
undone list address n id writer none ord f num free = record {
  entry = record {
    address = address;
    inode = record (stored_in empty n) { writer = writer; open_count = 1 };
  };
  opens = refl;
  numbered = num;
  small = omega arith;
  back = refl;
}
undone list address n id writer (some e) ord f num free = record {
  entry = record e { inode = shared e.inode writer };
  opens = opening_free (some address) n writer e free.1;
  numbered = find-id list id e f;
  small = omega arith;
  back = closing-shared e writer (find-count 0 list id e ord f) free.0 free.1;
}

module _ {D : Type 0} {api : DevApi D} (L : DevLaws api) (nodes : ℕ → Inode) where
  valid_in :
      (fs fs' : Fs D) (id : ℕ)
      → Table L nodes fs
      → Has fs id
      → Same fs fs'
      → id_is_valid fs' id ≡ true
  unfolding id_is_valid
  valid_in fs fs' id t h k =
      ap (λ o. not (id == 0) && leb id o.inode_count) k.options ∙ (place_lem L fs id t.laid h).valid

  -- What opening gives, and that the map has it.
  pub record Opened (address : ℕ) (v : Vfs D) (id writer : ℕ) : Type 0 where
    pub entry : Entry
    pub after : Vfs D
    pub is : open_inode api (some address) v id writer ≡ (ok, some entry, after)
    pub numbered : entry.inode.id ≡ id
    pub here : find after.opened_nodes id ≡ some entry
    pub valid : id_is_valid after.fs id ≡ true
    pub small : entry.inode.open_count < count_bound
    pub ordered : Ordered 0 after.opened_nodes
    pub changes : Changes v.opened_nodes id (some entry) after.opened_nodes
    pub back : closing writer entry ≡ find v.opened_nodes id

  pub opened :
      (address : ℕ) (v : Vfs D) (id writer : ℕ)
      → Table L nodes v.fs
      → Has v.fs id
      → Ordered 0 v.opened_nodes
      → FreeIn writer (find v.opened_nodes id)
      → Opened address v id writer
  opened address v id writer t h ord free =
      let u =
        undone v.opened_nodes address (nodes id) id writer (find v.opened_nodes id) ord refl
          (t.numbered id h) free in
      let o =
        open_refines L nodes (some address) v id writer t h ord (countable v id writer free) in
      let changes : Changes v.opened_nodes id (some u.entry) o.after.opened_nodes =
        λ j. o.changes j ∙ ap (λ x. if id == j then x.2 else find v.opened_nodes j) u.opens in
      record {
        entry = u.entry;
        after = o.after;
        is = o.is ∙ ap (λ x. (x.0, x.1, o.after)) u.opens;
        numbered = u.numbered;
        here =
            changes id ∙ ap (λ b. if b then some u.entry else find v.opened_nodes id) (==_refl id);
        valid = valid_in v.fs o.after.fs id t h o.same;
        small = u.small;
        ordered = o.ordered;
        changes = changes;
        back = u.back;
      }

  -- Where the records of the inodes lie in a device that keeps its laws, and the list of opened inodes is
  -- in order, an inode with a number in range is opened, if there is memory and it has no other writer or
  -- none is asked for (and the count of handles has room for one more). Closing it then for the same writer
  -- returns OK, and the map from ids to opened inodes is as it was before.
  pub close-open :
      (address : ℕ) (v : Vfs D) (id writer : ℕ)
      → Table L nodes v.fs
      → Has v.fs id
      → Ordered 0 v.opened_nodes
      → FreeIn writer (find v.opened_nodes id)
      → (e : Entry) × (v1 v2 : Vfs D) × (open_inode api (some address) v id writer
          ≡ (ok, some e, v1))
        × (close api v1 e writer ≡ (ok, v2))
        × ((j : ℕ) → find v2.opened_nodes j ≡ find v.opened_nodes j)
  close-open address v id writer t h ord free =
      let o = opened address v id writer t h ord free in
      let c =
        close_refines api o.after o.entry o.entry writer
          (ap (λ i. id_is_valid o.after.fs i) o.numbered ∙ o.valid) o.ordered
          (ap (λ i. find o.after.opened_nodes i) o.numbered ∙ o.here) refl o.small in
      (
        o.entry,
        o.after,
        c.after,
        o.is,
        c.is,
        changed_back v.opened_nodes o.after.opened_nodes c.after.opened_nodes id _ _ o.changes
            (λ j.
              c.changes j
              ∙ ap (λ i. if i == j then closing writer o.entry else find o.after.opened_nodes j)
                  o.numbered)
            o.back,
      )
