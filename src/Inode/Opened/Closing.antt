-- ===== src/Inode/Opened/Closing.antt =====
-- Closing an inode that is opened, and closing what was opened before.
use whefs.Common.{
  ℕ, ◌+◌, ◌-◌, ◌%◌, ◌<◌, ◌≡◌, inl, inr, refl, ap, ◌∙◌, arith, Bool, true, false, Option, none, some,
  List, ◌==◌, if◌then◌else◌, ◌&&◌, not, Bool-cases, ==_refl,
}
use whefs.Rc.{Rc, ok, arg_error, internal_error}
use whefs.Device.{DevApi}
use whefs.Fs.{Fs}
use whefs.Inode.{Inode, id_is_valid}
use whefs.Inode.Opened.{Entry, Vfs, count_bound, find, store, unlink, released, close_writer, close}
use whefs.Inode.Opened.Lists.{
  Ordered, find-id, find-count, find-store, find-unlink, store-Ordered, unlink-Ordered,
}
use whefs.Inode.Opened.Sharing.{Changes}

-- What closing leaves of an entry.
unfoldable pub closing : ℕ → Entry → Option Entry
closing writer e =
    let own : Bool = not (e.inode.writer == 0) && e.inode.writer == writer in
    if e.inode.open_count == 1
    then none
    else some (record e {
      inode = record e.inode {
        writer = if own then 0 else e.inode.writer;
        open_count = e.inode.open_count - 1;
      };
    })

-- The outcome of closing an entry.
pub record Closes {D : Type 0} (v : Vfs D) (id : ℕ) (o : Option Entry) (fs : Fs D) (r : Rc × Vfs D)
    : Type 0 where
  pub after : Vfs D
  pub is : r ≡ (ok, after)
  pub changes : Changes v.opened_nodes id o after.opened_nodes
  pub ordered : Ordered 0 after.opened_nodes
  pub disk : after.fs ≡ fs

module _ {D : Type 0} (api : DevApi D) where
  -- The rest of closing, after the entry was found to be the one.
  left : Vfs D → ℕ → Inode × Fs D → Vfs D
  left v id (np, fs) = record {
    fs = fs;
    opened_nodes =
        if (released np).open_count == 0
        then unlink v.opened_nodes id
        else store v.opened_nodes id (released np);
  }

  close_calls :
      (v : Vfs D) (src li : Entry) (writer : ℕ)
      → id_is_valid v.fs src.inode.id ≡ true
      → find v.opened_nodes src.inode.id ≡ some li
      → li.address ≡ src.address
      → close api v src writer ≡ (ok, left v src.inode.id (close_writer api v.fs li.inode writer))
  unfolding close left
  close_calls v src li writer valid f e =
      let rest : Entry → Bool → Rc × Vfs D = λ x same.
        if not same
        then (internal_error, v)
        else (ok, left v src.inode.id (close_writer api v.fs x.inode writer)) in
      let from : Bool → Option Entry → Rc × Vfs D = λ b o.
        if not b
        then (arg_error, v)
        else elim o [ none ↦ (arg_error, v) | some x ↦ rest x (x.address == src.address) ] in
      ap (λ b. from b (find v.opened_nodes src.inode.id)) valid
      ∙ ap (λ o. from true o) f
      ∙ ap (λ b. rest li b) (ap (λ a. a == src.address) e ∙ ==_refl src.address)

  -- The inode that is closed, by whether it is its writer that does it.
  writer_gone :
      (fs : Fs D) (np : Inode) (writer : ℕ)
      → (close_writer api fs np writer).0 ≡ record np {
        writer = if not (np.writer == 0) && np.writer == writer then 0 else np.writer;
      }
  unfolding close_writer
  writer_gone fs np writer = elim (Bool-cases (not (np.writer == 0) && np.writer == writer)) [
    | inl own ↦ rw own refl
    | inr other ↦ rw other refl
  ]

  -- The list that closing leaves, by whether this was the last handle.
  without : (last : Bool) (list : List Entry) (id : ℕ) (n : Inode) → List Entry
  without last list id n = if last then unlink list id else store list id n

  without_lem :
      (last : Bool) (list : List Entry) (id : ℕ) (n : Inode) (li : Entry)
      → Ordered 0 list
      → find list id ≡ some li
      → n.id ≡ id
      → (last ≡ false → 0 < n.open_count)
      → Changes list id
          (if last then none else some (record li { inode = n }))
          (without last list id n)
        × Ordered 0 (without last list id n)
  unfolding without
  without_lem true list id n li ord f num c =
      (λ j. find-unlink 0 list id j ord, unlink-Ordered 0 list id ord)
  without_lem false list id n li ord f num c =
      (λ j. find-store 0 list id li n j ord f num, store-Ordered 0 list id n ord num (c refl))

  -- On a list of opened inodes in order, closing an inode that is opened, through the pointer that opening
  -- gave, returns OK. In the map from ids to opened inodes it changes the entry of that inode alone: it is
  -- gone with its last handle, and otherwise has one handle less, and no writer if its writer closed it.
  -- The filesystem is as it was, or as the flush leaves it that the writer does.
  pub close_refines :
      (v : Vfs D) (src li : Entry) (writer : ℕ)
      → id_is_valid v.fs src.inode.id ≡ true
      → Ordered 0 v.opened_nodes
      → find v.opened_nodes src.inode.id ≡ some li
      → li.address ≡ src.address
      → li.inode.open_count < count_bound
      → Closes v src.inode.id
          (closing writer li)
          (close_writer api v.fs li.inode writer).1
          (close api v src writer)
  unfolding closing left without
  close_refines v src li writer valid ord f e small =
      let w = close_writer api v.fs li.inode writer in
      let id : ℕ = src.inode.id in
      let gone = writer_gone v.fs li.inode writer in
      let some_count = find-count 0 v.opened_nodes id li ord f in
      let own : Bool = not (li.inode.writer == 0) && li.inode.writer == writer in
      let n : Inode = record li.inode {
        writer = if own then 0 else li.inode.writer;
        open_count = li.inode.open_count - 1;
      } in
      let less : (li.inode.open_count + count_bound - 1) % count_bound ≡ li.inode.open_count - 1 =
        omega (arith, some_count, small) in
      let rel : released w.0 ≡ n =
        ap (λ x. released x) gone ∙ ap (λ k. record n { open_count = k }) less in
      let last : Bool = li.inode.open_count == 1 in
      let ended : (n.open_count == 0) ≡ last = ground (arith, some_count) in
      let to : left v id w ≡ record { fs = w.1; opened_nodes = without last v.opened_nodes id n } =
        ap
          (λ x. record v {
            fs = w.1;
            opened_nodes = without (x.open_count == 0) v.opened_nodes id x;
          })
          rel
        ∙ ap (λ b. record v { fs = w.1; opened_nodes = without b v.opened_nodes id n }) ended in
      let l =
        without_lem last v.opened_nodes id n li ord f (find-id v.opened_nodes id li f)
          (λ more. ground (arith, more, some_count)) in
      record {
        after = record { fs = w.1; opened_nodes = without last v.opened_nodes id n };
        is = close_calls v src li writer valid f e ∙ ap (λ x. (ok, x)) to;
        changes = l.0;
        ordered = l.1;
        disk = refl;
      }
