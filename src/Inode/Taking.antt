-- ===== src/Inode/Taking.antt =====
-- The search for a free inode that marks it.
use Prim.Native.Nat.{bit_and, bit_or}
use whefs.Common.{
  ℕ, ◌+◌, ◌%◌, ◌<◌, ◌≡◌, ◌⊎◌, inl, inr, refl, ap, ◌∙◌, arith, Bool, true, false, some, ◌==◌,
  if◌then◌else◌, not, ltb, NoneFree, FirstFree,
}
use whefs.Rc.{ok, fs_full, id_bound}
use whefs.Bits.{byte_set, byte_get}
use whefs.Bits.Byte.{byte_entry}
use whefs.Device.{DevApi, DevLaws}
use whefs.Fs.{Fs, is_rw, has_flag, flag_used}
use whefs.Inode.{Inode, empty, flush}
use whefs.Inode.Record.{IsNarrow, stored_in}
use whefs.Inode.Place.{Same, Has, stored}
use whefs.Inode.Search.{taken, found, next_free}
use whefs.Inode.Table.{Table, Cached, used, put, inode_flush-Table}
use whefs.Inode.Free.{Searched, Outcome, scan_lem}

taken-IsNarrow : (now : ℕ) (n : Inode) → IsNarrow n → IsNarrow (taken now n)
unfolding byte_set
taken-IsNarrow now n w = record {
  id-lt = w.id-lt;
  flags-lt = (byte_entry n.flags 0 0 w.flags-lt (omega arith) (omega arith)).set-lt;
  first-lt = w.first-lt;
  size-lt = w.size-lt;
  mtime-lt = omega arith;
}

if_not : (b : Bool) → not b ≡ (if b then false else true)
if_not true = refl
if_not false = refl

taken-used : (now : ℕ) (n : Inode) → IsNarrow n → has_flag (taken now n).flags flag_used ≡ true
unfolding byte_set byte_get
taken-used now n w =
    if_not (bit_and (bit_or n.flags 1) 1 == 0)
    ∙ (byte_entry n.flags 0 0 w.flags-lt (omega arith) (omega arith)).set_lem

is_rw-Same : {D : Type 0} {fs fs' : Fs D} → Same fs fs' → is_rw fs' ≡ is_rw fs
unfolding is_rw
is_rw-Same k = ap (λ n. has_flag n 4) k.flags

module _ {D : Type 0} {api : DevApi D} (L : DevLaws api) where
  -- Where the search begins.
  abbrev pub start : Fs D → ℕ
  start fs = if ltb fs.unused_inode_start 2 then 2 else fs.unused_inode_start

  -- The hint is not a part of the table.
  hint-Table :
      (nodes : ℕ → Inode) (fs : Fs D) (i : ℕ)
      → Table L nodes fs
      → Table L nodes (record fs { unused_inode_start = i })
  unfolding stored
  hint-Table nodes fs i t = record {
    laid = record {
      ready = t.laid.ready;
      behind = t.laid.behind;
      sized = t.laid.sized;
      counted = t.laid.counted;
      room = t.laid.room;
    };
    on_disk = λ j h. t.on_disk j h;
    narrow = λ j h. t.narrow j h;
    numbered = λ j h. t.numbered j h;
    bits = t.bits;
    enough = t.enough;
  }

  start-client : (fs : Fs D) → 1 < start fs
  start-client fs = ground arith

  next_free_scans :
      (nodes : ℕ → Inode) (now rounds : ℕ) (fs : Fs D) (tgt : Inode) (m : Bool)
      → Table L nodes fs
      → Cached L nodes fs
      → 0 < rounds
      → fs.options.inode_count + 1 < start fs + rounds
      → Outcome L nodes now
          (record fs { unused_inode_start = start fs })
          (start fs)
          tgt
          m
          (next_free api now rounds fs tgt m)
  unfolding next_free
  next_free_scans nodes now rounds fs tgt m t c some_rounds enough =
      scan_lem L nodes now rounds (record fs { unused_inode_start = start fs }) (start fs) empty tgt
        m (hint-Table nodes fs (start fs) t) c (start-client fs) some_rounds enough

  found_marks :
      (now : ℕ) (fs fs' : Fs D) (n : Inode)
      → flush api fs (taken now n) ≡ (ok, fs')
      → found api now fs n true
        ≡ (ok, taken now n, record fs' { unused_inode_start = (n.id + 1) % id_bound })
  unfolding found
  found_marks now fs fs' n e =
      ap (λ q. (ok, taken now n, record q.1 { unused_inode_start = (n.id + 1) % id_bound })) e

  -- The inode that was taken, and what the filesystem is then.
  pub record Takes (nodes : ℕ → Inode) (fs fs' : Fs D) (n : Inode) : Type 0 where
    pub table : Table L (put nodes n) fs'
    pub cached : Cached L (put nodes n) fs'
    pub in_use : has_flag n.flags flag_used ≡ true
    pub hint : fs'.unused_inode_start ≡ n.id + 1

  takes :
      (nodes : ℕ → Inode) (now : ℕ) (fs after : Fs D) (j : ℕ)
      → Table L nodes fs
      → is_rw fs ≡ true
      → Searched L nodes now (record fs { unused_inode_start = start fs }) after
      → Has fs j
      → (fs' : Fs D) × (found api now after (stored_in empty (nodes j)) true
          ≡ (ok, taken now (stored_in empty (nodes j)), fs'))
        × Takes nodes fs fs' (taken now (stored_in empty (nodes j)))
  unfolding is_rw
  takes nodes now fs after j t m s h =
      let b = stored_in empty (nodes j) in
      let n = taken now b in
      let id : (nodes j).id ≡ j = t.numbered j h in
      let w : IsNarrow b = record {
        id-lt = (t.narrow j h).id-lt;
        flags-lt = (t.narrow j h).flags-lt;
        first-lt = (t.narrow j h).first-lt;
        size-lt = (t.narrow j h).size-lt;
        mtime-lt = (t.narrow j h).mtime-lt;
      } in
      let count = ap (λ o. o.inode_count) s.same.options in
      let f =
        inode_flush-Table L nodes after n s.table (is_rw-Same s.same ∙ m)
          (omega (arith, id, h.0), omega (arith, id, h.1, count)) (taken-IsNarrow now b w) in
      let hint : ℕ = (b.id + 1) % id_bound in
      (
        record f.0 { unused_inode_start = hint },
        found_marks now after f.0 b f.1,
        record {
          table = hint-Table (put nodes n) f.0 hint f.3;
          cached = f.4 s.cached;
          in_use = taken-used now b w;
          hint = omega (arith, id, h.1, t.laid.counted);
        },
      )

  -- On a writable filesystem, where the records of the inodes lie in a device that keeps its laws and the
  -- bitset, if it is loaded, agrees with them, the search for a free inode that marks it comes to an end
  -- with rounds for the inodes from the hint on. If there is an inode that is not in use from there on
  -- (behind the root), it gives the first of them, marked as in use and with the time; the table then has
  -- it so and the other inodes as they were, the bitset agrees with the table, and the hint is behind it.
  -- Otherwise it says that the filesystem is full, and the table is as it was.
  pub next_free-Takes :
      (nodes : ℕ → Inode) (now rounds : ℕ) (fs : Fs D) (tgt : Inode)
      → Table L nodes fs
      → Cached L nodes fs
      → is_rw fs ≡ true
      → 0 < rounds
      → fs.options.inode_count + 1 < start fs + rounds
      → (fs' : Fs D) × ((NoneFree (used nodes) (start fs) fs.options.inode_count
            × (next_free api now rounds fs tgt true ≡ some (fs_full, tgt, fs'))
            × Table L nodes fs'
            × (L.view fs'.dev ≡ L.view fs.dev))
          ⊎ ((j : ℕ) × FirstFree (used nodes) (start fs) fs.options.inode_count j
              × (next_free api now rounds fs tgt true
                  ≡ some (ok, taken now (stored_in empty (nodes j)), fs'))
              × Takes nodes fs fs' (taken now (stored_in empty (nodes j)))))
  next_free-Takes nodes now rounds fs tgt t c m some_rounds enough =
      let o = next_free_scans nodes now rounds fs tgt true t c some_rounds enough in
      elim o.is [
        | inl full ↦ (o.after, inl (full.0, full.1, o.searched.table, o.searched.disk))
        | inr there ↦
            let first = there.1 in
            let k =
              takes nodes now fs o.after there.0 t m o.searched
                (omega (arith, start-client fs, first.from), first.until) in
            (k.0, inr (there.0, first, there.2 ∙ ap some k.1, k.2))
      ]
