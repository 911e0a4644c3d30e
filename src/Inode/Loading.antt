-- ===== src/Inode/Loading.antt =====
-- Loading the bitset of inodes from the disk.
use whefs.Common.{
  ℕ, zero, suc, ◌+◌, ◌%◌, ◌<◌, ◌≡◌, inl, inr, refl, ap, sym, ◌∙◌, subst, arith, Bool, true, false,
  Option, some, ◌==◌, if◌then◌else◌, ltb, Bool-cases, ltb-cases, ==_iff,
}
use whefs.Rc.{Rc, ok, id_bound}
use whefs.Bits.{Whbits}
use whefs.Device.{DevApi, DevLaws}
use whefs.Fs.{Fs, bcache_is_used}
use whefs.Fs.Bcache.{Notes, set_used-Notes, unset_used-Notes}
use whefs.Inode.{Inode, empty, update_used, id_read}
use whefs.Inode.Record.{stored_in}
use whefs.Inode.Place.{
  Same, Same-trans, moved-Same, stored, update_used-Same, update_used_dev, Has, Same-Has,
}
use whefs.Inode.Search.{note, inode_cache_loop, inode_cache_load}
use whefs.Inode.Table.{Table, Cached, Reads, used, id_read-Reads, known-Table, update-Notes}

-- The same bit noted twice.
Notes-twice :
    (a b c : Whbits) (id : ℕ) (x : Bool) → Notes a id x b → Notes b id x c → Notes a id x c
Notes-twice a b c id x n m = record {
  valid = m.valid;
  size = m.size ∙ n.size;
  reads = λ j h.
      let m' = m.reads j (omega (arith, h, n.size)) in
      let n' = n.reads j h in ground (arith, m', n');
}

note-Same :
    {D : Type 0} (api : DevApi D) (fs : Fs D) (id : ℕ) (n : Inode) → Same fs (note api fs id n)
note-Same api fs id n = record {
  flags = ground arith;
  offsets = ground arith;
  sizes = ground arith;
  options = ground arith;
  used_blocks = ground arith;
  b_loaded = ground arith;
  unused_block_start = ground arith;
  i_loaded = ground arith;
}

note_dev :
    {D : Type 0} (api : DevApi D) (fs : Fs D) (id : ℕ) (n : Inode) → (note api fs id n).dev ≡ fs.dev
note_dev api fs id n = ground arith

module _ {D : Type 0} {api : DevApi D} (L : DevLaws api) (nodes : ℕ → Inode) where
  -- What was read is noted once more, in a filesystem with the same device.
  again :
      (fs mid fs' : Fs D) (id : ℕ)
      → Reads L nodes fs id mid
      → Same mid fs'
      → fs'.dev ≡ mid.dev
      → Notes mid.used_inodes id (used nodes id) fs'.used_inodes
      → Reads L nodes fs id fs'
  again fs mid fs' id r k e n =
      let view = ap (λ d. L.view d) e in
      record {
        same = Same-trans r.same k;
        table =
            known-Table L nodes mid fs' id (used nodes id) r.table k
              (subst (λ d. L.Valid d) (sym e) r.table.laid.ready) view n;
        disk = view ∙ r.disk;
        notes = Notes-twice _ _ _ id (used nodes id) r.notes n;
      }

  -- The inode that was read is made known again.
  pub updated_again :
      (fs mid : Fs D) (id : ℕ) (tgt : Inode)
      → Has fs id
      → (nodes id).id ≡ id
      → Reads L nodes fs id mid
      → Reads L nodes fs id (update_used mid (stored_in tgt (nodes id)))
  updated_again fs mid id tgt h num r =
      let n = stored_in tgt (nodes id) in
      let h' = Same-Has r.same id h in
      again fs mid (update_used mid n) id r (update_used-Same mid n) (update_used_dev mid n) (
        subst (λ i. Notes mid.used_inodes i (used nodes id) (update_used mid n).used_inodes) num
          (update-Notes L nodes mid n r.table (omega (arith, num, h'.0), omega (arith, num, h'.1))))

  noted_again :
      (fs mid : Fs D) (id : ℕ) (tgt : Inode)
      → Has fs id
      → Reads L nodes fs id mid
      → Reads L nodes fs id (note api mid id (stored_in tgt (nodes id)))
  noted_again fs mid id tgt h r =
      let n = stored_in tgt (nodes id) in
      let small : id < mid.used_inodes.sz_bits =
        omega (arith, (Same-Has r.same id h).1, r.table.enough) in
      again fs mid (note api mid id n) id r (note-Same api mid id n) (note_dev api mid id n)
        (elim (Bool-cases (used nodes id)) [
          | inl t ↦ rw t (set_used-Notes mid.used_inodes id r.table.bits small)
          | inr f ↦ rw f (unset_used-Notes mid.used_inodes id r.table.bits small)
        ])

  -- The bits below an id are right.
  abbrev Noted : Fs D → ℕ → Type 0
  Noted fs i = (j : ℕ) → Has fs j → 1 < j → j < i → bcache_is_used fs.used_inodes j ≡ used nodes j

  Noted-next :
      (fs fs' : Fs D) (i : ℕ)
      → Table L nodes fs
      → Reads L nodes fs i fs'
      → Noted fs i
      → Noted fs' (i + 1)
  Noted-next fs fs' i t r c j h client lt =
      let h' : Has fs j = (h.0, omega (arith, h.1, ap (λ o. o.inode_count) r.same.options)) in
      r.notes.reads j (omega (arith, h'.1, t.enough)) ∙ elim (Bool-cases (i == j)) [
        | inl same ↦
            ap (λ b. if b then used nodes i else bcache_is_used fs.used_inodes j) same
            ∙ ap (λ i. used nodes i) ((==_iff _ _).0 same)
        | inr other ↦
            ap (λ b. if b then used nodes i else bcache_is_used fs.used_inodes j) other
            ∙ c j h' client (ground (arith, lt, other))
      ]

  abbrev next_round : ℕ → Fs D → ℕ → Bool → Rc × Inode × Fs D → Option (Rc × Fs D)
  next_round rounds fs id full (rc, n, fs') =
      if full then some (ok, record fs { i_loaded = true }) else elim rc [
        | ok ↦ inode_cache_loop api rounds (note api fs' id n) ((id + 1) % id_bound) n
        | other ↦ some (other, fs')
      ]

  loop-round :
      (rounds : ℕ) (fs : Fs D) (id : ℕ) (n : Inode)
      → inode_cache_loop api (suc rounds) fs id n
        ≡ next_round rounds fs id (ltb fs.options.inode_count id) (id_read api fs id n)
  unfolding inode_cache_loop
  loop-round rounds fs id n = refl

  -- The filesystem with its bitset loaded.
  abbrev pub loaded : Fs D → Fs D
  loaded fs = record fs { i_loaded = true }

  pub record Loads (fs mid : Fs D) : Type 0 where
    pub same : Same fs mid
    pub table : Table L nodes (loaded mid)
    pub cached : Cached L nodes (loaded mid)
    pub disk : L.view mid.dev ≡ L.view fs.dev

  loaded-Table : (fs : Fs D) → Table L nodes fs → Table L nodes (loaded fs)
  unfolding stored
  loaded-Table fs t = record {
    laid = record {
      ready = t.laid.ready;
      behind = t.laid.behind;
      sized = t.laid.sized;
      counted = t.laid.counted;
      room = t.laid.room;
    };
    on_disk = λ j h. t.on_disk j h;
    narrow = λ j h. t.narrow j h;
    numbered = λ j h. t.numbered j h;
    bits = t.bits;
    enough = t.enough;
  }

  loop_lem :
      (rounds : ℕ) (fs : Fs D) (i : ℕ) (n : Inode)
      → Table L nodes fs
      → 0 < i
      → Noted fs i
      → fs.options.inode_count + 1 < rounds + i
      → 0 < rounds
      → (mid : Fs D) × (inode_cache_loop api rounds fs i n ≡ some (ok, loaded mid)) × Loads fs mid
  loop_lem zero fs i n t p c enough r = absurd (omega (arith, r))
  loop_lem (suc rounds) fs i n t p c enough r = elim (ltb-cases fs.options.inode_count i) [
    | inl past ↦
        let full : ltb fs.options.inode_count i ≡ true = ground (arith, past) in
        (
          fs,
          loop-round rounds fs i n ∙ ap (λ b. next_round rounds fs i b (id_read api fs i n)) full,
          record {
            same = moved-Same fs fs.dev;
            table = loaded-Table fs t;
            cached = λ l j h client. c j h client (omega (arith, past, h.1));
            disk = refl;
          },
        )
    | inr left ↦
        let inside : ltb fs.options.inode_count i ≡ false = ground (arith, left) in
        let q = id_read-Reads L nodes fs i n t (p, left) in
        let n' = stored_in n (nodes i) in
        let fs' = note api q.0 i n' in
        let again = noted_again fs q.0 i n (p, left) q.2 in
        let next : (i + 1) % id_bound ≡ i + 1 = omega (arith, left, t.laid.counted) in
        let count = ap (λ o. o.inode_count) again.same.options in
        let rest =
          loop_lem rounds fs' (i + 1) n' again.table (omega arith) (Noted-next fs fs' i t again c)
            (omega (arith, enough, count)) (omega (arith, left, enough)) in
        (
          rest.0,
          loop-round rounds fs i n
              ∙ ap (λ b. next_round rounds fs i b (id_read api fs i n)) inside
              ∙ ap (λ x. next_round rounds fs i false x) q.1
              ∙ ap (λ k. inode_cache_loop api rounds fs' k n') next
              ∙ rest.1,
          record {
            same = Same-trans again.same rest.2.same;
            table = rest.2.table;
            cached = rest.2.cached;
            disk = rest.2.disk ∙ again.disk;
          },
        )
  ]

  -- Where the records of the inodes lie in a device that keeps its laws, and there is a bitset with a bit
  -- for each, loading the bitset comes to an end with rounds for all inodes, and returns OK. Whatever was
  -- in the bitset before, it then has for every inode but the root whether it is used on the disk. Nothing
  -- else has changed but the mark that the bitset is loaded and the hint; the disk is as it was.
  pub inode_cache_load_lem :
      (rounds : ℕ) (fs : Fs D)
      → Table L nodes fs
      → fs.options.inode_count < rounds
      → (mid : Fs D) × (inode_cache_load api rounds fs ≡ some (ok, loaded mid)) × Loads fs mid
  unfolding inode_cache_load
  inode_cache_load_lem rounds fs t enough =
      loop_lem rounds fs 2 empty t (omega arith)
        (λ j h client lt. absurd (omega (arith, client, lt))) (omega (arith, enough))
        (omega (arith, enough))
