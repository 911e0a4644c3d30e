-- ===== src/Inode/Table.antt =====
-- The table of the inodes on the disk, and the bitset of those in use.
use whefs.Common.{
  ℕ, ◌<◌, ◌≡◌, ◌≢◌, inl, inr, ap, sym, ◌∙◌, subst, arith, Bool, true, ◌==◌, if◌then◌else◌, length,
  Bool-cases, ==_iff,
}
use whefs.Rc.{ok}
use whefs.Bits.Laws.{IsValid}
use whefs.Device.{DevApi, DevLaws}
use whefs.Fs.{Fs, is_rw, has_flag, flag_used, bcache_is_used}
use whefs.Fs.Bcache.{Notes, set_used-Notes, unset_used-Notes}
use whefs.Inode.{Inode, encode, id_is_valid, update_used, flush, id_read}
use whefs.Inode.Record.{IsNarrow, stored_in}
use whefs.Inode.Place.{
  Same, Same-trans, moved-Same, update_used-Same, update_used_dev, Has, IsLaid, stored, place_lem,
  stored_lem, Same-IsLaid,
}
use whefs.Inode.Flush.{inode_flush, id_read_lem}

-- Whether an inode of the table is in use.
abbrev pub used : (ℕ → Inode) → ℕ → Bool
used nodes j = has_flag (nodes j).flags flag_used

-- The inodes with one in the place of another.
abbrev pub put : (ℕ → Inode) → Inode → ℕ → Inode
put nodes n j = if n.id == j then n else nodes j

-- What holds of all inodes and of the new one holds of all inodes after that.
pub put_all :
    (P : Inode → Type 0) (nodes : ℕ → Inode) (n : Inode) (j : ℕ)
    → (n.id ≡ j → P n)
    → (n.id ≢ j → P (nodes j))
    → P (put nodes n j)
put_all P nodes n j here there = elim (Bool-cases (n.id == j)) [
  | inl same ↦ subst P (sym (ap (λ t. if t then n else nodes j) same)) (here ((==_iff _ _).0 same))
  | inr other ↦
      subst P (sym (ap (λ t. if t then n else nodes j) other))
        (there (λ e. ground (arith, other, e)))
]

update-Notes_valid :
    {D : Type 0} (fs : Fs D) (n : Inode)
    → id_is_valid fs n.id ≡ true
    → IsValid fs.used_inodes
    → n.id < fs.used_inodes.sz_bits
    → Notes fs.used_inodes n.id (has_flag n.flags flag_used) (update_used fs n).used_inodes
unfolding update_used
update-Notes_valid fs n valid b small = elim (Bool-cases (has_flag n.flags flag_used)) [
  | inl is_used ↦ rw (valid, is_used) (set_used-Notes fs.used_inodes n.id b small)
  | inr is_free ↦ rw (valid, is_free) (unset_used-Notes fs.used_inodes n.id b small)
]

module _ {D : Type 0} {api : DevApi D} (L : DevLaws api) where
  -- The records on the disk are those of the inodes, and the bitset has a bit for each.
  pub record Table (nodes : ℕ → Inode) (fs : Fs D) : Type 0 where
    pub laid : IsLaid L fs
    pub on_disk : (j : ℕ) → Has fs j → stored L fs j ≡ encode (nodes j)
    pub narrow : (j : ℕ) → Has fs j → IsNarrow (nodes j)
    pub numbered : (j : ℕ) → Has fs j → (nodes j).id ≡ j
    pub bits : IsValid fs.used_inodes
    pub enough : fs.options.inode_count < fs.used_inodes.sz_bits

  -- The bitset has the used inodes, once it is loaded. The root, with number 1, is left out.
  abbrev pub Cached : (ℕ → Inode) → Fs D → Type 0
  Cached nodes fs =
      fs.i_loaded ≡ true
      → (j : ℕ) → Has fs j
      → 1 < j
      → bcache_is_used fs.used_inodes j ≡ used nodes j

  pub update-Notes :
      (nodes : ℕ → Inode) (fs : Fs D) (n : Inode)
      → Table nodes fs
      → Has fs n.id
      → Notes fs.used_inodes n.id (has_flag n.flags flag_used) (update_used fs n).used_inodes
  update-Notes nodes fs n t h =
      update-Notes_valid fs n (place_lem L fs n.id t.laid h).valid t.bits
        (omega (arith, h.1, t.enough))

  -- The table after something was made known and the device has moved on.
  pub known-Table :
      (nodes : ℕ → Inode) (fs fs' : Fs D) (id : ℕ) (x : Bool)
      → Table nodes fs
      → Same fs fs'
      → L.Valid fs'.dev
      → L.view fs'.dev ≡ L.view fs.dev
      → Notes fs.used_inodes id x fs'.used_inodes
      → Table nodes fs'
  known-Table nodes fs fs' id x t k v e n =
      let count = ap (λ o. o.inode_count) k.options in
      let has : (j : ℕ) → Has fs' j → Has fs j = λ j h. (h.0, omega (arith, h.1, count)) in
      record {
        laid = Same-IsLaid L k t.laid v (ap length e);
        on_disk = λ j h. stored_lem L j k e ∙ t.on_disk j (has j h);
        narrow = λ j h. t.narrow j (has j h);
        numbered = λ j h. t.numbered j (has j h);
        bits = n.valid;
        enough = omega (arith, t.enough, n.size, count);
      }

  -- What a read of an inode of the table does.
  pub record Reads (nodes : ℕ → Inode) (fs : Fs D) (id : ℕ) (fs' : Fs D) : Type 0 where
    pub same : Same fs fs'
    pub table : Table nodes fs'
    pub disk : L.view fs'.dev ≡ L.view fs.dev
    pub notes : Notes fs.used_inodes id (used nodes id) fs'.used_inodes

  pub id_read-Reads :
      (nodes : ℕ → Inode) (fs : Fs D) (id : ℕ) (tgt : Inode)
      → Table nodes fs
      → Has fs id
      → (fs' : Fs D) × (id_read api fs id tgt ≡ (ok, stored_in tgt (nodes id), fs'))
        × Reads nodes fs id fs'
  unfolding id_is_valid
  id_read-Reads nodes fs id tgt t h =
      let q = id_read_lem L fs id tgt (nodes id) t.laid h (t.narrow id h) (t.on_disk id h) in
      let n = stored_in tgt (nodes id) in
      let mid = record fs { dev = q.0 } in
      let fs' = update_used mid n in
      let num = t.numbered id h in
      let dev = update_used_dev mid n in
      let k = Same-trans (moved-Same fs q.0) (update_used-Same mid n) in
      let view = ap (λ d. L.view d) dev ∙ q.3 in
      let valid : id_is_valid mid n.id ≡ true =
        ap (λ i. id_is_valid fs i) num ∙ (place_lem L fs id t.laid h).valid in
      let notes : Notes fs.used_inodes id (used nodes id) fs'.used_inodes =
        subst (λ i. Notes fs.used_inodes i (used nodes id) fs'.used_inodes) num
          (update-Notes_valid mid n valid t.bits (omega (arith, num, h.1, t.enough))) in
      (
        fs',
        q.1,
        record {
          same = k;
          table =
              known-Table nodes fs fs' id _ t k (subst (λ d. L.Valid d) (sym dev) q.2) view notes;
          disk = view;
          notes = notes;
        },
      )

  -- A bitset that agrees with the inodes agrees with them after a read.
  pub Reads-Cached :
      (nodes : ℕ → Inode) (fs fs' : Fs D) (id : ℕ)
      → Table nodes fs
      → Reads nodes fs id fs'
      → Cached nodes fs
      → Cached nodes fs'
  Reads-Cached nodes fs fs' id t r c loaded j h client =
      let h' : Has fs j = (h.0, omega (arith, h.1, ap (λ o. o.inode_count) r.same.options)) in
      r.notes.reads j (omega (arith, h'.1, t.enough)) ∙ elim (Bool-cases (id == j)) [
        | inl same ↦
            ap (λ b. if b then used nodes id else bcache_is_used fs.used_inodes j) same
            ∙ ap (λ i. used nodes i) ((==_iff _ _).0 same)
        | inr other ↦
            ap (λ b. if b then used nodes id else bcache_is_used fs.used_inodes j) other
            ∙ c (sym r.same.i_loaded ∙ loaded) j h' client
      ]

  -- On a writable filesystem, where the records of the inodes lie in a device that keeps its laws and there
  -- is a bitset with a bit for each, a flush of an inode with a number in range and members of their widths
  -- returns OK. Then the table has the inode in its place and the others as they were, and the bitset, if
  -- it agreed with the table, agrees with it again.
  pub inode_flush-Table :
      (nodes : ℕ → Inode) (fs : Fs D) (n : Inode)
      → Table nodes fs
      → is_rw fs ≡ true
      → Has fs n.id
      → IsNarrow n
      → (fs' : Fs D) × (flush api fs n ≡ (ok, fs'))
        × Same fs fs'
        × Table (put nodes n) fs'
        × (Cached nodes fs → Cached (put nodes n) fs')
  inode_flush-Table nodes fs n t m h w =
      let f = inode_flush L fs n t.laid m h in
      let fs' = record (update_used fs n) { dev = f.0 } in
      let k = Same-trans (update_used-Same fs n) (moved-Same (update_used fs n) f.0) in
      let x = update-Notes nodes fs n t h in
      let count = ap (λ o. o.inode_count) k.options in
      let has : (j : ℕ) → Has fs' j → Has fs j = λ j h'. (h'.0, omega (arith, h'.1, count)) in
      (
        fs',
        f.1,
        k,
        record {
          laid = f.2;
          on_disk = λ j h'.
              put_all (λ c. stored L fs' j ≡ encode c) nodes n j
                (λ same. ap (λ i. stored L fs' i) (sym same) ∙ f.4)
                (λ other. f.5 j (has j h') (λ e. other (sym e)) ∙ t.on_disk j (has j h'));
          narrow = λ j h'.
              put_all (λ c. IsNarrow c) nodes n j (λ same. w) (λ other. t.narrow j (has j h'));
          numbered = λ j h'.
              put_all (λ c. c.id ≡ j) nodes n j (λ same. same) (λ other. t.numbered j (has j h'));
          bits = x.valid;
          enough = omega (arith, t.enough, x.size, count);
        },
        λ c loaded j h' client.
            x.reads j (omega (arith, (has j h').1, t.enough)) ∙ elim (Bool-cases (n.id == j)) [
              | inl same ↦
                  ap
                    (λ b. if b then has_flag n.flags flag_used else bcache_is_used fs.used_inodes j)
                    same
                  ∙ ap (λ b. has_flag (if b then n else nodes j).flags flag_used) (sym same)
              | inr other ↦
                  ap
                    (λ b. if b then has_flag n.flags flag_used else bcache_is_used fs.used_inodes j)
                    other
                  ∙ c (sym k.i_loaded ∙ loaded) j (has j h') client
                  ∙ ap (λ b. has_flag (if b then n else nodes j).flags flag_used) (sym other)
            ],
      )
