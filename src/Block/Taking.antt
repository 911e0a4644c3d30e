-- ===== src/Block/Taking.antt =====
-- The search for a free block as a whole, without the mark and with it.
use whefs.Common.{
  ℕ, ◌+◌, ◌%◌, ◌<◌, ◌≡◌, ◌⊎◌, inl, inr, refl, ap, ◌∙◌, subst, arith, Bool, true, false, Option,
  some, ◌==◌, if◌then◌else◌,
}
use whefs.Rc.{Rc, ok, fs_full, id_bound}
use whefs.Device.{DevApi, DevLaws}
use whefs.Fs.{Fs, is_rw, flag_used}
use whefs.Block.{Block, empty, flush}
use whefs.Block.Alloc.{found, next_free}
use whefs.Block.Place.{Kept, header_lem, contents_lem, Has}
use whefs.Block.Flush.{Others}
use whefs.Block.Table.{used, Table, put}
use whefs.Common.{NoneFree, FirstFree}
use whefs.Block.Free.{Searched, Outcome, scan_lem}
use whefs.Block.Marks.{Kept-is_rw, flush-Table, hint-Table}

module _ {D : Type 0} {api : DevApi D} (L : DevLaws api) where
  -- Where the search begins.
  abbrev pub start : Fs D → ℕ
  start fs = if fs.unused_block_start == 0 then 1 else fs.unused_block_start

  next_free_scans :
      (blocks : ℕ → Block) (rounds : ℕ) (fs : Fs D) (tgt : Block) (m : Bool)
      → Table L blocks fs
      → 0 < rounds
      → fs.options.block_count + 1 < start fs + rounds
      → Outcome L blocks
          (record fs { unused_block_start = start fs })
          (start fs)
          tgt
          m
          (next_free api rounds fs tgt m)
  unfolding next_free
  next_free_scans blocks rounds fs tgt m t some_rounds enough =
      scan_lem L blocks rounds (record fs { unused_block_start = start fs }) (start fs) empty tgt m
        (hint-Table L blocks fs (start fs) t) (ground arith) some_rounds enough

  -- The search without the mark.
  abbrev pub Finds : (ℕ → Block) → Fs D → Block → Option (Rc × Block × Fs D) → Type 0
  Finds blocks fs tgt r =
      (fs' : Fs D) × Table L blocks fs'
      × (L.view fs'.dev ≡ L.view fs.dev)
      × ((NoneFree (used blocks) (start fs) fs.options.block_count × (r ≡ some (fs_full, tgt, fs')))
          ⊎ ((j : ℕ) × FirstFree (used blocks) (start fs) fs.options.block_count j
              × (r ≡ some (ok, blocks j, fs'))))

  -- With rounds enough for the blocks from the hint on, the search for a free block comes to an end. It
  -- leaves the disk as it was and the bitset in agreement with it, and gives the first block from the hint
  -- on that is not in use, or says that the filesystem is full when there is none.
  pub next_free-FirstFree :
      (blocks : ℕ → Block) (rounds : ℕ) (fs : Fs D) (tgt : Block)
      → Table L blocks fs
      → 0 < rounds
      → fs.options.block_count + 1 < start fs + rounds
      → Finds blocks fs tgt (next_free api rounds fs tgt false)
  unfolding found
  next_free-FirstFree blocks rounds fs tgt t some_rounds enough =
      let o = next_free_scans blocks rounds fs tgt false t some_rounds enough in
      (
        o.after,
        o.searched.table,
        o.searched.disk,
        elim o.is [ inl full ↦ inl full | inr there ↦ inr (there.0, there.1, there.2) ],
      )

  -- The block that a search marks.
  abbrev pub marked : Block → Block
  marked b = record b { flags = flag_used }

  -- The search with the mark.
  abbrev pub Takes : (ℕ → Block) → Fs D → Block → Option (Rc × Block × Fs D) → Type 0
  Takes blocks fs tgt r =
      (fs' : Fs D) × ((NoneFree (used blocks) (start fs) fs.options.block_count
          × (r ≡ some (fs_full, tgt, fs'))
          × Table L blocks fs'
          × (L.view fs'.dev ≡ L.view fs.dev))
        ⊎ ((j : ℕ) × FirstFree (used blocks) (start fs) fs.options.block_count j
            × (r ≡ some (ok, marked (blocks j), fs'))
            × Table L (put blocks (marked (blocks j))) fs'
            × Others L fs j fs'
            × (fs'.unused_block_start ≡ j + 1)))

  found_marks :
      (fs fs' : Fs D) (b : Block)
      → flush api fs (marked b) ≡ (ok, fs')
      → found api fs b true
        ≡ (ok, marked b, record fs' { unused_block_start = (b.id + 1) % id_bound })
  unfolding found
  found_marks fs fs' b e =
      ap (λ q. (ok, marked b, record q.1 { unused_block_start = (b.id + 1) % id_bound })) e

  Others-from :
      (blocks : ℕ → Block) (fs after fs' : Fs D) (j n : ℕ)
      → Searched L blocks fs after
      → Others L after j fs'
      → Others L fs j (record fs' { unused_block_start = n })
  Others-from blocks fs after fs' j n s o =
      let count = ap (λ o. o.block_count) s.kept.options in
      let k : Kept fs' (record fs' { unused_block_start = n }) = record {
        flags = refl;
        offsets = refl;
        sizes = refl;
        options = refl;
        b_loaded = refl;
      } in
      record {
        headers = λ i h ne.
            header_lem L i k refl
            ∙ o.headers i (h.0, omega (arith, h.1, count)) ne
            ∙ header_lem L i s.kept s.disk;
        bodies = λ i h ne.
            contents_lem L i k refl
            ∙ o.bodies i (h.0, omega (arith, h.1, count)) ne
            ∙ contents_lem L i s.kept s.disk;
      }

  start-pos : (fs : Fs D) → 0 < start fs
  start-pos fs = ground arith

  -- The block that was found, marked.
  takes :
      (blocks : ℕ → Block) (fs after : Fs D) (j : ℕ)
      → Table L blocks fs
      → is_rw fs ≡ true
      → Searched L blocks fs after
      → Has L fs j
      → (fs' : Fs D) × (found api after (blocks j) true ≡ (ok, marked (blocks j), fs'))
        × Table L (put blocks (marked (blocks j))) fs'
        × Others L fs j fs'
        × (fs'.unused_block_start ≡ j + 1)
  takes blocks fs after j t rw_mode s h =
      let count = ap (λ o. o.block_count) s.kept.options in
      let id : (blocks j).id ≡ j = t.numbered j h in
      let n = t.narrow j h in
      let f =
        flush-Table L blocks after (marked (blocks j)) s.table (Kept-is_rw s.kept ∙ rw_mode)
          (omega (arith, id, h.0), omega (arith, id, h.1, count))
          (record { id-lt = n.id-lt; next-lt = n.next-lt; flags-lt = omega arith }) in
      let m : ℕ = ((blocks j).id + 1) % id_bound in
      (
        record f.0 { unused_block_start = m },
        found_marks after f.0 (blocks j) f.1,
        hint-Table L (put blocks (marked (blocks j))) f.0 m f.4,
        subst (λ i. Others L fs i (record f.0 { unused_block_start = m })) id
            (Others-from blocks fs after f.0 (blocks j).id m s f.3),
        omega (arith, id, h.1, t.laid.counted),
      )

  -- On a writable filesystem the search that marks gives the same block, now in use on the disk and
  -- in the table; every other block and its data are as they were, and the next search begins behind it. It
  -- comes to an end too, and changes nothing on the disk when the filesystem is full.
  pub next_free_marks :
      (blocks : ℕ → Block) (rounds : ℕ) (fs : Fs D) (tgt : Block)
      → Table L blocks fs
      → is_rw fs ≡ true
      → 0 < rounds
      → fs.options.block_count + 1 < start fs + rounds
      → Takes blocks fs tgt (next_free api rounds fs tgt true)
  next_free_marks blocks rounds fs tgt t rw_mode some_rounds enough =
      let o = next_free_scans blocks rounds fs tgt true t some_rounds enough in
      let k = o.searched.kept in
      let s : Searched L blocks fs o.after = record {
        kept = record {
          flags = k.flags;
          offsets = k.offsets;
          sizes = k.sizes;
          options = k.options;
          b_loaded = k.b_loaded;
        };
        table = o.searched.table;
        disk = o.searched.disk;
      } in
      elim o.is [
        | inl full ↦ (o.after, inl (full.0, full.1, o.searched.table, o.searched.disk))
        | inr there ↦
            let h : Has L fs there.0 = (omega (arith, start-pos fs, there.1.from), there.1.until) in
            let f = takes blocks fs o.after there.0 t rw_mode s h in
            (f.0, inr (there.0, there.1, there.2 ∙ ap (λ x. some x) f.1, f.2, f.3, f.4))
      ]
