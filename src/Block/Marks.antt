-- ===== src/Block/Marks.antt =====
-- The table of the blocks after one of them is flushed, and the search for a free block that marks it.
use whefs.Common.{ℕ, ◌≡◌, refl, ap, sym, ◌∙◌, subst, arith, true}
use whefs.Rc.{ok}
use whefs.Bits.Laws.{IsValid}
use whefs.Device.{DevApi, DevLaws}
use whefs.Fs.{Fs, is_rw, has_flag, flag_write, bcache_is_used}
use whefs.Block.{Block, encode, update_used, flush}
use whefs.Block.Header.{IsNarrow}
use whefs.Block.Place.{Kept, update_used_dev, IsLaid, header, header_lem, Kept-IsLaid, Has}
use whefs.Block.Flush.{Others, moved, flush_lem, block_flush}
use whefs.Block.Table.{Table, Cached, put, put_all, update-Knows, update-Cached}

-- What the bitset becomes does not depend on the device.
update_used_bits :
    {D : Type 0} (fs : Fs D) (d : D) (b : Block)
    → (update_used (record fs { dev = d }) b).used_blocks ≡ (update_used fs b).used_blocks
unfolding update_used
update_used_bits fs d b = ground arith

pub Kept-is_rw : {D : Type 0} {fs fs' : Fs D} → Kept fs fs' → is_rw fs' ≡ is_rw fs
unfolding is_rw
Kept-is_rw k = ap (λ f. has_flag f flag_write) k.flags

module _ {D : Type 0} {api : DevApi D} (L : DevLaws api) where
  -- On a writable filesystem, where the headers of the blocks lie in a device that keeps its laws and a bit
  -- of the bitset is set for used blocks only, a flush of a block with a number in range and members of
  -- their widths returns OK. The table then has the block in its place, every other block and its data are
  -- as they were, and a bit is again set for used blocks only. If the bitset is loaded and had all of the
  -- used blocks, it has all of them, and no others, again.
  pub flush-Table :
      (blocks : ℕ → Block) (fs : Fs D) (b : Block)
      → Table L blocks fs
      → is_rw fs ≡ true
      → Has L fs b.id
      → IsNarrow b
      → (fs' : Fs D) × (flush api fs b ≡ (ok, fs'))
        × Kept fs fs'
        × Others L fs b.id fs'
        × Table L (put blocks b) fs'
        × (Cached L blocks fs → Cached L (put blocks b) fs')
  flush-Table blocks fs b t m h narrow =
      let f = flush_lem L fs b t.laid m h in
      let g = block_flush L fs b t.laid m h in
      let fs' = update_used (record fs { dev = f.0 }) b in
      let same : g.0 ≡ fs' = ap (λ q. q.1) (sym g.1 ∙ f.1) in
      let k = moved L fs f.0 b in
      let dev : fs'.dev ≡ f.0 = update_used_dev (record fs { dev = f.0 }) b in
      let n = update-Knows L blocks fs b t h in
      let bits = update_used_bits fs f.0 b in
      let count = ap (λ o. o.block_count) k.options in
      let others : Others L fs b.id fs' = subst (λ x. Others L fs b.id x) same g.6 in
      let has : (j : ℕ) → Has L fs' j → Has L fs j = λ j h'. (h'.0, omega (arith, h'.1, count)) in
      (
        fs',
        f.1,
        k,
        others,
        record {
          laid = subst (λ x. IsLaid L x) same g.2;
          on_disk = λ j h'.
              put_all (λ c i. header L fs' i ≡ encode c) blocks b j
                (λ e. ap (λ i. header L fs' i) (sym e) ∙ ap (λ x. header L x b.id) (sym same) ∙ g.4)
                (λ e. others.headers j (has j h') (λ e'. e (sym e')) ∙ t.on_disk j (has j h'));
          narrow = λ j h'.
              put_all (λ c i. IsNarrow c) blocks b j (λ e. narrow) (λ e. t.narrow j (has j h'));
          numbered =
              λ j h'. put_all (λ c i. c.id ≡ i) blocks b j (λ e. e) (λ e. t.numbered j (has j h'));
          bits = subst (λ c. IsValid c) (sym bits) n.bits;
          enough = omega (arith, t.enough, n.size, count, ap (λ c. c.sz_bits) bits);
          cached = λ j h' l c.
              n.cached j (has j h') (sym k.b_loaded ∙ l)
                (ap (λ x. bcache_is_used x j) (sym bits) ∙ c);
        },
        λ c l j h'.
            let loaded = sym k.b_loaded ∙ l in
            ap (λ x. bcache_is_used x j) bits
            ∙ update-Cached L blocks fs b j t h (has j h') loaded (c loaded j (has j h')),
      )

  -- Another hint.
  pub hint-Table :
      (blocks : ℕ → Block) (fs : Fs D) (n : ℕ)
      → Table L blocks fs
      → Table L blocks (record fs { unused_block_start = n })
  hint-Table blocks fs n t =
      let k : Kept fs (record fs { unused_block_start = n }) = record {
        flags = refl;
        offsets = refl;
        sizes = refl;
        options = refl;
        b_loaded = refl;
      } in
      record {
        laid = Kept-IsLaid L k t.laid t.laid.ready refl;
        on_disk = λ j h. header_lem L j k refl ∙ t.on_disk j h;
        narrow = t.narrow;
        numbered = t.numbered;
        bits = t.bits;
        enough = t.enough;
        cached = t.cached;
      }
