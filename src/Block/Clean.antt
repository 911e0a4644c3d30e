-- ===== src/Block/Clean.antt =====
-- Wiping one block: its header, and its data if that is asked for.
use whefs.Common.{
  ℕ, ◌<◌, ◌≡◌, inl, inr, refl, ap, sym, ◌∙◌, subst, arith, Bool, true, false, List, [], ◌∷◌, ◌==◌,
  ◌||◌, min, Bool-cases, ==_iff,
}
use whefs.Rc.{ok}
use whefs.Bits.Laws.{IsValid}
use whefs.Device.{DevApi, DevLaws}
use whefs.Fs.{Fs, is_rw, bcache_is_used}
use whefs.Block.{Block, empty, flush}
use whefs.Block.Wiping.{wipe_last, wipe_self}
use whefs.Block.Header.{IsNarrow}
use whefs.Block.Place.{Kept, Kept-trans, IsLaid, Has, header, contents, contents_lem}
use whefs.Block.Flush.{Others}
use whefs.Block.Table.{Table, put}
use whefs.Block.Marks.{flush-Table, hint-Table}
use whefs.Block.Wipe.{block_wipe_data}

-- What a block is after it was wiped.
abbrev pub clean : ℕ → Block
clean id = record empty { id = id }

abbrev pub member : ℕ → List ℕ → Bool
member j [] = false
member j (n ∷ ids) = (n == j) || member j ids

module _ {D : Type 0} {api : DevApi D} (L : DevLaws api) where
  -- The blocks that are not in a list keep their data.
  pub record Spared (ids : List ℕ) (fs fs' : Fs D) : Type 0 where
    pub kept : Kept fs fs'
    pub bodies : (j : ℕ) → Has L fs j → member j ids ≡ false → contents L fs' j ≡ contents L fs j

  -- Zeros over the data of a block leave the table.
  data-Table :
      (blocks : ℕ → Block) (fs fs' : Fs D) (id : ℕ)
      → Table L blocks fs
      → Kept fs fs'
      → IsLaid L fs'
      → header L fs' id ≡ header L fs id
      → Others L fs id fs'
      → fs'.used_blocks ≡ fs.used_blocks
      → Table L blocks fs'
  data-Table blocks fs fs' id t k laid e o u =
      let count = ap (λ o. o.block_count) k.options in
      let has : (j : ℕ) → Has L fs' j → Has L fs j = λ j h. (h.0, omega (arith, h.1, count)) in
      record {
        laid = laid;
        on_disk = λ j h. elim (Bool-cases (j == id)) [
          | inl here ↦
              let q : j ≡ id = (==_iff _ _).0 here in
              ap (λ i. header L fs' i) q
              ∙ e
              ∙ ap (λ i. header L fs i) (sym q)
              ∙ t.on_disk j (has j h)
          | inr there ↦
              o.headers j (has j h) (λ q. ground (arith, there, q)) ∙ t.on_disk j (has j h)
        ];
        narrow = λ j h. t.narrow j (has j h);
        numbered = λ j h. t.numbered j (has j h);
        bits = subst (λ b. IsValid b) (sym u) t.bits;
        enough = omega (arith, t.enough, count, ap (λ b. b.sz_bits) u);
        cached = λ j h l c.
            t.cached j (has j h) (sym k.b_loaded ∙ l) (ap (λ b. bcache_is_used b j) (sym u) ∙ c);
      }

  pub wipe_calls :
      (fs fs1 : Fs D) (bl : Block) (wipes_data : Bool)
      → flush api fs (clean bl.id) ≡ (ok, fs1)
      → wipe_self api fs bl wipes_data true
        ≡ wipe_last api
            (record fs1 { unused_block_start = min fs1.unused_block_start bl.id })
            (clean bl.id)
            wipes_data
  unfolding wipe_self
  wipe_calls fs fs1 bl wipes_data e =
      ap
        (λ q. elim q.0 [
          | ok ↦
              wipe_last api (record q.1 { unused_block_start = min q.1.unused_block_start bl.id })
                (clean bl.id) wipes_data
          | other ↦ (other, clean bl.id, q.1)
        ])
        e

  Others-Spared :
      (fs fs' : Fs D) (id : ℕ) → Kept fs fs' → Others L fs id fs' → Spared (id ∷ []) fs fs'
  Others-Spared fs fs' id k o = record {
    kept = k;
    bodies = λ j h e. o.bodies j h (λ q. ground (arith, e, q));
  }

  pub Spared-then :
      (ids ids' ids2 : List ℕ) (a b c : Fs D)
      → ((j : ℕ) → member j ids2 ≡ false → (member j ids ≡ false) × (member j ids' ≡ false))
      → Spared ids a b
      → Spared ids' b c
      → Spared ids2 a c
  Spared-then ids ids' ids2 a b c both s t =
      let count = ap (λ o. o.block_count) s.kept.options in
      record {
        kept = Kept-trans s.kept t.kept;
        bodies = λ j h e.
            t.bodies j (h.0, omega (arith, h.1, count)) (both j e).1 ∙ s.bodies j h (both j e).0;
      }

  hint-Spared :
      (ids : List ℕ) (fs fs' : Fs D) (n : ℕ)
      → Spared ids fs fs'
      → Spared ids fs (record fs' { unused_block_start = n })
  hint-Spared ids fs fs' n s =
      let k : Kept fs' (record fs' { unused_block_start = n }) = record {
        flags = refl;
        offsets = refl;
        sizes = refl;
        options = refl;
        b_loaded = refl;
      } in
      record {
        kept = Kept-trans s.kept k;
        bodies = λ j h e. contents_lem L j k refl ∙ s.bodies j h e;
      }

  last_lem :
      (blocks : ℕ → Block) (fs : Fs D) (bl : Block) (wipes_data : Bool)
      → Table L blocks fs
      → Has L fs bl.id
      → 0 < fs.options.block_size
      → (fs' : Fs D) × (wipe_last api fs bl wipes_data ≡ (ok, bl, fs'))
        × Table L blocks fs'
        × Spared (bl.id ∷ []) fs fs'
  unfolding wipe_last
  last_lem blocks fs bl false t h some_data = (
    fs,
    refl,
    t,
    record {
      kept = record { flags = refl; offsets = refl; sizes = refl; options = refl; b_loaded = refl };
      bodies = λ j h e. refl;
    },
  )
  last_lem blocks fs bl true t h some_data =
      let w = block_wipe_data L fs bl 0 t.laid h some_data in
      (
        w.0,
        ap (λ q. (q.0, bl, q.1)) w.1,
        data-Table blocks fs w.0 bl.id t w.2 w.3 w.5 w.6 w.7,
        Others-Spared fs w.0 bl.id w.2 w.6,
      )

  -- Wiping a block whose data is wiped or not.
  pub wipe_self_lem :
      (blocks : ℕ → Block) (fs : Fs D) (bl : Block) (wipes_data : Bool)
      → Table L blocks fs
      → is_rw fs ≡ true
      → Has L fs bl.id
      → 0 < fs.options.block_size
      → (fs' : Fs D) × (wipe_self api fs bl wipes_data true ≡ (ok, clean bl.id, fs'))
        × Table L (put blocks (clean bl.id)) fs'
        × Spared (bl.id ∷ []) fs fs'
  wipe_self_lem blocks fs bl wipes_data t m h some_data =
      let narrow : IsNarrow (clean bl.id) = record {
        id-lt = omega (arith, h.1, t.laid.counted);
        next-lt = omega arith;
        flags-lt = omega arith;
      } in
      let f = flush-Table L blocks fs (clean bl.id) t m h narrow in
      let n : ℕ = min f.0.unused_block_start bl.id in
      let fs1 = record f.0 { unused_block_start = n } in
      let count = ap (λ o. o.block_count) f.2.options in
      let r =
        last_lem (put blocks (clean bl.id)) fs1 (clean bl.id) wipes_data
          (hint-Table L (put blocks (clean bl.id)) f.0 n f.4) (h.0, omega (arith, h.1, count))
          (omega (arith, some_data, ap (λ o. o.block_size) f.2.options)) in
      (
        r.0,
        wipe_calls fs f.0 bl wipes_data f.1 ∙ r.1,
        r.2,
        Spared-then (bl.id ∷ []) (bl.id ∷ []) (bl.id ∷ []) fs fs1 r.0 (λ j e. (e, e))
            (hint-Spared (bl.id ∷ []) fs f.0 n (Others-Spared fs f.0 bl.id f.2 f.3)) r.3,
      )
