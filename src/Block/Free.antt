-- ===== src/Block/Free.antt =====
-- The search for a free block, over a device that keeps its laws.
use whefs.Common.{
  ℕ, zero, suc, ◌+◌, ◌%◌, ◌<◌, ◌≡◌, ◌⊎◌, inl, inr, refl, ap, ◌∙◌, subst, arith, Bool, true, false,
  Option, some, if◌then◌else◌, ◌&&◌, ltb, Bool-cases, ltb-cases,
}
use whefs.Rc.{Rc, ok, fs_full, id_bound}
use whefs.Device.{DevApi, DevLaws}
use whefs.Fs.{Fs, bcache_is_used}
use whefs.Block.{Block, update_used, read}
use whefs.Block.Alloc.{found, scan}
use whefs.Block.Place.{Kept, Kept-trans, update_used-Kept, update_used_dev, Has}
use whefs.Block.Flush.{read_lem, moved}
use whefs.Block.Table.{Table, read-Table, used}
use whefs.Block.Rounds.{scan_full, round, scan-round, round_lem}
use whefs.Common.{NoneFree, FirstFree, NoneFree-here, FirstFree-here, choose_lem, and_true}

module _ {D : Type 0} {api : DevApi D} (L : DevLaws api) (blocks : ℕ → Block) where
  -- The filesystem after a search, with the same disk.
  pub record Searched (fs fs' : Fs D) : Type 0 where
    pub kept : Kept fs fs'
    pub table : Table L blocks fs'
    pub disk : L.view fs'.dev ≡ L.view fs.dev

  Searched-trans : {a b c : Fs D} → Searched a b → Searched b c → Searched a c
  Searched-trans s t = record {
    kept = Kept-trans s.kept t.kept;
    table = t.table;
    disk = t.disk ∙ s.disk;
  }

  -- What a search from `i` on comes to.
  pub record Outcome (fs : Fs D) (i : ℕ) (tgt : Block) (m : Bool) (r : Option (Rc × Block × Fs D))
      : Type 0 where
    pub after : Fs D
    pub searched : Searched fs after
    pub is :
        (NoneFree (used blocks) i fs.options.block_count × (r ≡ some (fs_full, tgt, after)))
        ⊎ ((j : ℕ) × FirstFree (used blocks) i fs.options.block_count j
            × (r ≡ some (found api after (blocks j) m)))

  -- A block in use is passed.
  passed :
      (fs fs' : Fs D) (i : ℕ) (tgt : Block) (m : Bool) (r r' : Option (Rc × Block × Fs D))
      → Searched fs fs'
      → used blocks i ≡ true
      → r ≡ r'
      → Outcome fs' (i + 1) tgt m r'
      → Outcome fs i tgt m r
  passed fs fs' i tgt m r r' s u e o =
      let count : fs'.options.block_count ≡ fs.options.block_count =
        ap (λ o. o.block_count) s.kept.options in
      record {
        after = o.after;
        searched = Searched-trans s o.searched;
        is = elim o.is [
          | inl full ↦ inl (
            NoneFree-here (used blocks) i fs.options.block_count u
                (subst (λ n. NoneFree (used blocks) (i + 1) n) count full.0),
            e ∙ full.1,
          )
          | inr there ↦ inr (
            there.0,
            FirstFree-here (used blocks) i fs.options.block_count there.0 u
                (subst (λ n. FirstFree (used blocks) (i + 1) n there.0) count there.1),
            e ∙ there.2,
          )
        ];
      }

  pub read_block :
      (fs : Fs D) (i : ℕ) (bl : Block)
      → Table L blocks fs
      → Has L fs i
      → (d : D) × (read api fs i bl
          ≡ (ok, blocks i, update_used (record fs { dev = d }) (blocks i)))
        × Searched fs (update_used (record fs { dev = d }) (blocks i))
  read_block fs i bl t h =
      let r = read_lem L fs i bl (blocks i) t.laid h (t.narrow i h) (t.on_disk i h) in
      (
        r.0,
        r.1,
        record {
          kept = moved L fs r.0 (blocks i);
          table = read-Table L blocks fs i r.0 t h r.2 r.3;
          disk = ap (λ d. L.view d) (update_used_dev (record fs { dev = r.0 }) (blocks i)) ∙ r.3;
        },
      )

  -- Making a block of the table known once more.
  again :
      (fs fs' : Fs D) (i : ℕ)
      → Searched fs fs'
      → Has L fs i
      → Searched fs (update_used fs' (blocks i))
  again fs fs' i s h =
      let count = ap (λ o. o.block_count) s.kept.options in
      record {
        kept = Kept-trans s.kept (update_used-Kept fs' (blocks i));
        table =
            read-Table L blocks fs' i fs'.dev s.table (h.0, omega (arith, h.1, count))
              s.table.laid.ready refl;
        disk = ap (λ d. L.view d) (update_used_dev fs' (blocks i)) ∙ s.disk;
      }

  -- A round that reads the block, if the search goes on from any such filesystem behind it.
  read_case :
      (rounds : ℕ) (fs : Fs D) (i : ℕ) (bl tgt : Block) (m : Bool)
      → Table L blocks fs
      → Has L fs i
      → (fs.b_loaded && bcache_is_used fs.used_blocks i) ≡ false
      → ((fs' : Fs D)
          → Searched fs fs'
          → Outcome fs' (i + 1) tgt m (scan api rounds fs' (i + 1) (blocks i) tgt m))
      → Outcome fs i tgt m (scan api (suc rounds) fs i bl tgt m)
  read_case rounds fs i bl tgt m t h unknown rest =
      let q = read_block fs i bl t h in
      let fs' = update_used (record fs { dev = q.0 }) (blocks i) in
      let twice = again fs fs' i q.2 h in
      let next : (i + 1) % id_bound ≡ i + 1 = omega (arith, h.1, t.laid.counted) in
      let inside : ltb fs.options.block_count i ≡ false = ground (arith, h.1) in
      let branch : Bool → Option (Rc × Block × Fs D) = λ b.
        if b
        then scan api rounds (update_used fs' (blocks i)) ((i + 1) % id_bound) (blocks i) tgt m
        else some (found api fs' (blocks i) m) in
      let read_it =
        scan-round api rounds fs i bl tgt m
        ∙ choose_lem _ _ false _ _ _ inside unknown
        ∙ ap (λ x. round api rounds i tgt m x) q.1
        ∙ round_lem api rounds i (blocks i) tgt m fs' (t.numbered i h) in
      elim (Bool-cases (used blocks i)) [
        | inl taken ↦
            passed fs (update_used fs' (blocks i)) i tgt m _ _ twice taken
              (read_it
                ∙ ap branch taken
                ∙ ap (λ n. scan api rounds (update_used fs' (blocks i)) n (blocks i) tgt m) next)
              (rest (update_used fs' (blocks i)) twice)
        | inr free ↦ record {
          after = fs';
          searched = q.2;
          is = inr (
            i,
            record {
              from = omega arith;
              until = h.1;
              free = free;
              before = λ k k1 k2. absurd (omega (arith, k1, k2));
            },
            read_it ∙ ap branch free,
          );
        }
      ]

  pub scan_lem :
      (rounds : ℕ) (fs : Fs D) (i : ℕ) (bl tgt : Block) (m : Bool)
      → Table L blocks fs
      → 0 < i
      → 0 < rounds
      → fs.options.block_count + 1 < i + rounds
      → Outcome fs i tgt m (scan api rounds fs i bl tgt m)
  scan_lem zero fs i bl tgt m t pos_i pos_r enough = absurd (omega (arith, pos_r))
  scan_lem (suc rounds) fs i bl tgt m t pos_i pos_r enough =
      let stay : Searched fs fs = record {
        kept = record {
          flags = refl;
          offsets = refl;
          sizes = refl;
          options = refl;
          b_loaded = refl;
        };
        table = t;
        disk = refl;
      } in
      elim (ltb-cases fs.options.block_count i) [
        | inl full ↦ record {
          after = fs;
          searched = stay;
          is = inl (
            λ j h k. absurd (omega (arith, full, h, k)),
            scan_full api rounds fs i bl tgt m (ground (arith, full)),
          );
        }
        | inr left ↦ elim (Bool-cases (fs.b_loaded && bcache_is_used fs.used_blocks i)) [
          | inl cached ↦
              let c = and_true fs.b_loaded (bcache_is_used fs.used_blocks i) cached in
              let inside : ltb fs.options.block_count i ≡ false = ground (arith, left) in
              let next : (i + 1) % id_bound ≡ i + 1 = omega (arith, left, t.laid.counted) in
              passed fs fs i tgt m _ _ stay (t.cached i (pos_i, left) c.0 c.1)
                (scan-round api rounds fs i bl tgt m
                  ∙ choose_lem _ _ true _ _ _ inside cached
                  ∙ ap (λ n. scan api rounds fs n bl tgt m) next)
                (scan_lem rounds fs (i + 1) bl tgt m t (omega arith) (omega (arith, left, enough))
                  (omega (arith, enough)))
          | inr unknown ↦
              read_case rounds fs i bl tgt m t (pos_i, left) unknown
                (λ fs' s.
                  let count = ap (λ o. o.block_count) s.kept.options in
                  scan_lem rounds fs' (i + 1) (blocks i) tgt m s.table (omega arith)
                    (omega (arith, left, enough)) (omega (arith, enough, count)))
        ]
      ]
