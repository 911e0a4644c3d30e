-- ===== src/Block/Loading.antt =====
-- Loading the bitset of the used blocks when a container is opened.
use whefs.Common.{ℕ, zero, suc, ◌+◌, ◌<◌, ◌≤◌, ◌≡◌, refl, ap, ◌∙◌, arith, true, false}
use whefs.Rc.{Rc, ok}
use whefs.Device.{DevApi, DevLaws}
use whefs.Fs.{Fs}
use whefs.Block.{Block, empty, read, update_used}
use whefs.Block.Alloc.{block_cache_loop, block_cache_load}
use whefs.Block.Table.{Table}
use whefs.Block.Free.{read_block}

update_idle : {D : Type 0} (fs : Fs D) (bl : Block) → fs.b_loaded ≡ false → update_used fs bl ≡ fs
unfolding update_used
update_idle fs bl e = rw e refl

loop_step :
    {D : Type 0} (api : DevApi D) (left id : ℕ) (fs fs1 : Fs D) (bl : Block)
    → read api fs id empty ≡ (ok, bl, fs1)
    → block_cache_loop api (suc left) fs id ≡ block_cache_loop api left fs1 (id + 1)
unfolding block_cache_loop
loop_step api left id fs fs1 bl e =
    ap (λ q. elim q.0 [ ok ↦ block_cache_loop api left q.2 (id + 1) | other ↦ (other, q.2) ]) e

loop_ends :
    {D : Type 0} (api : DevApi D) (id : ℕ) (fs : Fs D)
    → block_cache_loop api 0 fs id ≡ (ok, record fs { b_loaded = true })
unfolding block_cache_loop
loop_ends api id fs = refl

module _ {D : Type 0} {api : DevApi D} (L : DevLaws api) (blocks : ℕ → Block) where
  -- The bitset as it was, and marked as loaded.
  abbrev pub Unfilled : Fs D → Rc × Fs D → Type 0
  Unfilled fs r =
      (fs' : Fs D) × (r ≡ (ok, fs'))
      × (fs'.used_blocks ≡ fs.used_blocks)
      × (fs'.b_loaded ≡ true)
      × (L.view fs'.dev ≡ L.view fs.dev)

  loop_lem :
      (left id : ℕ) (fs : Fs D)
      → Table L blocks fs
      → fs.b_loaded ≡ false
      → 0 < id
      → id + left ≤ fs.options.block_count + 1
      → Unfilled fs (block_cache_loop api left fs id)
  loop_lem zero id fs t e h k =
      (record fs { b_loaded = true }, loop_ends api id fs, refl, refl, refl)
  loop_lem (suc left) id fs t e h k =
      let q = read_block L blocks fs id empty t (h, omega (arith, k)) in
      let fs1 = update_used (record fs { dev = q.0 }) (blocks id) in
      let s = q.2.kept in
      let r =
        loop_lem left (id + 1) fs1 q.2.table (s.b_loaded ∙ e) (omega arith)
          (omega (arith, k, ap (λ o. o.block_count) s.options)) in
      (
        r.0,
        loop_step api left id fs fs1 (blocks id) q.1 ∙ r.1,
        r.2 ∙ ap (λ f. f.used_blocks) (update_idle (record fs { dev = q.0 }) (blocks id) e),
        r.3,
        r.4 ∙ q.2.disk,
      )

  -- With a bitset that is not marked as loaded, the loading of it reads every header and returns OK. As the
  -- blocks are only noted once the bitset is marked, it marks the bitset as loaded and leaves it as it was,
  -- whatever blocks are in use.
  pub block_cache_load_fills_nothing :
      (fs : Fs D) → Table L blocks fs → fs.b_loaded ≡ false → Unfilled fs (block_cache_load api fs)
  unfolding block_cache_load
  block_cache_load_fills_nothing fs t e =
      loop_lem fs.options.block_count 1 fs t e (omega arith) (omega arith)
