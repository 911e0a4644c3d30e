-- ===== src/Block/Wipe.antt =====
-- Wiping a block, over a device that keeps its laws.
use whefs.Common.{
  ℕ, zero, suc, ◌+◌, ◌-◌, ◌<◌, ◌≡◌, inl, refl, ap, ap₂, ◌∙◌, arith, Bool, false, some, List, [],
  ◌∷◌, ◌++◌, ◌==◌, if◌then◌else◌, leb, length, take, slice, overwrite, pos, min, ==_refl,
  length-overwrite, slice-overwrite_apart, slice-overwrite, length-slice, overwrite_all,
}
use whefs.Rc.{Rc, ok, io_error, range_error, add_size}
use whefs.Device.{DevApi, DevLaws, seek_set}
use whefs.Fs.{Fs, fs_seek, sizeof_encoded_block}
use whefs.Block.{Block, data_pos}
use whefs.Block.Wiping.{buf_size, wipe_buf, wipe_loop, wipe_data}
use whefs.Block.Place.{
  Kept, place, Kept-place, IsLaid, Has, place_lem, header, contents, Kept-IsLaid,
}
use whefs.Block.Flush.{Others, write-Others}
use whefs.Block.Zeros.{zeros, length-zeros, wipe_loop_stuck, wipe_loop-Zeroes}

overwrite_end {ℓ} :
    {A : Type ℓ} (xs : List A) (p : ℕ) (bs : List A)
    → p + length bs ≡ length xs
    → overwrite xs p bs ≡ take p xs ++ bs
overwrite_end xs zero bs e = overwrite_all xs bs (omega (arith, e))
overwrite_end [] (suc p) bs e = absurd (omega (arith, e))
overwrite_end (x ∷ xs) (suc p) bs e = ap (λ l. x ∷ l) (overwrite_end xs p bs (omega (arith, e)))

module _ {D : Type 0} (api : DevApi D) where
  wipe_data_calls :
      (fs : Fs D) (bl : Block) (start p : ℕ) (d : D)
      → start < fs.options.block_size
      → add_size start (data_pos fs (some bl)) ≡ p
      → api.seek fs.dev (pos p) seek_set ≡ (p, d)
      → wipe_data api fs bl start
        ≡ wipe_loop api
            (fs.options.block_size - start)
            (fs.options.block_size - start)
            (record fs { dev = d })
  unfolding wipe_data fs_seek
  wipe_data_calls fs bl start p d h e s =
      let bs : ℕ = fs.options.block_size in
      let whole : Bool → ℕ → ℕ × D → Rc × Fs D = λ past k q.
        if past
        then (range_error, fs)
        else if q.0 == k
        then wipe_loop api (bs - start) (bs - start) (record fs { dev = q.1 })
        else (io_error, record fs { dev = q.1 }) in
      let inside : leb bs start ≡ false = ground (arith, h) in
      ap
        (λ b.
          whole b (add_size start (data_pos fs (some bl)))
            (api.seek fs.dev (pos (add_size start (data_pos fs (some bl)))) seek_set))
        inside
      ∙ ap (λ k. whole false k (api.seek fs.dev (pos k) seek_set)) e
      ∙ ap (λ q. whole false p q) s
      ∙ ap
          (λ b.
            if b
            then wipe_loop api (bs - start) (bs - start) (record fs { dev = d })
            else (io_error, record fs { dev = d }))
          (==_refl p)

  -- When the first write writes nothing, no other one follows, and the return code is OK.
  pub wipe_data_unwritten :
      (fs : Fs D) (bl : Block) (start p : ℕ) (d d' : D)
      → start < fs.options.block_size
      → add_size start (data_pos fs (some bl)) ≡ p
      → api.seek fs.dev (pos p) seek_set ≡ (p, d)
      → api.write d (some wipe_buf) (min buf_size (fs.options.block_size - start)) ≡ (0, d')
      → wipe_data api fs bl start ≡ (ok, record fs { dev = d' })
  wipe_data_unwritten fs bl start p d d' h e s w =
      wipe_data_calls fs bl start p d h e s
      ∙ wipe_loop_stuck api (fs.options.block_size - start) (fs.options.block_size - start)
          (record fs { dev = d }) d' (omega (arith, h)) (omega (arith, h)) w

module _ {D : Type 0} {api : DevApi D} (L : DevLaws api) where
  pub wipe_data_lem :
      (fs : Fs D) (bl : Block) (start : ℕ)
      → IsLaid L fs
      → Has L fs bl.id
      → start < fs.options.block_size
      → (d : D) × (wipe_data api fs bl start ≡ (ok, record fs { dev = d }))
        × L.Valid d
        × (L.view d
            ≡ overwrite
                (L.view fs.dev)
                (place fs bl.id + (sizeof_encoded_block + start))
                (zeros (fs.options.block_size - start)))
  unfolding data_pos
  wipe_data_lem fs bl start v h small =
      let p = place_lem L fs bl.id v h in
      let at : ℕ = place fs bl.id + (sizeof_encoded_block + start) in
      let e : add_size start (data_pos fs (some bl)) ≡ at =
        ap (λ n. add_size start n) p.data_is ∙ omega (arith, p.small, v.sized, small) in
      let s = L.seek_lem fs.dev at v.ready (omega (arith, p.fits, v.sized, small)) in
      let n : ℕ = fs.options.block_size - start in
      let z =
        wipe_loop-Zeroes L n n (record fs { dev = s.0 }) s.2 (omega arith)
          (omega (arith, s.4, ap length s.3, p.fits, v.sized, small)) in
      (
        z.d,
        wipe_data_calls api fs bl start at s.0 small e s.1 ∙ z.is,
        z.valid,
        z.view ∙ ap₂ (λ y c. overwrite y c (zeros n)) s.3 s.4,
      )

  -- A block's data lies behind its header.
  contents_written :
      (fs fs' : Fs D) (id start : ℕ)
      → IsLaid L fs
      → Has L fs id
      → start < fs.options.block_size
      → Kept fs fs'
      → L.view fs'.dev
        ≡ overwrite
            (L.view fs.dev)
            (place fs id + (sizeof_encoded_block + start))
            (zeros (fs.options.block_size - start))
      → contents L fs' id ≡ take start (contents L fs id) ++ zeros (fs.options.block_size - start)
  unfolding contents
  contents_written fs fs' id start v h small k e =
      let p = place_lem L fs id v h in
      let bs : ℕ = fs.options.block_size in
      let l : ℕ = place fs id + sizeof_encoded_block in
      let zs = zeros (bs - start) in
      ap (λ x. slice x (place fs' id + sizeof_encoded_block) fs'.options.block_size) e
      ∙ ap₂
          (λ q n.
            slice (overwrite (L.view fs.dev) (place fs id + (sizeof_encoded_block + start)) zs)
              (q + sizeof_encoded_block) n)
          (Kept-place k id) (ap (λ o. o.block_size) k.options)
      ∙ ap (λ q. slice (overwrite (L.view fs.dev) q zs) l bs)
          {x = place fs id + (sizeof_encoded_block + start)} {y = l + start} (omega arith)
      ∙ slice-overwrite (L.view fs.dev) l bs start zs
      ∙ overwrite_end (slice (L.view fs.dev) l bs) start zs (
          omega (
            arith,
            length-zeros (bs - start),
            length-slice (L.view fs.dev) l bs,
            p.fits,
            v.sized,
            small,
          ))

  -- So the header stays.
  header_stays :
      (fs fs' : Fs D) (id start n : ℕ)
      → Kept fs fs'
      → L.view fs'.dev
        ≡ overwrite (L.view fs.dev) (place fs id + (sizeof_encoded_block + start)) (zeros n)
      → header L fs' id ≡ header L fs id
  unfolding header
  header_stays fs fs' id start n k e =
      ap (λ x. slice x (place fs' id) sizeof_encoded_block) e
      ∙ ap
          (λ q.
            slice
              (overwrite (L.view fs.dev) (place fs id + (sizeof_encoded_block + start)) (zeros n)) q
              sizeof_encoded_block)
          (Kept-place k id)
      ∙ slice-overwrite_apart (L.view fs.dev) (place fs id + (sizeof_encoded_block + start))
          (place fs id) sizeof_encoded_block (zeros n) (inl (omega arith))

  -- Wiping the data of a block in range from a position inside of it returns OK. The data up to the
  -- position stays, the rest of it is zeros; the block's header, every other block and the bitset stay as
  -- they were.
  pub block_wipe_data :
      (fs : Fs D) (bl : Block) (start : ℕ)
      → IsLaid L fs
      → Has L fs bl.id
      → start < fs.options.block_size
      → (fs' : Fs D) × (wipe_data api fs bl start ≡ (ok, fs'))
        × Kept fs fs'
        × IsLaid L fs'
        × (contents L fs' bl.id
            ≡ take start (contents L fs bl.id) ++ zeros (fs.options.block_size - start))
        × (header L fs' bl.id ≡ header L fs bl.id)
        × Others L fs bl.id fs'
        × (fs'.used_blocks ≡ fs.used_blocks)
  block_wipe_data fs bl start v h small =
      let w = wipe_data_lem fs bl start v h small in
      let fs' = record fs { dev = w.0 } in
      let n : ℕ = fs.options.block_size - start in
      let k : Kept fs fs' = record {
        flags = refl;
        offsets = refl;
        sizes = refl;
        options = refl;
        b_loaded = refl;
      } in
      (
        fs',
        w.1,
        k,
        Kept-IsLaid L k v w.2 (
            ap length w.3
            ∙ length-overwrite (L.view fs.dev) (place fs bl.id + (sizeof_encoded_block + start))
                (zeros n)),
        contents_written fs fs' bl.id start v h small k w.3,
        header_stays fs fs' bl.id start n k w.3,
        write-Others L fs fs' bl.id (sizeof_encoded_block + start) (zeros n) v h k w.3
            (omega (arith, length-zeros n, v.sized, small)),
        refl,
      )
