-- ===== src/Block/Flush.antt =====
-- The header of a block, written and read, over a device that keeps its laws.
use whefs.Common.{
  ℕ, ◌+◌, ◌≤◌, ◌≡◌, ◌≢◌, ◌⊎◌, inl, inr, refl, ap, sym, ◌∙◌, subst, arith, true, length, take, slice,
  overwrite, length-overwrite, slice-overwrite_self, slice-overwrite_apart, take-all,
}
use whefs.Rc.{ok}
use whefs.Encode.{Bytes}
use whefs.Device.{DevApi, DevLaws}
use whefs.Fs.{Fs, is_rw, sizeof_encoded_block}
use whefs.Block.{Block, encode, update_used, flush, read}
use whefs.Block.Header.{IsNarrow, length-encode, decode-encode}
use whefs.Block.Place.{
  Kept, Kept-trans, update_used-Kept, update_used_dev, place, Kept-place, IsLaid, header, contents,
  Has, place_lem, Kept-IsLaid, apart,
}
use whefs.Block.Steps.{
  id_seek_lem, write_header_lem, flush_calls, known, read_header_lem, read_calls,
}

-- Parts of two blocks that do not meet.
clear :
    (p q size a n off m : ℕ)
    → (p + size ≤ q) ⊎ (q + size ≤ p)
    → a + n ≤ size
    → off + m ≤ size
    → (p + a + n ≤ q + off) ⊎ (q + off + m ≤ p + a)
clear p q size a n off m (inl h) i j = inl (omega (arith, h))
clear p q size a n off m (inr h) i j = inr (omega (arith, h))

module _ {D : Type 0} {api : DevApi D} (L : DevLaws api) where
  -- Every block but one is on the disk as it was.
  pub record Others (fs : Fs D) (id : ℕ) (fs' : Fs D) : Type 0 where
    pub headers : (j : ℕ) → Has L fs j → j ≢ id → header L fs' j ≡ header L fs j
    pub bodies : (j : ℕ) → Has L fs j → j ≢ id → contents L fs' j ≡ contents L fs j

  -- A write inside a block leaves the other blocks.
  pub write-Others :
      (fs fs' : Fs D) (id off : ℕ) (bytes : Bytes)
      → IsLaid L fs
      → Has L fs id
      → Kept fs fs'
      → L.view fs'.dev ≡ overwrite (L.view fs.dev) (place fs id + off) bytes
      → off + length bytes ≤ fs.sizes.block
      → Others fs id fs'
  unfolding header contents
  write-Others fs fs' id off bytes v h k e room =
      let away : (j a n : ℕ)
          → Has L fs j
          → j ≢ id
          → a + n ≤ fs.sizes.block
          → slice (L.view fs'.dev) (place fs j + a) n ≡ slice (L.view fs.dev) (place fs j + a) n =
        λ j a n h' ne inside.
          ap (λ x. slice x (place fs j + a) n) e
          ∙ slice-overwrite_apart (L.view fs.dev) (place fs id + off) (place fs j + a) n bytes (
              clear (place fs j) (place fs id) fs.sizes.block a n off (length bytes)
                (apart L fs id j h h' ne) inside room) in
      record {
        headers = λ j h' ne.
            ap (λ p. slice (L.view fs'.dev) p sizeof_encoded_block) {x = place fs' j}
              {y = place fs j + 0} (Kept-place k j ∙ omega arith)
            ∙ away j 0 sizeof_encoded_block h' ne (omega (arith, v.sized))
            ∙ ap (λ p. slice (L.view fs.dev) p sizeof_encoded_block) {x = place fs j + 0}
                {y = place fs j} (omega arith);
        bodies = λ j h' ne.
            ap (λ p. slice (L.view fs'.dev) (p + sizeof_encoded_block) fs'.options.block_size)
              (Kept-place k j)
            ∙ ap (λ o. slice (L.view fs'.dev) (place fs j + sizeof_encoded_block) o.block_size)
                k.options
            ∙ away j sizeof_encoded_block fs.options.block_size h' ne (omega (arith, v.sized));
      }

  -- With a valid number, a header is written over the one that is there, and the block is made known.
  pub flush_lem :
      (fs : Fs D) (bl : Block)
      → IsLaid L fs
      → is_rw fs ≡ true
      → Has L fs bl.id
      → (d : D) × (flush api fs bl ≡ (ok, update_used (record fs { dev = d }) bl))
        × L.Valid d
        × (L.view d ≡ overwrite (L.view fs.dev) (place fs bl.id) (encode bl))
  flush_lem fs bl v rw_mode h =
      let p = place_lem L fs bl.id v h in
      let s = L.seek_lem fs.dev (place fs bl.id) v.ready (omega (arith, p.fits)) in
      let w =
        L.write_lem s.0 (encode bl) sizeof_encoded_block s.2 (omega (arith, length-encode bl))
          (omega (arith, s.4, ap length s.3, p.fits, v.sized)) in
      (
        w.0,
        flush_calls api fs (record fs { dev = s.0 }) bl rw_mode
              (id_seek_lem api fs bl.id (place fs bl.id) s.0 p.is p.some_pos s.1)
            ∙ write_header_lem api (record fs { dev = s.0 }) bl w.0 w.1,
        w.2,
        w.3
            ∙ ap (λ x. overwrite x (L.cursor s.0) (take sizeof_encoded_block (encode bl))) s.3
            ∙ ap (λ c. overwrite (L.view fs.dev) c (take sizeof_encoded_block (encode bl))) s.4
            ∙ ap (λ b. overwrite (L.view fs.dev) (place fs bl.id) b)
                (take-all sizeof_encoded_block (encode bl) (omega (arith, length-encode bl))),
      )

  -- With a valid number, the header that is there is decoded, and the block is made known.
  pub read_lem :
      (fs : Fs D) (id : ℕ) (bl b : Block)
      → IsLaid L fs
      → Has L fs id
      → IsNarrow b
      → header L fs id ≡ encode b
      → (d : D) × (read api fs id bl ≡ (ok, b, update_used (record fs { dev = d }) b))
        × L.Valid d
        × (L.view d ≡ L.view fs.dev)
  unfolding header
  read_lem fs id bl b v h n e =
      let p = place_lem L fs id v h in
      let s = L.seek_lem fs.dev (place fs id) v.ready (omega (arith, p.fits)) in
      let r =
        L.read_lem s.0 sizeof_encoded_block s.2
          (omega (arith, s.4, ap length s.3, p.fits, v.sized)) in
      let got : slice (L.view s.0) (L.cursor s.0) sizeof_encoded_block ≡ encode b =
        ap (λ x. slice x (L.cursor s.0) sizeof_encoded_block) s.3
        ∙ ap (λ c. slice (L.view fs.dev) c sizeof_encoded_block) s.4
        ∙ e in
      (
        r.0,
        read_calls api fs id (place fs id) bl s.0 p.valid p.is (omega (arith, p.small)) s.1
            ∙ read_header_lem api (record fs { dev = s.0 }) bl (encode b) r.0 (length-encode b)
                (r.1 ∙ ap (λ x. (x, r.0)) got)
            ∙ ap (λ q. known api (record fs { dev = r.0 }) q) (decode-encode bl b n),
        r.2,
        r.3 ∙ s.3,
      )

  -- A device in the place of the filesystem's.
  pub moved : (fs : Fs D) (d : D) (bl : Block) → Kept fs (update_used (record fs { dev = d }) bl)
  moved fs d bl =
      Kept-trans
        (record { flags = refl; offsets = refl; sizes = refl; options = refl; b_loaded = refl })
        (update_used-Kept (record fs { dev = d }) bl)

  -- On a writable filesystem, whose table of blocks lies in a device that keeps its laws, a flush of a
  -- block with a number in range returns OK. The disk then holds the block's header, the block's data as it
  -- was, and every other block as it was.
  pub block_flush :
      (fs : Fs D) (bl : Block)
      → IsLaid L fs
      → is_rw fs ≡ true
      → Has L fs bl.id
      → (fs' : Fs D) × (flush api fs bl ≡ (ok, fs'))
        × IsLaid L fs'
        × Kept fs fs'
        × (header L fs' bl.id ≡ encode bl)
        × (contents L fs' bl.id ≡ contents L fs bl.id)
        × Others fs bl.id fs'
  unfolding header contents
  block_flush fs bl v m h =
      let f = flush_lem fs bl v m h in
      let p = place_lem L fs bl.id v h in
      let fs' = update_used (record fs { dev = f.0 }) bl in
      let k = moved fs f.0 bl in
      let dev : fs'.dev ≡ f.0 = update_used_dev (record fs { dev = f.0 }) bl in
      let view : L.view fs'.dev ≡ overwrite (L.view fs.dev) (place fs bl.id) (encode bl) =
        ap (λ x. L.view x) dev ∙ f.3 in
      (
        fs',
        f.1,
        Kept-IsLaid L k v (subst (λ x. L.Valid x) (sym dev) f.2)
            (ap length view ∙ length-overwrite (L.view fs.dev) (place fs bl.id) (encode bl)),
        k,
        (ap (λ x. slice x (place fs' bl.id) sizeof_encoded_block) view
            ∙ ap
                (λ q.
                  slice (overwrite (L.view fs.dev) (place fs bl.id) (encode bl)) q
                    sizeof_encoded_block)
                (Kept-place k bl.id)
            ∙ ap
                (λ n.
                  slice (overwrite (L.view fs.dev) (place fs bl.id) (encode bl)) (place fs bl.id) n)
                (sym (length-encode bl))
            ∙ slice-overwrite_self (L.view fs.dev) (place fs bl.id) (encode bl)
                (omega (arith, p.fits, v.sized, length-encode bl))),
        (ap (λ x. slice x (place fs' bl.id + sizeof_encoded_block) fs'.options.block_size) view
            ∙ ap
                (λ q.
                  slice (overwrite (L.view fs.dev) (place fs bl.id) (encode bl))
                    (q + sizeof_encoded_block) fs'.options.block_size)
                (Kept-place k bl.id)
            ∙ ap
                (λ o.
                  slice (overwrite (L.view fs.dev) (place fs bl.id) (encode bl))
                    (place fs bl.id + sizeof_encoded_block) o.block_size)
                k.options
            ∙ slice-overwrite_apart (L.view fs.dev) (place fs bl.id)
                (place fs bl.id + sizeof_encoded_block) fs.options.block_size (encode bl)
                (inr (omega (arith, length-encode bl)))),
        write-Others fs fs' bl.id 0 (encode bl) v h k
            (view
              ∙ ap (λ q. overwrite (L.view fs.dev) q (encode bl)) {x = place fs bl.id}
                  {y = place fs bl.id + 0} (omega arith))
            (omega (arith, v.sized, length-encode bl)),
      )

  -- On such a filesystem, a block that is flushed is read again as it was, if its members are numbers of
  -- their widths. Reading leaves all of the disk as it was.
  pub read-flush :
      (fs : Fs D) (bl tgt : Block)
      → IsLaid L fs
      → is_rw fs ≡ true
      → Has L fs bl.id
      → IsNarrow bl
      → (fs' : Fs D) × (fs2 : Fs D) × (flush api fs bl ≡ (ok, fs'))
        × (read api fs' bl.id tgt ≡ (ok, bl, fs2))
        × (L.view fs2.dev ≡ L.view fs'.dev)
  read-flush fs bl tgt v m h n =
      let f = block_flush fs bl v m h in
      let count = ap (λ o. o.block_count) f.3.options in
      let r = read_lem f.0 bl.id tgt bl f.2 (h.0, omega (arith, h.1, count)) n f.4 in
      (
        f.0,
        update_used (record f.0 { dev = r.0 }) bl,
        f.1,
        r.1,
        ap (λ d. L.view d) (update_used_dev (record f.0 { dev = r.0 }) bl) ∙ r.3,
      )
