-- ===== src/Block/Blank.antt =====
-- One block of a new container: wiped with its data and flushed, it is free and zeroed.
use whefs.Common.{ℕ, ◌-◌, ◌<◌, ◌≡◌, refl, ap, sym, ◌∙◌, arith, true, false, some, min}
use whefs.Rc.{ok}
use whefs.Device.{DevApi, DevLaws}
use whefs.Fs.{Fs, is_rw}
use whefs.Block.{Block, encode, id_is_valid}
use whefs.Block.Wiping.{wipe_last, wipe_self, wipe}
use whefs.Block.Place.{
  Kept, Kept-trans, IsLaid, Has, place_lem, header, contents, header_lem, contents_lem, Kept-IsLaid,
}
use whefs.Block.Flush.{Others, block_flush}
use whefs.Block.Zeros.{zeros}
use whefs.Block.Clean.{clean, wipe_calls}
use whefs.Block.Wipe.{block_wipe_data}

module _ {D : Type 0} (api : DevApi D) where
  wipe_valid :
      (fs : Fs D) (bl : Block)
      → id_is_valid fs bl.id ≡ true
      → wipe api 0 fs bl true true false ≡ some (wipe_self api fs bl true true)
  unfolding wipe
  wipe_valid fs bl v = rw v refl

module _ {D : Type 0} {api : DevApi D} (L : DevLaws api) where
  Others-trans :
      (a b c : Fs D) (id : ℕ) → Kept a b → Others L a id b → Others L b id c → Others L a id c
  Others-trans a b c id k o o' =
      let count = ap (λ o. o.block_count) k.options in
      record {
        headers = λ j h ne. o'.headers j (h.0, omega (arith, h.1, count)) ne ∙ o.headers j h ne;
        bodies = λ j h ne. o'.bodies j (h.0, omega (arith, h.1, count)) ne ∙ o.bodies j h ne;
      }

  -- A block that is free on the disk, with zeros for its data.
  abbrev pub IsBlank : Fs D → ℕ → Type 0
  IsBlank fs j =
      (header L fs j ≡ encode (clean j)) × (contents L fs j ≡ zeros fs.options.block_size)

  -- One block.
  record Blanked (fs : Fs D) (i : ℕ) : Type 0 where
    after : Fs D
    wiped : wipe_last api fs (clean i) true ≡ (ok, clean i, after)
    kept : Kept fs after
    laid : IsLaid L after
    others : Others L fs i after
    head : header L after i ≡ header L fs i
    body : contents L after i ≡ zeros fs.options.block_size

  last-Blanked :
      (fs : Fs D) (i : ℕ) → IsLaid L fs → Has L fs i → 0 < fs.options.block_size → Blanked fs i
  unfolding wipe_last
  last-Blanked fs i v h some_data =
      let w = block_wipe_data L fs (clean i) 0 v h some_data in
      record {
        after = w.0;
        wiped = ap (λ q. (q.0, clean i, q.1)) w.1;
        kept = w.2;
        laid = w.3;
        others = w.6;
        head = w.5;
        body =
            w.4
            ∙ ap zeros {x = fs.options.block_size - 0} {y = fs.options.block_size} (omega arith);
      }

  pub wipe-IsBlank :
      (fs : Fs D) (i : ℕ) (bl : Block)
      → IsLaid L fs
      → is_rw fs ≡ true
      → Has L fs i
      → 0 < fs.options.block_size
      → (fs' : Fs D) × (wipe api 0 fs (record bl { id = i }) true true false
          ≡ some (ok, clean i, fs'))
        × Kept fs fs'
        × IsLaid L fs'
        × IsBlank fs' i
        × Others L fs i fs'
  wipe-IsBlank fs i bl v m h some_data =
      let f = block_flush L fs (clean i) v m h in
      let n : ℕ = min f.0.unused_block_start i in
      let fs1 = record f.0 { unused_block_start = n } in
      let k : Kept f.0 fs1 = record {
        flags = refl;
        offsets = refl;
        sizes = refl;
        options = refl;
        b_loaded = refl;
      } in
      let o = f.3.options in
      let count = ap (λ o. o.block_count) o in
      let size = ap (λ o. o.block_size) o in
      let same : Others L f.0 i fs1 = record {
        headers = λ j h' ne. header_lem L j k refl;
        bodies = λ j h' ne. contents_lem L j k refl;
      } in
      let b =
        last-Blanked fs1 i (Kept-IsLaid L k f.2 f.2.ready refl) (h.0, omega (arith, h.1, count))
          (omega (arith, some_data, size)) in
      (
        b.after,
        wipe_valid api fs (record bl { id = i }) (place_lem L fs i v h).valid
            ∙ ap (λ q. some q) (wipe_calls L fs f.0 (record bl { id = i }) true f.1 ∙ b.wiped),
        Kept-trans f.3 (Kept-trans k b.kept),
        b.laid,
        (
          b.head ∙ header_lem L i k refl ∙ f.4,
          b.body
              ∙ ap zeros {x = fs1.options.block_size} {y = b.after.options.block_size}
                  (sym (ap (λ o. o.block_size) b.kept.options)),
        ),
        Others-trans fs f.0 b.after i f.3 f.6 (Others-trans f.0 fs1 b.after i k same b.others),
      )
