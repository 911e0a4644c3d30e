-- ===== src/Block/Container.antt =====
-- A new container: its blocks lie where the sizes and offsets put them, and come out free and zeroed.
use whefs.Common.{
  ℕ, zero, suc, ◌+◌, ◌-◌, ◌*◌, ◌<◌, ◌≤◌, ◌≡◌, ap, sym, ◌∙◌, arith, true, some, length, mul-lt,
}
use whefs.Rc.{ok, size_bound, id_type_end}
use whefs.Device.{DevApi, DevLaws}
use whefs.Fs.{
  Fs, Options, is_rw, init_sizes, init_offsets, calculate_size, fs_sizeof_block,
  sizeof_encoded_block,
}
use whefs.Fs.Layout.{whole_size, layout_fits, calculate_size_agrees}
use whefs.Block.Alloc.{write_blocklist}
use whefs.Block.Place.{Kept, IsLaid, Has}
use whefs.Block.Blank.{IsBlank}
use whefs.Block.Format.{write_blocklist_blanks}
mod Tests

-- An entry of the table of blocks is a header and its data, as nothing wraps in a container with a block.
block_entry :
    (opt : Options)
    → 0 < opt.block_count
    → whole_size opt < size_bound
    → (init_sizes opt).block ≡ opt.block_size + sizeof_encoded_block
unfolding init_sizes fs_sizeof_block
block_entry opt some_block small =
    omega (arith, small, mul-lt 0 opt.block_count (opt.block_size + 10) some_block)

module _ {D : Type 0} {api : DevApi D} (L : DevLaws api) where
  -- The sizes and offsets are the ones of the options, and the device has the size that they give.
  pub record IsSized (fs : Fs D) : Type 0 where
    pub ready : L.Valid fs.dev
    pub sizes : fs.sizes ≡ init_sizes fs.options
    pub offsets : fs.offsets ≡ init_offsets fs.options
    pub small : whole_size fs.options < size_bound
    pub counted : fs.options.block_count < id_type_end
    pub some_block : 0 < fs.options.block_count
    pub room : calculate_size fs.options ≤ length (L.view fs.dev)

  IsSized-IsLaid : (fs : Fs D) → IsSized fs → IsLaid L fs
  IsSized-IsLaid fs v =
      let opt = fs.options in
      let l = layout_fits opt v.small in
      let b = ap (λ o. o.blocks) v.offsets in
      let s = ap (λ s. s.block) v.sizes ∙ block_entry opt v.some_block v.small in
      let e = calculate_size_agrees opt in
      let t : opt.block_count * fs.sizes.block ≡ opt.block_count * (opt.block_size + 10) =
        ap (λ n. opt.block_count * n) s in
      record {
        ready = v.ready;
        behind = omega (arith, b, l.2, l.3, l.4, l.5, l.6);
        sized = s;
        counted = v.counted;
        room = omega (arith, b, e, t, l.7, v.room);
      }

  -- For a filesystem whose sizes and offsets are those of its options, where these make a container of less
  -- than 2 ^ 32 bytes, with a block or more and fewer than 2 ^ 16 - 1 of them, each with a byte of data or
  -- more: on a writable device that keeps its laws and has the size that `whefs_fs_calculate_size` gives,
  -- whatever is on it before, the loop of mkfs over all blocks comes to an end and returns OK, with rounds
  -- for all blocks. After it every block is free on the disk, without a next one, and its data are zeros.
  pub container_blanks :
      (rounds : ℕ) (fs : Fs D)
      → IsSized fs
      → is_rw fs ≡ true
      → 0 < fs.options.block_size
      → fs.options.block_count < rounds
      → (fs' : Fs D) × (write_blocklist api rounds fs ≡ some (ok, fs'))
        × Kept fs fs'
        × IsLaid L fs'
        × ((j : ℕ) → Has L fs' j → IsBlank L fs' j)
  container_blanks rounds fs v m some_data enough =
      write_blocklist_blanks L rounds fs (IsSized-IsLaid fs v) m some_data enough v.some_block
