-- ===== src/Fs/Layout.antt =====
-- The layout of a container: its parts, one behind the other.
use whefs.Common.{ℕ, zero, suc, ◌+◌, ◌*◌, ◌%◌, ◌<◌, ◌≡◌, refl, arith}
use whefs.Rc.{size_bound, add_size}
use whefs.Fs.{
  Options, init_sizes, init_offsets, calculate_size, fs_sizeof_name, fs_sizeof_block,
  fs_sizeof_options,
}

-- For every choice of options, `whefs_fs_calculate_size` is the end of the file that
-- `whefs_fs_init_sizes` lays out, also where the size wraps around.
pub calculate_size_agrees : (opt : Options) → calculate_size opt ≡ (init_offsets opt).eof
unfolding calculate_size init_offsets init_sizes fs_sizeof_name fs_sizeof_options
calculate_size_agrees opt = omega arith

-- The size of the container as a number of any size.
abbrev pub whole_size : Options → ℕ
whole_size opt =
    49
    + opt.magic_length
    + opt.inode_count * (7 + opt.filename_length)
    + opt.inode_count * 19
    + opt.block_count * (opt.block_size + 10)

table_fits : (c s : ℕ) → c * (s + 10) < size_bound → c * add_size s 10 % size_bound ≡ c * (s + 10)
table_fits zero s h = omega arith
table_fits (suc c) s h =
    let e : add_size s 10 ≡ s + 10 = omega (arith, h) in rw e (omega (arith, h))

-- If the whole size is a number of 32 bits, nothing wraps: each part begins where the one before it ends,
-- with room for its header or for the entries of its table, and the last one ends at that size.
pub layout_fits :
    (opt : Options)
    → whole_size opt < size_bound
    → (let o = init_offsets opt in
        (o.size ≡ o.core_magic + 20)
        × (o.client_magic ≡ o.size + 5)
        × (o.options ≡ o.client_magic + 3 + opt.magic_length)
        × (o.hints ≡ o.options + 14)
        × (o.inode_names ≡ o.hints + 7)
        × (o.inodes_no_str ≡ o.inode_names + opt.inode_count * (init_sizes opt).inode_name)
        × (o.blocks ≡ o.inodes_no_str + opt.inode_count * (init_sizes opt).inode_no_str)
        × (o.eof ≡ o.blocks + opt.block_count * (opt.block_size + 10))
        × (o.eof ≡ whole_size opt))
unfolding init_offsets init_sizes fs_sizeof_name fs_sizeof_block fs_sizeof_options
layout_fits opt h =
    let t = table_fits opt.block_count opt.block_size (omega (arith, h)) in
    (
      refl,
      refl,
      omega (arith, h),
      omega (arith, h),
      omega (arith, h),
      omega (arith, h),
      omega (arith, h),
      omega (arith, h, t),
      omega (arith, h, t),
    )
