-- ===== src/Fs/Tests.antt =====
-- The layout of a container with the options of `WHEFS_FS_OPTIONS_DEFAULT`, but for the length of its magic
-- cookie.
use whefs.Common.{◌+◌, ◌*◌, ◌≡◌, refl, arith}
use whefs.Fs.{
  Options, init_offsets, init_sizes, calculate_size, fs_sizeof_name, fs_sizeof_block,
  fs_sizeof_options,
}
use whefs.Fs.Layout.{whole_size, calculate_size_agrees, layout_fits}

abbrev options : Options
options = record {
  magic_length = 10;
  block_size = 8192;
  block_count = 128;
  inode_count = 128;
  filename_length = 64;
}

calculate_size_run : calculate_size options ≡ 1061435
unfolding calculate_size fs_sizeof_name fs_sizeof_block fs_sizeof_options
calculate_size_run = refl

calculate_size_agrees_example : calculate_size options ≡ (init_offsets options).eof
calculate_size_agrees_example = calculate_size_agrees options

layout_fits_example :
    (let o = init_offsets options in
      (o.size ≡ o.core_magic + 20)
      × (o.client_magic ≡ o.size + 5)
      × (o.options ≡ o.client_magic + 3 + 10)
      × (o.hints ≡ o.options + 14)
      × (o.inode_names ≡ o.hints + 7)
      × (o.inodes_no_str ≡ o.inode_names + 128 * (init_sizes options).inode_name)
      × (o.blocks ≡ o.inodes_no_str + 128 * (init_sizes options).inode_no_str)
      × (o.eof ≡ o.blocks + 128 * (8192 + 10))
      × (o.eof ≡ whole_size options))
layout_fits_example = layout_fits options (omega arith)
