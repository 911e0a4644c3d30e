-- ===== src/Block/Container/Tests.antt =====
-- A new container of three blocks of two bytes in a memory range: the theorem at a concrete input.
use whefs.Common.{ℕ, ◌≡◌, refl, arith, true, some, List, [], ◌∷◌, false}
use whefs.Rc.{ok}
use whefs.Device.Memmap.{Memmap}
use whefs.Device.Memmap
use whefs.Device.Memmap.Laws.{memmap_laws, IsInside}
use whefs.Fs.{
  Fs, Options, is_rw, init_sizes, init_offsets, calculate_size, fs_sizeof_name, fs_sizeof_block,
  fs_sizeof_options,
}
use whefs.Block.Alloc.{write_blocklist}
use whefs.Block.Place.{Kept, IsLaid, Has}
use whefs.Block.Blank.{IsBlank}
use whefs.Block.Container.{IsSized, container_blanks}

abbrev options : Options
options = record {
  magic_length = 0;
  block_size = 2;
  block_count = 3;
  inode_count = 0;
  filename_length = 0;
}

abbrev junk : List ℕ
junk =
    0 ∷ 2 ∷ 4 ∷ 1 ∷ 3 ∷ 0 ∷ 2 ∷ 4 ∷ 1 ∷ 3 ∷ 0 ∷ 2 ∷ 4 ∷ 1 ∷ 3 ∷ 0 ∷ 2 ∷ 4 ∷ 1 ∷ 3 ∷ 0 ∷ 2 ∷ 4 ∷ 1
    ∷ 3 ∷ 0 ∷ 2 ∷ 4 ∷ 1 ∷ 3 ∷ 0 ∷ 2 ∷ 4 ∷ 1 ∷ 3 ∷ 0 ∷ 2 ∷ 4 ∷ 1 ∷ 3 ∷ 0 ∷ 2 ∷ 4 ∷ 1 ∷ 3 ∷ 0 ∷ 2 ∷ 4
    ∷ 1 ∷ 3 ∷ 0 ∷ 2 ∷ 4 ∷ 1 ∷ 3 ∷ 0 ∷ 2 ∷ 4 ∷ 1 ∷ 3 ∷ 0 ∷ 2 ∷ 4 ∷ 1 ∷ 3 ∷ 0 ∷ 2 ∷ 4 ∷ 1 ∷ 3 ∷ 0 ∷ 2
    ∷ 4 ∷ 1 ∷ 3 ∷ 0 ∷ 2 ∷ 4 ∷ 1 ∷ 3 ∷ 0 ∷ 2 ∷ 4 ∷ 1 ∷ 3 ∷ []

abbrev page : Memmap
page = record { size = 85; maxsize = 85; at = 9; rw = true; ro = true; mem = junk; overrun = false }

abbrev fs : Fs Memmap.Dev
fs = record {
  flags = 6;
  offsets = init_offsets options;
  sizes = init_sizes options;
  dev = some page;
  used_blocks = record { sz_bits = 4; sz_bytes = 1; sz_alloc = 1; bytes = 6 ∷ [] };
  b_loaded = true;
  used_inodes = record { sz_bits = 4; sz_bytes = 1; sz_alloc = 1; bytes = 2 ∷ [] };
  i_loaded = true;
  unused_block_start = 0;
  unused_inode_start = 0;
  options = options;
}

page-IsInside : IsInside page
page-IsInside = record {
  writable = refl;
  readable = refl;
  long = omega arith;
  small = omega arith;
  inside = omega arith;
  kept_in = refl;
}

fs-IsSized : IsSized memmap_laws fs
unfolding memmap_laws calculate_size fs_sizeof_name fs_sizeof_block fs_sizeof_options
fs-IsSized = record {
  ready = page-IsInside;
  sizes = refl;
  offsets = refl;
  small = omega arith;
  counted = omega arith;
  some_block = omega arith;
  room = omega arith;
}

fs_rw : is_rw fs ≡ true
unfolding is_rw
fs_rw = refl

container_blanks_example :
    (fs' : Fs Memmap.Dev) × (write_blocklist Memmap.api 4 fs ≡ some (ok, fs'))
    × Kept fs fs'
    × IsLaid memmap_laws fs'
    × ((j : ℕ) → Has memmap_laws fs' j → IsBlank memmap_laws fs' j)
container_blanks_example =
    container_blanks memmap_laws 4 fs fs-IsSized fs_rw (omega arith) (omega arith)
