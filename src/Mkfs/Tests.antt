-- ===== src/Mkfs/Tests.antt =====
-- A new table of two inodes in a memory range, and its hints: the theorems at concrete inputs.
use whefs.Common.{ℕ, ◌≡◌, refl, arith, true, some, List, [], ◌∷◌, overwrite, false}
use whefs.Rc.{ok}
use whefs.Bits.{Whbits}
use whefs.Device.Memmap.{Memmap}
use whefs.Device.Memmap
use whefs.Device.Memmap.Laws.{memmap_laws, IsInside}
use whefs.Fs.{Fs, Options, init_sizes, init_offsets, is_rw}
use whefs.Inode.Table.{Table}
use whefs.Mkfs.{encode_hints, hints_write, hints_read}
use whefs.Mkfs.Hints.{hints_read-write}

abbrev options : Options
options = record {
  magic_length = 0;
  block_size = 2;
  block_count = 0;
  inode_count = 2;
  filename_length = 0;
}

abbrev junk : List ℕ
junk =
    1 ∷ 2 ∷ 3 ∷ 4 ∷ 5 ∷ 6 ∷ 7 ∷ 8 ∷ 9 ∷ 1 ∷ 2 ∷ 3 ∷ 4 ∷ 5 ∷ 6 ∷ 7 ∷ 8 ∷ 9 ∷ 1 ∷ 2 ∷ 3 ∷ 4 ∷ 5 ∷ 6
    ∷ 7 ∷ 8 ∷ 9 ∷ 1 ∷ 2 ∷ 3 ∷ 4 ∷ 5 ∷ 6 ∷ 7 ∷ 8 ∷ 9 ∷ 1 ∷ 2 ∷ 3 ∷ 4 ∷ 5 ∷ 6 ∷ 7 ∷ 8 ∷ 9 ∷ 1 ∷ 2 ∷ 3
    ∷ []

abbrev page : Memmap
page = record { size = 48; maxsize = 48; at = 9; rw = true; ro = true; mem = junk; overrun = false }

abbrev bits : Whbits
bits = record { sz_bits = 4; sz_bytes = 1; sz_alloc = 1; bytes = 0 ∷ [] }

abbrev fs : Fs Memmap.Dev
fs = record {
  flags = 6;
  offsets = record (init_offsets options) { hints = 1; inodes_no_str = 8 };
  sizes = init_sizes options;
  dev = some page;
  used_blocks = bits;
  b_loaded = true;
  used_inodes = bits;
  i_loaded = true;
  unused_block_start = 300;
  unused_inode_start = 2;
  options = options;
}

page-IsInside : IsInside page
page-IsInside = record {
  writable = refl;
  readable = refl;
  long = omega arith;
  small = omega arith;
  inside = omega arith;
  kept_in = refl;
}

writes : is_rw fs ≡ true
unfolding is_rw
writes = refl

hints_read-write_example :
    (d d' : Memmap.Dev) × (hints_write Memmap.api fs ≡ (ok, record fs { dev = d }))
    × (hints_read Memmap.api (record fs { dev = d; unused_inode_start = 0; unused_block_start = 9 })
        ≡ (ok, record fs { dev = d' }))
    × (memmap_laws.view d' ≡ memmap_laws.view d)
    × (memmap_laws.view d ≡ overwrite (memmap_laws.view fs.dev) 1 (encode_hints 2 300))
unfolding memmap_laws
hints_read-write_example =
    hints_read-write memmap_laws fs 0 9 page-IsInside (omega arith) writes (omega arith)
      (omega arith)
