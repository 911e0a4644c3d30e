-- ===== src/Inode/Tests.antt =====
-- Three inodes in a memory range: the theorems at concrete inputs.
use whefs.Common.{
  ℕ, zero, suc, ◌+◌, ◌<◌, ◌≡◌, ◌⊎◌, refl, subst, arith, true, none, some, List, [], ◌∷◌, overwrite,
  NoneFree, FirstFree, false,
}
use whefs.Rc.{ok, fs_full}
use whefs.Bits.{Whbits}
use whefs.Bits.Laws.{IsValid}
use whefs.Device.Memmap.{Memmap}
use whefs.Device.Memmap
use whefs.Device.Memmap.Laws.{memmap_laws, IsInside}
use whefs.Fs.{Fs, Options, init_sizes, init_offsets, is_rw, bcache_is_used}
use whefs.Inode.{Inode, empty, encode, flush, id_read, read_flags}
use whefs.Inode.Short.{read_flags_short}
use whefs.Inode.Record.{IsNarrow, stored_in}
use whefs.Inode.Place.{IsLaid, Has, Same, place, stored}
use whefs.Inode.Flush.{id_read-flush}
use whefs.Inode.Table.{Table, Cached, used, put, inode_flush-Table}
use whefs.Inode.Search.{taken, next_free, inode_cache_load}
use whefs.Inode.Loading.{loaded, Loads, inode_cache_load_lem}
use whefs.Inode.Taking.{Takes, next_free-Takes}
use whefs.Inode.Opened.{Entry, Vfs, count_bound, find, open_inode, close_writer, close}
use whefs.Inode.Opened.Lists.{Ordered}
use whefs.Inode.Opened.Sharing.{Countable, Opens, opening, open_refines}
use whefs.Inode.Opened.Closing.{Closes, closing, close_refines}
use whefs.Inode.Opened.Undoing.{close-open}

abbrev node : ℕ → ℕ → ℕ → ℕ → Inode
node id flags first size = record empty {
  id = id;
  flags = flags;
  first_block = first;
  data_size = size;
  mtime = 258;
}

-- The root and the second inode are in use, the third one is free.
abbrev nodes : ℕ → Inode
nodes (suc zero) = node 1 1 0 0
nodes (suc (suc zero)) = node 2 1 4 300
nodes j = node j 0 0 0

abbrev disk : List ℕ
disk =
    9 ∷ 73 ∷ 144 ∷ 0 ∷ 1 ∷ 136 ∷ 1 ∷ 160 ∷ 0 ∷ 0 ∷ 1 ∷ 2 ∷ 160 ∷ 0 ∷ 0 ∷ 0 ∷ 0 ∷ 144 ∷ 0 ∷ 0 ∷ 73
    ∷ 144 ∷ 0 ∷ 2 ∷ 136 ∷ 1 ∷ 160 ∷ 0 ∷ 0 ∷ 1 ∷ 2 ∷ 160 ∷ 0 ∷ 0 ∷ 1 ∷ 44 ∷ 144 ∷ 0 ∷ 4 ∷ 73 ∷ 144
    ∷ 0 ∷ 3 ∷ 136 ∷ 0 ∷ 160 ∷ 0 ∷ 0 ∷ 1 ∷ 2 ∷ 160 ∷ 0 ∷ 0 ∷ 0 ∷ 0 ∷ 144 ∷ 0 ∷ 0 ∷ 5 ∷ []

abbrev page : Memmap
page = record { size = 59; maxsize = 59; at = 0; rw = true; ro = true; mem = disk; overrun = false }

abbrev options : Options
options = record {
  magic_length = 0;
  block_size = 2;
  block_count = 0;
  inode_count = 3;
  filename_length = 0;
}

abbrev bits : Whbits
bits = record { sz_bits = 4; sz_bytes = 1; sz_alloc = 1; bytes = 6 ∷ [] }

abbrev fs : Fs Memmap.Dev
fs = record {
  flags = 6;
  offsets = record (init_offsets options) { inodes_no_str = 1 };
  sizes = init_sizes options;
  dev = some page;
  used_blocks = bits;
  b_loaded = true;
  used_inodes = bits;
  i_loaded = true;
  unused_block_start = 0;
  unused_inode_start = 0;
  options = options;
}

page-IsInside : IsInside page
page-IsInside = record {
  writable = refl;
  readable = refl;
  long = omega arith;
  small = omega arith;
  inside = omega arith;
  kept_in = refl;
}

laid : IsLaid memmap_laws fs
unfolding memmap_laws init_sizes
laid = record {
  ready = page-IsInside;
  behind = omega arith;
  sized = refl;
  counted = omega arith;
  room = omega arith;
}

writes : is_rw fs ≡ true
unfolding is_rw
writes = refl

-- The numbers 1, 2 and 3.
three : (P : ℕ → Type 0) → P 1 → P 2 → P 3 → (j : ℕ) → Has fs j → P j
three P a b c zero h = absurd (omega (arith, h.0))
three P a b c (suc zero) h = a
three P a b c (suc (suc zero)) h = b
three P a b c (suc (suc (suc zero))) h = c
three P a b c (suc (suc (suc (suc j)))) h = absurd (omega (arith, h.1))

bits-IsValid : IsValid bits
bits-IsValid = record {
  alloced = refl;
  sized = refl;
  fits = omega arith;
  bytes_ok = elim [ zero ↦ omega arith | suc i ↦ omega arith ];
}

node-IsNarrow :
    (id flags first size : ℕ)
    → id < 10
    → flags < 10
    → first < 10
    → size < 1000
    → IsNarrow (node id flags first size)
node-IsNarrow id flags first size a b c d = record {
  id-lt = omega (arith, a);
  flags-lt = omega (arith, b);
  first-lt = omega (arith, c);
  size-lt = omega (arith, d);
  mtime-lt = omega arith;
}

table : Table memmap_laws nodes fs
unfolding memmap_laws init_sizes stored encode whefs.Fs.id_encode whefs.Encode.encode_uint16
    whefs.Encode.encode_uint8 whefs.Encode.encode_uint32
table = record {
  laid = laid;
  on_disk = three (λ j. stored memmap_laws fs j ≡ encode (nodes j)) refl refl refl;
  narrow =
      three (λ j. IsNarrow (nodes j))
        (node-IsNarrow 1 1 0 0 (omega arith) (omega arith) (omega arith) (omega arith))
        (node-IsNarrow 2 1 4 300 (omega arith) (omega arith) (omega arith) (omega arith))
        (node-IsNarrow 3 0 0 0 (omega arith) (omega arith) (omega arith) (omega arith));
  numbered = three (λ j. (nodes j).id ≡ j) refl refl refl;
  bits = bits-IsValid;
  enough = omega arith;
}

cached : Cached memmap_laws nodes fs
unfolding bcache_is_used whefs.Bits.get_macro whefs.Bits.byte_get
cached loaded j h client = three (λ j. bcache_is_used bits j ≡ used nodes j) refl refl refl j h

next_free-Takes_example :
    (fs' : Fs Memmap.Dev) × ((NoneFree (used nodes) 2 3
        × (next_free Memmap.api 7 5 fs empty true ≡ some (fs_full, empty, fs'))
        × Table memmap_laws nodes fs'
        × (memmap_laws.view fs'.dev ≡ disk))
      ⊎ ((j : ℕ) × FirstFree (used nodes) 2 3 j
          × (next_free Memmap.api 7 5 fs empty true
              ≡ some (ok, taken 7 (stored_in empty (nodes j)), fs'))
          × Takes memmap_laws nodes fs fs' (taken 7 (stored_in empty (nodes j)))))
unfolding memmap_laws
next_free-Takes_example =
    next_free-Takes memmap_laws nodes 7 5 fs empty table cached writes (omega arith) (omega arith)

inode_flush-Table_example :
    (fs' : Fs Memmap.Dev) × (flush Memmap.api fs (node 3 1 8 9) ≡ (ok, fs'))
    × Same fs fs'
    × Table memmap_laws (put nodes (node 3 1 8 9)) fs'
    × (Cached memmap_laws nodes fs → Cached memmap_laws (put nodes (node 3 1 8 9)) fs')
inode_flush-Table_example =
    inode_flush-Table memmap_laws nodes fs (node 3 1 8 9) table writes (omega arith, omega arith)
      (node-IsNarrow 3 1 8 9 (omega arith) (omega arith) (omega arith) (omega arith))

id_read-flush_example :
    (fs' fs2 : Fs Memmap.Dev) × (flush Memmap.api fs (node 2 0 8 9) ≡ (ok, fs'))
    × (id_read Memmap.api fs' 2 empty ≡ (ok, stored_in empty (node 2 0 8 9), fs2))
    × (memmap_laws.view fs2.dev
        ≡ overwrite (memmap_laws.view fs.dev) (place fs 2) (encode (node 2 0 8 9)))
id_read-flush_example =
    id_read-flush memmap_laws fs (node 2 0 8 9) empty laid writes (omega arith, omega arith)
      (node-IsNarrow 2 0 8 9 (omega arith) (omega arith) (omega arith) (omega arith))

inode_cache_load_lem_example :
    (mid : Fs Memmap.Dev) × (inode_cache_load Memmap.api 4 fs
      ≡ some (ok, loaded memmap_laws nodes mid))
    × Loads memmap_laws nodes fs mid
inode_cache_load_lem_example = inode_cache_load_lem memmap_laws nodes 4 fs table (omega arith)

-- The second inode is opened twice, for the writer 40 and without one.
abbrev second : Entry
second = record { address = 100; inode = record (node 2 1 4 300) { open_count = 2; writer = 40 } }

abbrev vfs : Vfs Memmap.Dev
vfs = record { fs = fs; opened_nodes = second ∷ [] }

in_order : Ordered 0 vfs.opened_nodes
in_order = (omega arith, omega arith, tt)

second_count : Countable vfs 2
unfolding find
second_count e f =
    subst (λ o. elim o [ none ↦ Unit | some x ↦ x.inode.open_count + 1 < count_bound ]) f
      (omega arith)

open_refines_example :
    Opens vfs 2
      (opening (some 200) (nodes 2) 0 (some second))
      (open_inode Memmap.api (some 200) vfs 2 0)
unfolding find
open_refines_example =
    open_refines memmap_laws nodes (some 200) vfs 2 0 table (omega arith, omega arith) in_order
      second_count

close_refines_example :
    Closes vfs 2
      (closing 40 second)
      (close_writer Memmap.api fs second.inode 40).1
      (close Memmap.api vfs second 40)
unfolding find whefs.Inode.id_is_valid
close_refines_example =
    close_refines Memmap.api vfs second second 40 refl in_order refl refl (omega arith)

close-open_example :
    (e : Entry) × (v1 v2 : Vfs Memmap.Dev) × (open_inode Memmap.api (some 200) vfs 3 50
      ≡ (ok, some e, v1))
    × (close Memmap.api v1 e 50 ≡ (ok, v2))
    × ((j : ℕ) → find v2.opened_nodes j ≡ find vfs.opened_nodes j)
unfolding find
close-open_example =
    close-open memmap_laws nodes 200 vfs 3 50 table (omega arith, omega arith) in_order tt

-- The device ends in the record of the third inode.
abbrev cut : Fs Memmap.Dev
cut = record fs { dev = some (record page { size = 50; maxsize = 50 }) }

read_flags_short_example :
    read_flags Memmap.api cut 3
    ≡ (ok, some 0, record cut { dev = some (record page { size = 50; maxsize = 50; at = 50 }) })
unfolding init_sizes whefs.Inode.id_is_valid whefs.Inode.id_pos whefs.Inode.id_seek whefs.Fs.fs_seek
    Memmap.seek whefs.Device.Seek.mem_target Memmap.read
read_flags_short_example =
    read_flags_short Memmap.api cut
      (record cut { dev = some (record page { size = 50; maxsize = 50; at = 39 }) }) 3
      (73 ∷ 144 ∷ 0 ∷ 3 ∷ 136 ∷ 0 ∷ 160 ∷ 0 ∷ 0 ∷ 1 ∷ 2 ∷ [])
      (some (record page { size = 50; maxsize = 50; at = 50 })) refl refl refl (omega arith)
