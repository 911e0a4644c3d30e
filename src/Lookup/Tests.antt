-- ===== src/Lookup/Tests.antt =====
-- Two inodes and their names in a memory range: the theorems at concrete inputs.
use whefs.Common.{ℕ, zero, suc, ◌≡◌, refl, arith, true, none, some, List, [], ◌∷◌, false}
use whefs.Rc.{ok, access_error}
use whefs.Bits.{Whbits}
use whefs.Bits.Laws.{IsValid}
use whefs.Device.Memmap.{Memmap}
use whefs.Device.Memmap
use whefs.Device.Memmap.Laws.{memmap_laws, IsInside}
use whefs.Encode.Cstring.{strlen}
use whefs.Fs.{Fs, Options, init_sizes, init_offsets, fs_sizeof_name}
use whefs.Hash.{Library, hash_cstring, first_index}
use whefs.Inode.{Inode, empty, encode}
use whefs.Inode.Place.{IsLaid, Has}
use whefs.Inode.Place
use whefs.Inode.Table.{Table}
use whefs.Inode.Opened.{Entry, Vfs, find, open_inode}
use whefs.NameCache.{Cache}
use whefs.Names.RoundTrip
use whefs.Lookup.{name_set, unlink}
use whefs.Lookup.Unlink.{unlink-open}
use whefs.Lookup.Renaming.{Renames, name_set-Renames}

-- A list of one cell is sorted as it is.
abbrev library : Library
library = record {
  makes = true;
  allocates = λ n. true;
  qsort = λ c list. list;
  bsearch = λ key list c. first_index list key.hash;
}

abbrev options : Options
options = record {
  magic_length = 0;
  block_size = 2;
  block_count = 0;
  inode_count = 2;
  filename_length = 3;
}

-- The names of the inodes, the second of which is "a", and their records.
abbrev disk : List ℕ
disk =
    9 ∷ 34 ∷ 144 ∷ 0 ∷ 1 ∷ 144 ∷ 0 ∷ 1 ∷ 47 ∷ 0 ∷ 0 ∷ 34 ∷ 144 ∷ 0 ∷ 2 ∷ 144 ∷ 0 ∷ 1 ∷ 97 ∷ 0 ∷ 0
    ∷ 73 ∷ 144 ∷ 0 ∷ 1 ∷ 136 ∷ 1 ∷ 160 ∷ 0 ∷ 0 ∷ 0 ∷ 0 ∷ 160 ∷ 0 ∷ 0 ∷ 0 ∷ 0 ∷ 144 ∷ 0 ∷ 0 ∷ 73
    ∷ 144 ∷ 0 ∷ 2 ∷ 136 ∷ 1 ∷ 160 ∷ 0 ∷ 0 ∷ 0 ∷ 0 ∷ 160 ∷ 0 ∷ 0 ∷ 0 ∷ 0 ∷ 144 ∷ 0 ∷ 0 ∷ 5 ∷ []

abbrev page : Memmap
page = record { size = 60; maxsize = 60; at = 0; rw = true; ro = true; mem = disk; overrun = false }

abbrev bits : Whbits
bits = record { sz_bits = 4; sz_bytes = 1; sz_alloc = 1; bytes = 6 ∷ [] }

abbrev fs : Fs Memmap.Dev
fs = record {
  flags = 38;
  offsets = record (init_offsets options) { inode_names = 1; inodes_no_str = 21 };
  sizes = init_sizes options;
  dev = some page;
  used_blocks = bits;
  b_loaded = true;
  used_inodes = bits;
  i_loaded = true;
  unused_block_start = 0;
  unused_inode_start = 0;
  options = options;
}

abbrev cache : Cache
cache = record { hashes = none; hashfunc = λ s. hash_cstring (some s) }

page-IsInside : IsInside page
page-IsInside = record {
  writable = refl;
  readable = refl;
  long = omega arith;
  small = omega arith;
  inside = omega arith;
  kept_in = refl;
}

names-IsLaid : RoundTrip.IsLaid memmap_laws fs
unfolding memmap_laws init_sizes fs_sizeof_name
names-IsLaid = record {
  ready = page-IsInside;
  sized = refl;
  short = omega arith;
  room = omega arith;
}

-- The second inode is renamed from "a" to "bc".
name_set-Renames_example :
    Renames memmap_laws library fs cache 2
      (98 ∷ 99 ∷ 0 ∷ [])
      (name_set Memmap.api library true fs cache 2 (98 ∷ 99 ∷ 0 ∷ []))
unfolding memmap_laws strlen init_sizes fs_sizeof_name
name_set-Renames_example =
    name_set-Renames memmap_laws library fs cache 2 (97 ∷ 0 ∷ []) (98 ∷ 99 ∷ 0 ∷ []) refl
      names-IsLaid (omega arith, omega arith) (omega arith) refl (omega arith)

abbrev nodes : ℕ → Inode
nodes j = record empty { id = j; flags = 1 }

-- The numbers 1 and 2.
two : (P : ℕ → Type 0) → P 1 → P 2 → (j : ℕ) → Has fs j → P j
two P a b zero h = absurd (omega (arith, h.0))
two P a b (suc zero) h = a
two P a b (suc (suc zero)) h = b
two P a b (suc (suc (suc j))) h = absurd (omega (arith, h.1))

bits-IsValid : IsValid bits
bits-IsValid = record {
  alloced = refl;
  sized = refl;
  fits = omega arith;
  bytes_ok = elim [ zero ↦ omega arith | suc i ↦ omega arith ];
}

laid : IsLaid memmap_laws fs
unfolding memmap_laws init_sizes
laid = record {
  ready = page-IsInside;
  behind = omega arith;
  sized = refl;
  counted = omega arith;
  room = omega arith;
}

table : Table memmap_laws nodes fs
unfolding memmap_laws init_sizes Place.stored encode whefs.Fs.id_encode whefs.Encode.encode_uint16
    whefs.Encode.encode_uint8 whefs.Encode.encode_uint32
table = record {
  laid = laid;
  on_disk = two (λ j. Place.stored memmap_laws fs j ≡ encode (nodes j)) refl refl;
  narrow = λ j h. record {
    id-lt = omega (arith, h.1);
    flags-lt = omega arith;
    first-lt = omega arith;
    size-lt = omega arith;
    mtime-lt = omega arith;
  };
  numbered = λ j h. refl;
  bits = bits-IsValid;
  enough = omega arith;
}

abbrev vfs : Vfs Memmap.Dev
vfs = record { fs = fs; opened_nodes = [] }

unlink-open_example :
    (e : Entry) × (v' : Vfs Memmap.Dev) × (open_inode Memmap.api (some 200) vfs 2 50
      ≡ (ok, some e, v'))
    × (unlink Memmap.api library true 3 v' cache e.inode ≡ some (access_error, e.inode, v', cache))
unfolding find
unlink-open_example =
    unlink-open memmap_laws nodes library true 3 200 vfs cache 2 50 table (omega arith, omega arith)
      tt tt
