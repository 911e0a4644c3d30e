-- ===== src/Names/Tests.antt =====
-- Two names in a memory range: the theorem at a concrete input.
use whefs.Common.{ℕ, ◌≡◌, ◌≢◌, refl, arith, true, none, some, List, [], ◌∷◌, take, false}
use whefs.Rc.{ok}
use whefs.Encode.Cstring.{strlen}
use whefs.Device.Memmap.{Memmap}
use whefs.Device.Memmap
use whefs.Device.Memmap.Laws.{memmap_laws}
use whefs.Fs.{Fs, Options, init_sizes, init_offsets, fs_sizeof_name}
use whefs.Hash.{Library, hash_cstring, first_index}
use whefs.Inode.Place.{Has}
use whefs.NameCache.{Cache}
use whefs.Strings.{WhefsString, empty}
use whefs.Strings.Filled.{text}
use whefs.Strings.Copy.{IsSound}
use whefs.Names.{name_write, name_get}
use whefs.Names.RoundTrip.{IsLaid}
use whefs.Names.Reading.{stored, name_get-write}

-- A list of one cell is sorted as it is.
abbrev library : Library
library = record {
  makes = true;
  allocates = λ n. true;
  qsort = λ c list. list;
  bsearch = λ key list c. first_index list key.hash;
}

abbrev options : Options
options = record {
  magic_length = 0;
  block_size = 2;
  block_count = 0;
  inode_count = 2;
  filename_length = 3;
}

abbrev disk : List ℕ
disk =
    9 ∷ 34 ∷ 144 ∷ 0 ∷ 1 ∷ 144 ∷ 0 ∷ 1 ∷ 47 ∷ 0 ∷ 0 ∷ 34 ∷ 144 ∷ 0 ∷ 2 ∷ 144 ∷ 0 ∷ 0 ∷ 0 ∷ 0 ∷ 0 ∷ 7
    ∷ []

abbrev page : Memmap
page = record { size = 22; maxsize = 22; at = 0; rw = true; ro = true; mem = disk; overrun = false }

abbrev fs : Fs Memmap.Dev
fs = record {
  flags = 38;
  offsets = record (init_offsets options) { inode_names = 1 };
  sizes = init_sizes options;
  dev = some page;
  used_blocks = record { sz_bits = 4; sz_bytes = 1; sz_alloc = 1; bytes = 6 ∷ [] };
  b_loaded = true;
  used_inodes = record { sz_bits = 4; sz_bytes = 1; sz_alloc = 1; bytes = 6 ∷ [] };
  i_loaded = true;
  unused_block_start = 0;
  unused_inode_start = 0;
  options = options;
}

abbrev cache : Cache
cache = record { hashes = none; hashfunc = λ s. hash_cstring (some s) }

laid : IsLaid memmap_laws fs
unfolding memmap_laws init_sizes fs_sizeof_name
laid = record {
  ready = record {
    writable = refl;
    readable = refl;
    long = omega arith;
    small = omega arith;
    inside = omega arith;
    kept_in = refl;
  };
  sized = refl;
  short = omega arith;
  room = omega arith;
}

-- A name of two letters is written over the empty one.
abbrev name : List ℕ
name = 97 ∷ 98 ∷ 0 ∷ []

empty-IsSound : IsSound empty
empty-IsSound = record { sized = refl; small = omega arith }

name_get-write_example :
    (fs' fs2 : Fs Memmap.Dev) × (c' : Cache) × (s : WhefsString) × (name_write Memmap.api fs 2
        (some name)
      ≡ (ok, fs'))
    × (name_get Memmap.api library true fs' cache 2 empty ≡ some (ok, s, fs2, c'))
    × IsSound s
    × (s.length ≡ 2)
    × (text s.string ≡ take 2 name)
    × (memmap_laws.view fs2.dev ≡ memmap_laws.view fs'.dev)
    × ((j : ℕ) → Has fs j → j ≢ 2 → stored memmap_laws fs' j ≡ stored memmap_laws fs j)
unfolding strlen
name_get-write_example =
    name_get-write memmap_laws library fs cache 2 name empty refl laid (omega arith, omega arith)
      (omega arith) empty-IsSound (λ e. absurd (omega (arith, e)))
