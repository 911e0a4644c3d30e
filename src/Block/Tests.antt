-- ===== src/Block/Tests.antt =====
-- A container of three blocks in a memory range: runs, and theorems at concrete inputs.
use whefs.Common.{
  ℕ, zero, suc, ◌≡◌, refl, arith, Bool, true, false, some, List, [], ◌∷◌, ◌++◌, take,
}
use whefs.Rc.{ok}
use whefs.Bits.{Whbits}
use whefs.Bits.Laws.{IsValid}
use whefs.Device.Memmap.{Memmap}
use whefs.Device.Memmap
use whefs.Device.Memmap.Laws.{memmap_laws, IsInside}
use whefs.Fs.{Fs, Options, Offsets, Sizes, is_rw, bcache_is_used}
use whefs.Block.{Block, encode, flush, read, data_pos, id_data_pos, id_pos, id_is_valid}
use whefs.Block.Wiping.{wipe, wipe_data}
use whefs.Block.Alloc.{next_free, block_cache_load}
use whefs.Block.Header.{IsNarrow}
use whefs.Block.Place.{IsLaid, Has, header, contents, Kept}
use whefs.Block.Flush.{Others, block_flush, read-flush}
use whefs.Block.Table.{Table, Cached, used, put}
use whefs.Block.Marks.{flush-Table}
use whefs.Block.Taking.{Finds, Takes, next_free-FirstFree, next_free_marks}
use whefs.Block.Wipe.{block_wipe_data}
use whefs.Block.Protected.{wipe_data_protected}
use whefs.Block.Clean.{clean, Spared}
use whefs.Block.Chain.{freed}
use whefs.Block.Loading.{Unfilled, block_cache_load_fills_nothing}
use whefs.Block.Freed.{wipe_frees_chain}

abbrev block : ℕ → ℕ → ℕ → Block
block id next flags = record { id = id; next_block = next; flags = flags }

-- The first block goes on in the second, the third one is free.
abbrev blocks : ℕ → Block
blocks (suc zero) = block 1 2 1
blocks (suc (suc zero)) = block 2 0 1
blocks j = block j 0 0

abbrev disk : List ℕ
disk =
    9 ∷ 66 ∷ 144 ∷ 0 ∷ 1 ∷ 136 ∷ 1 ∷ 144 ∷ 0 ∷ 2 ∷ 0 ∷ 5 ∷ 6 ∷ 66 ∷ 144 ∷ 0 ∷ 2 ∷ 136 ∷ 1 ∷ 144 ∷ 0
    ∷ 0 ∷ 0 ∷ 7 ∷ 8 ∷ 66 ∷ 144 ∷ 0 ∷ 3 ∷ 136 ∷ 0 ∷ 144 ∷ 0 ∷ 0 ∷ 0 ∷ 1 ∷ 1 ∷ []

abbrev page : Memmap
page = record { size = 37; maxsize = 37; at = 0; rw = true; ro = true; mem = disk; overrun = false }

abbrev bits : Whbits
bits = record { sz_bits = 4; sz_bytes = 1; sz_alloc = 1; bytes = 6 ∷ [] }

abbrev fs_with : Bool → Fs Memmap.Dev
fs_with loaded = record {
  flags = 6;
  offsets = record {
    core_magic = 0;
    size = 0;
    client_magic = 0;
    options = 0;
    hints = 0;
    inode_names = 0;
    inodes_no_str = 0;
    blocks = 1;
    eof = 37;
  };
  sizes = record { inode_no_str = 19; inode_name = 7; block = 12; options = 14; hints = 7 };
  dev = some page;
  used_blocks = bits;
  b_loaded = loaded;
  used_inodes = record { sz_bits = 4; sz_bytes = 1; sz_alloc = 1; bytes = 2 ∷ [] };
  i_loaded = true;
  unused_block_start = 0;
  unused_inode_start = 0;
  options = record {
    magic_length = 0;
    block_size = 2;
    block_count = 3;
    inode_count = 0;
    filename_length = 0;
  };
}

abbrev fs : Fs Memmap.Dev
fs = fs_with true

page-IsInside : IsInside page
page-IsInside = record {
  writable = refl;
  readable = refl;
  long = omega arith;
  small = omega arith;
  inside = omega arith;
  kept_in = refl;
}

laid : {loaded : Bool} → IsLaid memmap_laws (fs_with loaded)
unfolding memmap_laws
laid = record {
  ready = page-IsInside;
  behind = omega arith;
  sized = refl;
  counted = omega arith;
  room = omega arith;
}

writes : is_rw fs ≡ true
unfolding is_rw
writes = refl

-- The numbers 1, 2 and 3.
three : (P : ℕ → Type 0) → P 1 → P 2 → P 3 → (j : ℕ) → Has memmap_laws fs j → P j
three P a b c zero h = absurd (omega (arith, h.0))
three P a b c (suc zero) h = a
three P a b c (suc (suc zero)) h = b
three P a b c (suc (suc (suc zero))) h = c
three P a b c (suc (suc (suc (suc j)))) h = absurd (omega (arith, h.1))

bits-IsValid : IsValid bits
bits-IsValid = record {
  alloced = refl;
  sized = refl;
  fits = omega arith;
  bytes_ok = elim [ zero ↦ omega arith | suc i ↦ omega arith ];
}

table : (loaded : Bool) → Table memmap_laws blocks (fs_with loaded)
unfolding memmap_laws header encode bcache_is_used whefs.Fs.id_encode whefs.Encode.encode_uint16
    whefs.Encode.encode_uint8 whefs.Bits.get_macro whefs.Bits.byte_get
table loaded = record {
  laid = laid;
  on_disk = three (λ j. header memmap_laws (fs_with loaded) j ≡ encode (blocks j)) refl refl refl;
  narrow =
      three (λ j. IsNarrow (blocks j))
        (record { id-lt = omega arith; next-lt = omega arith; flags-lt = omega arith })
        (record { id-lt = omega arith; next-lt = omega arith; flags-lt = omega arith })
        (record { id-lt = omega arith; next-lt = omega arith; flags-lt = omega arith });
  numbered = three (λ j. (blocks j).id ≡ j) refl refl refl;
  bits = bits-IsValid;
  enough = omega arith;
  cached =
      three (λ j. loaded ≡ true → bcache_is_used bits j ≡ true → used blocks j ≡ true) (λ l c. refl)
        (λ l c. refl) (λ l c. c);
}

block_flush_example :
    (fs' : Fs Memmap.Dev) × (flush Memmap.api fs (block 2 3 1) ≡ (ok, fs'))
    × IsLaid memmap_laws fs'
    × Kept fs fs'
    × (header memmap_laws fs' 2 ≡ encode (block 2 3 1))
    × (contents memmap_laws fs' 2 ≡ contents memmap_laws fs 2)
    × Others memmap_laws fs 2 fs'
block_flush_example =
    block_flush memmap_laws fs (block 2 3 1) laid writes (omega arith, omega arith)

read-flush_example :
    (fs' : Fs Memmap.Dev) × (fs2 : Fs Memmap.Dev) × (flush Memmap.api fs (block 2 3 1) ≡ (ok, fs'))
    × (read Memmap.api fs' 2 (block 0 0 0) ≡ (ok, block 2 3 1, fs2))
    × (memmap_laws.view fs2.dev ≡ memmap_laws.view fs'.dev)
read-flush_example =
    read-flush memmap_laws fs (block 2 3 1) (block 0 0 0) laid writes (omega arith, omega arith)
      (record { id-lt = omega arith; next-lt = omega arith; flags-lt = omega arith })

flush-Table_example :
    (fs' : Fs Memmap.Dev) × (flush Memmap.api fs (block 2 3 1) ≡ (ok, fs'))
    × Kept fs fs'
    × Others memmap_laws fs 2 fs'
    × Table memmap_laws (put blocks (block 2 3 1)) fs'
    × (Cached memmap_laws blocks fs → Cached memmap_laws (put blocks (block 2 3 1)) fs')
flush-Table_example =
    flush-Table memmap_laws blocks fs (block 2 3 1) (table true) writes (omega arith, omega arith)
      (record { id-lt = omega arith; next-lt = omega arith; flags-lt = omega arith })

next_free-FirstFree_example :
    Finds memmap_laws blocks fs (block 0 0 0) (next_free Memmap.api 4 fs (block 0 0 0) false)
next_free-FirstFree_example =
    next_free-FirstFree memmap_laws blocks 4 fs (block 0 0 0) (table true) (omega arith)
      (omega arith)

next_free_marks_example :
    Takes memmap_laws blocks fs (block 0 0 0) (next_free Memmap.api 4 fs (block 0 0 0) true)
next_free_marks_example =
    next_free_marks memmap_laws blocks 4 fs (block 0 0 0) (table true) writes (omega arith)
      (omega arith)

block_wipe_data_example :
    (fs' : Fs Memmap.Dev) × (wipe_data Memmap.api fs (block 2 0 1) 1 ≡ (ok, fs'))
    × Kept fs fs'
    × IsLaid memmap_laws fs'
    × (contents memmap_laws fs' 2 ≡ take 1 (contents memmap_laws fs 2) ++ (0 ∷ []))
    × (header memmap_laws fs' 2 ≡ header memmap_laws fs 2)
    × Others memmap_laws fs 2 fs'
    × (fs'.used_blocks ≡ bits)
block_wipe_data_example =
    block_wipe_data memmap_laws fs (block 2 0 1) 1 laid (omega arith, omega arith) (omega arith)

-- The first block, with the second one behind it.
wipe_frees_chain_example :
    (fs' : Fs Memmap.Dev) × (wipe Memmap.api 1 fs (block 1 2 1) true true true
      ≡ some (ok, clean 1, fs'))
    × Table memmap_laws (freed (1 ∷ 2 ∷ []) blocks) fs'
    × Spared memmap_laws (1 ∷ 2 ∷ []) fs fs'
wipe_frees_chain_example =
    wipe_frees_chain memmap_laws blocks 1 fs 1 (2 ∷ []) true (table true) writes (omega arith)
      (omega arith, omega arith) (refl, omega arith, omega arith, refl, refl) (omega arith)

block_cache_load_fills_nothing_example :
    Unfilled memmap_laws blocks (fs_with false) (block_cache_load Memmap.api (fs_with false))
block_cache_load_fills_nothing_example =
    block_cache_load_fills_nothing memmap_laws blocks (fs_with false) (table false) refl

-- The second block, in a memory range that takes no writes.
abbrev stuck : Fs Memmap.Dev
stuck = record fs { dev = some (record page { rw = false }) }

wipe_data_protected_example :
    wipe_data Memmap.api stuck (block 2 0 1) 0
    ≡ (ok, record stuck { dev = some (record page { rw = false; at = 23 }) })
unfolding data_pos id_data_pos id_pos id_is_valid
wipe_data_protected_example =
    wipe_data_protected stuck (record page { rw = false }) (block 2 0 1) 0 refl refl (omega arith)

-- The bitset has the used blocks and no others.
fs-Cached : Cached memmap_laws blocks fs
unfolding bcache_is_used whefs.Bits.get_macro whefs.Bits.byte_get
fs-Cached loaded j h = three (λ j. bcache_is_used bits j ≡ used blocks j) refl refl refl j h
