-- ===== src/Blockdev/Tests.antt =====
-- Block devices over a part of a memory range: theorems at concrete inputs.
use whefs.Common.{ℕ, ◌<◌, ◌≡◌, ◌≢◌, refl, arith, true, none, some, [], ◌∷◌, false}
use whefs.Rc.{ok}
use whefs.Device.{DevApi}
use whefs.Device.Memmap.{Memmap}
use whefs.Device.Memmap
use whefs.Device.Memmap.Laws.{memmap_laws, IsInside}
use whefs.Device.Subdev.{Subdev, fence}
use whefs.Device.Subdev.Fence.{fence_laws}
use whefs.Blockdev.{Blockdev, setup, write}
use whefs.Blockdev.Blocks.{IsLaid, block, block_write}

-- Three blocks of two bytes, from the second byte of eight on.
abbrev page : Memmap
page = record {
  size = 8;
  maxsize = 8;
  at = 0;
  rw = true;
  ro = true;
  mem = 0 ∷ 1 ∷ 2 ∷ 3 ∷ 4 ∷ 5 ∷ 6 ∷ 7 ∷ [];
  overrun = false;
}

abbrev disk : Blockdev (Subdev Memmap.Dev)
disk = record {
  fence = record { parent = some page; lower = 1; upper = 7; at = 1 };
  size = 2;
  count = 3;
  prototype = none;
}

setup_run : setup true (some page) 1 2 3 none ≡ (ok, some disk)
unfolding setup whefs.Device.Subdev.create
setup_run = refl

page-IsInside : IsInside page
page-IsInside = record {
  writable = refl;
  readable = refl;
  long = omega arith;
  small = omega arith;
  inside = omega arith;
  kept_in = refl;
}

disk-IsLaid : IsLaid (fence_laws memmap_laws) disk
unfolding fence_laws memmap_laws
disk-IsLaid = record {
  ready = record {
    parent_ok = page-IsInside;
    low = omega arith;
    high = omega arith;
    fits = omega arith;
  };
  counted = omega arith;
  room = omega arith;
}

block_write_example :
    (self' : Blockdev (Subdev Memmap.Dev)) × (write (fence Memmap.api) disk 1 (some (8 ∷ 9 ∷ []))
      ≡ (ok, self'))
    × IsLaid (fence_laws memmap_laws) self'
    × (self'.count ≡ 3)
    × (block (fence_laws memmap_laws) self' 1 ≡ 8 ∷ 9 ∷ [])
    × ((j : ℕ)
        → j < 3
        → j ≢ 1
        → block (fence_laws memmap_laws) self' j ≡ block (fence_laws memmap_laws) disk j)
block_write_example =
    block_write (fence_laws memmap_laws) disk 1 (8 ∷ 9 ∷ []) disk-IsLaid (omega arith) (omega arith)
