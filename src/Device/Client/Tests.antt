-- ===== src/Device/Client/Tests.antt =====
-- The helpers over a memory range: theorems at concrete inputs.
use whefs.Common.{◌≡◌, refl, arith, true, some, [], ◌∷◌, false}
use whefs.Device.Memmap
use whefs.Device.Memmap.Laws.{IsInside}
use whefs.Device.Client.{size}

abbrev page : Memmap.Memmap
page = record {
  size = 4;
  maxsize = 4;
  at = 3;
  rw = true;
  ro = true;
  mem = 1 ∷ 2 ∷ 3 ∷ 4 ∷ [];
  overrun = false;
}

page-IsInside : IsInside page
page-IsInside = record {
  writable = refl;
  readable = refl;
  long = omega arith;
  small = omega arith;
  inside = omega arith;
  kept_in = refl;
}

size_run : size Memmap.api (some page) ≡ (4, some page)
unfolding size Memmap.seek Memmap.tell whefs.Device.Seek.mem_target
    whefs.Device.Seek.relative_target whefs.Device.Seek.offset_size
size_run = refl
