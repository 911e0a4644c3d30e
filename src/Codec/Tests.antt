-- ===== src/Codec/Tests.antt =====
-- The codecs over a part of a memory range: theorems at concrete inputs.
use whefs.Common.{◌≡◌, refl, arith, true, none, some, [], ◌∷◌, replicate, pos, false}
use whefs.Rc.{ok}
use whefs.Device.{DevApi, seek_set}
use whefs.Device.Memmap
use whefs.Device.Memmap.Laws.{memmap_laws, IsInside}
use whefs.Device.Subdev.{Subdev, fence}
use whefs.Device.Subdev.Fence.{fence_laws}
use whefs.Codec.{dev_encode_cstring, dev_decode_cstring}
use whefs.Codec.Text.{device_text_round_trip}

-- Sixteen bytes, and the part of them from the second to the fourteenth, with the cursor on its first.
abbrev page : Memmap.Memmap
page = record {
  size = 16;
  maxsize = 16;
  at = 0;
  rw = true;
  ro = true;
  mem = replicate 16 0;
  overrun = false;
}

page-IsInside : IsInside page
page-IsInside = record {
  writable = refl;
  readable = refl;
  long = omega arith;
  small = omega arith;
  inside = omega arith;
  kept_in = refl;
}

abbrev slot : Subdev Memmap.Dev
slot = record { parent = some page; lower = 1; upper = 14; at = 1 }

slot-IsInside : (fence_laws memmap_laws).Valid slot
unfolding fence_laws memmap_laws
slot-IsInside = record {
  parent_ok = page-IsInside;
  low = omega arith;
  high = omega arith;
  fits = omega arith;
}

abbrev dev : DevApi (Subdev Memmap.Dev)
dev = fence Memmap.api

device_text_round_trip_example :
    (d1 d2 : Subdev Memmap.Dev) × (dev_encode_cstring dev slot (some (b'h' ∷ b'i' ∷ [])) 2
      ≡ (8, d1))
    × (dev_decode_cstring dev
          (λ k. true)
          (dev.seek d1 (pos (dev.tell slot)) seek_set).1
          (record { tgt = some none; len = some 0 })
        ≡ some (ok, record { tgt = some (some (b'h' ∷ b'i' ∷ 0 ∷ [])); len = some 2 }, d2))
unfolding fence_laws memmap_laws
device_text_round_trip_example =
    device_text_round_trip (fence_laws memmap_laws) (λ k. true) slot (b'h' ∷ b'i' ∷ []) none
      (some 0) slot-IsInside (omega arith) (omega arith) refl
