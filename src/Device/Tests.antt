-- ===== src/Device/Tests.antt =====
-- Concrete runs of the devices, and their theorems at concrete inputs.
use whefs.Common.{
  ℕ, ◌+◌, ◌*◌, ◌%◌, ◌<◌, ◌≡◌, ◌⊎◌, refl, arith, Bool, true, false, some, [], ◌∷◌, pos, negsuc,
}
use whefs.Rc.{ok, alloc_error, size_bound, size_t_error}
use whefs.Encode.{Bytes}
use whefs.Device.{DevApi, DevLaws, Whence, seek_set, seek_end, seek_cur, other}
use whefs.Device.Seek.{relative_target}
use whefs.Device.Memmap
use whefs.Device.Memmap.{Memmap}
use whefs.Device.Memmap.Laws.{memmap_laws, IsInside}
use whefs.Device.Memmap.Reads.{InRange}
use whefs.Device.Memmap.Invariant.{memmap_operations-IsSafe}
use whefs.Device.Membuf
use whefs.Device.Membuf.{Growth, Membuf, wanted}
use whefs.Device.Membuf.Resize.{IsSound, Resized}
use whefs.Device.Membuf.Invariant.{membuf_operations-IsSafe, trunc-cases}
use whefs.Device.Membuf.Overrun.{write_overruns}
use whefs.Device.Subdev
use whefs.Device.Subdev.{Subdev, fenced}
use whefs.Device.Subdev.Steps.{Keeps}
use whefs.Device.Subdev.Laws.{subdev_read_lem, subdev_write_lem}

-- Eight bytes in use, with the cursor on the third.
abbrev pub range : Memmap
range = record {
  size = 8;
  maxsize = 8;
  at = 2;
  rw = true;
  ro = true;
  mem = 10 ∷ 11 ∷ 12 ∷ 13 ∷ 14 ∷ 15 ∷ 16 ∷ 17 ∷ [];
  overrun = false;
}

range-InRange : InRange range
range-InRange = record {
  shrunk = omega arith;
  fits = omega arith;
  size-lt = omega arith;
  at-lt = omega arith;
  kept_in = refl;
}

pub range-IsInside : IsInside range
range-IsInside = record {
  writable = refl;
  readable = refl;
  long = omega arith;
  small = omega arith;
  inside = omega arith;
  kept_in = refl;
}

-- The bytes of `range` from the second to the seventh, with the cursor on the fifth.
abbrev window : Subdev Memmap.Dev
window = record { parent = some range; lower = 1; upper = 6; at = 4 }

window-IsInside : Subdev.Steps.IsInside memmap_laws window
unfolding memmap_laws
window-IsInside = record {
  parent_ok = range-IsInside;
  low = omega arith;
  high = omega arith;
  fits = omega arith;
}

-- An allocator that has memory for anything, and one that has none.
abbrev rich : Growth
rich = record { allocates = λ k. true; grown = λ a. a * 2 % size_bound; releases = λ n a. false }

abbrev poor : Growth
poor = record { allocates = λ k. false; grown = λ a. a * 2 % size_bound; releases = λ n a. false }

grown-lt : (a : ℕ) → rich.grown a < size_bound
grown-lt a = omega arith

-- Four bytes allocated, three of them in use, with the cursor at the end.
abbrev buffer : Bool → Membuf
buffer expandable = record {
  size = 3;
  alloced = 4;
  buffer = 7 ∷ 8 ∷ 9 ∷ 0 ∷ [];
  at = 3;
  expandable = expandable;
  overrun = false;
}

buffer-IsSound : (expandable : Bool) → IsSound (buffer expandable)
buffer-IsSound expandable = record {
  holds = omega arith;
  alloc = refl;
  alloc-lt = omega arith;
  at-lt = omega arith;
  safe = refl;
}

abbrev three : Bytes
three = 1 ∷ 2 ∷ 3 ∷ []

memmap_run : (Memmap.read (some range) true 3).0 ≡ 12 ∷ 13 ∷ 14 ∷ []
unfolding Memmap.read
memmap_run = refl

window_run : (Subdev.read Memmap.api window true 5).0 ≡ 14 ∷ 15 ∷ []
unfolding Subdev.read Subdev.read_part Memmap.read Memmap.seek Memmap.tell
    whefs.Device.Seek.mem_target
window_run = refl

buffer_run : (Membuf.write rich (some (buffer true)) (some three) 3).0 ≡ 3
unfolding Membuf.write Membuf.make_room Membuf.resize Membuf.grow Membuf.write_at_end Membuf.copy_in
buffer_run = refl

memmap_operations-IsSafe_example :
    Memmap.Invariant.IsSafe (Memmap.read (some range) true 3).1
    × Memmap.Invariant.IsSafe (Memmap.write (some range) (some three) 3).1
    × Memmap.Invariant.IsSafe (Memmap.seek (some range) (negsuc 3) seek_end).1
    × Memmap.Invariant.IsSafe (Memmap.trunc (some range) (pos 4)).1
    × Memmap.Invariant.IsSafe (Memmap.close (some range)).1
memmap_operations-IsSafe_example =
    memmap_operations-IsSafe (some range) true (some three) 3 (negsuc 3) (pos 4) seek_end
      (omega arith) range-InRange

membuf_operations-IsSafe_example :
    Membuf.Invariant.IsSafe (Membuf.read (some (buffer true)) true 9).1
    × Membuf.Invariant.IsSafe (Membuf.seek (some (buffer true)) (negsuc 0) seek_end).1
    × Membuf.Invariant.IsSafe (Membuf.trunc rich (some (buffer true)) (pos 7)).1
    × Membuf.Invariant.IsSafe (Membuf.close (some (buffer true))).1
membuf_operations-IsSafe_example =
    membuf_operations-IsSafe rich grown-lt (some (buffer true)) true 9 (negsuc 0) (pos 7) seek_end
      (omega arith) (buffer-IsSound true)

trunc-cases_example :
    ((mb' : Membuf) × (Membuf.trunc rich (some (buffer true)) (pos 6) ≡ (ok, some mb'))
      × Resized (buffer true) 6 mb')
    ⊎ ((4 < 6)
        × (rich.allocates (wanted rich (buffer true) 6) ≡ false)
        × (Membuf.trunc rich (some (buffer true)) (pos 6) ≡ (alloc_error, some (buffer true))))
trunc-cases_example = trunc-cases rich grown-lt (buffer true) 6 (buffer-IsSound true) (omega arith)

write_overruns_example :
    (mb' : Membuf) × (Membuf.write poor (some (buffer true)) (some three) 3 ≡ (3, some mb'))
    × (mb'.overrun ≡ true)
write_overruns_example =
    write_overruns poor (buffer true) three 3 (buffer-IsSound true) refl (omega arith) (omega arith)
      (omega arith) (omega arith) refl

subdev_read_lem_example :
    (sub' : Subdev Memmap.Dev) × (Subdev.read Memmap.api window true 5 ≡ (14 ∷ 15 ∷ [], sub'))
    × Subdev.Steps.IsInside memmap_laws sub'
    × (memmap_laws.view sub'.parent ≡ range.mem)
    × (sub'.at ≡ 6)
    × Keeps memmap_laws window sub'
unfolding memmap_laws
subdev_read_lem_example = subdev_read_lem memmap_laws window 5 window-IsInside (omega arith)

subdev_write_lem_example :
    (sub' : Subdev Memmap.Dev) × (Subdev.write Memmap.api window (some three) 3 ≡ (2, sub'))
    × Subdev.Steps.IsInside memmap_laws sub'
    × (memmap_laws.view sub'.parent ≡ 10 ∷ 11 ∷ 12 ∷ 13 ∷ 1 ∷ 2 ∷ 16 ∷ 17 ∷ [])
    × (sub'.at ≡ 6)
    × Keeps memmap_laws window sub'
unfolding memmap_laws
subdev_write_lem_example =
    subdev_write_lem memmap_laws window three 3 window-IsInside (omega arith) (omega arith)

-- A range of the size of the address space is out of reach for a test: a parent that says it is there.
abbrev vast : DevApi ℕ
vast = record {
  read = λ at dest n. ([], at);
  write = λ at src n. (n, at + n);
  seek = λ at off whence. elim off [ pos n ↦ (n, n) | negsuc n ↦ (size_t_error, at) ];
  tell = λ at. at;
}

abbrev far : Subdev ℕ
far = record { parent = 0; lower = 10; upper = 4294967290; at = 4294967280 }
