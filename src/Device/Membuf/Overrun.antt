-- ===== src/Device/Membuf/Overrun.antt =====
-- What an expandable device does when its memory cannot grow.
use whefs.Common.{ℕ, ◌+◌, ◌<◌, ◌≤◌, ◌≡◌, arith, true, false, some}
use whefs.Rc.{size_bound, add_size}
use whefs.Encode.{Bytes}
use whefs.Device.Membuf.{
  Growth, Membuf, wanted, resize, grow, make_room, copy_in, write_at_end, write,
}
use whefs.Device.Membuf.Resize.{IsSound}

refused-room :
    (g : Growth) (mb : Membuf) (end : ℕ)
    → mb.expandable ≡ true
    → mb.size ≤ end
    → 0 < end
    → mb.alloced < end
    → g.allocates (wanted g mb end) ≡ false
    → make_room g mb end ≡ mb
unfolding make_room resize grow
refused-room g mb end growing h positive more refused = ground arith

-- At the end of its contents or behind it, an expandable device that is refused the memory for a
-- write does not write less: it copies all the bytes, and leaves its allocation.
pub write_overruns :
    (g : Growth) (mb : Membuf) (src : Bytes) (n : ℕ)
    → IsSound mb
    → mb.expandable ≡ true
    → mb.size ≤ mb.at
    → 0 < n
    → mb.at + n < size_bound
    → mb.alloced < mb.at + n
    → g.allocates (wanted g mb (mb.at + n)) ≡ false
    → (mb' : Membuf) × (write g (some mb) (some src) n ≡ (n, some mb')) × (mb'.overrun ≡ true)
unfolding write write_at_end copy_in
write_overruns g mb src n v growing past positive fits more refused =
    let out = copy_in (record mb { size = mb.at + n }) src n in
    let m : add_size mb.at n ≡ mb.at + n = omega arith in
    let r : make_room g mb (mb.at + n) ≡ mb =
      refused-room g mb (mb.at + n) growing (omega arith) (omega arith) more refused in
    (out.1, rw (m, r) (ground arith), ground (arith, v.alloc))
