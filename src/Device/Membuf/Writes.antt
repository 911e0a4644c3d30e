-- ===== src/Device/Membuf/Writes.antt =====
-- `whio_dev_membuf_write` on a sound buffer, expandable or of fixed size.
use whefs.Common.{
  ℕ, ◌+◌, ◌-◌, ◌<◌, ◌≤◌, ◌≡◌, refl, arith, Bool, false, some, ltb, leb, if◌then◌else◌, length,
  get_or, Bool-cases, leb→le, inl, inr, ◌∙◌, ap, min,
}
use whefs.Rc.{size_bound, add_size}
use whefs.Encode.{Bytes}
use whefs.Device.Membuf.{Growth, Membuf, make_room, write_at_end, write}
use whefs.Device.Membuf.Resize.{IsSound}
use whefs.Device.Membuf.Copy.{Wrote, placed, at_end-inside, at_end-outside, Wrote-counted}

module _ (g : Growth) (bounded : (a : ℕ) → g.grown a < size_bound) where
  write-steps :
      (mb : Membuf) (src : Bytes) (n : ℕ)
      → 0 < n
      → mb.at + n < size_bound
      → let out = write_at_end (make_room g mb (mb.at + n)) src n (mb.at + n) in
        write g (some mb) (some src) n ≡ (out.0, some out.1)
  unfolding write
  write-steps mb src n positive fits =
      let m : add_size mb.at n ≡ mb.at + n = omega arith in rw m (ground arith)

  -- The buffer that a device of fixed size writes to: its end moves, up to the allocation.
  abbrev stretched : Membuf → ℕ → Membuf
  stretched mb end = record mb { size = if ltb mb.alloced end then mb.alloced else end }

  fixed-room :
      (mb : Membuf) (end : ℕ)
      → mb.expandable ≡ false
      → make_room g mb end ≡ (if leb mb.size end then stretched mb end else mb)
  unfolding make_room
  fixed-room mb end fixed = ground arith

  stretched-IsSound : {mb : Membuf} (end : ℕ) → IsSound mb → IsSound (stretched mb end)
  stretched-IsSound end v = record {
    holds = ground arith;
    alloc = v.alloc;
    alloc-lt = v.alloc-lt;
    at-lt = v.at-lt;
    safe = v.safe;
  }

  -- Nothing is stored with the cursor at the end of the allocation or behind it.
  nowhere-Wrote :
      {mb mb1 : Membuf} (src : Bytes)
      → IsSound mb1
      → mb1.at ≡ mb.at
      → mb1.buffer ≡ mb.buffer
      → Wrote mb src 0 (0, mb1)
  nowhere-Wrote src v same e = record {
    count = refl;
    sound = v;
    at = omega (arith, same);
    bytes = refl;
    kept = λ j h away. ap (λ b. get_or b j 0) e;
  }

  fixed-Wrote :
      {mb : Membuf} (src : Bytes) (n : ℕ)
      → IsSound mb
      → mb.expandable ≡ false
      → 0 < n
      → n ≤ length src
      → Wrote mb src
          (min n (mb.alloced - mb.at))
          (write_at_end (make_room g mb (mb.at + n)) src n (mb.at + n))
  fixed-Wrote {mb} src n v fixed positive long = elim (Bool-cases (leb mb.size (mb.at + n))) [
    | inl past ↦
        let e : make_room g mb (mb.at + n) ≡ stretched mb (mb.at + n) =
          fixed-room mb (mb.at + n) fixed
          ∙ ap (λ (b : Bool). if b then stretched mb (mb.at + n) else mb) past in
        let s = stretched-IsSound (mb.at + n) v in
        rw e (elim (Bool-cases (leb mb.alloced mb.at)) [
          | inl full ↦
              let z : min n (mb.alloced - mb.at) ≡ 0 = ground arith in
              rw
                (
                  z,
                  at_end-outside (stretched mb (mb.at + n)) src n (mb.at + n) fixed (ground arith),
                )
                (nowhere-Wrote src s refl refl)
          | inr free ↦
              rw
                (at_end-inside (stretched mb (mb.at + n)) src n (mb.at + n)
                  (min n (mb.alloced - mb.at)) s refl (ground arith) (ground arith))
                (placed src (min n (mb.alloced - mb.at)) s refl (ground arith) (ground arith)
                  (omega arith) (λ j h. refl) (ground (arith, v.holds, leb→le _ _ past)))
        ])
    | inr inside ↦
        let e : make_room g mb (mb.at + n) ≡ mb =
          fixed-room mb (mb.at + n) fixed
          ∙ ap (λ (b : Bool). if b then stretched mb (mb.at + n) else mb) inside in
        let lt : mb.at + n < mb.size = ground arith in
        let z : min n (mb.alloced - mb.at) ≡ n = omega (arith, v.holds) in
        rw (e, z, at_end-inside mb src n (mb.at + n) n v refl (omega arith) (omega arith))
          (placed src n v refl (omega arith) positive long (λ j h. refl) (omega arith))
  ]

  -- A write of `n` bytes to a sound device of fixed size, if the end of the write is a `whio_size_t`,
  -- stores as many of them as fit between the cursor and the end of the allocation, and returns their
  -- number; the device stays sound, and no memory is asked for.
  write_fixed :
      (mb : Membuf) (src : Bytes) (n : ℕ)
      → IsSound mb
      → mb.expandable ≡ false
      → 0 < n
      → n ≤ length src
      → mb.at + n < size_bound
      → (mb' : Membuf) × (write g (some mb) (some src) n ≡ (min n (mb.alloced - mb.at), some mb'))
        × Wrote mb src (min n (mb.alloced - mb.at)) (min n (mb.alloced - mb.at), mb')
  write_fixed mb src n v fixed positive long fits =
      let w = fixed-Wrote src n v fixed positive long in
      let out = write_at_end (make_room g mb (mb.at + n)) src n (mb.at + n) in
      (
        out.1,
        write-steps mb src n positive fits ∙ ap (λ (k : ℕ). (k, some out.1)) w.count,
        Wrote-counted w,
      )
