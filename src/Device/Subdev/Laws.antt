-- ===== src/Device/Subdev/Laws.antt =====
-- What a subdevice reads and writes, over a parent that keeps the laws of a device.
use whefs.Common.{
  ℕ, ◌+◌, ◌-◌, ◌<◌, ◌≤◌, ◌≡◌, refl, arith, true, some, [], length, slice, take, overwrite, pos, ◌∙◌,
  ap, sym, length-slice, min, overwrite-nil, length-overwrite, ltb-cases, inl, inr,
}
use whefs.Rc.{size_bound, add_size}
use whefs.Encode.{Bytes, Ptr}
use whefs.Device.{DevApi, DevLaws, seek_set}
use whefs.Device.Subdev.Steps.{IsInside, Keeps, back, got, put, read_calls, write_calls, fenced_lem}
use whefs.Device.Subdev.{Subdev, fenced, read_part, read, write_part, write}

module _ {P : Type 0} {api : DevApi P} (L : DevLaws api) where
  read_some :
      (sub : Subdev P) (m n : ℕ)
      → IsInside L sub
      → sub.at < sub.upper
      → fenced sub n ≡ m
      → sub.at + m ≤ sub.upper
      → (sub' : Subdev P) × (read api sub true n ≡ (slice (L.view sub.parent) sub.at m, sub'))
        × IsInside L sub'
        × (L.view sub'.parent ≡ L.view sub.parent)
        × (sub'.at ≡ sub.at + m)
        × Keeps L sub sub'
  unfolding read_part
  read_some sub m n v h f room =
      let s = L.seek_lem sub.parent sub.at v.parent_ok (omega (arith, v.high, v.fits)) in
      let g = got L sub v s.0 m s.2 s.3 s.4 room in
      let b = back L sub v g.0 m g.2 (ap length g.3) room in
      let finish : Bytes × P → Bytes × Subdev P = λ q. (
        q.0,
        record sub {
          parent = (api.seek q.1 (pos (L.cursor sub.parent)) seek_set).1;
          at = add_size sub.at (length q.0);
        },
      ) in
      let count : length (slice (L.view sub.parent) sub.at m) ≡ m =
        length-slice (L.view sub.parent) sub.at m ∙ ground (arith, v.fits) in
      (
        record sub { parent = b.0; at = sub.at + m },
        read_calls L sub v n s.0 h s.1
            ∙ ap (λ k. read_part api sub s.0 (L.cursor sub.parent) true k) f
            ∙ ap finish g.1
            ∙ ap
                (λ k. (
                  slice (L.view sub.parent) sub.at m,
                  record sub {
                    parent = (api.seek g.0 (pos (L.cursor sub.parent)) seek_set).1;
                    at = add_size sub.at k;
                  },
                ))
                count
            ∙ ap (λ t. (slice (L.view sub.parent) sub.at m, t)) b.1,
        b.2,
        b.3 ∙ g.3,
        refl,
        record { same_lower = refl; same_upper = refl; same_cursor = b.4 },
      )

  write_some :
      (sub : Subdev P) (src : Bytes) (m n : ℕ)
      → IsInside L sub
      → sub.at < sub.upper
      → fenced sub n ≡ m
      → m ≤ length src
      → sub.at + m ≤ sub.upper
      → (sub' : Subdev P) × (write api sub (some src) n ≡ (m, sub'))
        × IsInside L sub'
        × (L.view sub'.parent ≡ overwrite (L.view sub.parent) sub.at (take m src))
        × (sub'.at ≡ sub.at + m)
        × Keeps L sub sub'
  unfolding write_part
  write_some sub src m n v h f e room =
      let s = L.seek_lem sub.parent sub.at v.parent_ok (omega (arith, v.high, v.fits)) in
      let g = put L sub v s.0 src m s.2 s.3 s.4 e room in
      let b =
        back L sub v g.0 m g.2
          (ap length g.3 ∙ length-overwrite (L.view sub.parent) sub.at (take m src)) room in
      let finish : ℕ × P → ℕ × Subdev P = λ q. (
        q.0,
        record sub {
          parent = (api.seek q.1 (pos (L.cursor sub.parent)) seek_set).1;
          at = add_size sub.at q.0;
        },
      ) in
      (
        record sub { parent = b.0; at = sub.at + m },
        write_calls L sub v src n s.0 h s.1
            ∙ ap (λ k. write_part api sub s.0 (L.cursor sub.parent) (some src) k) f
            ∙ ap finish g.1
            ∙ ap (λ t. (m, t)) b.1,
        b.2,
        b.3 ∙ g.3,
        refl,
        record { same_lower = refl; same_upper = refl; same_cursor = b.4 },
      )

  -- At the upper bound there is nothing to move.
  read_end : (sub : Subdev P) (n : ℕ) → sub.upper ≤ sub.at → read api sub true n ≡ ([], sub)
  unfolding read
  read_end sub n h = ground arith

  write_end :
      (sub : Subdev P) (src : Ptr) (n : ℕ) → sub.upper ≤ sub.at → write api sub src n ≡ (0, sub)
  unfolding write
  write_end sub src n h = ground arith

  -- Over a parent that keeps the laws of a device, a read of `n` bytes by a subdevice with its bounds
  -- in the parent's contents and its cursor in the bounds, where the cursor plus `n` does not wrap,
  -- gives the parent's bytes from the cursor, as many as there are up to the upper bound and at most
  -- `n`. The cursor moves by their number, and the parent keeps its contents and its own cursor.
  pub subdev_read_lem :
      (sub : Subdev P) (n : ℕ)
      → IsInside L sub
      → sub.at + n < size_bound
      → (sub' : Subdev P) × (read api sub true n
          ≡ (slice (L.view sub.parent) sub.at (min n (sub.upper - sub.at)), sub'))
        × IsInside L sub'
        × (L.view sub'.parent ≡ L.view sub.parent)
        × (sub'.at ≡ sub.at + min n (sub.upper - sub.at))
        × Keeps L sub sub'
  subdev_read_lem sub n v h = elim (ltb-cases sub.at sub.upper) [
    | inl k ↦
        read_some sub (min n (sub.upper - sub.at)) n v k (fenced_lem L sub v n h)
          (omega (arith, v.high))
    | inr k ↦
        let none_left : min n (sub.upper - sub.at) ≡ 0 = omega arith in
        (
          sub,
          read_end sub n k ∙ ap (λ m. (slice (L.view sub.parent) sub.at m, sub)) (sym none_left),
          v,
          refl,
          omega (arith, none_left),
          record { same_lower = refl; same_upper = refl; same_cursor = refl },
        )
  ]

  -- Over a parent that keeps the laws of a device, a write of `n` of the source's bytes by a subdevice
  -- with its bounds in the parent's contents and its cursor in the bounds, where the cursor plus `n`
  -- does not wrap, puts as many of them as there is room for up to the upper bound at the cursor, and
  -- answers how many. The parent's other bytes and its own cursor stay.
  pub subdev_write_lem :
      (sub : Subdev P) (src : Bytes) (n : ℕ)
      → IsInside L sub
      → n ≤ length src
      → sub.at + n < size_bound
      → (sub' : Subdev P) × (write api sub (some src) n ≡ (min n (sub.upper - sub.at), sub'))
        × IsInside L sub'
        × (L.view sub'.parent
            ≡ overwrite (L.view sub.parent) sub.at (take (min n (sub.upper - sub.at)) src))
        × (sub'.at ≡ sub.at + min n (sub.upper - sub.at))
        × Keeps L sub sub'
  subdev_write_lem sub src n v e h = elim (ltb-cases sub.at sub.upper) [
    | inl k ↦
        write_some sub src (min n (sub.upper - sub.at)) n v k (fenced_lem L sub v n h)
          (omega (arith, e)) (omega (arith, v.high))
    | inr k ↦
        let none_left : min n (sub.upper - sub.at) ≡ 0 = omega arith in
        (
          sub,
          write_end sub (some src) n k ∙ ap (λ m. (m, sub)) (sym none_left),
          v,
          sym (overwrite-nil (L.view sub.parent) sub.at)
              ∙ ap (λ m. overwrite (L.view sub.parent) sub.at (take m src)) (sym none_left),
          omega (arith, none_left),
          record { same_lower = refl; same_upper = refl; same_cursor = refl },
        )
  ]
