-- ===== src/Device/Subdev/Fence.antt =====
-- A subdevice is a device: inside its bounds it keeps the laws that it relies on in its parent, so
-- that a client, another subdevice included, may use it in the parent's place.
use whefs.Common.{
  ℕ, ◌+◌, ◌-◌, ◌<◌, ◌≤◌, ◌≡◌, arith, true, some, ◌==◌, if◌then◌else◌, length, slice, take,
  overwrite, pos, ◌∙◌, ap, sym, length-slice, min, slice-slice, slice-overwrite,
}
use whefs.Rc.{size_bound, size_t_error, sub_size}
use whefs.Encode.{Bytes}
use whefs.Device.{DevApi, DevLaws, seek_set}
use whefs.Device.Subdev.Steps.{IsInside, Keeps, small}
use whefs.Device.Subdev.Laws.{subdev_read_lem, subdev_write_lem}
use whefs.Device.Subdev.{fence, Subdev, read, write, target, land, seek, tell}

module _ {P : Type 0} {api : DevApi P} (L : DevLaws api) where
  -- The part of the parent's contents inside the bounds, and the cursor in it.
  abbrev pub part : Subdev P → Bytes
  part sub = slice (L.view sub.parent) sub.lower (sub.upper - sub.lower)

  pub length-part : (sub : Subdev P) → IsInside L sub → length (part sub) ≡ sub.upper - sub.lower
  length-part sub v =
      length-slice (L.view sub.parent) sub.lower (sub.upper - sub.lower)
      ∙ omega (arith, v.low, v.high, v.fits)

  target_lem :
      (sub : Subdev P) (n : ℕ)
      → sub.lower + n < size_bound
      → target sub 0 (pos n) seek_set ≡ some (sub.lower + n)
  unfolding target
  target_lem sub n h = ground arith

  answer_lem :
      (sub : Subdev P) (n : ℕ)
      → sub.lower + n < size_bound
      → (if sub.lower + n == sub.lower + n
          then sub_size (sub.lower + n) sub.lower
          else size_t_error)
        ≡ n
  answer_lem sub n h = ground arith

  landed :
      (sub : Subdev P) (n : ℕ) (p : P)
      → sub.lower + n < size_bound
      → api.seek sub.parent (pos (sub.lower + n)) seek_set ≡ (sub.lower + n, p)
      → land api sub (some (sub.lower + n)) ≡ (n, record sub { parent = p; at = sub.lower + n })
  unfolding land
  landed sub n p h e =
      ap
        (λ t. (
          if t.0 == sub.lower + n then sub_size (sub.lower + n) sub.lower else size_t_error,
          record sub { parent = t.1; at = sub.lower + n },
        ))
        e
      ∙ ap (λ k. (k, record sub { parent = p; at = sub.lower + n })) (answer_lem sub n h)

  pub seek_part :
      (sub : Subdev P) (n : ℕ)
      → IsInside L sub
      → n ≤ length (part sub)
      → (sub' : Subdev P) × (seek api sub (pos n) seek_set ≡ (n, sub'))
        × IsInside L sub'
        × (part sub' ≡ part sub)
        × (sub'.at - sub'.lower ≡ n)
  unfolding seek
  seek_part sub n v h =
      let small = small L sub v in
      let room : sub.lower + n ≤ sub.upper = omega (arith, length-part sub v, v.low, v.high) in
      let s = L.seek_lem sub.parent (sub.lower + n) v.parent_ok (omega (arith, v.fits)) in
      (
        record sub { parent = s.0; at = sub.lower + n },
        ap (λ t. land api sub t) (target_lem sub n (omega (arith, small)))
            ∙ landed sub n s.0 (omega (arith, small)) s.1,
        record {
          parent_ok = s.2;
          low = omega arith;
          high = room;
          fits = omega (arith, v.fits, ap length s.3);
        },
        ap (λ w. slice w sub.lower (sub.upper - sub.lower)) s.3,
        omega arith,
      )

  -- The bounds stay, and the view changes as the parent's.
  part-view :
      (sub sub' : Subdev P) (w : Bytes)
      → Keeps L sub sub'
      → L.view sub'.parent ≡ w
      → part sub' ≡ slice w sub.lower (sub.upper - sub.lower)
  part-view sub sub' w k e =
      ap (λ x. slice x sub'.lower (sub'.upper - sub'.lower)) e
      ∙ ap (λ l. slice w l (sub'.upper - l)) k.same_lower
      ∙ ap (λ u. slice w sub.lower (u - sub.lower)) k.same_upper

  pub read_part_lem :
      (sub : Subdev P) (n : ℕ)
      → IsInside L sub
      → sub.at - sub.lower + n ≤ length (part sub)
      → (sub' : Subdev P) × (read api sub true n ≡ (slice (part sub) (sub.at - sub.lower) n, sub'))
        × IsInside L sub'
        × (part sub' ≡ part sub)
        × (sub'.at - sub'.lower ≡ sub.at - sub.lower + n)
  read_part_lem sub n v h =
      let small = small L sub v in
      let l = length-part sub v in
      let m : min n (sub.upper - sub.at) ≡ n = omega (arith, v.low) in
      let r = subdev_read_lem L sub n v (omega (arith, v.low, v.high)) in
      let bytes : slice (part sub) (sub.at - sub.lower) n ≡ slice (L.view sub.parent) sub.at n =
        slice-slice (L.view sub.parent) sub.lower (sub.upper - sub.lower) (sub.at - sub.lower) n
          (omega (arith, l)) (omega (arith, v.low, v.high, v.fits))
        ∙ ap (λ k. slice (L.view sub.parent) k n) {x = sub.lower + (sub.at - sub.lower)}
            {y = sub.at} (omega (arith, v.low)) in
      (
        r.0,
        r.1
            ∙ ap (λ k. (slice (L.view sub.parent) sub.at k, r.0)) m
            ∙ ap (λ b. (b, r.0)) (sym bytes),
        r.2,
        part-view sub r.0 _ r.5 r.3,
        omega (arith, r.4, r.5.same_lower, m, v.low),
      )

  pub tell_part : (sub : Subdev P) → IsInside L sub → tell sub ≡ sub.at - sub.lower
  unfolding tell
  tell_part sub v = ground (arith, v.low, v.high, small L sub v)

  pub write_part_lem :
      (sub : Subdev P) (src : Bytes) (n : ℕ)
      → IsInside L sub
      → n ≤ length src
      → sub.at - sub.lower + n ≤ length (part sub)
      → (sub' : Subdev P) × (write api sub (some src) n ≡ (n, sub'))
        × IsInside L sub'
        × (part sub' ≡ overwrite (part sub) (sub.at - sub.lower) (take n src))
        × (sub'.at - sub'.lower ≡ sub.at - sub.lower + n)
  write_part_lem sub src n v e h =
      let small = small L sub v in
      let l = length-part sub v in
      let m : min n (sub.upper - sub.at) ≡ n = omega (arith, v.low) in
      let w = subdev_write_lem L sub src n v e (omega (arith, v.low, v.high)) in
      let shifted : overwrite (L.view sub.parent) sub.at (take n src)
          ≡ overwrite (L.view sub.parent) (sub.lower + (sub.at - sub.lower)) (take n src) =
        ap (λ k. overwrite (L.view sub.parent) k (take n src)) {x = sub.at}
          {y = sub.lower + (sub.at - sub.lower)} (omega (arith, v.low)) in
      (
        w.0,
        w.1 ∙ ap (λ k. (k, w.0)) m,
        w.2,
        part-view sub w.0 _ w.5
              (w.3 ∙ ap (λ k. overwrite (L.view sub.parent) sub.at (take k src)) m ∙ shifted)
            ∙ slice-overwrite (L.view sub.parent) sub.lower (sub.upper - sub.lower)
                (sub.at - sub.lower) (take n src),
        omega (arith, w.4, w.5.same_lower, m, v.low),
      )

-- Where the parent keeps the laws of a device, so does a subdevice of it inside its bounds.
unfoldable pub fence_laws : {P : Type 0} {api : DevApi P} → DevLaws api → DevLaws (fence api)
fence_laws L = record {
  Valid = IsInside L;
  view = part L;
  cursor = λ sub. sub.at - sub.lower;
  cursor-le = λ sub v. omega (arith, length-part L sub v, v.low, v.high);
  view-lt = λ sub v. omega (arith, length-part L sub v, small L sub v);
  tell_lem = λ sub v. tell_part L sub v;
  seek_lem = λ sub n v h. seek_part L sub n v h;
  read_lem = λ sub n v h. read_part_lem L sub n v h;
  write_lem = λ sub src n v e h. write_part_lem L sub src n v e h;
}
