-- ===== src/Device/Subdev/Steps.antt =====
-- Reads, writes and seeks of a subdevice inside its bounds, over a parent that keeps the laws of a
-- device.
use whefs.Common.{
  ℕ, zero, suc, ◌+◌, ◌-◌, ◌<◌, ◌≤◌, ◌≡◌, refl, arith, true, false, some, [], ◌==◌, if◌then◌else◌,
  length, slice, take, overwrite, pos, ◌∙◌, ap, sym, min, overwrite-nil,
}
use whefs.Rc.{size_bound, size_t_error, add_size}
use whefs.Encode.{Bytes}
use whefs.Device.{DevApi, DevLaws, seek_set}
use whefs.Device.Subdev.{Subdev, fenced, read_part, read, write_part, write}

suc_ne_zero : (m : ℕ) → (suc m == 0) ≡ false
suc_ne_zero m = ground arith

module _ {P : Type 0} {api : DevApi P} (L : DevLaws api) where
  -- The bounds lie in the parent's contents, and the cursor in the bounds.
  pub record IsInside (sub : Subdev P) : Type 0 where
    pub parent_ok : L.Valid sub.parent
    pub low : sub.lower ≤ sub.at
    pub high : sub.at ≤ sub.upper
    pub fits : sub.upper ≤ length (L.view sub.parent)

  -- What stays of a subdevice and its parent: the bounds, and where the parent's cursor stands.
  pub record Keeps (sub sub' : Subdev P) : Type 0 where
    pub same_lower : sub'.lower ≡ sub.lower
    pub same_upper : sub'.upper ≡ sub.upper
    pub same_cursor : L.cursor sub'.parent ≡ L.cursor sub.parent

  module _ (sub : Subdev P) (v : IsInside sub) where
    pub small : sub.upper < size_t_error
    small = omega (arith, L.view-lt sub.parent v.parent_ok, v.fits)

    opos_ok : (L.cursor sub.parent == size_t_error) ≡ false
    opos_ok = ground (arith, L.cursor-le sub.parent v.parent_ok, L.view-lt sub.parent v.parent_ok)

    -- What `read` and `write` move of `n` bytes, where the sum does not wrap.
    pub fenced_lem : (n : ℕ) → sub.at + n < size_bound → fenced sub n ≡ min n (sub.upper - sub.at)
    fenced_lem n h = ground (arith, small, v.high)

    -- After a move that leaves a parent `p`, the parent's cursor goes back.
    pub back :
        (p : P) (count : ℕ)
        → L.Valid p
        → length (L.view p) ≡ length (L.view sub.parent)
        → sub.at + count ≤ sub.upper
        → (p' : P) × (record sub {
          parent = (api.seek p (pos (L.cursor sub.parent)) seek_set).1;
          at = add_size sub.at count;
        }
            ≡ record sub { parent = p'; at = sub.at + count })
          × IsInside (record sub { parent = p'; at = sub.at + count })
          × (L.view p' ≡ L.view p)
          × (L.cursor p' ≡ L.cursor sub.parent)
    back p count vp e room =
        let count_ok : add_size sub.at count ≡ sub.at + count = ground (arith, small) in
        let b =
          L.seek_lem p (L.cursor sub.parent) vp
            (omega (arith, L.cursor-le sub.parent v.parent_ok, e)) in
        (
          b.0,
          ap (λ q. record sub { parent = q.1; at = add_size sub.at count }) b.1
              ∙ ap (λ k. record sub { parent = b.0; at = k }) count_ok,
          record {
            parent_ok = b.2;
            low = omega (arith, v.low);
            high = room;
            fits = omega (arith, v.fits, e, ap length b.3);
          },
          b.3,
          b.4,
        )

    -- The parent's read, which is left out where there is nothing to read.
    pub got :
        (p : P) (m : ℕ)
        → L.Valid p
        → L.view p ≡ L.view sub.parent
        → L.cursor p ≡ sub.at
        → sub.at + m ≤ sub.upper
        → (p' : P) × ((if m == 0 then ([], p) else api.read p true m)
            ≡ (slice (L.view sub.parent) sub.at m, p'))
          × L.Valid p'
          × (L.view p' ≡ L.view sub.parent)
    got p zero vp e c room = (p, refl, vp, e)
    got p (suc m) vp e c room =
        let r = L.read_lem p (suc m) vp (omega (arith, v.fits, c, ap length e)) in
        (
          r.0,
          ap (λ b. if b then ([], p) else api.read p true (suc m)) (suc_ne_zero m)
              ∙ r.1
              ∙ ap (λ bs. (bs, r.0))
                  (ap (λ w. slice w (L.cursor p) (suc m)) e
                    ∙ ap (λ k. slice (L.view sub.parent) k (suc m)) c),
          r.2,
          r.3 ∙ e,
        )

    pub put :
        (p : P) (src : Bytes) (m : ℕ)
        → L.Valid p
        → L.view p ≡ L.view sub.parent
        → L.cursor p ≡ sub.at
        → m ≤ length src
        → sub.at + m ≤ sub.upper
        → (p' : P) × ((if m == 0 then (0, p) else api.write p (some src) m) ≡ (m, p'))
          × L.Valid p'
          × (L.view p' ≡ overwrite (L.view sub.parent) sub.at (take m src))
    put p src zero vp e c h room = (p, refl, vp, e ∙ sym (overwrite-nil (L.view sub.parent) sub.at))
    put p src (suc m) vp e c h room =
        let r = L.write_lem p src (suc m) vp h (omega (arith, v.fits, c, ap length e)) in
        (
          r.0,
          ap (λ b. if b then (0, p) else api.write p (some src) (suc m)) (suc_ne_zero m) ∙ r.1,
          r.2,
          r.3
              ∙ ap (λ w. overwrite w (L.cursor p) (take (suc m) src)) e
              ∙ ap (λ k. overwrite (L.view sub.parent) k (take (suc m) src)) c,
        )

    -- `read` of an open device inside its bounds comes to `read_part` on the parent that was sought.
    pub read_calls :
        (n : ℕ) (p : P)
        → sub.at < sub.upper
        → api.seek sub.parent (pos sub.at) seek_set ≡ (sub.at, p)
        → read api sub true n ≡ read_part api sub p (L.cursor sub.parent) true (fenced sub n)
    unfolding read
    read_calls n p h e = ground (arith, v.low, e, opos_ok, L.tell_lem sub.parent v.parent_ok)

    pub write_calls :
        (src : Bytes) (n : ℕ) (p : P)
        → sub.at < sub.upper
        → api.seek sub.parent (pos sub.at) seek_set ≡ (sub.at, p)
        → write api sub (some src) n
          ≡ write_part api sub p (L.cursor sub.parent) (some src) (fenced sub n)
    unfolding write
    write_calls src n p h e = ground (arith, v.low, e, opos_ok, L.tell_lem sub.parent v.parent_ok)
