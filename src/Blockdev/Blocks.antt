-- ===== src/Blockdev/Blocks.antt =====
-- A block device as an array of blocks, over a device that keeps its laws.
use whefs.Common.{
  ℕ, ◌+◌, ◌*◌, ◌%◌, ◌<◌, ◌≤◌, ◌≡◌, ◌≢◌, ◌⊎◌, inl, inr, refl, ap, sym, ◌∙◌, arith, Bool, true, false,
  none, some, [], ◌==◌, if◌then◌else◌, length, take, slice, overwrite, pos, length-take,
  length-slice, length-overwrite, slice-overwrite_self, slice-overwrite_apart, mul-lt, ltb-cases,
}
use whefs.Rc.{Rc, ok, arg_error, range_error, size_bound, size_t_error}
use whefs.Encode.{Bytes, Ptr}
use whefs.Device.{DevApi, DevLaws, seek_set}
use whefs.Blockdev.{Blockdev, in_range, offset_for_id, write_at, write, read_at, read, wipe}

-- Two blocks do not meet.
apart :
    (size id j : ℕ) (bytes : Bytes)
    → length bytes ≡ size
    → j ≢ id
    → (j * size + size ≤ id * size) ⊎ (id * size + length bytes ≤ j * size)
apart size id j bytes e ne = elim (ltb-cases j id) [
  | inl lower ↦ inl (mul-lt j id size lower)
  | inr upper ↦ inr (omega (arith, e, mul-lt id j size (omega (arith, upper, ne))))
]

module _ {F : Type 0} {api : DevApi F} (L : DevLaws api) where
  -- The blocks lie in the contents of the fence.
  pub record IsLaid (self : Blockdev F) : Type 0 where
    pub ready : L.Valid self.fence
    pub counted : 0 < self.count
    pub room : self.count * self.size ≤ length (L.view self.fence)

  -- The block of this number.
  unfoldable pub block : Blockdev F → ℕ → Bytes
  block self id = slice (L.view self.fence) (id * self.size) self.size

  offset_lem :
      (self : Blockdev F) (id : ℕ)
      → IsLaid self
      → id < self.count
      → (offset_for_id self id ≡ id * self.size)
        × (id * self.size + self.size ≤ length (L.view self.fence))
        × ((id * self.size == size_t_error) ≡ false)
  unfolding offset_for_id in_range
  offset_lem self id v h =
      let k = mul-lt id self.count self.size h in
      let small = L.view-lt self.fence v.ready in
      let inside : id * self.size + self.size ≤ length (L.view self.fence) =
        omega (arith, k, v.room) in
      let e : id * self.size % size_bound ≡ id * self.size = omega (arith, inside, small) in
      let o : offset_for_id self id ≡ id * self.size = ground (arith, e, h, v.counted) in
      (o, inside, ground (arith, inside, small))

  -- With a number in range, `write` and `read` come to `write_at` and `read_at` at the block.
  write_calls :
      (self : Blockdev F) (id : ℕ) (src : Bytes)
      → IsLaid self
      → id < self.count
      → write api self id (some src) ≡ write_at api self (id * self.size) (some src)
  unfolding write
  write_calls self id src v h =
      let o = offset_lem self id v h in
      ap (λ n. if n == size_t_error then (range_error, self) else write_at api self n (some src))
        o.0
      ∙ ap (λ b. if b then (range_error, self) else write_at api self (id * self.size) (some src))
          o.2

  read_calls :
      (self : Blockdev F) (id : ℕ)
      → IsLaid self
      → id < self.count
      → read api self id true ≡ read_at api self (id * self.size) true
  unfolding read
  read_calls self id v h =
      let o = offset_lem self id v h in
      ap (λ n. if n == size_t_error then (range_error, [], self) else read_at api self n true) o.0
      ∙ ap (λ b. if b then (range_error, [], self) else read_at api self (id * self.size) true) o.2

  written :
      (self : Blockdev F) (at : ℕ) (src : Ptr) (f f' : F)
      → api.seek self.fence (pos at) seek_set ≡ (at, f)
      → api.write f src self.size ≡ (self.size, f')
      → write_at api self at src ≡ (ok, record self { fence = f' })
  unfolding write_at
  written self at src f f' e1 e2 = ground (arith, e1, e2)

  was_read :
      (self : Blockdev F) (at : ℕ) (bytes : Bytes) (f f' : F)
      → length bytes ≡ self.size
      → api.seek self.fence (pos at) seek_set ≡ (at, f)
      → api.read f true self.size ≡ (bytes, f')
      → read_at api self at true ≡ (ok, bytes, record self { fence = f' })
  unfolding read_at
  was_read self at bytes f f' e e1 e2 = ground (arith, e, e1, e2)

  -- Over a device that keeps its laws, a write of a block in range, of a full block of bytes, returns
  -- OK; the block then holds the bytes, and every other block is as it was.
  pub block_write :
      (self : Blockdev F) (id : ℕ) (src : Bytes)
      → IsLaid self
      → id < self.count
      → self.size ≤ length src
      → (self' : Blockdev F) × (write api self id (some src) ≡ (ok, self'))
        × IsLaid self'
        × (self'.count ≡ self.count)
        × (block self' id ≡ take self.size src)
        × ((j : ℕ) → j < self.count → j ≢ id → block self' j ≡ block self j)
  unfolding block
  block_write self id src v h full =
      let o = offset_lem self id v h in
      let s = L.seek_lem self.fence (id * self.size) v.ready (omega (arith, o.1)) in
      let w = L.write_lem s.0 src self.size s.2 full (omega (arith, s.4, ap length s.3, o.1)) in
      let put : L.view w.0 ≡ overwrite (L.view self.fence) (id * self.size) (take self.size src) =
        w.3
        ∙ ap (λ x. overwrite x (L.cursor s.0) (take self.size src)) s.3
        ∙ ap (λ k. overwrite (L.view self.fence) k (take self.size src)) s.4 in
      let len = length-overwrite (L.view self.fence) (id * self.size) (take self.size src) in
      let l : length (take self.size src) ≡ self.size =
        omega (arith, length-take self.size src, full) in
      (
        record self { fence = w.0 },
        write_calls self id src v h ∙ written self (id * self.size) (some src) s.0 w.0 s.1 w.1,
        record {
          ready = w.2;
          counted = v.counted;
          room = omega (arith, v.room, ap length put, len);
        },
        refl,
        ap (λ x. slice x (id * self.size) self.size) put
            ∙ ap
                (λ n.
                  slice (overwrite (L.view self.fence) (id * self.size) (take self.size src))
                    (id * self.size) n)
                (sym l)
            ∙ slice-overwrite_self (L.view self.fence) (id * self.size) (take self.size src)
                (omega (arith, l, o.1)),
        λ j hj ne.
            ap (λ x. slice x (j * self.size) self.size) put
            ∙ slice-overwrite_apart (L.view self.fence) (id * self.size) (j * self.size) self.size
                (take self.size src) (apart self.size id j (take self.size src) l ne),
      )

  -- Over a device that keeps its laws, a read of a block in range returns OK and the block, and leaves
  -- all the blocks as they were.
  block_read :
      (self : Blockdev F) (id : ℕ)
      → IsLaid self
      → id < self.count
      → (self' : Blockdev F) × (read api self id true ≡ (ok, block self id, self'))
        × IsLaid self'
        × (self'.count ≡ self.count)
        × ((j : ℕ) → block self' j ≡ block self j)
  unfolding block
  block_read self id v h =
      let o = offset_lem self id v h in
      let s = L.seek_lem self.fence (id * self.size) v.ready (omega (arith, o.1)) in
      let r = L.read_lem s.0 self.size s.2 (omega (arith, s.4, ap length s.3, o.1)) in
      let got : slice (L.view s.0) (L.cursor s.0) self.size
          ≡ slice (L.view self.fence) (id * self.size) self.size =
        ap (λ x. slice x (L.cursor s.0) self.size) s.3
        ∙ ap (λ k. slice (L.view self.fence) k self.size) s.4 in
      let same : L.view r.0 ≡ L.view self.fence = r.3 ∙ s.3 in
      let l : length (slice (L.view self.fence) (id * self.size) self.size) ≡ self.size =
        length-slice (L.view self.fence) (id * self.size) self.size ∙ omega (arith, o.1) in
      (
        record self { fence = r.0 },
        read_calls self id v h
            ∙ was_read self (id * self.size) _ s.0 r.0 l s.1 (r.1 ∙ ap (λ b. (b, r.0)) got),
        record { ready = r.2; counted = v.counted; room = omega (arith, v.room, ap length same) },
        refl,
        λ j. ap (λ x. slice x (j * self.size) self.size) same,
      )

  refused_offset :
      (self : Blockdev F) (id : ℕ)
      → 0 < self.count
      → self.count ≤ id
      → offset_for_id self id ≡ size_t_error
  unfolding offset_for_id in_range
  refused_offset self id counted h = ground arith

  -- The code of a write out of range.
  abbrev pub refused : Ptr → Rc
  refused none = arg_error
  refused (some src) = range_error

  write_refused :
      (self : Blockdev F) (id : ℕ) (src : Ptr)
      → 0 < self.count
      → self.count ≤ id
      → write api self id src ≡ (refused src, self)
  unfolding write
  write_refused self id none counted h = refl
  write_refused self id (some src) counted h = ground (arith, refused_offset self id counted h)

  -- On a block device with a count, a number out of range is refused by read, write and wipe alike,
  -- with a range error, or an argument error where there is nothing to write; nothing changes.
  block_refused :
      (self : Blockdev F) (id : ℕ) (src : Ptr) (dest : Bool)
      → 0 < self.count
      → self.count ≤ id
      → (write api self id src ≡ (refused src, self))
        × (read api self id dest ≡ (range_error, [], self))
        × (wipe api self id ≡ (refused self.prototype, self))
  unfolding read wipe
  block_refused self id src dest counted h = (
    write_refused self id src counted h,
    ground (arith, refused_offset self id counted h),
    write_refused self id self.prototype counted h,
  )
