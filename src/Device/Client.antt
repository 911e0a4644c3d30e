-- ===== src/Device/Client.antt =====
-- The helpers of src/whio_dev.c over any device: positioned reads and writes, the size of a device,
-- and rewinding. The pointers to the device are not null.
mod Tests
use whefs.Common.{
  ℕ, zero, suc, ◌+◌, ◌<◌, ◌≤◌, ◌≡◌, refl, ap, sym, ◌∙◌, arith, Bool, true, false, Option, none,
  some, List, [], ◌==◌, ◌||◌, not, if◌then◌else◌, length, slice, take, overwrite, length-overwrite,
  length-take, slice-overwrite_self, pos,
}
use whefs.Rc.{Rc, ok, io_error, size_t_error}
use whefs.Encode.{Bytes, Ptr}
use whefs.Device.{DevApi, DevLaws, seek_set, seek_end}

module _ {D : Type 0} (api : DevApi D) where
  -- `whio_dev_writeat`.
  unfoldable pub writeat : D → ℕ → Ptr → ℕ → ℕ × D
  writeat d at none n = (0, d)
  writeat d at (some src) n =
      let (rc, d') = api.seek d (pos at) seek_set in
      if n == 0 then (0, d) else if rc == size_t_error then (rc, d') else api.write d' (some src) n

  -- `whio_dev_readat`: `none` is the error value, and otherwise the bytes that are copied.
  unfoldable pub readat : D → ℕ → Bool → ℕ → Option Bytes × D
  readat d at src n =
      let (rc, d') = api.seek d (pos at) seek_set in
      let (bytes, d'') = api.read d' src n in
      if not src || n == 0
      then (some [], d)
      else if rc == size_t_error
      then (none, d')
      else (some bytes, d'')

  -- `whio_dev_size`.
  unfoldable pub size : D → ℕ × D
  size d =
      let at = api.tell d in
      let (rc, d') = api.seek d (pos 0) seek_end in
      if at == size_t_error then (at, d) else (rc, (api.seek d' (pos at) seek_set).1)

  -- `whio_dev_rewind`.
  unfoldable pub rewind : D → Rc × D
  rewind d =
      let (rc, d') = api.seek d (pos 0) seek_set in
      ((if rc == size_t_error then io_error else ok), d')

module _ {D : Type 0} {api : DevApi D} (L : DevLaws api) where
  writeat_calls :
      (d d' d'' : D) (at : ℕ) (src : Bytes) (n : ℕ)
      → 0 < n
      → at < size_t_error
      → api.seek d (pos at) seek_set ≡ (at, d')
      → api.write d' (some src) n ≡ (n, d'')
      → writeat api d at (some src) n ≡ (n, d'')
  unfolding writeat
  writeat_calls d d' d'' at src n h small e1 e2 = ground (arith, e1, e2)

  readat_calls :
      (d d' d'' : D) (at : ℕ) (bytes : Bytes) (n : ℕ)
      → 0 < n
      → at < size_t_error
      → api.seek d (pos at) seek_set ≡ (at, d')
      → api.read d' true n ≡ (bytes, d'')
      → readat api d at true n ≡ (some bytes, d'')
  unfolding readat
  readat_calls d d' d'' at bytes n h small e1 e2 = ground (arith, e1, e2)

  -- A positioned write inside the contents.
  writeat_lem :
      (d : D) (at : ℕ) (src : Bytes) (n : ℕ)
      → L.Valid d
      → 0 < n
      → n ≤ length src
      → at + n ≤ length (L.view d)
      → (d' : D) × (writeat api d at (some src) n ≡ (n, d'))
        × L.Valid d'
        × (L.view d' ≡ overwrite (L.view d) at (take n src))
  writeat_lem d at src n v h full room =
      let s = L.seek_lem d at v (omega arith) in
      let w = L.write_lem s.0 src n s.2 full (omega (arith, s.4, ap length s.3)) in
      (
        w.0,
        writeat_calls d s.0 w.0 at src n h (omega (arith, L.view-lt d v)) s.1 w.1,
        w.2,
        w.3
            ∙ ap (λ x. overwrite x (L.cursor s.0) (take n src)) s.3
            ∙ ap (λ k. overwrite (L.view d) k (take n src)) s.4,
      )

  readat_lem :
      (d : D) (at n : ℕ)
      → L.Valid d
      → 0 < n
      → at + n ≤ length (L.view d)
      → (d' : D) × (readat api d at true n ≡ (some (slice (L.view d) at n), d'))
        × L.Valid d'
        × (L.view d' ≡ L.view d)
  readat_lem d at n v h room =
      let s = L.seek_lem d at v (omega arith) in
      let r = L.read_lem s.0 n s.2 (omega (arith, s.4, ap length s.3)) in
      (
        r.0,
        readat_calls d s.0 r.0 at _ n h (omega (arith, L.view-lt d v)) s.1 (
            r.1
            ∙ ap (λ x. (slice x (L.cursor s.0) n, r.0)) s.3
            ∙ ap (λ k. (slice (L.view d) k n, r.0)) s.4),
        r.2,
        r.3 ∙ s.3,
      )

  -- On a device that keeps its laws, a positioned write of some bytes inside the contents returns
  -- their number, and a positioned read at the same place then gives them; the contents differ from
  -- those before at no other place.
  writeat-readat :
      (d : D) (at : ℕ) (src : Bytes) (n : ℕ)
      → L.Valid d
      → 0 < n
      → n ≤ length src
      → at + n ≤ length (L.view d)
      → (d1 d2 : D) × (writeat api d at (some src) n ≡ (n, d1))
        × (readat api d1 at true n ≡ (some (take n src), d2))
        × (L.view d2 ≡ overwrite (L.view d) at (take n src))
  writeat-readat d at src n v h full room =
      let w = writeat_lem d at src n v h full room in
      let l = length-overwrite (L.view d) at (take n src) in
      let r = readat_lem w.0 at n w.2 h (omega (arith, ap length w.3, l)) in
      let k : length (take n src) ≡ n = omega (arith, length-take n src) in
      (
        w.0,
        r.0,
        w.1,
        r.1
            ∙ ap (λ x. (some (slice x at n), r.0)) w.3
            ∙ ap (λ c. (some (slice (overwrite (L.view d) at (take n src)) at c), r.0)) (sym k)
            ∙ ap (λ b. (some b, r.0))
                (slice-overwrite_self (L.view d) at (take n src) (omega (arith, k))),
        r.3 ∙ w.3,
      )

  -- On a device that keeps its laws, rewinding returns OK, puts the cursor on the first byte and
  -- leaves the contents as they were.
  rewind_lem :
      (d : D)
      → L.Valid d
      → (d' : D) × (rewind api d ≡ (ok, d'))
        × L.Valid d'
        × (L.view d' ≡ L.view d)
        × (L.cursor d' ≡ 0)
  unfolding rewind
  rewind_lem d v =
      let s = L.seek_lem d 0 v (omega arith) in
      (s.0, ap (λ t. ((if t.0 == size_t_error then io_error else ok), t.1)) s.1, s.2, s.3, s.4)
