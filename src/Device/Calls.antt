-- ===== src/Device/Calls.antt =====
-- A seek and the read or write that follows it, on a device that keeps its laws.
use whefs.Common.{
  ℕ, ◌+◌, ◌≤◌, ◌≡◌, ap, ◌∙◌, arith, true, some, length, take, slice, overwrite, pos, take-all,
}
use whefs.Encode.{Bytes}
use whefs.Device.{DevApi, DevLaws, seek_set}

module _ {D : Type 0} {api : DevApi D} (L : DevLaws api) where
  -- The first bytes of some are written.
  pub seek-write_part :
      (d : D) (p n : ℕ) (bytes : Bytes)
      → L.Valid d
      → n ≤ length bytes
      → p + n ≤ length (L.view d)
      → (d1 d2 : D) × (api.seek d (pos p) seek_set ≡ (p, d1))
        × (api.write d1 (some bytes) n ≡ (n, d2))
        × L.Valid d2
        × (L.view d2 ≡ overwrite (L.view d) p (take n bytes))
  seek-write_part d p n bytes v full room =
      let s = L.seek_lem d p v (omega (arith, room)) in
      let w = L.write_lem s.0 bytes n s.2 full (omega (arith, s.4, ap length s.3, room)) in
      (
        s.0,
        w.0,
        s.1,
        w.1,
        w.2,
        w.3
            ∙ ap (λ x. overwrite x (L.cursor s.0) (take n bytes)) s.3
            ∙ ap (λ k. overwrite (L.view d) k (take n bytes)) s.4,
      )

  pub seek-write :
      (d : D) (p n : ℕ) (bytes : Bytes)
      → L.Valid d
      → length bytes ≡ n
      → p + n ≤ length (L.view d)
      → (d1 d2 : D) × (api.seek d (pos p) seek_set ≡ (p, d1))
        × (api.write d1 (some bytes) n ≡ (n, d2))
        × L.Valid d2
        × (L.view d2 ≡ overwrite (L.view d) p bytes)
  seek-write d p n bytes v full room =
      let w = seek-write_part d p n bytes v (omega (arith, full)) room in
      (
        w.0,
        w.1,
        w.2,
        w.3,
        w.4,
        w.5 ∙ ap (λ b. overwrite (L.view d) p b) (take-all n bytes (omega (arith, full))),
      )

  pub seek-read :
      (d : D) (p n : ℕ)
      → L.Valid d
      → p + n ≤ length (L.view d)
      → (d1 d2 : D) × (api.seek d (pos p) seek_set ≡ (p, d1))
        × (api.read d1 true n ≡ (slice (L.view d) p n, d2))
        × L.Valid d2
        × (L.view d2 ≡ L.view d)
  seek-read d p n v room =
      let s = L.seek_lem d p v (omega (arith, room)) in
      let r = L.read_lem s.0 n s.2 (omega (arith, s.4, ap length s.3, room)) in
      (
        s.0,
        r.0,
        s.1,
        r.1
            ∙ ap (λ x. (slice x (L.cursor s.0) n, r.0)) s.3
            ∙ ap (λ k. (slice (L.view d) k n, r.0)) s.4,
        r.2,
        r.3 ∙ s.3,
      )
