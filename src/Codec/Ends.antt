-- ===== src/Codec/Ends.antt =====
-- The ends of the encoders and decoders over a device that keeps its laws: what is written there, and
-- what is decoded from there.
use whefs.Common.{
  ℕ, ◌+◌, ◌≤◌, ◌≡◌, refl, ap, sym, ◌∙◌, arith, true, some, ◌++◌, ◌==◌, if◌then◌else◌, length, take,
  drop, replicate, overwrite, length-drop, length-append, length-replicate, take-all,
  take-append_left, overwrite_all, ==_refl,
}
use whefs.Rc.{Rc, io_error}
use whefs.Encode.{Bytes, Ptr}
use whefs.Device.{DevApi, DevLaws}
use whefs.Codec.{put, fetch}

module _ {D : Type 0} {api : DevApi D} (L : DevLaws api) where
  -- From the cursor on, the device's contents begin with these bytes.
  abbrev pub Ahead : D → Bytes → Type 0
  Ahead d bytes = (rest : Bytes) × (drop (L.cursor d) (L.view d) ≡ bytes ++ rest)

  Ahead-fits :
      (d : D) (bytes : Bytes)
      → L.Valid d
      → Ahead d bytes
      → L.cursor d + length bytes ≤ length (L.view d)
  Ahead-fits d bytes v (rest, e) = omega (
    arith,
    ap length e,
    length-drop (L.cursor d) (L.view d),
    length-append bytes rest,
    L.cursor-le d v,
  )

  -- A read of the bytes ahead gives them.
  pub read-Ahead :
      (d : D) (bytes : Bytes)
      → L.Valid d
      → Ahead d bytes
      → (d' : D) × (api.read d true (length bytes) ≡ (bytes, d'))
        × L.Valid d'
        × (L.view d' ≡ L.view d)
        × (L.cursor d' ≡ L.cursor d + length bytes)
  read-Ahead d bytes v (rest, e) =
      let r = L.read_lem d (length bytes) v (Ahead-fits d bytes v (rest, e)) in
      (
        r.0,
        r.1
            ∙ ap (λ b. (b, r.0))
                (ap (λ x. take (length bytes) x) e
                  ∙ take-append_left (length bytes) bytes rest refl),
        r.2,
        r.3,
        r.4,
      )

  pub fetch_lem :
      {A : Type 0} (size : ℕ) (decode : Ptr → Rc × A) (old : A) (d : D) (bytes : Bytes)
      → size ≡ length bytes
      → L.Valid d
      → Ahead d bytes
      → (d' : D) × (fetch api size decode old d
          ≡ ((decode (some bytes)).0, (decode (some bytes)).1, d'))
        × L.Valid d'
        × (L.view d' ≡ L.view d)
        × (L.cursor d' ≡ L.cursor d + size)
  fetch_lem {A} size decode old d bytes e v a =
      let r = read-Ahead d bytes v a in
      let finish : Bytes × D → Rc × A × D = λ q.
        if size == length q.0
        then (
          (decode (some (overwrite (replicate size 0) 0 q.0))).0,
          (decode (some (overwrite (replicate size 0) 0 q.0))).1,
          q.1,
        )
        else (io_error, old, q.1) in
      let all : overwrite (replicate size 0) 0 bytes ≡ bytes =
        overwrite_all (replicate size 0) bytes (length-replicate size 0 ∙ e) in
      (
        r.0,
        ap finish (ap (λ n. api.read d true n) e ∙ r.1)
            ∙ ap
                (λ b.
                  if b
                  then (
                    (decode (some (overwrite (replicate size 0) 0 bytes))).0,
                    (decode (some (overwrite (replicate size 0) 0 bytes))).1,
                    r.0,
                  )
                  else (io_error, old, r.0))
                (ap (λ n. size == n) (sym e) ∙ ==_refl size)
            ∙ ap (λ b. ((decode (some b)).0, (decode (some b)).1, r.0)) all,
        r.2,
        r.3,
        r.4 ∙ ap (λ n. L.cursor d + n) (sym e),
      )

  pub put_lem :
      (size : ℕ) (coded : ℕ × Ptr) (d : D) (bytes : Bytes)
      → coded ≡ (size, some bytes)
      → size ≡ length bytes
      → L.Valid d
      → L.cursor d + size ≤ length (L.view d)
      → (d' : D) × (put api size coded d ≡ (size, d'))
        × L.Valid d'
        × (L.view d' ≡ overwrite (L.view d) (L.cursor d) bytes)
        × (L.cursor d' ≡ L.cursor d + size)
  put_lem size coded d bytes c e v room =
      let w = L.write_lem d bytes size v (omega (arith, e)) room in
      (
        w.0,
        ap (λ q. put api size q d) c
            ∙ ap (λ b. if b then api.write d (some bytes) size else (0, d)) (==_refl size)
            ∙ w.1,
        w.2,
        w.3
            ∙ ap (λ b. overwrite (L.view d) (L.cursor d) b)
                (take-all size bytes (omega (arith, e))),
        w.4,
      )
