-- ===== src/Codec/Ints.antt =====
-- Numbers on a device: what an encoder writes is read back by the decoder of its width.
use whefs.Common.{
  ℕ, ◌+◌, ◌%◌, ◌^◌, ◌<◌, ◌≤◌, ◌≡◌, refl, ap, ◌∙◌, arith, some, [], ◌∷◌, length, drop, overwrite,
  length-overwrite, drop-overwrite_self, pos,
}
use whefs.Rc.{ok}
use whefs.Encode.{
  Bytes, byte_at, uint64_tag_char, uint32_tag_char, uint16_tag_char, encode_uint64, encode_uint32,
  encode_uint16, decode_uint64, decode_uint32, decode_uint16,
}
use whefs.Encode.Ints.{uint64_trip, uint32_trip, uint16_trip}
use whefs.Device.{DevApi, DevLaws, seek_set}
use whefs.Codec.{
  encode_size_t, decode_size_t, dev_encode_size_t, dev_decode_size_t, dev_encode_uint64,
  dev_decode_uint64, dev_encode_uint32, dev_decode_uint32, dev_encode_uint16, dev_decode_uint16,
}
use whefs.Codec.Ends.{Ahead, fetch_lem, put_lem}

-- The bytes of an encoded number.
abbrev pub code32 : ℕ → Bytes
code32 i = uint32_tag_char ∷ byte_at i 24 ∷ byte_at i 16 ∷ byte_at i 8 ∷ i % 256 ∷ []

abbrev code16 : ℕ → Bytes
code16 i = uint16_tag_char ∷ byte_at i 8 ∷ i % 256 ∷ []

abbrev code64 : ℕ → Bytes
code64 i =
    uint64_tag_char
    ∷ byte_at i 56
    ∷ byte_at i 48
    ∷ byte_at i 40
    ∷ byte_at i 32
    ∷ byte_at i 24
    ∷ byte_at i 16
    ∷ byte_at i 8
    ∷ i % 256
    ∷ []

decode32 : (i old : ℕ) → i < 2 ^ 32 → decode_uint32 (some (code32 i)) (some old) ≡ (ok, some i)
unfolding encode_uint32
decode32 i old h = uint32_trip (code32 i) i old (omega arith) h

decode16 : (i old : ℕ) → i < 2 ^ 16 → decode_uint16 (some (code16 i)) (some old) ≡ (ok, some i)
unfolding encode_uint16
decode16 i old h = uint16_trip (code16 i) i old (omega arith) h

decode64 : (i old : ℕ) → i < 2 ^ 64 → decode_uint64 (some (code64 i)) (some old) ≡ (ok, some i)
unfolding encode_uint64
decode64 i old h = uint64_trip (code64 i) i old (omega arith) h

module _ {D : Type 0} {api : DevApi D} (L : DevLaws api) where
  -- An encoder's write of these bytes, which returns `count`, and a decoder's read of them.
  unfoldable pub Writes : (D → ℕ × D) → ℕ → Bytes → D → Type 0
  Writes encode count bytes d =
      L.Valid d
      → L.cursor d + length bytes ≤ length (L.view d)
      → (d' : D) × (encode d ≡ (count, d'))
        × L.Valid d'
        × (L.view d' ≡ overwrite (L.view d) (L.cursor d) bytes)
        × (L.cursor d' ≡ L.cursor d + length bytes)

  unfoldable pub Reads {ℓ} :
      {A : Type ℓ} {C : Type 0} → (D → C × A × D) → Bytes → C → A → D → Type ℓ
  Reads decode bytes code value d =
      L.Valid d
      → Ahead L d bytes
      → (d' : D) × (decode d ≡ (code, value, d'))
        × L.Valid d'
        × (L.view d' ≡ L.view d)
        × (L.cursor d' ≡ L.cursor d + length bytes)

  pub write32 : (d : D) (i : ℕ) → Writes (λ x. dev_encode_uint32 api x i) 5 (code32 i) d
  unfolding Writes dev_encode_uint32 encode_uint32
  write32 d i v room = put_lem L 5 _ d (code32 i) refl refl v room

  pub read32 :
      (d : D) (i old : ℕ)
      → i < 2 ^ 32
      → Reads (λ x. dev_decode_uint32 api x (some old)) (code32 i) ok (some i) d
  unfolding Reads dev_decode_uint32
  read32 d i old h v a =
      let r =
        fetch_lem L 5 (λ src. decode_uint32 src (some old)) (some old) d (code32 i) refl v a in
      (r.0, r.1 ∙ ap (λ t. (t.0, t.1, r.0)) (decode32 i old h), r.2, r.3, r.4)

  write64 : (d : D) (i : ℕ) → Writes (λ x. dev_encode_uint64 api x i) 9 (code64 i) d
  unfolding Writes dev_encode_uint64 encode_uint64
  write64 d i v room = put_lem L 9 _ d (code64 i) refl refl v room

  write16 : (d : D) (i : ℕ) → Writes (λ x. dev_encode_uint16 api x i) 3 (code16 i) d
  unfolding Writes dev_encode_uint16 encode_uint16
  write16 d i v room = put_lem L 3 _ d (code16 i) refl refl v room

  write_size : (d : D) (i : ℕ) → Writes (λ x. dev_encode_size_t api x i) 5 (code32 i) d
  unfolding Writes dev_encode_size_t encode_size_t encode_uint32
  write_size d i v room = L.write_lem d (code32 i) 5 v (omega arith) room

  read64 :
      (d : D) (i old : ℕ)
      → i < 2 ^ 64
      → Reads (λ x. dev_decode_uint64 api x (some old)) (code64 i) ok (some i) d
  unfolding Reads dev_decode_uint64
  read64 d i old h v a =
      let r =
        fetch_lem L 9 (λ src. decode_uint64 src (some old)) (some old) d (code64 i) refl v a in
      (r.0, r.1 ∙ ap (λ t. (t.0, t.1, r.0)) (decode64 i old h), r.2, r.3, r.4)

  read16 :
      (d : D) (i old : ℕ)
      → i < 2 ^ 16
      → Reads (λ x. dev_decode_uint16 api x (some old)) (code16 i) ok (some i) d
  unfolding Reads dev_decode_uint16
  read16 d i old h v a =
      let r =
        fetch_lem L 3 (λ src. decode_uint16 src (some old)) (some old) d (code16 i) refl v a in
      (r.0, r.1 ∙ ap (λ t. (t.0, t.1, r.0)) (decode16 i old h), r.2, r.3, r.4)

  read_size :
      (d : D) (i old : ℕ)
      → i < 2 ^ 32
      → Reads (λ x. dev_decode_size_t api x (some old)) (code32 i) ok (some i) d
  unfolding Reads dev_decode_size_t decode_size_t
  read_size d i old h v a =
      let r =
        fetch_lem L 5 (λ src. decode_uint32 src (some old)) (some old) d (code32 i) refl v a in
      (r.0, r.1 ∙ ap (λ t. (t.0, t.1, r.0)) (decode32 i old h), r.2, r.3, r.4)

  -- Seeking back to where `d` stood after an encoder ran on it: the decoder then returns `code` and
  -- the value, and the encoder returned the size.
  unfoldable pub ReadsBack {ℓ} :
      {A : Type ℓ} {C : Type 0} → (D → ℕ × D) → (D → C × A × D) → ℕ → C → A → D → Type ℓ
  ReadsBack encode decode size code value d =
      let back = api.seek (encode d).1 (pos (api.tell d)) seek_set in
      ((encode d).0 ≡ size) × ((decode back.1).0 ≡ code) × ((decode back.1).1 ≡ value)

  -- The seek back after a write of `bytes` at the cursor of `d`, and what is ahead then.
  pub rewound :
      (d w : D) (bytes : Bytes)
      → L.Valid d
      → L.Valid w
      → L.view w ≡ overwrite (L.view d) (L.cursor d) bytes
      → L.cursor d + length bytes ≤ length (L.view d)
      → (s : D) × ((api.seek w (pos (api.tell d)) seek_set).1 ≡ s) × L.Valid s × Ahead L s bytes
  rewound d w bytes v vw e room =
      let l = length-overwrite (L.view d) (L.cursor d) bytes in
      let s = L.seek_lem w (L.cursor d) vw (omega (arith, ap length e, l, L.cursor-le d v)) in
      (
        s.0,
        ap (λ k. (api.seek w (pos k) seek_set).1) (L.tell_lem d v) ∙ ap (λ t. t.1) s.1,
        s.2,
        (
          drop (length bytes) (drop (L.cursor d) (L.view d)),
          ap (λ k. drop k (L.view s.0)) s.4
              ∙ ap (λ x. drop (L.cursor d) x) (s.3 ∙ e)
              ∙ drop-overwrite_self (L.view d) (L.cursor d) bytes room,
        ),
      )

  pub reads_back :
      {A C : Type 0} (encode : D → ℕ × D) (decode : D → C × A × D) (count : ℕ) (bytes : Bytes)
      (code : C) (value : A) (d : D)
      → ((x : D) → Writes encode count bytes x)
      → ((x : D) → Reads decode bytes code value x)
      → L.Valid d
      → L.cursor d + length bytes ≤ length (L.view d)
      → ReadsBack encode decode count code value d
  unfolding ReadsBack Writes Reads
  reads_back encode decode count bytes code value d writes reads v room =
      let w = writes d v room in
      let b = rewound d w.0 bytes v w.2 w.3 room in
      let r = reads b.0 b.2 b.3 in
      let back : (api.seek (encode d).1 (pos (api.tell d)) seek_set).1 ≡ b.0 =
        ap (λ t. (api.seek t.1 (pos (api.tell d)) seek_set).1) w.1 ∙ b.1 in
      (
        ap (λ t. t.0) w.1,
        ap (λ x. (decode x).0) back ∙ ap (λ t. t.0) r.1,
        ap (λ x. (decode x).1) back ∙ ap (λ t. t.1) r.1,
      )

-- On a device that keeps its laws, with nine bytes left behind its cursor, each of the encoders of 64,
-- 32 and 16 bits and of `whio_size_t` returns the size of its encoding for a number in its range, and
-- after a seek back to where it began the decoder of the same type returns OK and the number.
device_round_trip :
    {D : Type 0} {api : DevApi D} (L : DevLaws api) (d : D) (a b c old : ℕ)
    → L.Valid d
    → L.cursor d + 9 ≤ length (L.view d)
    → a < 2 ^ 64
    → b < 2 ^ 32
    → c < 2 ^ 16
    → ReadsBack L
        (λ x. dev_encode_uint64 api x a)
        (λ x. dev_decode_uint64 api x (some old))
        9
        ok
        (some a)
        d
      × ReadsBack L
          (λ x. dev_encode_uint32 api x b)
          (λ x. dev_decode_uint32 api x (some old))
          5
          ok
          (some b)
          d
      × ReadsBack L
          (λ x. dev_encode_size_t api x b)
          (λ x. dev_decode_size_t api x (some old))
          5
          ok
          (some b)
          d
      × ReadsBack L
          (λ x. dev_encode_uint16 api x c)
          (λ x. dev_decode_uint16 api x (some old))
          3
          ok
          (some c)
          d
device_round_trip {D} {api} L d a b c old v room ha hb hc = (
  reads_back L _ _ 9 (code64 a) ok (some a) d (λ x. write64 L x a) (λ x. read64 L x a old ha) v
      room,
  reads_back L _ _ 5 (code32 b) ok (some b) d (λ x. write32 L x b) (λ x. read32 L x b old hb) v
      (omega arith),
  reads_back L _ _ 5 (code32 b) ok (some b) d (λ x. write_size L x b) (λ x. read_size L x b old hb)
      v (omega arith),
  reads_back L _ _ 3 (code16 c) ok (some c) d (λ x. write16 L x c) (λ x. read16 L x c old hc) v
      (omega arith),
)
