-- ===== src/Encode/Shape.antt =====
-- What the integer encoders touch, and which encodings a decoder refuses.
use whefs.Common.{
  ℕ, ◌≤◌, ◌≡◌, refl, arith, some, ◌∷◌, length, get_or, overwrite, length-overwrite,
  get_or-overwrite_outside, ℤ, inr, low_byte,
}
use whefs.Rc.{ok, consistency_error}
use whefs.Encode.{
  Bytes, Ptr, stored, encode_uint64, encode_int64, encode_uint32, encode_int32, encode_uint16,
  encode_int16, encode_uint8, encode_int8, decode_uint64, decode_int64, decode_uint32, decode_int32,
  decode_uint16, decode_int16, decode_uint8,
}

-- `r` is the result of storing `n` bytes at the start of `dest`: the count, the same memory size,
-- and every byte from `n` on as it was.
pub record Stores (n : ℕ) (dest : Bytes) (r : ℕ × Ptr) : Type 0 where
  pub count : r.0 ≡ n
  pub out : Bytes
  pub is : r.1 ≡ some out
  pub size : length out ≡ length dest
  pub kept : (j : ℕ) → n ≤ j → get_or out j 0 ≡ get_or dest j 0

stored-Stores :
    (n : ℕ) (bytes dest : Bytes) → length bytes ≡ n → Stores n dest (stored n bytes (some dest))
stored-Stores n bytes dest h = record {
  count = refl;
  out = overwrite dest 0 bytes;
  is = refl;
  size = length-overwrite dest 0 bytes;
  kept = λ j hj. get_or-overwrite_outside dest 0 bytes j 0 (inr (omega arith));
}

-- Each encoder returns the size of its encoding (9, 5, 3 or 2 bytes) and changes no byte of the
-- buffer from that size on, nor its length.
encoders-Stores :
    (dest : Bytes) (i : ℕ) (z : ℤ)
    → Stores 9 dest (encode_uint64 (some dest) i)
      × Stores 9 dest (encode_int64 (some dest) z)
      × Stores 5 dest (encode_uint32 (some dest) i)
      × Stores 5 dest (encode_int32 (some dest) z)
      × Stores 3 dest (encode_uint16 (some dest) i)
      × Stores 3 dest (encode_int16 (some dest) z)
      × Stores 2 dest (encode_uint8 (some dest) i)
      × Stores 2 dest (encode_int8 (some dest) z)
unfolding encode_uint64 encode_int64 encode_uint32 encode_int32 encode_uint16 encode_int16
    encode_uint8 encode_int8
encoders-Stores dest i z = (
  stored-Stores 9 _ dest refl,
  stored-Stores 9 _ dest refl,
  stored-Stores 5 _ dest refl,
  stored-Stores 5 _ dest refl,
  stored-Stores 3 _ dest refl,
  stored-Stores 3 _ dest refl,
  stored-Stores 2 _ dest refl,
  stored-Stores 2 _ dest refl,
)

-- An encoding of 64, 32 or 16 bits of one sign is refused as inconsistent by the decoder of the
-- other sign, which leaves its target alone; but the encoding of an 8-bit signed number is accepted
-- by the unsigned decoder, as the byte that stands for it.
signs_told_apart :
    (dest : Bytes) (i old : ℕ) (z zold : ℤ)
    → 9 ≤ length dest
    → (decode_int64 (encode_uint64 (some dest) i).1 (some zold) ≡ (consistency_error, some zold))
      × (decode_uint64 (encode_int64 (some dest) z).1 (some old) ≡ (consistency_error, some old))
      × (decode_int32 (encode_uint32 (some dest) i).1 (some zold) ≡ (consistency_error, some zold))
      × (decode_uint32 (encode_int32 (some dest) z).1 (some old) ≡ (consistency_error, some old))
      × (decode_int16 (encode_uint16 (some dest) i).1 (some zold) ≡ (consistency_error, some zold))
      × (decode_uint16 (encode_int16 (some dest) z).1 (some old) ≡ (consistency_error, some old))
      × (decode_uint8 (encode_int8 (some dest) z).1 (some old) ≡ (ok, some (low_byte z)))
unfolding encode_uint64 encode_int64 encode_uint32 encode_int32 encode_uint16 encode_int16
    encode_int8 decode_uint64 decode_int64 decode_uint32 decode_int32 decode_uint16 decode_int16
    decode_uint8
signs_told_apart (a ∷ b ∷ dest) i old z zold room = (refl, refl, refl, refl, refl, refl, refl)
signs_told_apart _ i old z zold room = absurd (omega arith)
