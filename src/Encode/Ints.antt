-- ===== src/Encode/Ints.antt =====
-- The integer codecs: what is encoded is decoded, in place and for both signs.
use whefs.Common.{ℕ, ◌^◌, ◌<◌, ◌≤◌, ◌≡◌, arith, some, [], ◌∷◌, length, ℤ, pos, negsuc, IsSigned}
use whefs.Rc.{ok}
use whefs.Encode.{
  Bytes, encode_uint64, encode_int64, encode_uint32, encode_int32, encode_uint16, encode_int16,
  encode_uint8, encode_int8, decode_uint64, decode_int64, decode_uint32, decode_int32,
  decode_uint16, decode_int16, decode_uint8, decode_int8,
}

uint8_trip :
    (dest : Bytes) (i old : ℕ)
    → 2 ≤ length dest
    → i < 2 ^ 8
    → decode_uint8 (encode_uint8 (some dest) i).1 (some old) ≡ (ok, some i)
unfolding decode_uint8 encode_uint8
uint8_trip [] i old room h = absurd (omega arith)
uint8_trip (a ∷ []) i old room h = absurd (omega arith)
uint8_trip (a ∷ b ∷ dest) i old room h = ground arith

pub uint16_trip :
    (dest : Bytes) (i old : ℕ)
    → 3 ≤ length dest
    → i < 2 ^ 16
    → decode_uint16 (encode_uint16 (some dest) i).1 (some old) ≡ (ok, some i)
unfolding decode_uint16 encode_uint16
uint16_trip [] i old room h = absurd (omega arith)
uint16_trip (a ∷ []) i old room h = absurd (omega arith)
uint16_trip (a ∷ b ∷ []) i old room h = absurd (omega arith)
uint16_trip (a ∷ b ∷ c ∷ dest) i old room h = ground arith

pub uint32_trip :
    (dest : Bytes) (i old : ℕ)
    → 5 ≤ length dest
    → i < 2 ^ 32
    → decode_uint32 (encode_uint32 (some dest) i).1 (some old) ≡ (ok, some i)
unfolding decode_uint32 encode_uint32
uint32_trip (a ∷ b ∷ c ∷ d ∷ e ∷ dest) i old room h = ground arith
uint32_trip _ i old room h = absurd (omega arith)

pub uint64_trip :
    (dest : Bytes) (i old : ℕ)
    → 9 ≤ length dest
    → i < 2 ^ 64
    → decode_uint64 (encode_uint64 (some dest) i).1 (some old) ≡ (ok, some i)
unfolding decode_uint64 encode_uint64
uint64_trip (a ∷ b ∷ c ∷ d ∷ e ∷ f ∷ g ∷ j ∷ k ∷ dest) i old room h = ground arith
uint64_trip _ i old room h = absurd (omega arith)

int32_trip :
    (dest : Bytes) (i old : ℤ)
    → 5 ≤ length dest
    → IsSigned 32 i
    → decode_int32 (encode_int32 (some dest) i).1 (some old) ≡ (ok, some i)
unfolding decode_int32 encode_int32
int32_trip (a ∷ b ∷ c ∷ d ∷ e ∷ dest) (pos n) old room h = ground arith
int32_trip (a ∷ b ∷ c ∷ d ∷ e ∷ dest) (negsuc n) old room h = ground arith
int32_trip _ i old room h = absurd (omega arith)

int64_trip :
    (dest : Bytes) (i old : ℤ)
    → 9 ≤ length dest
    → IsSigned 64 i
    → decode_int64 (encode_int64 (some dest) i).1 (some old) ≡ (ok, some i)
unfolding decode_int64 encode_int64
int64_trip (a ∷ b ∷ c ∷ d ∷ e ∷ f ∷ g ∷ j ∷ k ∷ dest) (pos n) old room h = ground arith
int64_trip (a ∷ b ∷ c ∷ d ∷ e ∷ f ∷ g ∷ j ∷ k ∷ dest) (negsuc n) old room h = ground arith
int64_trip _ i old room h = absurd (omega arith)

int16_trip :
    (dest : Bytes) (i old : ℤ)
    → 3 ≤ length dest
    → IsSigned 16 i
    → decode_int16 (encode_int16 (some dest) i).1 (some old) ≡ (ok, some i)
unfolding decode_int16 encode_int16
int16_trip (a ∷ b ∷ c ∷ dest) (pos n) old room h = ground arith
int16_trip (a ∷ b ∷ c ∷ dest) (negsuc n) old room h = ground arith
int16_trip _ i old room h = absurd (omega arith)

int8_trip :
    (dest : Bytes) (i old : ℤ)
    → 2 ≤ length dest
    → IsSigned 8 i
    → decode_int8 (encode_int8 (some dest) i).1 (some old) ≡ (ok, some i)
unfolding decode_int8 encode_int8
int8_trip (a ∷ b ∷ dest) (pos n) old room h = ground arith
int8_trip (a ∷ b ∷ dest) (negsuc n) old room h = ground arith
int8_trip _ i old room h = absurd (omega arith)

-- In a buffer of at least nine bytes each unsigned encoder, of 64, 32, 16 and 8 bits, stores a number
-- in its range so that the decoder of the same width returns OK and that number.
pub unsigned_round_trip :
    (dest : Bytes) (a b c d old : ℕ)
    → 9 ≤ length dest
    → a < 2 ^ 64
    → b < 2 ^ 32
    → c < 2 ^ 16
    → d < 2 ^ 8
    → (decode_uint64 (encode_uint64 (some dest) a).1 (some old) ≡ (ok, some a))
      × (decode_uint32 (encode_uint32 (some dest) b).1 (some old) ≡ (ok, some b))
      × (decode_uint16 (encode_uint16 (some dest) c).1 (some old) ≡ (ok, some c))
      × (decode_uint8 (encode_uint8 (some dest) d).1 (some old) ≡ (ok, some d))
unsigned_round_trip dest a b c d old room ha hb hc hd = (
  uint64_trip dest a old room ha,
  uint32_trip dest b old (omega arith) hb,
  uint16_trip dest c old (omega arith) hc,
  uint8_trip dest d old (omega arith) hd,
)

-- In a buffer of at least nine bytes each signed encoder, of 64, 32, 16 and 8 bits, stores a number
-- of its range, negative or not, so that the decoder of the same width returns OK and that number.
signed_round_trip :
    (dest : Bytes) (a b c d old : ℤ)
    → 9 ≤ length dest
    → IsSigned 64 a
    → IsSigned 32 b
    → IsSigned 16 c
    → IsSigned 8 d
    → (decode_int64 (encode_int64 (some dest) a).1 (some old) ≡ (ok, some a))
      × (decode_int32 (encode_int32 (some dest) b).1 (some old) ≡ (ok, some b))
      × (decode_int16 (encode_int16 (some dest) c).1 (some old) ≡ (ok, some c))
      × (decode_int8 (encode_int8 (some dest) d).1 (some old) ≡ (ok, some d))
signed_round_trip dest a b c d old room ha hb hc hd = (
  int64_trip dest a old room ha,
  int32_trip dest b old (omega arith) hb,
  int16_trip dest c old (omega arith) hc,
  int8_trip dest d old (omega arith) hd,
)
