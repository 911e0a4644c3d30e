-- ===== src/Encode/Tests.antt =====
-- Concrete runs of the codecs, and their theorems at concrete inputs.
use whefs.Common.{◌-◌, ◌^◌, ◌≡◌, refl, arith, none, some, [], ◌∷◌, negsuc}
use whefs.Rc.{ok}
use whefs.Encode.{
  Bytes, encode_uint64, encode_uint32, encode_uint16, encode_int16, encode_uint8, decode_uint64,
  decode_uint32, decode_uint16, decode_uint8,
}
use whefs.Encode.Ints.{unsigned_round_trip}
use whefs.Encode.Cstring.{cstring_length, encode_cstring, CstringOut}

abbrev nine : Bytes
nine = 1 ∷ 2 ∷ 3 ∷ 4 ∷ 5 ∷ 6 ∷ 7 ∷ 8 ∷ 9 ∷ []

-- "hi", with its terminator.
abbrev hi : Bytes
hi = b'h' ∷ b'i' ∷ 0 ∷ []

abbrev nowhere : CstringOut
nowhere = record { tgt = some none; len = some 0 }

uint32_run :
    encode_uint32 (some nine) 0x01020304 ≡ (5, some (0xa0 ∷ 1 ∷ 2 ∷ 3 ∷ 4 ∷ 6 ∷ 7 ∷ 8 ∷ 9 ∷ []))
unfolding encode_uint32
uint32_run = refl

int16_run :
    encode_int16 (some nine) (negsuc 0)
    ≡ (3, some (0x91 ∷ 0xff ∷ 0xff ∷ 4 ∷ 5 ∷ 6 ∷ 7 ∷ 8 ∷ 9 ∷ []))
unfolding encode_int16
int16_run = refl

cstring_run :
    encode_cstring (some nine) (some hi) 0
    ≡ (8, some (0xa2 ∷ 0xa0 ∷ 0 ∷ 0 ∷ 0 ∷ 2 ∷ b'h' ∷ b'i' ∷ 0 ∷ []))
unfolding encode_cstring
cstring_run = refl

hi_length : cstring_length hi 0 ≡ 2
unfolding cstring_length
hi_length = refl

unsigned_round_trip_example :
    (decode_uint64 (encode_uint64 (some nine) (2 ^ 64 - 1)).1 (some 0) ≡ (ok, some (2 ^ 64 - 1)))
    × (decode_uint32 (encode_uint32 (some nine) 70000).1 (some 0) ≡ (ok, some 70000))
    × (decode_uint16 (encode_uint16 (some nine) 300).1 (some 0) ≡ (ok, some 300))
    × (decode_uint8 (encode_uint8 (some nine) 255).1 (some 0) ≡ (ok, some 255))
unsigned_round_trip_example =
    unsigned_round_trip nine (2 ^ 64 - 1) 70000 300 255 0 (omega arith) (omega arith) (omega arith)
      (omega arith) (omega arith)

abbrev stored_hi : Bytes
stored_hi = 0xa2 ∷ 0xa0 ∷ 0 ∷ 0 ∷ 0 ∷ 2 ∷ b'h' ∷ b'i' ∷ 0 ∷ []
