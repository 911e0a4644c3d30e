-- ===== src/Encode.antt =====
-- src/whio_encode.c: integers in a byte buffer, each behind a tag byte, most significant byte first.
-- A pointer into a buffer is an option: `none` is null, and `some bytes` the memory from there on.
-- The sizes are `whio_sizeof_encoded` of include/wh/whio/whio_encode.h.
pub mod Ints
pub mod Shape
pub mod Cstring
pub mod Array
mod Tests
use whefs.Common.{
  ℕ, ◌+◌, ◌-◌, ◌*◌, ◌/◌, ◌%◌, ◌^◌, Bool, true, false, Option, none, some, List, [], ◌∷◌, ◌==◌,
  if◌then◌else◌, get_or, overwrite, ℤ, pos, negsuc, sar, low_byte, to_signed,
}
use whefs.Rc.{Rc, ok, arg_error, consistency_error}

abbrev pub Bytes : Type 0
Bytes = List ℕ

-- A pointer to bytes.
abbrev pub Ptr : Type 0
Ptr = Option Bytes

abbrev pub sizeof_uint64 : ℕ
sizeof_uint64 = 9

abbrev pub sizeof_uint32 : ℕ
sizeof_uint32 = 5

abbrev pub sizeof_uint16 : ℕ
sizeof_uint16 = 3

abbrev pub sizeof_uint8 : ℕ
sizeof_uint8 = 2

-- The tag bytes.
abbrev pub uint64_tag_char : ℕ
uint64_tag_char = 0x80 + 64

abbrev pub int64_tag_char : ℕ
int64_tag_char = 0x80 + 65

abbrev pub uint32_tag_char : ℕ
uint32_tag_char = 0x80 + 32

abbrev pub int32_tag_char : ℕ
int32_tag_char = 0x80 + 33

abbrev pub uint16_tag_char : ℕ
uint16_tag_char = 0x80 + 16

abbrev pub int16_tag_char : ℕ
int16_tag_char = 0x80 + 17

abbrev pub uint8_tag_char : ℕ
uint8_tag_char = 0x80 + 8

abbrev pub int8_tag_char : ℕ
int8_tag_char = 0x80 + 8

-- `(unsigned char)((i >> k) & 0xff)` of an unsigned and of a signed number.
abbrev pub byte_at : ℕ → ℕ → ℕ
byte_at i k = i / 2 ^ k % 256

abbrev pub sbyte_at : ℤ → ℕ → ℕ
sbyte_at i k = low_byte (sar i k)

-- The bytes that the encoders store, and the store of them through `dest`: the count returned, and
-- the memory at `dest` afterwards.
abbrev pub stored : ℕ → Bytes → Ptr → ℕ × Ptr
stored n bytes none = (0, none)
stored n bytes (some dest) = (n, some (overwrite dest 0 bytes))

unfoldable pub encode_uint64 : Ptr → ℕ → ℕ × Ptr
encode_uint64 dest i =
    stored sizeof_uint64
      (uint64_tag_char
        ∷ byte_at i 56
        ∷ byte_at i 48
        ∷ byte_at i 40
        ∷ byte_at i 32
        ∷ byte_at i 24
        ∷ byte_at i 16
        ∷ byte_at i 8
        ∷ i % 256
        ∷ [])
      dest

unfoldable pub encode_int64 : Ptr → ℤ → ℕ × Ptr
encode_int64 dest i =
    stored sizeof_uint64
      (int64_tag_char
        ∷ sbyte_at i 56
        ∷ sbyte_at i 48
        ∷ sbyte_at i 40
        ∷ sbyte_at i 32
        ∷ sbyte_at i 24
        ∷ sbyte_at i 16
        ∷ sbyte_at i 8
        ∷ low_byte i
        ∷ [])
      dest

unfoldable pub encode_uint32 : Ptr → ℕ → ℕ × Ptr
encode_uint32 dest i =
    stored sizeof_uint32
      (uint32_tag_char ∷ byte_at i 24 ∷ byte_at i 16 ∷ byte_at i 8 ∷ i % 256 ∷ []) dest

unfoldable pub encode_int32 : Ptr → ℤ → ℕ × Ptr
encode_int32 dest i =
    stored sizeof_uint32
      (int32_tag_char ∷ sbyte_at i 24 ∷ sbyte_at i 16 ∷ sbyte_at i 8 ∷ low_byte i ∷ []) dest

unfoldable pub encode_uint16 : Ptr → ℕ → ℕ × Ptr
encode_uint16 dest i = stored sizeof_uint16 (uint16_tag_char ∷ byte_at i 8 ∷ i % 256 ∷ []) dest

unfoldable pub encode_int16 : Ptr → ℤ → ℕ × Ptr
encode_int16 dest i = stored sizeof_uint16 (int16_tag_char ∷ sbyte_at i 8 ∷ low_byte i ∷ []) dest

unfoldable pub encode_uint8 : Ptr → ℕ → ℕ × Ptr
encode_uint8 dest i = stored sizeof_uint8 (uint8_tag_char ∷ i % 256 ∷ []) dest

unfoldable pub encode_int8 : Ptr → ℤ → ℕ × Ptr
encode_int8 dest i = stored sizeof_uint8 (int8_tag_char ∷ low_byte i ∷ []) dest

-- `*tgt = v`, where `none` is a null `tgt`. The 64-bit decoders refuse a null `tgt`, the 32-bit ones
-- then store nothing, and the others dereference it untested: they are modelled for a `tgt` that is
-- not null.
abbrev pub assign {ℓ} : {A : Type ℓ} → Option A → A → Option A
assign none v = none
assign (some old) v = some v

-- The decoders return their code, and what `*tgt` holds afterwards.
unfoldable pub decode_uint64 : Ptr → Option ℕ → Rc × Option ℕ
decode_uint64 none tgt = (arg_error, tgt)
decode_uint64 (some src) none = (arg_error, none)
decode_uint64 (some src) (some old) =
    if uint64_tag_char == get_or src 0 0
    then (
      ok,
      some (
          (get_or src 1 0 * 2 ^ 56
            + get_or src 2 0 * 2 ^ 48
            + get_or src 3 0 * 2 ^ 40
            + get_or src 4 0 * 2 ^ 32
            + get_or src 5 0 * 2 ^ 24
            + get_or src 6 0 * 2 ^ 16
            + get_or src 7 0 * 2 ^ 8
            + get_or src 8 0)
          % 2 ^ 64),
    )
    else (consistency_error, some old)

unfoldable pub decode_int64 : Ptr → Option ℤ → Rc × Option ℤ
decode_int64 none tgt = (arg_error, tgt)
decode_int64 (some src) none = (arg_error, none)
decode_int64 (some src) (some old) =
    if int64_tag_char == get_or src 0 0
    then (
      ok,
      some (
          to_signed 64 (
            (get_or src 1 0 * 2 ^ 56
              + get_or src 2 0 * 2 ^ 48
              + get_or src 3 0 * 2 ^ 40
              + get_or src 4 0 * 2 ^ 32
              + get_or src 5 0 * 2 ^ 24
              + get_or src 6 0 * 2 ^ 16
              + get_or src 7 0 * 2 ^ 8
              + get_or src 8 0)
            % 2 ^ 64)),
    )
    else (consistency_error, some old)

unfoldable pub decode_uint32 : Ptr → Option ℕ → Rc × Option ℕ
decode_uint32 none tgt = (arg_error, tgt)
decode_uint32 (some src) tgt =
    if uint32_tag_char == get_or src 0 0
    then (
      ok,
      assign tgt (
          (get_or src 1 0 * 2 ^ 24
            + get_or src 2 0 * 2 ^ 16
            + get_or src 3 0 * 2 ^ 8
            + get_or src 4 0)
          % 2 ^ 32),
    )
    else (consistency_error, tgt)

unfoldable pub decode_int32 : Ptr → Option ℤ → Rc × Option ℤ
decode_int32 none tgt = (arg_error, tgt)
decode_int32 (some src) tgt =
    if int32_tag_char == get_or src 0 0
    then (
      ok,
      assign tgt (
          to_signed 32 (
            (get_or src 1 0 * 2 ^ 24
              + get_or src 2 0 * 2 ^ 16
              + get_or src 3 0 * 2 ^ 8
              + get_or src 4 0)
            % 2 ^ 32)),
    )
    else (consistency_error, tgt)

unfoldable pub decode_uint16 : Ptr → Option ℕ → Rc × Option ℕ
decode_uint16 none tgt = (arg_error, tgt)
decode_uint16 (some src) tgt =
    if uint16_tag_char == get_or src 0 0
    then (ok, assign tgt ((get_or src 1 0 * 2 ^ 8 + get_or src 2 0) % 2 ^ 16))
    else (consistency_error, tgt)

unfoldable pub decode_int16 : Ptr → Option ℤ → Rc × Option ℤ
decode_int16 none tgt = (arg_error, tgt)
decode_int16 (some src) tgt =
    if int16_tag_char == get_or src 0 0
    then (ok, assign tgt (to_signed 16 ((get_or src 1 0 * 2 ^ 8 + get_or src 2 0) % 2 ^ 16)))
    else (consistency_error, tgt)

unfoldable pub decode_uint8 : Ptr → Option ℕ → Rc × Option ℕ
decode_uint8 none tgt = (arg_error, tgt)
decode_uint8 (some src) tgt =
    if uint8_tag_char == get_or src 0 0
    then (ok, assign tgt (get_or src 1 0))
    else (consistency_error, tgt)

unfoldable pub decode_int8 : Ptr → Option ℤ → Rc × Option ℤ
decode_int8 none tgt = (arg_error, tgt)
decode_int8 (some src) tgt =
    if int8_tag_char == get_or src 0 0
    then (ok, assign tgt (to_signed 8 (get_or src 1 0 % 2 ^ 8)))
    else (consistency_error, tgt)
