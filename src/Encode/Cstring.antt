-- ===== src/Encode/Cstring.antt =====
-- src/whio_encode.c, `whio_encode_cstring` and `whio_decode_cstring`: a tag byte, an encoded length,
-- and the bytes of the string. A string behind a pointer is the memory from there on.
pub mod RoundTrip
pub mod Limits
use whefs.Common.{
  ℕ, zero, suc, ◌+◌, ◌-◌, ◌%◌, ◌^◌, Bool, true, false, Option, none, some, List, [], ◌∷◌, ◌++◌,
  ◌==◌, leb, if◌then◌else◌, length, get_or, take, drop, slice, overwrite,
}
use whefs.Rc.{Rc, ok, arg_error, consistency_error, alloc_error}
use whefs.Encode.{Bytes, Ptr, assign, encode_uint32, decode_uint32, sizeof_uint32}

abbrev pub cstring_tag_char : ℕ
cstring_tag_char = 0x80 + 34

-- `whio_sizeof_encoded_cstring`.
abbrev pub sizeof_cstring : ℕ
sizeof_cstring = 1 + sizeof_uint32

-- The length of a string up to its first null byte.
unfoldable pub strlen : Bytes → ℕ
strlen [] = 0
strlen (c ∷ s) = if c == 0 then 0 else suc (strlen s)

-- The encoder's length: the one that it is given, or else the string's, counted in a `uint32_t`.
unfoldable pub cstring_length : Bytes → ℕ → ℕ
unfolding strlen
cstring_length s n = if n == 0 then strlen s % 2 ^ 32 else n

-- `f` called on `dest + k`, and the memory at `dest` after it.
abbrev pub at_offset : Bytes → ℕ → (Ptr → ℕ × Ptr) → ℕ × Bytes
at_offset dest k f =
    let (n, after) = f (some (drop k dest)) in
    (n, elim after [ none ↦ dest | some rest ↦ take k dest ++ rest ])

-- The bytes are stored in the source's order: tag, length, string, terminator.
unfoldable pub encode_cstring : Ptr → Option Bytes → ℕ → ℕ × Ptr
unfolding cstring_length encode_uint32
encode_cstring none s n = (0, none)
encode_cstring (some dest) none n = (0, some dest)
encode_cstring (some dest) (some s) n =
    let len = cstring_length s n in
    let tagged = overwrite dest 0 (cstring_tag_char ∷ []) in
    let (rc, sized) = at_offset tagged 1 (λ p. encode_uint32 p len) in
    if rc == sizeof_uint32
    then (
      sizeof_cstring + len,
      some
          (overwrite (overwrite sized sizeof_cstring (take len s)) (sizeof_cstring + len) (0 ∷ [])),
    )
    else (rc, some tagged)

-- What `whio_decode_cstring` leaves in `*tgt` and `*length`; `none` there is a null pointer. The
-- string itself is an option too, `none` for the null that stands for an empty string.
pub record CstringOut : Type 0 where
  pub tgt : Option (Option Bytes)
  pub len : Option ℕ

-- The part of `whio_decode_cstring` behind the length `slen`. `allocates` is what `calloc` of so many
-- bytes answers; the size `slen + 1` is a `uint32_t`. The result `none` is a store outside the bytes
-- that were allocated.
unfoldable pub decode_text : (ℕ → Bool) → Bytes → ℕ → CstringOut → Option (Rc × CstringOut)
decode_text allocates src slen out =
    if slen == 0
    then some (ok, record { tgt = some none; len = assign out.len 0 })
    else if allocates ((slen + 1) % 2 ^ 32)
    then if leb (slen + 1) ((slen + 1) % 2 ^ 32)
      then some (
        ok,
        record {
          tgt = some (some (slice src sizeof_cstring slen ++ (0 ∷ [])));
          len = assign out.len slen;
        },
      )
      else none
    else some (alloc_error, out)

unfoldable pub decode_cstring : (ℕ → Bool) → Ptr → CstringOut → Option (Rc × CstringOut)
unfolding decode_uint32
decode_cstring allocates none out = some (arg_error, out)
decode_cstring allocates (some src) out = elim (out.tgt) [
  | none ↦ some (arg_error, out)
  | some old ↦
      if cstring_tag_char == get_or src 0 0
      then (let (rc, cell) = decode_uint32 (some (drop 1 src)) (some 0) in
          elim rc [
            | ok ↦ decode_text allocates src (elim cell [ none ↦ 0 | some v ↦ v ]) out
            | other ↦ some (other, out)
          ])
      else some (consistency_error, out)
]
