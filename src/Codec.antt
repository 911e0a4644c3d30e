-- ===== src/Codec.antt =====
-- The second half of src/whio_encode.c: the encoders and decoders that write to a device and read
-- from one. A device is its state under an interface; the pointers to it are not null, except where
-- an operation says so. The local buffers are the zeros of the source's `memset`, and the encoders
-- overwrite theirs.
pub mod Ends
pub mod Ints
pub mod Arrays
pub mod Text
mod Tests
use whefs.Common.{
  ℕ, zero, suc, ◌+◌, ◌-◌, ◌%◌, ◌^◌, Bool, true, false, Option, none, some, List, [], ◌∷◌, ◌==◌,
  ◌++◌, ◌&&◌, leb, if◌then◌else◌, length, get_or, set, take, replicate, overwrite,
}
use whefs.Rc.{Rc, ok, arg_error, io_error, alloc_error, consistency_error, add_size}
use whefs.Encode.{
  Bytes, Ptr, sizeof_uint64, sizeof_uint32, sizeof_uint16, encode_uint64, encode_uint32,
  encode_uint16, decode_uint64, decode_uint32, decode_uint16, assign,
}
use whefs.Encode.Cstring.{cstring_tag_char, cstring_length, CstringOut}
use whefs.Device.{DevApi}

-- `whio_encode_size_t` and `whio_decode_size_t`, with `WHIO_SIZE_T_BITS` 32.
unfoldable pub encode_size_t : Ptr → ℕ → ℕ × Ptr
encode_size_t dest v = encode_uint32 dest v

unfoldable pub decode_size_t : Ptr → Option ℕ → Rc × Option ℕ
decode_size_t src v = decode_uint32 src v

abbrev pub sizeof_size_t : ℕ
sizeof_size_t = sizeof_uint32

module _ {D : Type 0} (api : DevApi D) where
  -- The end of an encoder: what it stored goes to the device if the count is right.
  abbrev pub put : ℕ → ℕ × Ptr → D → ℕ × D
  put size coded d = if size == coded.0 then api.write d coded.1 size else (0, d)

  -- The end of a decoder: `size` bytes of the device are decoded, if there are so many.
  abbrev pub fetch {ℓ} : {A : Type ℓ} → ℕ → (Ptr → Rc × A) → A → D → Rc × A × D
  fetch size decode old d =
      let (bytes, d') = api.read d true size in
      if size == length bytes
      then (let (rc, tgt) = decode (some (overwrite (replicate size 0) 0 bytes)) in (rc, tgt, d'))
      else (io_error, old, d')

  unfoldable pub dev_encode_size_t : D → ℕ → ℕ × D
  dev_encode_size_t d v =
      api.write d (encode_size_t (some (replicate sizeof_size_t 0)) v).1 sizeof_size_t

  unfoldable pub dev_decode_size_t : D → Option ℕ → Rc × Option ℕ × D
  dev_decode_size_t d tgt = fetch sizeof_size_t (λ src. decode_size_t src tgt) tgt d

  unfoldable pub dev_encode_uint64 : D → ℕ → ℕ × D
  dev_encode_uint64 d i = put sizeof_uint64 (encode_uint64 (some (replicate sizeof_uint64 0)) i) d

  unfoldable pub dev_decode_uint64 : D → Option ℕ → Rc × Option ℕ × D
  dev_decode_uint64 d none = (arg_error, none, d)
  dev_decode_uint64 d (some old) =
      fetch sizeof_uint64 (λ src. decode_uint64 src (some old)) (some old) d

  unfoldable pub dev_encode_uint32 : D → ℕ → ℕ × D
  dev_encode_uint32 d i = put sizeof_uint32 (encode_uint32 (some (replicate sizeof_uint32 0)) i) d

  unfoldable pub dev_decode_uint32 : D → Option ℕ → Rc × Option ℕ × D
  dev_decode_uint32 d none = (arg_error, none, d)
  dev_decode_uint32 d (some old) =
      fetch sizeof_uint32 (λ src. decode_uint32 src (some old)) (some old) d

  unfoldable pub dev_encode_uint16 : D → ℕ → ℕ × D
  dev_encode_uint16 d i = put sizeof_uint16 (encode_uint16 (some (replicate sizeof_uint16 0)) i) d

  unfoldable pub dev_decode_uint16 : D → Option ℕ → Rc × Option ℕ × D
  dev_decode_uint16 d none = (arg_error, none, d)
  dev_decode_uint16 d (some old) =
      fetch sizeof_uint16 (λ src. decode_uint16 src (some old)) (some old) d

  -- The loop of `whio_dev_encode_uint32_array` over the numbers that are left: how many it writes.
  unfoldable pub encode_loop : D → List ℕ → ℕ × D
  encode_loop d [] = (0, d)
  encode_loop d (x ∷ list) =
      let (size, d') = dev_encode_uint32 d x in
      let (rc, d'') = encode_loop d' list in
      if sizeof_uint32 == size then (suc rc, d'') else (0, d')

  -- `list` holds the `n` numbers that the caller names.
  unfoldable pub dev_encode_uint32_array : D → Option (List ℕ) → ℕ × D
  unfolding encode_loop
  dev_encode_uint32_array d none = (0, d)
  dev_encode_uint32_array d (some list) = encode_loop d list

  -- The loop of `whio_dev_decode_uint32_array` over the cells of `list` that are left: the count, and
  -- the cells afterwards.
  unfoldable pub decode_loop : D → List ℕ → ℕ × List ℕ × D
  decode_loop d [] = (0, [], d)
  decode_loop d (old ∷ list) =
      let (code, cell, d') = dev_decode_uint32 d (some old) in
      let (rc, rest, d'') = decode_loop d' list in
      let new : ℕ = elim cell [ none ↦ old | some v ↦ v ] in
      elim code [ ok ↦ (suc rc, new ∷ rest, d'') | _ ↦ (0, new ∷ list, d') ]

  unfoldable pub dev_decode_uint32_array : D → Option (List ℕ) → ℕ × Option (List ℕ) × D
  unfolding decode_loop
  dev_decode_uint32_array d none = (0, none, d)
  dev_decode_uint32_array d (some list) =
      let (rc, list', d') = decode_loop d list in (rc, some list', d')

  unfoldable pub dev_encode_cstring : D → Option Bytes → ℕ → ℕ × D
  unfolding cstring_length
  dev_encode_cstring d none n = (0, d)
  dev_encode_cstring d (some s) n =
      let len = cstring_length s n in
      let (tagged, d1) = api.write d (some (cstring_tag_char ∷ [])) 1 in
      let (sized, d2) = dev_encode_uint32 d1 len in
      let (written, d3) = api.write d2 (some s) len in
      if tagged == 1
      then (if add_size tagged sized == 1 + sizeof_uint32
          then (add_size (add_size tagged sized) written, d3)
          else (add_size tagged sized, d2))
      else (tagged, d1)

  -- The part of `whio_dev_decode_cstring` behind the length `slen`. `allocates` is what `calloc` of so
  -- many bytes answers; the size `slen + 1` is a `uint32_t`. The result `none` is a store outside the
  -- bytes that were allocated.
  unfoldable pub fetch_text : (ℕ → Bool) → D → ℕ → CstringOut → Option (Rc × CstringOut × D)
  fetch_text allocates d slen out =
      let (bytes, d') = api.read d true slen in
      if slen == 0
      then some (ok, record { tgt = some none; len = assign out.len 0 }, d)
      else if allocates ((slen + 1) % 2 ^ 32)
      then if leb (length bytes) ((slen + 1) % 2 ^ 32)
        then (if slen == length bytes
            then some (
              ok,
              record { tgt = some (some (bytes ++ (0 ∷ []))); len = assign out.len slen },
              d',
            )
            else some (io_error, out, d'))
        else none
      else some (alloc_error, out, d)

  unfoldable pub dev_decode_cstring : (ℕ → Bool) → D → CstringOut → Option (Rc × CstringOut × D)
  dev_decode_cstring allocates d out = elim (out.tgt) [
    | none ↦ some (arg_error, out, d)
    | some old ↦
        let (tag, d1) = api.read d true 1 in
        if length tag == 1 && cstring_tag_char == get_or tag 0 0
        then (let (rc, cell, d2) = dev_decode_uint32 d1 (some 0) in
            elim rc [
              | ok ↦ fetch_text allocates d2 (elim cell [ none ↦ 0 | some v ↦ v ]) out
              | other ↦ some (other, out, d2)
            ])
        else some ((if length tag == 0 then io_error else consistency_error), out, d1)
  ]
