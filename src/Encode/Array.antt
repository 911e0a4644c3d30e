-- ===== src/Encode/Array.antt =====
-- src/whio_encode.c, `whio_encode_uint32_array` and `whio_decode_uint32_array`: the loops over a
-- buffer, as they are written. A list behind a pointer is an option, with `none` for null.
use whefs.Common.{
  ℕ, ◌+◌, ◌%◌, ◌^◌, ◌<◌, ◌≤◌, ◌≡◌, refl, arith, Option, none, some, List, [], ◌∷◌, ◌==◌,
  if◌then◌else◌, length, replicate, ap, overwrite-nil, ◌∙◌,
}
use whefs.Rc.{ok}
use whefs.Encode.{Bytes, Ptr, sizeof_uint32, encode_uint32, decode_uint32, uint32_tag_char, byte_at}

-- The loop of `whio_encode_uint32_array` over the numbers that are left: `dest` is not advanced.
unfoldable pub encode_array_loop : Ptr → List ℕ → ℕ → ℕ × Ptr
encode_array_loop dest [] rc = (rc, dest)
encode_array_loop dest (x ∷ list) rc =
    let (count, dest') = encode_uint32 dest x in
    let rest = encode_array_loop dest' list (rc + 1) in
    if count == sizeof_uint32 then rest else (rc, dest')

-- `list` holds the `n` numbers that the caller names.
unfoldable pub encode_uint32_array : Ptr → Option (List ℕ) → ℕ × Ptr
unfolding encode_array_loop
encode_uint32_array none list = (0, none)
encode_uint32_array (some dest) none = (0, some dest)
encode_uint32_array (some dest) (some list) = encode_array_loop (some dest) list 0

-- The loop of `whio_decode_uint32_array` over the cells of `list` that are left: `src` is not advanced.
-- It returns the count and the cells afterwards.
unfoldable pub decode_array_loop : Ptr → List ℕ → ℕ → ℕ × List ℕ
decode_array_loop src [] rc = (rc, [])
decode_array_loop src (old ∷ list) rc =
    let (code, cell) = decode_uint32 src (some old) in
    let rest = decode_array_loop src list (rc + 1) in
    let new : ℕ = elim cell [ none ↦ old | some v ↦ v ] in
    elim code [ ok ↦ (rest.0, new ∷ rest.1) | _ ↦ (rc, new ∷ list) ]

unfoldable pub decode_uint32_array : Ptr → Option (List ℕ) → ℕ × Option (List ℕ)
unfolding decode_array_loop
decode_uint32_array none list = (0, list)
decode_uint32_array (some src) none = (0, none)
decode_uint32_array (some src) (some list) =
    let (count, list') = decode_array_loop (some src) list 0 in (count, some list')

-- The last of some numbers, or `d`.
abbrev pub last_or : List ℕ → ℕ → ℕ
last_or [] d = d
last_or (x ∷ xs) d = last_or xs x

abbrev pub AllBelow : ℕ → List ℕ → Type 0
AllBelow b [] = Unit
AllBelow b (x ∷ xs) = (x < b) × AllBelow b xs

-- A buffer that begins with the encoding of `y`.
abbrev cell : ℕ → Bytes → Bytes
cell y rest = uint32_tag_char ∷ byte_at y 24 ∷ byte_at y 16 ∷ byte_at y 8 ∷ y % 256 ∷ rest

encode_uint32-cell :
    (a b c d e : ℕ) (rest : Bytes) (y : ℕ)
    → encode_uint32 (some (a ∷ b ∷ c ∷ d ∷ e ∷ rest)) y ≡ (5, some (cell y rest))
unfolding encode_uint32
encode_uint32-cell a b c d e rest y = rw overwrite-nil refl

decode_uint32-cell :
    (y : ℕ) (rest : Bytes) (old : ℕ)
    → y < 2 ^ 32
    → decode_uint32 (some (cell y rest)) (some old) ≡ (ok, some y)
unfolding decode_uint32
decode_uint32-cell y rest old h = ground arith

encode_loop-last :
    (xs : List ℕ) (y rc : ℕ) (rest : Bytes)
    → encode_array_loop (some (cell y rest)) xs rc
      ≡ (rc + length xs, some (cell (last_or xs y) rest))
unfolding encode_array_loop
encode_loop-last [] y rc rest = ground arith
encode_loop-last (x ∷ xs) y rc rest = rw (encode_uint32-cell _ _ _ _ _ rest x) (
    encode_loop-last xs x (rc + 1) rest
    ∙ ap (λ (k : ℕ). (k, some (cell (last_or xs x) rest))) (omega arith))

decode_loop-same :
    (y : ℕ) (rest : Bytes) (list : List ℕ) (rc : ℕ)
    → y < 2 ^ 32
    → decode_array_loop (some (cell y rest)) list rc ≡ (rc + length list, replicate (length list) y)
unfolding decode_array_loop
decode_loop-same y rest [] rc h = ground arith
decode_loop-same y rest (old ∷ list) rc h =
    ground (arith, decode_uint32-cell y rest old h, decode_loop-same y rest list (rc + 1) h)

last_or-lt : (xs : List ℕ) (y b : ℕ) → y < b → AllBelow b xs → last_or xs y < b
last_or-lt [] y b h all = h
last_or-lt (x ∷ xs) y b h all = last_or-lt xs x b all.0 all.1

-- The encoder counts all `n` numbers, but the `n` encodings are stored one over another: decoding
-- `n` numbers from the buffer gives the last one `n` times, and counts them as read.
arrays_keep_last :
    (dest : Bytes) (x : ℕ) (xs olds : List ℕ)
    → 5 ≤ length dest
    → AllBelow (2 ^ 32) (x ∷ xs)
    → length olds ≡ length (x ∷ xs)
    → let (count, dest') = encode_uint32_array (some dest) (some (x ∷ xs)) in
      (count ≡ length (x ∷ xs))
      × (decode_uint32_array dest' (some olds) ≡ (count, some (replicate count (last_or xs x))))
unfolding encode_uint32_array decode_uint32_array
arrays_keep_last (a ∷ b ∷ c ∷ d ∷ e ∷ rest) x xs olds room small same =
    rw (encode_uint32-cell a b c d e rest x, encode_loop-last xs x (0 + 1) rest)
      (
        omega arith,
        rw
            (
              decode_loop-same (last_or xs x) rest olds 0
                  (last_or-lt xs x (2 ^ 32) small.0 small.1),
              same,
            )
            (ground (arith)),
      )
arrays_keep_last _ x xs olds room small same = absurd (omega arith)
