-- ===== src/Codec/Text.antt =====
-- Strings on a device: a tag byte, an encoded length, and the string's bytes.
use whefs.Common.{
  ℕ, ◌+◌, ◌%◌, ◌^◌, ◌<◌, ◌≤◌, ◌≡◌, refl, ap, sym, ◌∙◌, arith, Bool, true, Option, some, [], ◌∷◌,
  ◌++◌, length, drop, overwrite, length-overwrite, overwrite-append, drop-drop, take-all,
  drop-append_left, pos,
}
use whefs.Rc.{ok, size_bound}
use whefs.Encode.{Bytes, assign}
use whefs.Encode.Cstring.{cstring_tag_char, cstring_length, CstringOut}
use whefs.Device.{DevApi, DevLaws, seek_set}
use whefs.Codec.{
  dev_encode_uint32, dev_decode_uint32, dev_encode_cstring, dev_decode_cstring, fetch_text,
}
use whefs.Codec.Ends.{read-Ahead}
use whefs.Codec.Ints.{rewound, Writes, Reads, code32, write32, read32}

abbrev text_code : Bytes → Bytes
text_code s = (cstring_tag_char ∷ code32 (length s)) ++ s

given_length : (s : Bytes) → 0 < length s → cstring_length s (length s) ≡ length s
unfolding cstring_length
given_length s h = ground arith

module _ {D : Type 0} {api : DevApi D} (L : DevLaws api) where
  write_parts :
      (d d1 d2 d3 : D) (s : Bytes)
      → 0 < length s
      → 6 + length s < size_bound
      → api.write d (some (cstring_tag_char ∷ [])) 1 ≡ (1, d1)
      → dev_encode_uint32 api d1 (length s) ≡ (5, d2)
      → api.write d2 (some s) (length s) ≡ (length s, d3)
      → dev_encode_cstring api d (some s) (length s) ≡ (6 + length s, d3)
  unfolding dev_encode_cstring
  write_parts d d1 d2 d3 s h small e1 e2 e3 = ground (arith, given_length s h, e1, e2, e3)

  -- A write where the last one ended.
  then_write :
      (w : Bytes) (d d' : D) (k : ℕ) (bs cs : Bytes)
      → L.view d ≡ overwrite w k bs
      → L.cursor d ≡ k + length bs
      → L.view d' ≡ overwrite (L.view d) (L.cursor d) cs
      → L.view d' ≡ overwrite w k (bs ++ cs)
  then_write w d d' k bs cs e c e' =
      e'
      ∙ ap (λ v. overwrite v (L.cursor d) cs) e
      ∙ ap (λ p. overwrite (overwrite w k bs) p cs) c
      ∙ overwrite-append w k bs cs

  write_text :
      (s : Bytes) (d : D)
      → 0 < length s
      → Writes L (λ x. dev_encode_cstring api x (some s) (length s)) (6 + length s) (text_code s) d
  unfolding Writes
  write_text s d h v room =
      let w1 = L.write_lem d (cstring_tag_char ∷ []) 1 v (omega arith) (omega arith) in
      let l1 = length-overwrite (L.view d) (L.cursor d) (cstring_tag_char ∷ []) in
      let w2 = write32 L w1.0 (length s) w1.2 (omega (arith, w1.4, ap length w1.3, l1)) in
      let l2 = length-overwrite (L.view w1.0) (L.cursor w1.0) (code32 (length s)) in
      let w3 =
        L.write_lem w2.0 s (length s) w2.2 (omega arith)
          (omega (arith, w1.4, ap length w1.3, l1, w2.4, ap length w2.3, l2)) in
      (
        w3.0,
        write_parts d w1.0 w2.0 w3.0 s h (omega (arith, L.view-lt d v)) w1.1 w2.1 w3.1,
        w3.2,
        then_write (L.view d) w2.0 w3.0 (L.cursor d) (cstring_tag_char ∷ code32 (length s)) s
            (then_write (L.view d) w1.0 w2.0 (L.cursor d) (cstring_tag_char ∷ [])
              (code32 (length s)) w1.3 w1.4 w2.3)
            (omega (arith, w2.4, w1.4))
            (w3.3
              ∙ ap (λ b. overwrite (L.view w2.0) (L.cursor w2.0) b)
                  (take-all (length s) s (omega arith))),
        omega (arith, w3.4, w2.4, w1.4),
      )

  -- What is ahead after a read of `bs`.
  then_ahead :
      (d d' : D) (bs cs rest : Bytes)
      → drop (L.cursor d) (L.view d) ≡ bs ++ (cs ++ rest)
      → L.view d' ≡ L.view d
      → L.cursor d' ≡ L.cursor d + length bs
      → drop (L.cursor d') (L.view d') ≡ cs ++ rest
  then_ahead d d' bs cs rest a e c =
      ap (λ k. drop k (L.view d')) c
      ∙ ap (λ w. drop (L.cursor d + length bs) w) e
      ∙ sym (drop-drop (length bs) (L.cursor d) (L.view d))
      ∙ ap (λ w. drop (length bs) w) a
      ∙ drop-append_left (length bs) bs (cs ++ rest) refl

  text_part :
      (allocates : ℕ → Bool) (d d' : D) (out : CstringOut) (text : Bytes)
      → 0 < length text
      → length text + 1 < size_bound
      → allocates (length text + 1) ≡ true
      → api.read d true (length text) ≡ (text, d')
      → fetch_text api allocates d (length text) out
        ≡ some (
          ok,
          record { tgt = some (some (text ++ (0 ∷ []))); len = assign out.len (length text) },
          d',
        )
  unfolding fetch_text
  text_part allocates d d' out text h small a e =
      let fits : allocates ((length text + 1) % 2 ^ 32) ≡ true =
        ap allocates {x = (length text + 1) % 2 ^ 32} {y = length text + 1} (omega arith) ∙ a in
      ground (arith, fits, e)

  read_parts :
      (allocates : ℕ → Bool) (d d1 d2 d3 : D) (old : Option Bytes) (len : Option ℕ) (text : Bytes)
      → 0 < length text
      → length text + 1 < size_bound
      → allocates (length text + 1) ≡ true
      → api.read d true 1 ≡ (cstring_tag_char ∷ [], d1)
      → dev_decode_uint32 api d1 (some 0) ≡ (ok, some (length text), d2)
      → api.read d2 true (length text) ≡ (text, d3)
      → dev_decode_cstring api allocates d (record { tgt = some old; len = len })
        ≡ some (
          ok,
          record { tgt = some (some (text ++ (0 ∷ []))); len = assign len (length text) },
          d3,
        )
  unfolding dev_decode_cstring
  read_parts allocates d d1 d2 d3 old len text h small a e1 e2 e3 = ground (
    arith,
    e1,
    e2,
    text_part allocates d2 d3 (record { tgt = some old; len = len }) text h small a e3,
  )

  read_text :
      (allocates : ℕ → Bool) (old : Option Bytes) (len : Option ℕ) (s rest : Bytes) (d : D)
      → L.Valid d
      → drop (L.cursor d) (L.view d) ≡ text_code s ++ rest
      → 0 < length s
      → length s + 1 < size_bound
      → allocates (length s + 1) ≡ true
      → (d' : D) × (dev_decode_cstring api allocates d (record { tgt = some old; len = len })
          ≡ some
              (ok, record { tgt = some (some (s ++ (0 ∷ []))); len = assign len (length s) }, d'))
        × L.Valid d'
        × (L.view d' ≡ L.view d)
        × (L.cursor d' ≡ L.cursor d + (6 + length s))
  unfolding Reads
  read_text allocates old len s rest d v a h small al =
      let r1 = read-Ahead L d (cstring_tag_char ∷ []) v (code32 (length s) ++ (s ++ rest), a) in
      let a1 =
        then_ahead d r1.0 (cstring_tag_char ∷ []) (code32 (length s)) (s ++ rest) a r1.3 r1.4 in
      let r2 = read32 L r1.0 (length s) 0 (omega arith) r1.2 (s ++ rest, a1) in
      let a2 = then_ahead r1.0 r2.0 (code32 (length s)) s rest a1 r2.3 r2.4 in
      let r3 = read-Ahead L r2.0 s r2.2 (rest, a2) in
      (
        r3.0,
        read_parts allocates d r1.0 r2.0 r3.0 old len s h small al r1.1 r2.1 r3.1,
        r3.2,
        r3.3 ∙ r2.3 ∙ r1.3,
        omega (arith, r3.4, r2.4, r1.4),
      )

-- On a device that keeps its laws, a string of one byte or more, given with its length and with room
-- behind the cursor for six bytes more, is written and the count of bytes is returned; after a seek
-- back to where it began, if there is memory for the string and its terminator, the decoder returns OK
-- and hands out the string, terminated, and its length.
pub device_text_round_trip :
    {D : Type 0} {api : DevApi D} (L : DevLaws api) (allocates : ℕ → Bool) (d : D) (s : Bytes)
    (old : Option Bytes) (len : Option ℕ)
    → L.Valid d
    → 0 < length s
    → L.cursor d + 6 + length s ≤ length (L.view d)
    → allocates (length s + 1) ≡ true
    → (d1 d2 : D) × (dev_encode_cstring api d (some s) (length s) ≡ (6 + length s, d1))
      × (dev_decode_cstring api allocates
            (api.seek d1 (pos (api.tell d)) seek_set).1
            (record { tgt = some old; len = len })
          ≡ some
              (ok, record { tgt = some (some (s ++ (0 ∷ []))); len = assign len (length s) }, d2))
unfolding Writes
device_text_round_trip {D} {api} L allocates d s old len v h room a =
    let small = L.view-lt d v in
    let w = write_text L s d h v (omega arith) in
    let b = rewound L d w.0 (text_code s) v w.2 w.3 (omega arith) in
    let r = read_text L allocates old len s b.3.0 b.0 b.2 b.3.1 h (omega arith) a in
    (
      w.0,
      r.0,
      w.1,
      ap (λ x. dev_decode_cstring api allocates x (record { tgt = some old; len = len })) b.1 ∙ r.1,
    )
