-- ===== src/Encode/Cstring/RoundTrip.antt =====
-- Strings go through the encoder and the decoder unchanged, and one more byte is stored.
use whefs.Common.{
  ℕ, suc, ◌+◌, ◌%◌, ◌^◌, ◌<◌, ◌≤◌, ◌≡◌, refl, arith, Bool, true, Option, some, [], ◌∷◌, ◌++◌,
  length, take, overwrite, ap, ◌∙◌, length-take, overwrite-nil, sym, take-overwrite_before,
  slice-overwrite_self,
}
use whefs.Rc.{ok}
use whefs.Encode.{Bytes, assign, uint32_tag_char, byte_at}
use whefs.Encode.Cstring.{
  cstring_tag_char, sizeof_cstring, cstring_length, encode_cstring, decode_text, decode_cstring,
  CstringOut,
}

-- An encoded string of `len` bytes: the head, and the memory behind it.
abbrev pub encoded : ℕ → Bytes → Bytes
encoded len body =
    cstring_tag_char
    ∷ uint32_tag_char
    ∷ byte_at len 24
    ∷ byte_at len 16
    ∷ byte_at len 8
    ∷ len % 256
    ∷ body

six : (n : ℕ) → sizeof_cstring + n ≡ suc (suc (suc (suc (suc (suc n)))))
six n = omega arith

pub encode_cstring_lem :
    (a b c d e f : ℕ) (rest s : Bytes) (n : ℕ)
    → let len = cstring_length s n in
      encode_cstring (some (a ∷ b ∷ c ∷ d ∷ e ∷ f ∷ rest)) (some s) n ≡ (
        sizeof_cstring + len,
        some (encoded len (overwrite (overwrite rest 0 (take len s)) len (0 ∷ []))),
      )
unfolding encode_cstring
encode_cstring_lem a b c d e f rest s n = rw six (rw overwrite-nil refl)

pub decode_encoded :
    (allocates : ℕ → Bool) (len : ℕ) (body : Bytes) (out : CstringOut) (old : Option Bytes)
    → len < 2 ^ 32
    → out.tgt ≡ some old
    → decode_cstring allocates (some (encoded len body)) out
      ≡ decode_text allocates (encoded len body) len out
unfolding decode_cstring
decode_encoded allocates len body out old h e = ground arith

decode_text_lem :
    (allocates : ℕ → Bool) (len : ℕ) (body text : Bytes) (out : CstringOut)
    → 0 < len
    → len + 1 < 2 ^ 32
    → allocates (len + 1) ≡ true
    → take len body ≡ text
    → decode_text allocates (encoded len body) len out
      ≡ some (ok, record { tgt = some (some (text ++ (0 ∷ []))); len = assign out.len len })
unfolding decode_text
decode_text_lem allocates len body text out pos small room e =
    let m : (len + 1) % 2 ^ 32 ≡ len + 1 = omega arith in ground (arith, m, ap allocates m, e)

-- The text stands in the memory behind the head, whatever the terminator overwrites.
text_of :
    (rest s : Bytes) (len : ℕ)
    → len ≤ length s
    → len ≤ length rest
    → take len (overwrite (overwrite rest 0 (take len s)) len (0 ∷ [])) ≡ take len s
text_of rest s len hs hr =
    let size : length (take len s) ≡ len = omega (arith, length-take len s) in
    take-overwrite_before len (overwrite rest 0 (take len s)) len (0 ∷ []) (omega arith)
    ∙ ap (λ k. take k (overwrite rest 0 (take len s))) (sym size)
    ∙ slice-overwrite_self rest 0 (take len s) (omega arith)

-- A string of `len` bytes, counted by the encoder or given to it, is stored in a buffer of at least
-- `len + 7` bytes; the encoder returns `len + 6`, and the decoder, if its memory is allocated,
-- returns OK, a copy of those bytes with a terminator, and the length. Here `len` is positive and
-- below the range of the encoded length by two or more.
cstring_round_trip :
    (allocates : ℕ → Bool) (dest s : Bytes) (n : ℕ) (old : Option Bytes) (old_len : ℕ)
    → 0 < cstring_length s n
    → cstring_length s n + 1 < 2 ^ 32
    → cstring_length s n ≤ length s
    → cstring_length s n + 7 ≤ length dest
    → allocates (cstring_length s n + 1) ≡ true
    → ((encode_cstring (some dest) (some s) n).0 ≡ cstring_length s n + 6)
      × (decode_cstring allocates
            (encode_cstring (some dest) (some s) n).1
            (record { tgt = some old; len = some old_len })
          ≡ some (
            ok,
            record {
              tgt = some (some (take (cstring_length s n) s ++ (0 ∷ [])));
              len = some (cstring_length s n);
            },
          ))
cstring_round_trip allocates (a ∷ b ∷ c ∷ d ∷ e ∷ f ∷ rest) s n old old_len pos small fits room
      ok_mem =
    rw (encode_cstring_lem a b c d e f rest s n) (
      omega arith,
      decode_encoded allocates (cstring_length s n) _ _ old (omega arith) refl
          ∙ decode_text_lem allocates (cstring_length s n) _ _ _ pos small ok_mem
              (text_of rest s (cstring_length s n) fits (omega arith)),
    )
cstring_round_trip allocates _ s n old old_len pos small fits room ok_mem = absurd (omega arith)
