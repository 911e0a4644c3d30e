-- ===== src/Encode/Cstring/Limits.antt =====
-- The edges of the string codec: the byte behind the encoding, errors, and the greatest length.
use whefs.Common.{
  ℕ, zero, suc, ◌+◌, ◌-◌, ◌^◌, ◌<◌, ◌≡◌, refl, arith, Bool, true, Option, none, some, [], ◌∷◌,
  length, get_or, take, drop, overwrite, ◌∙◌, length-overwrite, ◌≢◌,
}
use whefs.Rc.{Rc, ok}
use whefs.Encode.{Bytes, Ptr, decode_uint32}
use whefs.Encode.Cstring.{cstring_length, encode_cstring, decode_text, decode_cstring, CstringOut}
use whefs.Encode.Cstring.RoundTrip.{encoded, encode_cstring_lem, decode_encoded}

get_or-overwrite_at :
    (xs : Bytes) (p v d : ℕ) → p < length xs → get_or (overwrite xs p (v ∷ [])) p d ≡ v
get_or-overwrite_at [] p v d h = absurd (omega arith)
get_or-overwrite_at (x ∷ xs) zero v d h = refl
get_or-overwrite_at (x ∷ xs) (suc p) v d h = get_or-overwrite_at xs p v d (omega arith)

past_head :
    (len : ℕ) (body : Bytes) (i d : ℕ) → get_or (encoded len body) (i + 6) d ≡ get_or body i d
past_head len body i d =
    let six : i + 6 ≡ suc (suc (suc (suc (suc (suc i))))) = omega arith in rw six refl

-- The encoder returns the length plus six, and stores a null byte behind the bytes that it counts:
-- whatever the buffer held at that index is lost.
cstring_stores_terminator :
    (dest s out : Bytes) (n count d : ℕ)
    → cstring_length s n + 6 < length dest
    → encode_cstring (some dest) (some s) n ≡ (count, some out)
    → (count ≡ cstring_length s n + 6) × (get_or out count d ≡ 0)
cstring_stores_terminator (a ∷ b ∷ c ∷ e ∷ f ∷ g ∷ rest) s out n count d room h =
    let len : ℕ = cstring_length s n in
    let l = encode_cstring_lem a b c e f g rest s n in
    let k : count ≡ cstring_length s n + 6 = ground (arith, l) in
    let o : out
        ≡ encoded (cstring_length s n) (
            overwrite (overwrite rest 0 (take (cstring_length s n) s)) (cstring_length s n)
              (0 ∷ [])) =
      ground (arith, l) in
    (
      k,
      rw (o, k)
          (past_head (cstring_length s n) _ (cstring_length s n) d
            ∙ get_or-overwrite_at (overwrite rest 0 (take (cstring_length s n) s))
                (cstring_length s n) 0 d
                (omega (arith, length-overwrite rest 0 (take (cstring_length s n) s)))),
    )
cstring_stores_terminator _ s out n count d room h = absurd (omega arith)

decode_text_error :
    (allocates : ℕ → Bool) (src : Bytes) (len : ℕ) (out out' : CstringOut) (rc : Rc)
    → decode_text allocates src len out ≡ some (rc, out')
    → rc ≢ ok
    → out' ≡ out
unfolding decode_text
decode_text_error allocates src len out out' rc h bad = ground arith

-- On every error, whatever the source memory holds, the decoder leaves `*tgt` and `*length` as they
-- were.
decode_cstring_error :
    (allocates : ℕ → Bool) (src : Ptr) (out out' : CstringOut) (rc : Rc)
    → decode_cstring allocates src out ≡ some (rc, out')
    → rc ≢ ok
    → out' ≡ out
unfolding decode_cstring
decode_cstring_error allocates none out out' rc h bad = ground arith
decode_cstring_error allocates (some src) out out' rc h bad = ground (
  arith,
  decode_text_error allocates src
      (elim ((decode_uint32 (some (drop 1 src)) (some 0)).1) [ none ↦ 0 | some v ↦ v ]) out out' rc,
)

-- A source that claims the greatest length, 2 ^ 32 - 1, makes the decoder ask `calloc` for 0 bytes:
-- if that is answered by a pointer, the decoder stores outside what was allocated.
decode_cstring_overruns :
    (allocates : ℕ → Bool) (body : Bytes) (out : CstringOut) (old : Option Bytes)
    → out.tgt ≡ some old
    → allocates 0 ≡ true
    → decode_cstring allocates (some (encoded (2 ^ 32 - 1) body)) out ≡ none
unfolding decode_text
decode_cstring_overruns allocates body out old e room =
    decode_encoded allocates (2 ^ 32 - 1) body out old (omega arith) e ∙ ground arith
