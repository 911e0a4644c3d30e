-- ===== src/Codec/Arrays.antt =====
-- Arrays on a device: one encoded number after another.
use whefs.Common.{
  ℕ, suc, ◌+◌, ◌*◌, ◌^◌, ◌≤◌, ◌≡◌, refl, ap, sym, ◌∙◌, arith, none, some, List, [], ◌∷◌, ◌++◌, ◌==◌,
  if◌then◌else◌, length, drop, overwrite, length-overwrite, overwrite-nil, overwrite-append,
  drop-drop,
}
use whefs.Rc.{Rc, ok}
use whefs.Encode.{Bytes, sizeof_uint32}
use whefs.Encode.Array.{AllBelow}
use whefs.Device.{DevApi, DevLaws}
use whefs.Codec.{encode_loop, decode_loop, dev_encode_uint32_array, dev_decode_uint32_array}
use whefs.Codec.Ints.{Writes, Reads, ReadsBack, reads_back, code32, write32, read32}

-- The bytes of an encoded array.
unfoldable pub codes : List ℕ → Bytes
codes [] = []
codes (x ∷ xs) = code32 x ++ codes xs

length-codes : (xs : List ℕ) → length (codes xs) ≡ 5 * length xs
unfolding codes
length-codes [] = refl
length-codes (x ∷ xs) = omega (arith, length-codes xs)

module _ {D : Type 0} {api : DevApi D} (L : DevLaws api) where
  write_loop : (xs : List ℕ) (d : D) → Writes L (λ x. encode_loop api x xs) (length xs) (codes xs) d
  unfolding Writes encode_loop codes
  write_loop [] d v room = (d, refl, v, sym (overwrite-nil (L.view d) (L.cursor d)), omega arith)
  write_loop (x ∷ xs) d v room =
      let w = write32 L d x v (omega arith) in
      let r =
        write_loop xs w.0 w.2 (
          omega (arith, w.4, ap length w.3, length-overwrite (L.view d) (L.cursor d) (code32 x))) in
      (
        r.0,
        ap
              (λ t.
                let rest = encode_loop api t.1 xs in
                if sizeof_uint32 == t.0 then (suc rest.0, rest.1) else (0, t.1))
              w.1
            ∙ ap (λ t. (suc t.0, t.1)) r.1,
        r.2,
        r.3
            ∙ ap (λ v. overwrite v (L.cursor w.0) (codes xs)) w.3
            ∙ ap (λ k. overwrite (overwrite (L.view d) (L.cursor d) (code32 x)) k (codes xs)) w.4
            ∙ overwrite-append (L.view d) (L.cursor d) (code32 x) (codes xs),
        omega (arith, r.4, w.4),
      )

  -- A round of the decoder's loop, given the code and the number that it decodes and what the rest of
  -- the loop comes to.
  abbrev filled : Rc → ℕ → ℕ × List ℕ × D → List ℕ → D → ℕ × List ℕ × D
  filled code new rest list d' = elim code [
    | ok ↦ (suc rest.0, new ∷ rest.1, rest.2)
    | _ ↦ (0, new ∷ list, d')
  ]

  read_loop :
      (xs olds : List ℕ) (d : D)
      → length olds ≡ length xs
      → AllBelow (2 ^ 32) xs
      → Reads L (λ x. decode_loop api x olds) (codes xs) (length xs) xs d
  unfolding Reads decode_loop codes
  read_loop [] [] d e h v a = (d, refl, v, refl, omega arith)
  read_loop [] (old ∷ olds) d e h v a = absurd (omega (arith, e))
  read_loop (x ∷ xs) [] d e h v a = absurd (omega (arith, e))
  read_loop (x ∷ xs) (old ∷ olds) d e (hx, h) v (rest, a) =
      let r = read32 L d x old hx v (codes xs ++ rest, a) in
      let ahead : drop (L.cursor r.0) (L.view r.0) ≡ codes xs ++ rest =
        ap (λ k. drop k (L.view r.0)) r.4
        ∙ ap (λ w. drop (L.cursor d + 5) w) r.3
        ∙ sym (drop-drop 5 (L.cursor d) (L.view d))
        ∙ ap (λ w. drop 5 w) a in
      let q = read_loop xs olds r.0 (omega (arith, e)) h r.2 (rest, ahead) in
      (
        q.0,
        ap
              (λ t.
                filled t.0 (elim (t.1) [ none ↦ old | some v ↦ v ]) (decode_loop api t.2 olds) olds
                  t.2)
              r.1
            ∙ ap (λ t. (suc t.0, x ∷ t.1, t.2)) q.1,
        q.2,
        q.3 ∙ r.3,
        omega (arith, q.4, r.4),
      )

  read_array :
      (xs olds : List ℕ) (d : D)
      → length olds ≡ length xs
      → AllBelow (2 ^ 32) xs
      → Reads L (λ x. dev_decode_uint32_array api x (some olds)) (codes xs) (length xs) (some xs) d
  unfolding Reads dev_decode_uint32_array
  read_array xs olds d e h v a =
      let r = read_loop xs olds d e h v a in
      (r.0, ap (λ t. (t.0, some t.1, t.2)) r.1, r.2, r.3, r.4)

-- On a device that keeps its laws, an array of numbers below 2 ^ 32 with room for its encodings
-- behind the cursor is written whole, and after a seek back to where it began the decoder of as many
-- numbers fills its cells with the array, in order, and returns their number.
device_array_round_trip :
    {D : Type 0} {api : DevApi D} (L : DevLaws api) (d : D) (xs olds : List ℕ)
    → L.Valid d
    → L.cursor d + 5 * length xs ≤ length (L.view d)
    → length olds ≡ length xs
    → AllBelow (2 ^ 32) xs
    → ReadsBack L
        (λ x. dev_encode_uint32_array api x (some xs))
        (λ x. dev_decode_uint32_array api x (some olds))
        (length xs)
        (length xs)
        (some xs)
        d
unfolding dev_encode_uint32_array
device_array_round_trip L d xs olds v room e h =
    let count : length (codes xs) ≡ 5 * length xs = length-codes xs in
    reads_back L _ _ (length xs) (codes xs) (length xs) (some xs) d (λ x. write_loop L xs x)
      (λ x. read_array L xs olds x e h) v (omega (arith, count))
