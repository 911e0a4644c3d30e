-- ===== src/Names/Record.antt =====
-- The record of a name on the disk, and in the buffer that it is read into.
use mathlib.Core.List.{append-nil, append_assoc}
use whefs.Common.{
  ℕ, zero, suc, ◌+◌, ◌-◌, ◌%◌, ◌<◌, ◌≤◌, ◌≡◌, refl, ap, ap₂, sym, ◌∙◌, arith, Bool, true, false, [],
  ◌∷◌, ◌++◌, ltb, if◌then◌else◌, length, take, drop, overwrite, length-append, overwrite_front,
  overwrite-append_right, take-append_right, take-append_left,
}
use whefs.Rc.{ok}
use whefs.Encode.{Bytes, byte_at, encode_uint16, decode_uint16}
use whefs.Encode.Cstring.{strlen}
use whefs.Fs.{id_encode, sizeof_encoded_inode_name_header}
use whefs.Block.Zeros.{zeros, zeros_add, take-zeros, length-zeros}
use whefs.Strings.Filled.{strlen-append, strlen_zeros, length-taken}
use whefs.Names.{encode_name, decode_head, buffered, max_filename_length, name_tag_char}

-- The bytes in front of the text.
abbrev pub head : ℕ → ℕ → Bytes
head id slen =
    name_tag_char ∷ 144 ∷ byte_at id 8 ∷ id % 256 ∷ 144 ∷ byte_at slen 8 ∷ slen % 256 ∷ []

drop-zeros : (n m : ℕ) → n ≤ m → drop n (zeros m) ≡ zeros (m - n)
drop-zeros zero m h = ap zeros {x = m} {y = m - 0} (omega arith)
drop-zeros (suc n) zero h = absurd (omega arith)
drop-zeros (suc n) (suc m) h =
    drop-zeros n m (omega arith) ∙ ap zeros {x = m - n} {y = suc m - suc n} (omega arith)

-- Bytes that are written over zeros.
over_zeros :
    (bs : Bytes) (m : ℕ) → length bs ≤ m → overwrite (zeros m) 0 bs ≡ bs ++ zeros (m - length bs)
over_zeros bs m h =
    overwrite_front (zeros m) bs (omega (arith, h, length-zeros m))
    ∙ ap (λ l. bs ++ l) (drop-zeros (length bs) m h)

zeros_again : (k m : ℕ) → k ≤ m → overwrite (zeros m) 0 (zeros k) ≡ zeros m
zeros_again k m h =
    over_zeros (zeros k) m (omega (arith, h, length-zeros k))
    ∙ zeros_add k (m - length (zeros k)) m (omega (arith, h, length-zeros k))

-- The buffer before zeros are written behind the text.
abbrev filled : ℕ → Bytes → ℕ → Bytes
filled id text slen = head id slen ++ overwrite (zeros 131) 0 text

encode_name_lem :
    (bsz id slen : ℕ) (name : Bytes)
    → encode_name bsz id slen name ≡ (
        if ltb (7 + slen) bsz
        then overwrite (filled id (take slen name) slen) (7 + slen) (zeros (bsz - (7 + slen)))
        else filled id (take slen name) slen)
unfolding encode_name id_encode encode_uint16
encode_name_lem bsz id slen name = refl

-- The text of a name, in a field of so many bytes.
abbrev pub field : ℕ → Bytes → Bytes
field n name = take (strlen name) name ++ zeros (n - strlen name)

pub length-field : (n : ℕ) (name : Bytes) → strlen name ≤ n → length (field n name) ≡ n
length-field n name h = omega (
  arith,
  h,
  length-append (take (strlen name) name) (zeros (n - strlen name)),
  length-zeros (n - strlen name),
  length-taken name,
)

filled_lem :
    (id : ℕ) (name : Bytes)
    → strlen name ≤ 131
    → filled id (take (strlen name) name) (strlen name) ≡ head id (strlen name) ++ field 131 name
filled_lem id name h =
    let text = take (strlen name) name in
    let e = length-taken name in
    ap (λ l. head id (strlen name) ++ l)
      (over_zeros text 131 (omega (arith, h, e))
        ∙ ap (λ n. text ++ zeros n) {x = 131 - length text} {y = 131 - strlen name}
            (omega (arith, e)))

-- The zeros behind the text are there already.
cleared :
    (id k : ℕ) (name : Bytes)
    → strlen name + k ≤ 131
    → overwrite (head id (strlen name) ++ field 131 name) (7 + strlen name) (zeros k)
      ≡ head id (strlen name) ++ field 131 name
cleared id k name h =
    let text = take (strlen name) name in
    let e = length-taken name in
    overwrite-append_right (head id (strlen name)) (field 131 name) (zeros k) (7 + strlen name)
      (strlen name) (omega arith)
    ∙ ap (λ l. head id (strlen name) ++ l)
        (overwrite-append_right text (zeros (131 - strlen name)) (zeros k) (strlen name) 0
            (omega (arith, e))
          ∙ ap (λ l. text ++ l) (zeros_again k (131 - strlen name) (omega (arith, h))))

pub encoded :
    (n id : ℕ) (name : Bytes)
    → strlen name ≤ n
    → n ≤ max_filename_length
    → encode_name (7 + n) id (strlen name) name ≡ head id (strlen name) ++ field 131 name
encoded n id name h small =
    let slen = strlen name in
    let fill = filled_lem id name (omega (arith, h, small)) in
    let k : ℕ = 7 + n - (7 + slen) in
    let from : (b : Bool)
        → (if b
            then overwrite (filled id (take slen name) slen) (7 + slen) (zeros k)
            else filled id (take slen name) slen)
          ≡ head id slen ++ field 131 name =
      λ b.
        elim b
          as (λ b.
            (if b
              then overwrite (filled id (take slen name) slen) (7 + slen) (zeros k)
              else filled id (take slen name) slen)
            ≡ head id slen ++ field 131 name) [
              | true ↦
                  ap (λ l. overwrite l (7 + slen) (zeros k)) fill
                  ∙ cleared id k name (omega (arith, h, small))
              | false ↦ fill
            ] in
    encode_name_lem (7 + n) id slen name ∙ from (ltb (7 + slen) (7 + n))

-- What is written of the buffer.
pub written :
    (n id : ℕ) (name : Bytes)
    → strlen name ≤ n
    → n ≤ max_filename_length
    → take (7 + n) (encode_name (7 + n) id (strlen name) name)
      ≡ head id (strlen name) ++ field n name
written n id name h small =
    let slen = strlen name in
    let text = take slen name in
    ap (λ l. take (7 + n) l) (encoded n id name h small)
    ∙ take-append_right (head id slen) (field 131 name) (7 + n) n (omega arith)
    ∙ ap (λ l. head id slen ++ l)
        (take-append_right text (zeros (131 - slen)) n (n - slen)
            (omega (arith, h, length-taken name))
          ∙ ap (λ l. text ++ l) (take-zeros (n - slen) (131 - slen) (omega (arith, small))))

-- The buffer that a record is read into.
buffered_lem :
    (n id : ℕ) (name : Bytes)
    → strlen name ≤ n
    → n ≤ max_filename_length
    → buffered (head id (strlen name) ++ field n name)
      ≡ head id (strlen name) ++ field n name ++ zeros (131 - n)
buffered_lem n id name h small =
    let e = length-field n name h in
    over_zeros (head id (strlen name) ++ field n name) 138 (omega (arith, e, small))
    ∙ ap (λ k. head id (strlen name) ++ field n name ++ zeros k)
        {x = 138 - length (head id (strlen name) ++ field n name)} {y = 131 - n} (omega (arith, e))

-- The record in the buffer is taken for one.
pub head_decoded :
    (n id : ℕ) (name : Bytes)
    → strlen name ≤ n
    → n ≤ max_filename_length
    → decode_head (buffered (head id (strlen name) ++ field n name)) ≡ ok
unfolding decode_head decode_uint16
head_decoded n id name h small = ap decode_head (buffered_lem n id name h small)

-- The text in the buffer is the name.
abbrev pub buffer_text : ℕ → Bytes → Bytes
buffer_text n name = field n name ++ zeros (131 - n)

pub drop-buffered :
    (n id : ℕ) (name : Bytes)
    → strlen name ≤ n
    → n ≤ max_filename_length
    → drop sizeof_encoded_inode_name_header (buffered (head id (strlen name) ++ field n name))
      ≡ buffer_text n name
drop-buffered n id name h small =
    ap (λ l. drop sizeof_encoded_inode_name_header l) (buffered_lem n id name h small)

rests : (n k : ℕ) → 0 < k → strlen (zeros n ++ zeros k) ≡ 0
rests zero k h = ap strlen (sym (append-nil (zeros k))) ∙ strlen_zeros k [] h
rests (suc n) k h = strlen_zeros (suc n) (zeros k) (omega arith)

pub strlen-buffer_text :
    (n : ℕ) (name : Bytes)
    → n ≤ max_filename_length
    → (strlen (buffer_text n name) ≡ strlen name)
      × (take (strlen (buffer_text n name)) (buffer_text n name) ≡ take (strlen name) name)
strlen-buffer_text n name small =
    let text = take (strlen name) name in
    let tail = zeros (n - strlen name) ++ zeros (131 - n) in
    let assoc : field n name ++ zeros (131 - n) ≡ text ++ tail =
      append_assoc text (zeros (n - strlen name)) (zeros (131 - n)) in
    let len : strlen (field n name ++ zeros (131 - n)) ≡ strlen name =
      ap strlen assoc
      ∙ strlen-append name tail (rests (n - strlen name) (131 - n) (omega (arith, small))) in
    (
      len,
      ap₂ (λ k l. take k l) len assoc
          ∙ take-append_left (strlen name) text tail (length-taken name),
    )
