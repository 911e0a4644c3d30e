-- ===== src/Block/Header.antt =====
-- The header of a block on the disk.
use whefs.Common.{ℕ, ◌+◌, ◌*◌, ◌/◌, ◌%◌, ◌^◌, ◌<◌, ◌≡◌, refl, ap, ◌∙◌, arith, [], ◌∷◌, length}
use whefs.Rc.{ok, id_bound}
use whefs.Encode.{encode_uint16, decode_uint16, encode_uint8, decode_uint8}
use whefs.Fs.{id_encode, id_decode, sizeof_encoded_block}
use whefs.Block.{Block, encode, decode, tag_char}

-- The members are numbers of their widths.
pub record IsNarrow (bl : Block) : Type 0 where
  pub id-lt : bl.id < id_bound
  pub next-lt : bl.next_block < id_bound
  pub flags-lt : bl.flags < 256

pub encode_bytes :
    (bl : Block)
    → encode bl
      ≡ tag_char
        ∷ 144
        ∷ bl.id / 2 ^ 8 % 256
        ∷ bl.id % 256
        ∷ 136
        ∷ bl.flags % 256
        ∷ 144
        ∷ bl.next_block / 2 ^ 8 % 256
        ∷ bl.next_block % 256
        ∷ 0
        ∷ []
unfolding encode id_encode encode_uint16 encode_uint8
encode_bytes bl = refl

pub length-encode : (bl : Block) → length (encode bl) ≡ sizeof_encoded_block
length-encode bl = ap length (encode_bytes bl)

abbrev two_bytes : ℕ → ℕ
two_bytes n = (n / 2 ^ 8 % 256 * 2 ^ 8 + n % 256) % 2 ^ 16

joined : (n : ℕ) → n < id_bound → two_bytes n ≡ n
joined n h = omega (arith, h)

-- A block whose members are numbers of their widths is decoded from its header as it was, whatever was
-- in the block before.
pub decode-encode : (dest bl : Block) → IsNarrow bl → decode dest (encode bl) ≡ (ok, bl)
unfolding decode id_decode decode_uint16 decode_uint8
decode-encode dest bl n =
    let id : ℕ = two_bytes bl.id in
    let next : ℕ = two_bytes bl.next_block in
    let flags : ℕ = bl.flags % 256 in
    ap (λ b. decode dest b) (encode_bytes bl)
    ∙ ap (λ n. (ok, record dest { id = n; next_block = next; flags = flags })) {x = id} {y = bl.id}
        (joined bl.id n.id-lt)
    ∙ ap (λ n. (ok, record bl { next_block = n; flags = flags })) {x = next} {y = bl.next_block}
        (joined bl.next_block n.next-lt)
    ∙ ap (λ n. (ok, record bl { flags = n })) {x = flags} {y = bl.flags} (omega (arith, n.flags-lt))
