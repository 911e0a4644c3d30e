-- ===== src/Inode/Record.antt =====
-- The record of an inode on the disk.
use whefs.Common.{ℕ, ◌+◌, ◌*◌, ◌%◌, ◌^◌, ◌<◌, ◌≡◌, refl, ap, ◌∙◌, arith, [], ◌∷◌, length}
use whefs.Rc.{ok, id_bound, size_bound}
use whefs.Encode.{
  byte_at, encode_uint16, decode_uint16, encode_uint8, decode_uint8, encode_uint32, decode_uint32,
}
use whefs.Fs.{id_encode, id_decode, sizeof_encoded_inode}
use whefs.Inode.{Inode, encode, decode, tag_char}

-- The members that are stored are numbers of their widths.
pub record IsNarrow (n : Inode) : Type 0 where
  pub id-lt : n.id < id_bound
  pub flags-lt : n.flags < 256
  pub first-lt : n.first_block < id_bound
  pub size-lt : n.data_size < size_bound
  pub mtime-lt : n.mtime < size_bound

-- An inode with the stored members of another one.
abbrev pub stored_in : Inode → Inode → Inode
stored_in dest n = record dest {
  id = n.id;
  flags = n.flags;
  first_block = n.first_block;
  data_size = n.data_size;
  mtime = n.mtime;
}

pub encode_bytes :
    (n : Inode)
    → encode n
      ≡ tag_char
        ∷ 144
        ∷ byte_at n.id 8
        ∷ n.id % 256
        ∷ 136
        ∷ n.flags % 256
        ∷ 160
        ∷ byte_at n.mtime 24
        ∷ byte_at n.mtime 16
        ∷ byte_at n.mtime 8
        ∷ n.mtime % 256
        ∷ 160
        ∷ byte_at n.data_size 24
        ∷ byte_at n.data_size 16
        ∷ byte_at n.data_size 8
        ∷ n.data_size % 256
        ∷ 144
        ∷ byte_at n.first_block 8
        ∷ n.first_block % 256
        ∷ []
unfolding encode id_encode encode_uint16 encode_uint8 encode_uint32
encode_bytes n = refl

pub length-encode : (n : Inode) → length (encode n) ≡ sizeof_encoded_inode
length-encode n = ap length (encode_bytes n)

abbrev pub two_bytes : ℕ → ℕ
two_bytes n = (byte_at n 8 * 2 ^ 8 + n % 256) % 2 ^ 16

abbrev four_bytes : ℕ → ℕ
four_bytes n =
    (byte_at n 24 * 2 ^ 24 + byte_at n 16 * 2 ^ 16 + byte_at n 8 * 2 ^ 8 + n % 256) % 2 ^ 32

pub two_joined : (n : ℕ) → n < id_bound → two_bytes n ≡ n
two_joined n h = omega (arith, h)

four_joined : (n : ℕ) → n < size_bound → four_bytes n ≡ n
four_joined n h = omega (arith, h)

-- An inode with these numbers for its stored members.
abbrev built : Inode → ℕ → ℕ → ℕ → ℕ → ℕ → Inode
built dest id flags first size mtime = record dest {
  id = id;
  flags = flags;
  first_block = first;
  data_size = size;
  mtime = mtime;
}

decode_lem :
    (dest n : Inode)
    → decode dest (encode n) ≡ (
      ok,
      built dest
          (two_bytes n.id)
          (n.flags % 256)
          (two_bytes n.first_block)
          (four_bytes n.data_size)
          (four_bytes n.mtime),
    )
unfolding decode id_decode decode_uint16 decode_uint8 decode_uint32
decode_lem dest n = ap (λ b. decode dest b) (encode_bytes n)

-- The stored members of an inode, numbers of their widths, are decoded from its record as they were, and
-- the other members of the inode that is decoded into are left.
pub decode-encode : (dest n : Inode) → IsNarrow n → decode dest (encode n) ≡ (ok, stored_in dest n)
decode-encode dest n w =
    let small : n.flags % 256 ≡ n.flags = omega (arith, w.flags-lt) in
    let first = two_bytes n.first_block in
    let size = four_bytes n.data_size in
    let mtime = four_bytes n.mtime in
    decode_lem dest n
    ∙ ap (λ k. (ok, built dest k (n.flags % 256) first size mtime)) (two_joined n.id w.id-lt)
    ∙ ap (λ k. (ok, built dest n.id k first size mtime)) small
    ∙ ap (λ k. (ok, built dest n.id n.flags k size mtime)) (two_joined n.first_block w.first-lt)
    ∙ ap (λ k. (ok, built dest n.id n.flags n.first_block k mtime))
        (four_joined n.data_size w.size-lt)
    ∙ ap (λ k. (ok, built dest n.id n.flags n.first_block n.data_size k))
        (four_joined n.mtime w.mtime-lt)
