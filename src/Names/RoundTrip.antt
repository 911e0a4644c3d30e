-- ===== src/Names/RoundTrip.antt =====
-- A name that is written is read again, over a device that keeps its laws.
use whefs.Common.{
  ℕ, ◌+◌, ◌-◌, ◌*◌, ◌≤◌, ◌≡◌, suc, inl, inr, refl, ap, sym, ◌∙◌, arith, Bool, true, false, Option,
  some, [], ◌∷◌, ◌++◌, ◌==◌, ◌&&◌, if◌then◌else◌, not, length, get_or, take, drop, slice, overwrite,
  min, mul-lt, ==_refl, ==_iff, Bool-cases, length-overwrite,
}
use whefs.Rc.{Rc, ok, arg_error, io_error, range_error}
use whefs.Encode.{Bytes}
use whefs.Encode.Cstring.{strlen}
use whefs.Device.{DevApi, DevLaws}
use whefs.Device.Calls.{seek-write_part, seek-read}
use whefs.Fs.{Fs, fs_sizeof_name, fs_readat, fs_writeat}
use whefs.Fs.Calls.{fs_writeat_lem, fs_readat_lem}
use whefs.Hash.{Library}
use whefs.Inode.{id_is_valid}
use whefs.Inode.Place.{Has}
use whefs.NameCache.{Cache}
use whefs.Strings.{WhefsString}
use whefs.Names.{
  max_filename_length, name_pos, encode_name, buffered, decode_head, name_write, take_name,
  name_get,
}
use whefs.Names.Record.{
  head, field, length-field, encoded, written, head_decoded, buffer_text, drop-buffered,
}

-- The record of a name.
abbrev pub name_record : {D : Type 0} → Fs D → ℕ → Bytes → Bytes
name_record fs id name = head id (strlen name) ++ field fs.options.filename_length name

abbrev pub place : {D : Type 0} → Fs D → ℕ → ℕ
place fs id = fs.offsets.inode_names + fs.sizes.inode_name * (id - 1)

strlen_stop : (s : Bytes) → get_or s (strlen s) 0 ≡ 0
unfolding strlen
strlen_stop [] = refl
strlen_stop (c ∷ s) = elim (Bool-cases (c == 0)) [
  | inl e ↦ ap (λ b. get_or (c ∷ s) (if b then 0 else suc (strlen s)) 0) e ∙ (==_iff _ _).0 e
  | inr e ↦ ap (λ b. get_or (c ∷ s) (if b then 0 else suc (strlen s)) 0) e ∙ strlen_stop s
]

module _ {D : Type 0} (api : DevApi D) where
  -- The length of a name that is not too long, and that it is not.
  write_calls :
      (fs : Fs D) (id : ℕ) (name : Bytes) (d : D)
      → id_is_valid fs id ≡ true
      → strlen name ≤ fs.options.filename_length
      → fs_writeat api fs
          (name_pos fs id)
          (some (encode_name fs.sizes.inode_name id (strlen name) name))
          fs.sizes.inode_name
        ≡ (fs.sizes.inode_name, record fs { dev = d })
      → name_write api fs id (some name) ≡ (ok, record fs { dev = d })
  unfolding name_write
  write_calls fs id name d valid h w =
      let bsz = fs.sizes.inode_name in
      let from : ℕ → Bool → ℕ × Fs D → Rc × Fs D = λ slen v q.
        if not v
        then (arg_error, fs)
        else if slen == fs.options.filename_length && not (get_or name slen 0 == 0)
        then (range_error, fs)
        else ((if bsz == q.0 then ok else io_error), q.1) in
      let call : ℕ → ℕ × Fs D =
        λ slen. fs_writeat api fs (name_pos fs id) (some (encode_name bsz id slen name)) bsz in
      let slen : min (strlen name) fs.options.filename_length ≡ strlen name = omega (arith, h) in
      let fits : (strlen name == fs.options.filename_length
            && not (get_or name (strlen name) 0 == 0))
          ≡ false =
        ground (arith, strlen_stop name) in
      ap (λ k. from k (id_is_valid fs id) (call k)) slen
      ∙ ap (λ b. from (strlen name) b (call (strlen name))) valid
      ∙ ap (λ q. from (strlen name) true q) w
      ∙ ap
          (λ b.
            if b
            then (range_error, fs)
            else ((if bsz == bsz then ok else io_error), record fs { dev = d }))
          fits
      ∙ ap (λ b. ((if b then ok else io_error), record fs { dev = d })) (==_refl bsz)

module _ {D : Type 0} (api : DevApi D) (lib : Library) (allocates : Bool) where
  get_calls :
      (fs fs' : Fs D) (c : Cache) (id : ℕ) (tgt : WhefsString) (bytes : Bytes)
      → id_is_valid fs id ≡ true
      → fs_readat api fs (name_pos fs id) true (fs_sizeof_name fs.options) ≡ (bytes, fs')
      → length bytes ≡ fs_sizeof_name fs.options
      → decode_head (buffered bytes) ≡ ok
      → name_get api lib allocates fs c id tgt
        ≡ take_name api lib allocates fs' c id (drop 7 (buffered bytes)) tgt
  unfolding name_get
  get_calls fs fs' c id tgt bytes valid r full e =
      let len = fs_sizeof_name fs.options in
      let last : Fs D → Bytes → Rc → Option (Rc × WhefsString × Fs D × Cache) = λ f b rc. elim rc [
        | ok ↦ take_name api lib allocates f c id (drop 7 (buffered b)) tgt
        | other ↦ some (other, tgt, f, c)
      ] in
      let from : Bool → Bytes × Fs D → Option (Rc × WhefsString × Fs D × Cache) = λ v q.
        if not v
        then some (arg_error, tgt, fs, c)
        else if not (len == length q.0)
        then some (io_error, tgt, q.1, c)
        else last q.1 q.0 (decode_head (buffered q.0)) in
      ap (λ b. from b (fs_readat api fs (name_pos fs id) true len)) valid
      ∙ ap (λ q. from true q) r
      ∙ ap
          (λ b.
            if not b
            then some (io_error, tgt, fs', c)
            else last fs' bytes (decode_head (buffered bytes)))
          (ap (λ n. len == n) full ∙ ==_refl len)
      ∙ ap (λ rc. last fs' bytes rc) e

module _ {D : Type 0} {api : DevApi D} (L : DevLaws api) where
  -- The table of names lies in the contents of the device.
  pub record IsLaid (fs : Fs D) : Type 0 where
    pub ready : L.Valid fs.dev
    pub sized : fs.sizes.inode_name ≡ 7 + fs.options.filename_length
    pub short : fs.options.filename_length ≤ max_filename_length
    pub room :
        fs.offsets.inode_names + fs.options.inode_count * fs.sizes.inode_name
        ≤ length (L.view fs.dev)

  pub record Placed (fs : Fs D) (id : ℕ) : Type 0 where
    pub valid : id_is_valid fs id ≡ true
    pub is : name_pos fs id ≡ place fs id
    pub fits : place fs id + fs.sizes.inode_name ≤ length (L.view fs.dev)

  pub place_lem : (fs : Fs D) (id : ℕ) → IsLaid fs → Has fs id → Placed fs id
  unfolding id_is_valid
  place_lem fs id v h =
      let k =
        mul-lt (id - 1) fs.options.inode_count fs.sizes.inode_name (omega (arith, h.0, h.1)) in
      let small = L.view-lt fs.dev v.ready in
      record {
        valid = ground (arith, h.0, h.1);
        is = omega (arith, k, v.room, small);
        fits = omega (arith, k, v.room);
      }

  -- On a filesystem whose table of names lies in a device that keeps its laws, writing a name that is not
  -- too long, under a number in range, returns OK. It writes the record of the name in its place, and
  -- nothing else.
  pub name_write_lem :
      (fs : Fs D) (id : ℕ) (name : Bytes)
      → IsLaid fs
      → Has fs id
      → strlen name ≤ fs.options.filename_length
      → (d : D) × (name_write api fs id (some name) ≡ (ok, record fs { dev = d }))
        × IsLaid (record fs { dev = d })
        × (L.view d ≡ overwrite (L.view fs.dev) (place fs id) (name_record fs id name))
  name_write_lem fs id name v h short =
      let p = place_lem fs id v h in
      let n = fs.options.filename_length in
      let slen = strlen name in
      let buf = encode_name fs.sizes.inode_name id slen name in
      let same : buf ≡ encode_name (7 + n) id slen name =
        ap (λ k. encode_name k id slen name) v.sized in
      let size : length buf ≡ 138 =
        ap length (same ∙ encoded n id name short v.short)
        ∙ omega (arith, length-field 131 name (omega (arith, short, v.short))) in
      let w =
        seek-write_part L fs.dev (place fs id) fs.sizes.inode_name buf v.ready
          (omega (arith, size, v.sized, v.short)) p.fits in
      let view : L.view w.1 ≡ overwrite (L.view fs.dev) (place fs id) (name_record fs id name) =
        w.5
        ∙ ap (λ k. overwrite (L.view fs.dev) (place fs id) (take k (encode_name k id slen name)))
            v.sized
        ∙ ap (λ b. overwrite (L.view fs.dev) (place fs id) b) (written n id name short v.short) in
      (
        w.1,
        write_calls api fs id name w.1 p.valid short (
            ap (λ at. fs_writeat api fs at (some buf) fs.sizes.inode_name) p.is
            ∙ fs_writeat_lem api fs (place fs id) fs.sizes.inode_name buf w.0 w.1 w.2 w.3),
        record {
          ready = w.4;
          sized = v.sized;
          short = v.short;
          room = omega (
            arith,
            v.room,
            ap length view,
            length-overwrite (L.view fs.dev) (place fs id) (name_record fs id name),
          );
        },
        view,
      )

  -- What is read where the record of a name is.
  pub name_get_lem :
      (lib : Library) (allocates : Bool) (fs : Fs D) (c : Cache) (id : ℕ) (name : Bytes)
      (tgt : WhefsString)
      → IsLaid fs
      → Has fs id
      → strlen name ≤ fs.options.filename_length
      → slice (L.view fs.dev) (place fs id) fs.sizes.inode_name ≡ name_record fs id name
      → (d : D) × (name_get api lib allocates fs c id tgt
          ≡ take_name api lib allocates
              (record fs { dev = d })
              c
              id
              (buffer_text fs.options.filename_length name)
              tgt)
        × L.Valid d
        × (L.view d ≡ L.view fs.dev)
  unfolding fs_sizeof_name
  name_get_lem lib allocates fs c id name tgt v h short e =
      let p = place_lem fs id v h in
      let n = fs.options.filename_length in
      let r = seek-read L fs.dev (place fs id) (7 + n) v.ready (omega (arith, p.fits, v.sized)) in
      let fs' = record fs { dev = r.1 } in
      let bytes = name_record fs id name in
      let got : fs_readat api fs (name_pos fs id) true (7 + n) ≡ (bytes, fs') =
        ap (λ at. fs_readat api fs at true (7 + n)) p.is
        ∙ fs_readat_lem api fs (place fs id) (7 + n) bytes r.0 r.1 r.2 (
            r.3
            ∙ ap (λ k. (slice (L.view fs.dev) (place fs id) k, r.1)) (sym v.sized)
            ∙ ap (λ b. (b, r.1)) e) in
      (
        r.1,
        get_calls api lib allocates fs fs' c id tgt bytes p.valid got
              (omega (arith, length-field n name short)) (head_decoded n id name short v.short)
            ∙ ap (λ b. take_name api lib allocates fs' c id b tgt)
                (drop-buffered n id name short v.short),
        r.4,
        r.5,
      )
