-- ===== src/Mkfs/Hints.antt =====
-- The hints of a container, written and read again.
use whefs.Common.{
  ℕ, ◌+◌, ◌%◌, ◌<◌, ◌≤◌, ◌≡◌, refl, ap, ap₂, sym, ◌∙◌, arith, Bool, true, some, [], ◌∷◌, ◌==◌,
  if◌then◌else◌, not, length, slice, overwrite, length-overwrite, pos, ==_refl,
  slice-overwrite_self,
}
use whefs.Rc.{Rc, ok, access_error, io_error, id_bound}
use whefs.Encode.{Bytes, byte_at, encode_uint16, decode_uint16}
use whefs.Device.{DevApi, DevLaws, seek_set}
use whefs.Device.Calls.{seek-write, seek-read}
use whefs.Fs.{Fs, id_encode, id_decode, sizeof_encoded_hints, is_rw}
use whefs.Inode.Record.{two_joined}
use whefs.Mkfs.{hints_tag_char, encode_hints, decode_hints, hints_write, hints_read}

encode_hints_bytes :
    (i b : ℕ)
    → encode_hints i b
      ≡ hints_tag_char ∷ 144 ∷ byte_at i 8 ∷ i % 256 ∷ 144 ∷ byte_at b 8 ∷ b % 256 ∷ []
unfolding id_encode encode_uint16
encode_hints_bytes i b = refl

-- A filesystem with hints.
abbrev hinting : {D : Type 0} → Fs D → ℕ → ℕ → Fs D
hinting fs i b = record fs { unused_inode_start = i; unused_block_start = b }

decode-encode_hints :
    {D : Type 0} (fs : Fs D) (i b : ℕ)
    → i < id_bound
    → b < id_bound
    → decode_hints fs (encode_hints i b) ≡ (ok, hinting fs i b)
unfolding id_decode decode_uint16
decode-encode_hints fs i b h h' =
    ap (λ x. decode_hints fs x) (encode_hints_bytes i b)
    ∙ ap₂ (λ k l. (ok, hinting fs k l)) (two_joined i h) (two_joined b h')

module _ {D : Type 0} (api : DevApi D) where
  write_calls :
      (fs : Fs D) (d1 d2 : D)
      → is_rw fs ≡ true
      → api.seek fs.dev (pos fs.offsets.hints) seek_set ≡ (fs.offsets.hints, d1)
      → api.write d1
          (some (encode_hints fs.unused_inode_start fs.unused_block_start))
          sizeof_encoded_hints
        ≡ (sizeof_encoded_hints, d2)
      → hints_write api fs ≡ (ok, record fs { dev = d2 })
  unfolding hints_write
  write_calls fs d1 d2 m s w =
      let from : Bool → ℕ × D → Rc × Fs D = λ writable q.
        if not writable
        then (access_error, fs)
        else ((if q.0 == sizeof_encoded_hints then ok else io_error), record fs { dev = q.1 }) in
      let write : D → ℕ × D = λ d.
        api.write d (some (encode_hints fs.unused_inode_start fs.unused_block_start))
          sizeof_encoded_hints in
      ap (λ b. from b (write (api.seek fs.dev (pos fs.offsets.hints) seek_set).1)) m
      ∙ ap (λ q. from true (write q.1)) s
      ∙ ap (λ q. from true q) w

  read_calls :
      (fs : Fs D) (d1 d2 : D) (bytes : Bytes)
      → api.seek fs.dev (pos fs.offsets.hints) seek_set ≡ (fs.offsets.hints, d1)
      → api.read d1 true sizeof_encoded_hints ≡ (bytes, d2)
      → length bytes ≡ sizeof_encoded_hints
      → hints_read api fs ≡ decode_hints (record fs { dev = d2 }) bytes
  unfolding hints_read
  read_calls fs d1 d2 bytes s r full =
      let last : Bool → Bytes × D → Rc × Fs D = λ b q.
        if not b
        then (io_error, record fs { dev = q.1 })
        else decode_hints (record fs { dev = q.1 }) q.0 in
      let from : Bool → D → Bytes × D → Rc × Fs D = λ b d q.
        if not b
        then (io_error, record fs { dev = d })
        else last (sizeof_encoded_hints == length q.0) q in
      ap (λ q. from (q.0 == fs.offsets.hints) q.1 (api.read q.1 true sizeof_encoded_hints)) s
      ∙ ap (λ b. from b d1 (api.read d1 true sizeof_encoded_hints)) (==_refl fs.offsets.hints)
      ∙ ap (λ q. from true d1 q) r
      ∙ ap (λ n. last (sizeof_encoded_hints == n) (bytes, d2)) full

module _ {D : Type 0} {api : DevApi D} (L : DevLaws api) where
  -- On a writable filesystem whose device keeps its laws and has room where the hints are, the hints,
  -- numbers of 16 bits, are written with the result OK. Reading them then returns OK and gives them back,
  -- whatever hints are in memory by then, and leaves the device's contents as the write made them: only the
  -- bytes of the hints have changed.
  pub hints_read-write :
      (fs : Fs D) (a b : ℕ)
      → L.Valid fs.dev
      → fs.offsets.hints + sizeof_encoded_hints ≤ length (L.view fs.dev)
      → is_rw fs ≡ true
      → fs.unused_inode_start < id_bound
      → fs.unused_block_start < id_bound
      → (d d' : D) × (hints_write api fs ≡ (ok, record fs { dev = d }))
        × (hints_read api (record fs { dev = d; unused_inode_start = a; unused_block_start = b })
            ≡ (ok, record fs { dev = d' }))
        × (L.view d' ≡ L.view d)
        × (L.view d
            ≡ overwrite
                (L.view fs.dev)
                fs.offsets.hints
                (encode_hints fs.unused_inode_start fs.unused_block_start))
  hints_read-write fs a b v room m small small' =
      let i = fs.unused_inode_start in
      let k = fs.unused_block_start in
      let bytes = encode_hints i k in
      let size : length bytes ≡ sizeof_encoded_hints = ap length (encode_hints_bytes i k) in
      let w = seek-write L fs.dev fs.offsets.hints sizeof_encoded_hints bytes v size room in
      let r = seek-read L w.1 fs.offsets.hints sizeof_encoded_hints w.4 (
        omega
          (arith, room, ap length w.5, length-overwrite (L.view fs.dev) fs.offsets.hints bytes)) in
      let there : slice (L.view w.1) fs.offsets.hints sizeof_encoded_hints ≡ bytes =
        ap (λ x. slice x fs.offsets.hints sizeof_encoded_hints) w.5
        ∙ ap (λ n. slice (overwrite (L.view fs.dev) fs.offsets.hints bytes) fs.offsets.hints n)
            (sym size)
        ∙ slice-overwrite_self (L.view fs.dev) fs.offsets.hints bytes (omega (arith, room, size)) in
      let lost = record fs { dev = w.1; unused_inode_start = a; unused_block_start = b } in
      (
        w.1,
        r.1,
        write_calls api fs w.0 w.1 m w.2 w.3,
        read_calls api lost r.0 r.1 bytes r.2 (r.3 ∙ ap (λ x. (x, r.1)) there) size
            ∙ decode-encode_hints (record lost { dev = r.1 }) i k small small',
        r.5,
        w.5,
      )
