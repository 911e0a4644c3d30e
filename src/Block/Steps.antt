-- ===== src/Block/Steps.antt =====
-- Flushing and reading a block, as what they come to when each call of the device succeeds.
use whefs.Common.{
  ℕ, ◌<◌, ◌≡◌, refl, ap, sym, ◌∙◌, arith, Bool, true, false, some, ◌==◌, if◌then◌else◌, not, length,
  overwrite, replicate, pos, overwrite_all,
}
use whefs.Rc.{Rc, ok, io_error, size_t_error}
use whefs.Encode.{Bytes}
use whefs.Device.{DevApi, seek_set}
use whefs.Fs.{Fs, is_rw, sizeof_encoded_block}
use whefs.Block.{
  Block, empty, encode, decode, id_is_valid, id_pos, id_seek, update_used, write_header, flush,
  read_header, read,
}

module _ {D : Type 0} (api : DevApi D) where
  pub id_seek_lem :
      (fs : Fs D) (id p : ℕ) (d : D)
      → id_pos fs id ≡ p
      → 0 < p
      → api.seek fs.dev (pos p) seek_set ≡ (p, d)
      → id_seek api fs id ≡ (ok, record fs { dev = d })
  unfolding id_seek
  id_seek_lem fs id p d e h s = rw (e, s) (ground (arith, h))

  pub write_header_lem :
      (fs : Fs D) (bl : Block) (d : D)
      → api.write fs.dev (some (encode bl)) sizeof_encoded_block ≡ (sizeof_encoded_block, d)
      → write_header api fs bl ≡ (ok, update_used (record fs { dev = d }) bl)
  unfolding write_header
  write_header_lem fs bl d w = rw w refl

  pub flush_calls :
      (fs fs' : Fs D) (bl : Block)
      → is_rw fs ≡ true
      → id_seek api fs bl.id ≡ (ok, fs')
      → flush api fs bl ≡ write_header api fs' bl
  unfolding flush
  flush_calls fs fs' bl m s =
      rw m (ap (λ q. elim q.0 [ ok ↦ write_header api q.1 bl | other ↦ (other, q.1) ]) s)

  -- What follows the decoding of a header.
  abbrev pub known : Fs D → Rc × Block → Rc × Block × Fs D
  known fs (rc, bl) = elim rc [ ok ↦ (ok, bl, update_used fs bl) | other ↦ (other, bl, fs) ]

  pub read_header_lem :
      (fs : Fs D) (bl : Block) (bytes : Bytes) (d : D)
      → length bytes ≡ sizeof_encoded_block
      → api.read fs.dev true sizeof_encoded_block ≡ (bytes, d)
      → read_header api fs bl ≡ known (record fs { dev = d }) (decode bl bytes)
  unfolding read_header
  read_header_lem fs bl bytes d e r =
      let full : (length bytes == sizeof_encoded_block) ≡ true =
        ap (λ n. n == sizeof_encoded_block) e in
      let zeros = replicate sizeof_encoded_block 0 in
      ap
        (λ q.
          if length q.0 == sizeof_encoded_block
          then known (record fs { dev = q.1 }) (decode bl (overwrite zeros 0 q.0))
          else (io_error, bl, record fs { dev = q.1 }))
        r
      ∙ ap
          (λ b.
            if b
            then known (record fs { dev = d }) (decode bl (overwrite zeros 0 bytes))
            else (io_error, bl, record fs { dev = d }))
          full
      ∙ ap (λ b. known (record fs { dev = d }) (decode bl b)) (overwrite_all zeros bytes (sym e))

  pub read_calls :
      (fs : Fs D) (id p : ℕ) (bl : Block) (d : D)
      → id_is_valid fs id ≡ true
      → id_pos fs id ≡ p
      → p < size_t_error
      → api.seek fs.dev (pos p) seek_set ≡ (p, d)
      → read api fs id bl ≡ read_header api (record fs { dev = d }) bl
  unfolding read
  read_calls fs id p bl d v e h s =
      let other : (size_t_error == p) ≡ false = ground (arith, h) in
      let from : ℕ × D → Bool → Rc × Block × Fs D = λ q valid.
        if not valid
        then (ok, empty, fs)
        else if size_t_error == q.0
        then (io_error, bl, record fs { dev = q.1 })
        else read_header api (record fs { dev = q.1 }) bl in
      ap (λ n. from (api.seek fs.dev (pos n) seek_set) (id_is_valid fs id)) e
      ∙ ap (λ q. from q (id_is_valid fs id)) s
      ∙ ap (λ b. from (p, d) b) v
      ∙ ap
          (λ b.
            if b
            then (io_error, bl, record fs { dev = d })
            else read_header api (record fs { dev = d }) bl)
          other
