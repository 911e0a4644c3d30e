-- ===== src/Inode/Flush.antt =====
-- The record of an inode, written and read, over a device that keeps its laws.
use whefs.Common.{
  ℕ, ◌+◌, ◌<◌, ◌≤◌, ◌≡◌, ◌≢◌, ◌⊎◌, ap, sym, ◌∙◌, subst, arith, Bool, true, some, ◌==◌,
  if◌then◌else◌, not, length, slice, overwrite, replicate, pos, overwrite_all, length-overwrite,
  slice-overwrite_self, slice-overwrite_apart,
}
use whefs.Rc.{Rc, ok, io_error, arg_error, access_error}
use whefs.Encode.{Bytes}
use whefs.Device.{DevApi, DevLaws, seek_set}
use whefs.Device.Calls.{seek-write, seek-read}
use whefs.Fs.{Fs, is_rw, sizeof_encoded_inode, fs_seek, fs_read, fs_write}
use whefs.Inode.{
  Inode, encode, decode, id_is_valid, id_pos, id_seek, update_used, write_inode, flush, read_inode,
  id_read,
}
use whefs.Inode.Record.{IsNarrow, stored_in, length-encode, decode-encode}
use whefs.Inode.Place.{
  Same, Same-trans, moved-Same, update_used-Same, update_used_dev, place, Same-place, Has, Same-Has,
  IsLaid, stored, place_lem, Same-IsLaid, apart,
}

module _ {D : Type 0} (api : DevApi D) where
  id_seek_lem :
      (fs : Fs D) (id p : ℕ) (d : D)
      → id_pos fs id ≡ p
      → 0 < p
      → api.seek fs.dev (pos p) seek_set ≡ (p, d)
      → id_seek api fs id ≡ (ok, record fs { dev = d })
  unfolding id_seek fs_seek
  id_seek_lem fs id p d e h s = rw (e, s) (ground (arith, h))

  flush_calls :
      (fs fs' : Fs D) (n : Inode) (d : D)
      → id_is_valid fs n.id ≡ true
      → is_rw fs ≡ true
      → id_seek api (update_used fs n) n.id ≡ (ok, fs')
      → api.write fs'.dev (some (encode n)) sizeof_encoded_inode ≡ (sizeof_encoded_inode, d)
      → flush api fs n ≡ (ok, record fs' { dev = d })
  unfolding flush write_inode fs_write
  flush_calls fs fs' n d v m s w =
      let from : Bool → Bool → Rc × Fs D → Rc × Fs D = λ valid writable q.
        if not valid
        then (arg_error, fs)
        else if not writable
        then (access_error, fs)
        else elim q.0 [ ok ↦ write_inode api q.1 n | other ↦ (other, q.1) ] in
      let sought = id_seek api (update_used fs n) n.id in
      ap (λ b. from b (is_rw fs) sought) v
      ∙ ap (λ b. from true b sought) m
      ∙ ap (λ q. from true true q) s
      ∙ ap (λ q. ((if q.0 == sizeof_encoded_inode then ok else io_error), record fs' { dev = q.1 }))
          w

  -- What follows the decoding of an inode.
  abbrev pub known : Fs D → Rc × Inode → Rc × Inode × Fs D
  known fs (rc, n) = elim rc [ ok ↦ (ok, n, update_used fs n) | other ↦ (other, n, fs) ]

  -- What follows the read of so many bytes.
  abbrev pub got : Fs D → Inode → Bool → Bytes → Rc × Inode × Fs D
  got fs tgt full bytes =
      if full
      then known fs (decode tgt (overwrite (replicate sizeof_encoded_inode 0) 0 bytes))
      else (ok, tgt, fs)

  pub read_inode_lem :
      (fs : Fs D) (tgt : Inode) (bytes : Bytes) (d : D)
      → api.read fs.dev true sizeof_encoded_inode ≡ (bytes, d)
      → read_inode api fs tgt
        ≡ got (record fs { dev = d }) tgt (length bytes == sizeof_encoded_inode) bytes
  unfolding read_inode fs_read
  read_inode_lem fs tgt bytes d r =
      ap (λ q. got (record fs { dev = q.1 }) tgt (length q.0 == sizeof_encoded_inode) q.0) r

  got_full :
      (fs : Fs D) (tgt : Inode) (bytes : Bytes)
      → length bytes ≡ sizeof_encoded_inode
      → got fs tgt (length bytes == sizeof_encoded_inode) bytes ≡ known fs (decode tgt bytes)
  got_full fs tgt bytes e =
      let full : (length bytes == sizeof_encoded_inode) ≡ true =
        ap (λ n. n == sizeof_encoded_inode) e in
      ap (λ b. got fs tgt b bytes) full
      ∙ ap (λ b. known fs (decode tgt b))
          (overwrite_all (replicate sizeof_encoded_inode 0) bytes (sym e))

  pub id_read_calls :
      (fs fs' : Fs D) (id : ℕ) (tgt : Inode)
      → id_is_valid fs id ≡ true
      → id_seek api fs id ≡ (ok, fs')
      → id_read api fs id tgt ≡ read_inode api fs' tgt
  unfolding id_read
  id_read_calls fs fs' id tgt v s =
      let from : Bool → Rc × Fs D → Rc × Inode × Fs D = λ valid q.
        if not valid
        then (arg_error, tgt, fs)
        else elim q.0 [ ok ↦ read_inode api q.1 tgt | other ↦ (other, tgt, q.1) ] in
      ap (λ b. from b (id_seek api fs id)) v ∙ ap (λ q. from true q) s

module _ {D : Type 0} {api : DevApi D} (L : DevLaws api) where
  -- Every inode but one is on the disk as it was.
  abbrev pub Others : Fs D → ℕ → Fs D → Type 0
  Others fs id fs' = (j : ℕ) → Has fs j → j ≢ id → stored L fs' j ≡ stored L fs j

  pub after_write :
      (fs fs' : Fs D) (n : Inode)
      → IsLaid L fs
      → Has fs n.id
      → Same fs fs'
      → L.view fs'.dev ≡ overwrite (L.view fs.dev) (place fs n.id) (encode n)
      → (stored L fs' n.id ≡ encode n) × Others fs n.id fs'
  unfolding stored
  after_write fs fs' n v h k e =
      let p = place_lem L fs n.id v h in
      let at : (j : ℕ)
          → slice (L.view fs'.dev) (place fs' j) sizeof_encoded_inode
            ≡ slice (overwrite (L.view fs.dev) (place fs n.id) (encode n)) (place fs j)
                sizeof_encoded_inode =
        λ j.
          ap (λ x. slice x (place fs' j) sizeof_encoded_inode) e
          ∙ ap
              (λ q.
                slice (overwrite (L.view fs.dev) (place fs n.id) (encode n)) q sizeof_encoded_inode)
              (Same-place k j) in
      (
        at n.id
            ∙ ap
                (λ m.
                  slice (overwrite (L.view fs.dev) (place fs n.id) (encode n)) (place fs n.id) m)
                (sym (length-encode n))
            ∙ slice-overwrite_self (L.view fs.dev) (place fs n.id) (encode n)
                (omega (arith, p.fits, length-encode n)),
        λ j h' ne.
            at j
            ∙ slice-overwrite_apart (L.view fs.dev) (place fs n.id) (place fs j)
                sizeof_encoded_inode (encode n)
                (subst
                  (λ m.
                    (place fs j + sizeof_encoded_inode ≤ place fs n.id)
                    ⊎ (place fs n.id + m ≤ place fs j))
                  (sym (length-encode n)) (apart L fs n.id j v h h' ne)),
      )

  -- On a writable filesystem, whose table of inodes lies in a device that keeps its laws, a flush of an
  -- inode with a number in range returns OK. It writes the record of the inode in its place on the device
  -- and nothing else there, so that the record is then the inode's and every other record is as it was; in
  -- memory it makes known whether the inode is used, and changes nothing else.
  pub inode_flush :
      (fs : Fs D) (n : Inode)
      → IsLaid L fs
      → is_rw fs ≡ true
      → Has fs n.id
      → (d : D) × (flush api fs n ≡ (ok, record (update_used fs n) { dev = d }))
        × IsLaid L (record (update_used fs n) { dev = d })
        × (L.view d ≡ overwrite (L.view fs.dev) (place fs n.id) (encode n))
        × (stored L (record (update_used fs n) { dev = d }) n.id ≡ encode n)
        × Others fs n.id (record (update_used fs n) { dev = d })
  inode_flush fs n v m h =
      let p = place_lem L fs n.id v h in
      let up = update_used-Same fs n in
      let u = update_used fs n in
      let dev = update_used_dev fs n in
      let v' : IsLaid L u =
        Same-IsLaid L up v (subst (λ x. L.Valid x) (sym dev) v.ready)
          (ap (λ x. length (L.view x)) dev) in
      let p' = place_lem L u n.id v' (Same-Has up n.id h) in
      let c =
        seek-write L u.dev (place u n.id) sizeof_encoded_inode (encode n) v'.ready (length-encode n)
          p'.fits in
      let fs' = record u { dev = c.1 } in
      let k : Same fs fs' = Same-trans up (moved-Same u c.1) in
      let view : L.view c.1 ≡ overwrite (L.view fs.dev) (place fs n.id) (encode n) =
        c.5
        ∙ ap (λ x. overwrite (L.view x) (place u n.id) (encode n)) dev
        ∙ ap (λ q. overwrite (L.view fs.dev) q (encode n)) (Same-place up n.id) in
      let w = after_write fs fs' n v h k view in
      (
        c.1,
        flush_calls api fs (record u { dev = c.0 }) n c.1 p.valid m
            (id_seek_lem api u n.id (place u n.id) c.0 p'.is p'.some_pos c.2) c.3,
        Same-IsLaid L k v c.4
            (ap length view ∙ length-overwrite (L.view fs.dev) (place fs n.id) (encode n)),
        view,
        w.0,
        w.1,
      )

  -- With a number in range, the record that is there is decoded, and the inode is made known.
  pub id_read_lem :
      (fs : Fs D) (id : ℕ) (tgt n : Inode)
      → IsLaid L fs
      → Has fs id
      → IsNarrow n
      → stored L fs id ≡ encode n
      → (d : D) × (id_read api fs id tgt
          ≡ (ok, stored_in tgt n, update_used (record fs { dev = d }) (stored_in tgt n)))
        × L.Valid d
        × (L.view d ≡ L.view fs.dev)
  unfolding stored
  id_read_lem fs id tgt n v h w e =
      let p = place_lem L fs id v h in
      let c = seek-read L fs.dev (place fs id) sizeof_encoded_inode v.ready p.fits in
      (
        c.1,
        id_read_calls api fs (record fs { dev = c.0 }) id tgt p.valid
              (id_seek_lem api fs id (place fs id) c.0 p.is p.some_pos c.2)
            ∙ read_inode_lem api (record fs { dev = c.0 }) tgt (encode n) c.1
                (c.3 ∙ ap (λ b. (b, c.1)) e)
            ∙ got_full api (record fs { dev = c.1 }) tgt (encode n) (length-encode n)
            ∙ ap (λ q. known api (record fs { dev = c.1 }) q) (decode-encode tgt n w),
        c.4,
        c.5,
      )

  -- On such a filesystem, an inode whose stored members are numbers of their widths is read again as it was
  -- flushed, into any inode, whose other members are left. The device then holds what the flush made of it.
  pub id_read-flush :
      (fs : Fs D) (n tgt : Inode)
      → IsLaid L fs
      → is_rw fs ≡ true
      → Has fs n.id
      → IsNarrow n
      → (fs' fs2 : Fs D) × (flush api fs n ≡ (ok, fs'))
        × (id_read api fs' n.id tgt ≡ (ok, stored_in tgt n, fs2))
        × (L.view fs2.dev ≡ overwrite (L.view fs.dev) (place fs n.id) (encode n))
  id_read-flush fs n tgt v m h w =
      let f = inode_flush fs n v m h in
      let fs' = record (update_used fs n) { dev = f.0 } in
      let r = id_read_lem fs' n.id tgt n f.2 (Same-Has (update_used-Same fs n) n.id h) w f.4 in
      (
        fs',
        update_used (record fs' { dev = r.0 }) (stored_in tgt n),
        f.1,
        r.1,
        ap (λ d. L.view d) (update_used_dev (record fs' { dev = r.0 }) (stored_in tgt n))
            ∙ r.3
            ∙ f.3,
      )
