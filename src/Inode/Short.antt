-- ===== src/Inode/Short.antt =====
-- The read of an inode whose record is not all on the device.
use whefs.Common.{
  ℕ, ◌<◌, ◌≡◌, ap, ◌∙◌, arith, Bool, true, false, Option, none, some, ◌==◌, if◌then◌else◌, not,
  length,
}
use whefs.Rc.{Rc, ok, arg_error}
use whefs.Encode.{Bytes}
use whefs.Device.{DevApi}
use whefs.Fs.{Fs, sizeof_encoded_inode}
use whefs.Inode.{Inode, empty, id_is_valid, id_seek, id_read, read_flags}
use whefs.Inode.Flush.{got, read_inode_lem, id_read_calls}

module _ {D : Type 0} (api : DevApi D) where
  id_read_short :
      (fs fs' : Fs D) (id : ℕ) (tgt : Inode) (bytes : Bytes) (d : D)
      → id_is_valid fs id ≡ true
      → id_seek api fs id ≡ (ok, fs')
      → api.read fs'.dev true sizeof_encoded_inode ≡ (bytes, d)
      → length bytes < sizeof_encoded_inode
      → id_read api fs id tgt ≡ (ok, tgt, record fs' { dev = d })
  id_read_short fs fs' id tgt bytes d valid s r short =
      let part : (length bytes == sizeof_encoded_inode) ≡ false = ground (arith, short) in
      id_read_calls api fs fs' id tgt valid s
      ∙ read_inode_lem api fs' tgt bytes d r
      ∙ ap (λ b. got api (record fs' { dev = d }) tgt b bytes) part

  -- On every device, when the seek to an inode with a number in range succeeds but the read then gives
  -- fewer bytes than its record has, its flags are read with the code OK, and as 0, whatever the device
  -- holds: the inode looks unused.
  pub read_flags_short :
      (fs fs' : Fs D) (id : ℕ) (bytes : Bytes) (d : D)
      → id_is_valid fs id ≡ true
      → id_seek api fs id ≡ (ok, fs')
      → api.read fs'.dev true sizeof_encoded_inode ≡ (bytes, d)
      → length bytes < sizeof_encoded_inode
      → read_flags api fs id ≡ (ok, some 0, record fs' { dev = d })
  unfolding read_flags
  read_flags_short fs fs' id bytes d valid s r short =
      let from : Bool → Rc × Inode × Fs D → Rc × Option ℕ × Fs D = λ b q.
        if not b
        then (arg_error, none, fs)
        else elim q.0 [ ok ↦ (ok, some q.1.flags, q.2) | other ↦ (other, none, q.2) ] in
      ap (λ b. from b (id_read api fs id empty)) valid
      ∙ ap (λ q. from true q) (id_read_short fs fs' id empty bytes d valid s r short)
