-- ===== src/Fs/Calls.antt =====
-- The positioned calls of the device of a filesystem, `whefs_fs_writeat` and `whefs_fs_readat`.
use whefs.Common.{ℕ, ◌≡◌, arith, true, some, pos}
use whefs.Encode.{Bytes}
use whefs.Device.{DevApi, seek_set}
use whefs.Fs.{Fs, fs_seek, fs_read, fs_write, fs_readat, fs_writeat}

module _ {D : Type 0} (api : DevApi D) where
  pub fs_writeat_lem :
      (fs : Fs D) (at n : ℕ) (src : Bytes) (d1 d2 : D)
      → api.seek fs.dev (pos at) seek_set ≡ (at, d1)
      → api.write d1 (some src) n ≡ (n, d2)
      → fs_writeat api fs at (some src) n ≡ (n, record fs { dev = d2 })
  unfolding fs_writeat fs_seek fs_write
  fs_writeat_lem fs at n src d1 d2 s w = ground (arith, s, w)

  pub fs_readat_lem :
      (fs : Fs D) (at n : ℕ) (bytes : Bytes) (d1 d2 : D)
      → api.seek fs.dev (pos at) seek_set ≡ (at, d1)
      → api.read d1 true n ≡ (bytes, d2)
      → fs_readat api fs at true n ≡ (bytes, record fs { dev = d2 })
  unfolding fs_readat fs_seek fs_read
  fs_readat_lem fs at n bytes d1 d2 s r = ground (arith, s, r)
