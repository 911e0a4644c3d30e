-- ===== src/Device.antt =====
-- The device interface `whio_dev_api` of include/wh/whio/whio_dev.h, as the record of the operations
-- that its clients call, and what a client may rely on inside a device's contents.
mod Kinds
pub mod Seek
pub mod Memmap
pub mod Membuf
pub mod Subdev
pub mod Client
pub mod Calls
mod Tests
pub use Kinds.{Whence, seek_set, seek_end, seek_cur, other}
use whefs.Common.{
  ℕ, ◌+◌, ◌≤◌, ◌<◌, ◌≡◌, Bool, true, Option, none, some, List, length, take, slice, overwrite, ℤ,
  pos,
}
use whefs.Rc.{Rc, size_t_error}
use whefs.Encode.{Bytes, Ptr}

-- A device's state is passed in and out. `read d dest n` gives the bytes that are copied to the
-- caller's memory, where `dest` says whether that pointer is not null; `write d src n` the count.
pub record DevApi (D : Type 0) : Type 0 where
  pub read : D → Bool → ℕ → Bytes × D
  pub write : D → Ptr → ℕ → ℕ × D
  pub seek : D → ℤ → Whence → ℕ × D
  pub tell : D → ℕ

-- What a client relies on: seeks, reads and writes inside the contents do what they say.
pub record DevLaws {D : Type 0} (api : DevApi D) : Type 1 where
  -- The states that the laws are about.
  pub Valid : D → Type 0
  -- The bytes up to the end of the device, and the position of the next read or write.
  pub view : D → Bytes
  pub cursor : D → ℕ
  pub cursor-le : (d : D) → Valid d → cursor d ≤ length (view d)
  pub view-lt : (d : D) → Valid d → length (view d) < size_t_error
  pub tell_lem : (d : D) → Valid d → api.tell d ≡ cursor d
  pub seek_lem :
      (d : D) (n : ℕ)
      → Valid d
      → n ≤ length (view d)
      → (d' : D) × (api.seek d (pos n) seek_set ≡ (n, d'))
        × Valid d'
        × (view d' ≡ view d)
        × (cursor d' ≡ n)
  pub read_lem :
      (d : D) (n : ℕ)
      → Valid d
      → cursor d + n ≤ length (view d)
      → (d' : D) × (api.read d true n ≡ (slice (view d) (cursor d) n, d'))
        × Valid d'
        × (view d' ≡ view d)
        × (cursor d' ≡ cursor d + n)
  pub write_lem :
      (d : D) (src : Bytes) (n : ℕ)
      → Valid d
      → n ≤ length src
      → cursor d + n ≤ length (view d)
      → (d' : D) × (api.write d (some src) n ≡ (n, d'))
        × Valid d'
        × (view d' ≡ overwrite (view d) (cursor d) (take n src))
        × (cursor d' ≡ cursor d + n)
