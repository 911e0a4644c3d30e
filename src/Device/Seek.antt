-- ===== src/Device/Seek.antt =====
-- The arithmetic of `whio_off_t` (64 bits, signed) on `whio_size_t` (32 bits), and the `seek` that
-- the two in-memory devices of src/whio_dev_mem.c share.
use whefs.Common.{
  ℕ, suc, ◌+◌, ◌-◌, ◌*◌, ◌%◌, ◌<◌, ◌≡◌, arith, Option, none, some, ltb, if◌then◌else◌, ◌&&◌, ℤ, pos,
  negsuc,
}
use whefs.Rc.{size_bound}
use whefs.Device.Kinds.{Whence, seek_set, seek_end, seek_cur, other}

-- `(whio_size_t)(base + off)`.
unfoldable pub offset_size : ℕ → ℤ → ℕ
offset_size base (pos n) = (base + n) % size_bound
offset_size base (negsuc n) = (base + size_bound - suc n % size_bound) % size_bound

-- The position that a relative seek from `base` comes to; `none` is an overflow or an underflow that
-- the source finds by comparing with `base`.
unfoldable pub relative_target : ℕ → ℤ → Option ℕ
unfolding offset_size
relative_target base (pos n) =
    if ltb 0 n && ltb (offset_size base (pos n)) base then none else some (offset_size base (pos n))
relative_target base (negsuc n) =
    if ltb base (offset_size base (negsuc n)) then none else some (offset_size base (negsuc n))

-- The `switch` over `whence`, for a device of `size` bytes with its cursor at `at`.
unfoldable pub mem_target : ℕ → ℕ → ℤ → Whence → Option ℕ
unfolding relative_target
mem_target size at (negsuc n) seek_set = none
mem_target size at (pos n) seek_set = some (n % size_bound)
mem_target size at off seek_end = relative_target size off
mem_target size at off seek_cur = relative_target at off
mem_target size at off other = none

-- Relative seeks are exact: from a position below 2 ^ 32, an offset of magnitude below 2 ^ 32 leads
-- to the sum, if that is a `whio_size_t`, and is refused otherwise.
relative_target_lem :
    (base n : ℕ)
    → base < size_bound
    → suc n < size_bound
    → (relative_target base (pos n) ≡ (if ltb (base + n) size_bound then some (base + n) else none))
      × (relative_target base (negsuc n) ≡ (if ltb n base then some (base - suc n) else none))
unfolding relative_target
relative_target_lem base n hb hn = ground arith

-- An offset of 2 ^ 32 or a multiple of it is not refused, and leads nowhere: the overflow test does
-- not find it.
relative_target_wraps :
    (base k : ℕ) → base < size_bound → relative_target base (pos (k * size_bound)) ≡ some base
unfolding relative_target
relative_target_wraps base k h = ground arith

offset_size-lt : (base : ℕ) (off : ℤ) → offset_size base off < size_bound
unfolding offset_size
offset_size-lt base (pos n) = omega arith
offset_size-lt base (negsuc n) = omega arith

relative_target-lt :
    (base : ℕ) (off : ℤ) (t : ℕ) → relative_target base off ≡ some t → t < size_bound
unfolding relative_target
relative_target-lt base (pos n) t h = ground (arith, offset_size-lt base (pos n))
relative_target-lt base (negsuc n) t h = ground (arith, offset_size-lt base (negsuc n))

-- Whatever a seek asks for, the position that it comes to is a `whio_size_t`.
pub mem_target-lt :
    (size at : ℕ) (off : ℤ) (whence : Whence) (t : ℕ)
    → mem_target size at off whence ≡ some t
    → t < size_bound
unfolding mem_target
mem_target-lt size at (pos n) seek_set t h = ground arith
mem_target-lt size at (negsuc n) seek_set t h = ground arith
mem_target-lt size at (pos n) seek_end t h = relative_target-lt size (pos n) t h
mem_target-lt size at (negsuc n) seek_end t h = relative_target-lt size (negsuc n) t h
mem_target-lt size at (pos n) seek_cur t h = relative_target-lt at (pos n) t h
mem_target-lt size at (negsuc n) seek_cur t h = relative_target-lt at (negsuc n) t h
mem_target-lt size at (pos n) other t h = ground arith
mem_target-lt size at (negsuc n) other t h = ground arith
