-- ===== src/Device/Subdev/Bounds.antt =====
-- What the fence of a subdevice does not do: a bound of 0, and a sum that wraps.
use whefs.Common.{ℕ, ◌+◌, ◌<◌, ◌≤◌, ◌≡◌, refl, arith, true, some, [], pos}
use whefs.Rc.{size_bound, size_t_error}
use whefs.Encode.{Ptr}
use whefs.Device.{DevApi, seek_set}
use whefs.Device.Subdev.{
  Subdev, Dev, create, read, read_dev, write, write_dev, write_part, eof, fenced,
}

-- A subdevice that is made with the upper bound 0, for no bound, is at its end at once: every read
-- and every write on it moves nothing, whatever the parent.
no_bound_moves_nothing :
    {P : Type 0} (api : DevApi P) (parent : P) (lower n : ℕ) (src : Ptr)
    → (d : Dev P) × (create true parent lower 0 ≡ some d)
      × (eof d ≡ some true)
      × (read_dev api d true n ≡ (some [], d))
      × (write_dev api d src n ≡ (0, d))
unfolding create eof read_dev write_dev read write
no_bound_moves_nothing api parent lower n src = (
  some (record { parent = parent; lower = lower; upper = 0; at = lower }),
  refl,
  ground arith,
  ground arith,
  ground arith,
)

-- Where the cursor is inside the bounds, but the sum of the cursor and `n` wraps, the parent is asked to
-- write all `n` bytes at the cursor, which goes past the upper bound.
wrapped_write_escapes :
    {P : Type 0} (api : DevApi P) (sub : Subdev P) (p : P) (src : Ptr) (n : ℕ)
    → sub.lower ≤ sub.at
    → sub.at < sub.upper
    → sub.upper < size_bound
    → n < size_bound
    → size_bound ≤ sub.at + n
    → api.tell sub.parent < size_t_error
    → api.seek sub.parent (pos sub.at) seek_set ≡ (sub.at, p)
    → ((write api sub src n).0 ≡ (api.write p src n).0) × (sub.upper < sub.at + n)
unfolding write write_part
wrapped_write_escapes api sub p src n l h u k e t s =
    let f : fenced sub n ≡ n = ground arith in (ground (arith, f, s), omega arith)
