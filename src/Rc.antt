-- ===== src/Rc.antt =====
-- The return codes: `whio_rc` of src/whio.c and `whefs_rc` of src/whefs.c, and the widths of
-- `whio_size_t` and `whio_off_t` from include/wh/whio/whio_config.h.
use whefs.Common.{ℕ, ◌-◌, ◌+◌, ◌%◌, ◌^◌}

pub data Rc : Type 0 where
  ok arg_error io_error alloc_error internal_error range_error access_error : Rc
  consistency_error nyi_error unsupported_error type_error fs_full bad_magic_error : Rc

-- `whio_size_t` is `uint32_t`.
abbrev pub size_bound : ℕ
size_bound = 2 ^ 32

-- `whio_rc.SizeTError`, `(whio_size_t)-1`.
abbrev pub size_t_error : ℕ
size_t_error = size_bound - 1

-- `whio_size_t` addition.
abbrev pub add_size : ℕ → ℕ → ℕ
add_size a b = (a + b) % size_bound

-- `whio_size_t` subtraction of values below the bound.
abbrev pub sub_size : ℕ → ℕ → ℕ
sub_size a b = (a + size_bound - b) % size_bound

-- `whefs_id_type` is `uint16_t`, and `whefs_rc.IDTypeEnd` its last value.
abbrev pub id_bound : ℕ
id_bound = 2 ^ 16

abbrev pub id_type_end : ℕ
id_type_end = id_bound - 1
