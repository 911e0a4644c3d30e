-- ===== src/Bits.antt =====
-- src/whbits.h and src/whbits.c: a set of bits over allocated bytes.
-- `none` as a result is an access outside the allocated bytes, which C leaves undefined. A pointer
-- to a bitset is an option, with `none` for null.
pub mod Byte
pub mod Laws
pub mod Init
mod Tests
use Prim.Native.Nat.{bit_and, bit_or}
use whefs.Common.{
  ℕ, zero, suc, ◌+◌, ◌-◌, ◌*◌, ◌/◌, ◌%◌, ◌^◌, Bool, true, false, ◌||◌, Option, none, some, List, [],
  ◌∷◌, ◌++◌, ltb, leb, ◌==◌, if◌then◌else◌, get_or, set, take, replicate, length,
}

-- `whbits`; `bytes` holds the `sz_alloc` bytes of the allocation.
pub record Whbits : Type 0 where
  pub sz_bits : ℕ
  pub sz_bytes : ℕ
  pub sz_alloc : ℕ
  pub bytes : List ℕ

-- `WHBITS_INIT`.
abbrev pub init_obj : Whbits
init_obj = record { sz_bits = 0; sz_bytes = 0; sz_alloc = 0; bytes = [] }

-- The byte operations of the macros, on the bit `k` of a byte.
unfoldable pub byte_set : ℕ → ℕ → ℕ
byte_set v k = bit_or v (2 ^ k)

unfoldable pub byte_unset : ℕ → ℕ → ℕ
byte_unset v k = bit_and v (255 - 2 ^ k)

unfoldable pub byte_get : ℕ → ℕ → Bool
byte_get v k = if bit_and v (2 ^ k) == 0 then false else true

-- `WHBITS_SET`, `WHBITS_UNSET` and `WHBITS_GET`, which test no bound.
unfoldable pub set_macro : Whbits → ℕ → Option Whbits
set_macro b n =
    if ltb (n / 8) (length b.bytes)
    then some
        (record b { bytes = set b.bytes (n / 8) (byte_set (get_or b.bytes (n / 8) 0) (n % 8)) })
    else none

unfoldable pub unset_macro : Whbits → ℕ → Option Whbits
unset_macro b n =
    if ltb (n / 8) (length b.bytes)
    then some
        (record b { bytes = set b.bytes (n / 8) (byte_unset (get_or b.bytes (n / 8) 0) (n % 8)) })
    else none

unfoldable pub get_macro : Whbits → ℕ → Option Bool
get_macro b n =
    if ltb (n / 8) (length b.bytes)
    then some (byte_get (get_or b.bytes (n / 8) 0) (n % 8))
    else none

-- What `whbits_toggle` returns as a `char`: -1, 0 or 1.
pub data Toggled : Type 0 where
  refused now_unset now_set : Toggled

-- `whbits_set`: whether it was done, and the bitset after it.
unfoldable pub whbits_set : Option Whbits → ℕ → Option (Bool × Option Whbits)
unfolding set_macro
whbits_set none n = some (false, none)
whbits_set (some b) n =
    if ltb b.sz_bits n
    then some (false, some b)
    else elim (set_macro b n) [ none ↦ none | some b' ↦ some (true, some b') ]

unfoldable pub whbits_unset : Option Whbits → ℕ → Option (Bool × Option Whbits)
unfolding unset_macro
whbits_unset none n = some (false, none)
whbits_unset (some b) n =
    if ltb b.sz_bits n
    then some (false, some b)
    else elim (unset_macro b n) [ none ↦ none | some b' ↦ some (true, some b') ]

unfoldable pub whbits_get : Option Whbits → ℕ → Option Bool
unfolding get_macro
whbits_get none n = some false
whbits_get (some b) n = if ltb b.sz_bits n then some false else get_macro b n

-- `WHBITS_TOGGLE`.
unfoldable pub toggle_macro : Whbits → ℕ → Option (Toggled × Option Whbits)
unfolding get_macro set_macro unset_macro
toggle_macro b n = elim (get_macro b n) [
  | none ↦ none
  | some true ↦ elim (unset_macro b n) [ none ↦ none | some b' ↦ some (now_unset, some b') ]
  | some false ↦ elim (set_macro b n) [ none ↦ none | some b' ↦ some (now_set, some b') ]
]

unfoldable pub whbits_toggle : Option Whbits → ℕ → Option (Toggled × Option Whbits)
unfolding toggle_macro
whbits_toggle none n = some (refused, none)
whbits_toggle (some b) n = if ltb b.sz_bits n then some (refused, some b) else toggle_macro b n

unfoldable pub whbits_size_bits : Option Whbits → ℕ
whbits_size_bits none = 0
whbits_size_bits (some b) = b.sz_bits

unfoldable pub whbits_size_bytes : Option Whbits → ℕ
whbits_size_bytes none = 0
whbits_size_bytes (some b) = b.sz_bytes

unfoldable pub whbits_free_bits : Option Whbits → Option Whbits
whbits_free_bits none = none
whbits_free_bits (some b) = some init_obj

-- The bytes that `bitCount` bits take.
abbrev pub bytes_for : ℕ → ℕ
bytes_for bit_count = bit_count / 8 + (if bit_count % 8 == 0 then 0 else 1)

-- `memset(bytes + from, v, sz_alloc - from)`: every byte from `from` to the end of the allocation.
abbrev pub fill_from : List ℕ → ℕ → ℕ → List ℕ
fill_from bytes from v = take from bytes ++ replicate (length bytes - from) v

-- `whbits_init`: whether it succeeded, and the bitset after it. `allocates` is what `realloc` of so
-- many bytes answers.
unfoldable pub whbits_init : (ℕ → Bool) → Option Whbits → ℕ → ℕ → Bool × Option Whbits
whbits_init allocates none bit_count initial = (false, none)
whbits_init allocates (some b) bit_count initial =
    let len_b : ℕ = bytes_for bit_count in
    if bit_count == 0
    then (false, some b)
    else if leb len_b b.sz_alloc
    then if b.sz_bytes == len_b
      then (true, some (record b { sz_bits = bit_count }))
      else if ltb b.sz_bytes len_b
      then (
        true,
        some (record b {
          sz_bits = bit_count;
          sz_bytes = len_b;
          bytes = fill_from b.bytes b.sz_bytes initial;
        }),
      )
      else (
        true,
        some (record b {
          sz_bits = bit_count;
          sz_bytes = len_b;
          bytes = fill_from b.bytes len_b initial;
        }),
      )
    else if allocates len_b
    then (
      true,
      some (record {
        sz_bits = bit_count;
        sz_bytes = len_b;
        sz_alloc = len_b;
        bytes = b.bytes ++ replicate (len_b - b.sz_alloc) initial;
      }),
    )
    else (false, some b)
