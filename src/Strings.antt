-- ===== src/Strings.antt =====
-- src/whefs_string.c and include/wh/whefs/whefs_string.h: strings over a buffer that is used again. The
-- next string of a chain is left alone by what is here, and left out.
pub mod Filled
pub mod Copy
mod Tests
use whefs.Common.{
  ℕ, zero, suc, ◌+◌, ◌-◌, ◌*◌, ◌/◌, ◌%◌, ◌^◌, Bool, true, false, Option, none, some, List, [], ◌++◌,
  ◌==◌, ltb, leb, not, if◌then◌else◌, length, take, drop, replicate,
}
use whefs.Rc.{Rc, ok, arg_error, range_error, alloc_error}
use whefs.Encode.{Bytes}
use whefs.Encode.Cstring.{strlen}

-- `whefs_string_size_t` is `uint16_t`.
abbrev pub string_size_bound : ℕ
string_size_bound = 2 ^ 16

-- `whefs_string`: the bytes behind `string`, of which there are `alloced`.
pub record WhefsString : Type 0 where
  pub string : Option Bytes
  pub length : ℕ
  pub alloced : ℕ

abbrev pub empty : WhefsString
empty = record { string = none; length = 0; alloced = 0 }

-- Copying a string of `slen` bytes in front of `size - slen` zeros, into a buffer.
abbrev pub filled : Bytes → ℕ → ℕ → Bytes → Bytes
filled buf size slen str = take slen str ++ (replicate (size - slen) 0 ++ drop size buf)

-- The memory is there: what was behind `string` after `realloc`, whose bytes are all written.
unfoldable pub regrown : WhefsString → ℕ → ℕ → Bytes → WhefsString
regrown tgt alen slen str = record {
  string = some (filled [] alen slen str);
  length = slen % string_size_bound;
  alloced = alen;
}

-- The result is undefined where a size of more than 16 bits is converted from `double`, or where the bytes
-- behind a null pointer are written.
unfoldable pub copy_cstring :
    Bool → Option WhefsString → Option Bytes → Option (Rc × Option WhefsString)
unfolding regrown strlen
copy_cstring allocates none str = some (arg_error, none)
copy_cstring allocates (some tgt) none = some (arg_error, some tgt)
copy_cstring allocates (some tgt) (some str) =
    let slen = strlen str in
    let alen = slen * 3 / 2 in
    if slen == 0
    then elim tgt.string [
      | none ↦ some (ok, some (record tgt { length = 0 }))
      | some buf ↦ some (
        ok,
        some (record tgt {
          string = some (replicate tgt.alloced 0 ++ drop tgt.alloced buf);
          length = 0;
        }),
      )
    ]
    else if ltb slen tgt.alloced
    then elim tgt.string [
      | none ↦ none
      | some buf ↦ some (
        ok,
        some (record tgt {
          string = some (filled buf tgt.alloced slen str);
          length = slen % string_size_bound;
        }),
      )
    ]
    else if leb (string_size_bound - 1) (slen + 1)
    then some (range_error, some tgt)
    else if leb string_size_bound alen
    then none
    else if ltb alen slen
    then some (range_error, some tgt)
    else if allocates
    then some (ok, some (regrown tgt alen slen str))
    else some (alloc_error, some tgt)
