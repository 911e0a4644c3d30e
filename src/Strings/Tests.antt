-- ===== src/Strings/Tests.antt =====
-- Strings: runs, and theorems at concrete inputs.
use whefs.Common.{◌≡◌, ◌⊎◌, refl, arith, true, false, some, [], ◌∷◌}
use whefs.Rc.{ok, alloc_error}
use whefs.Encode.{Bytes}
use whefs.Encode.Cstring.{strlen}
use whefs.Strings.{WhefsString, regrown, copy_cstring}
use whefs.Strings.Copy.{Stored, copy_cstring_lem}

abbrev hi : WhefsString
hi = record { string = some (72 ∷ 105 ∷ 0 ∷ 0 ∷ []); length = 2; alloced = 4 }

-- Five bytes, a null byte, and memory that is not a part of the string.
abbrev hello : Bytes
hello = 104 ∷ 101 ∷ 108 ∷ 108 ∷ 111 ∷ 0 ∷ 9 ∷ []

hello_long : strlen hello ≡ 5
unfolding strlen
hello_long = refl

copy_run :
    copy_cstring true (some hi) (some hello)
    ≡ some (
      ok,
      some (record {
        string = some (104 ∷ 101 ∷ 108 ∷ 108 ∷ 111 ∷ 0 ∷ 0 ∷ []);
        length = 5;
        alloced = 7;
      }),
    )
unfolding copy_cstring regrown strlen
copy_run = refl

copy_cstring_lem_example :
    ((true ≡ false) × (copy_cstring true (some hi) (some hello) ≡ some (alloc_error, some hi)))
    ⊎ Stored true hi hello
copy_cstring_lem_example =
    copy_cstring_lem true hi hello (record { sized = refl; small = omega arith })
      (omega (arith, hello_long)) (λ e. absurd (omega (arith, e, hello_long)))
