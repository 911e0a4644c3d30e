-- ===== src/Bits/Tests.antt =====
-- Concrete runs of the bitset, and its theorems at concrete inputs.
use whefs.Common.{ℕ, zero, suc, ◌<◌, ◌≡◌, refl, arith, true, some, [], ◌∷◌, get_or}
use whefs.Bits.{
  Whbits, byte_set, byte_unset, byte_get, whbits_set, whbits_unset, whbits_get, whbits_init,
}
use whefs.Bits.Laws.{IsValid, Puts, set-Puts}

-- Ten bits: 0, 7 and 8 are set.
abbrev ten_bits : Whbits
ten_bits = record { sz_bits = 10; sz_bytes = 2; sz_alloc = 2; bytes = 0x81 ∷ 1 ∷ [] }

ten_bits_ok : (i : ℕ) → get_or (0x81 ∷ 1 ∷ []) i 0 < 256
ten_bits_ok zero = omega arith
ten_bits_ok (suc zero) = omega arith
ten_bits_ok (suc (suc i)) = omega arith

ten_bits-IsValid : IsValid ten_bits
ten_bits-IsValid = record {
  alloced = refl;
  sized = refl;
  fits = omega arith;
  bytes_ok = ten_bits_ok;
}

-- Eight bits, which fill their only byte.
abbrev eight_bits : Whbits
eight_bits = record { sz_bits = 8; sz_bytes = 1; sz_alloc = 1; bytes = 0x81 ∷ [] }

eight_bits_ok : (i : ℕ) → get_or (0x81 ∷ []) i 0 < 256
eight_bits_ok zero = omega arith
eight_bits_ok (suc i) = omega arith

eight_bits-IsValid : IsValid eight_bits
eight_bits-IsValid = record {
  alloced = refl;
  sized = refl;
  fits = omega arith;
  bytes_ok = eight_bits_ok;
}

set_run :
    whbits_set (some ten_bits) 9 ≡ some (true, some (record ten_bits { bytes = 0x81 ∷ 3 ∷ [] }))
unfolding whbits_set byte_set
set_run = refl

unset_run :
    whbits_unset (some ten_bits) 7 ≡ some (true, some (record ten_bits { bytes = 1 ∷ 1 ∷ [] }))
unfolding whbits_unset byte_unset
unset_run = refl

get_run : whbits_get (some ten_bits) 8 ≡ some true
unfolding whbits_get byte_get
get_run = refl

init_run :
    whbits_init (λ n. true) (some eight_bits) 10 0xff
    ≡ (true, some (record { sz_bits = 10; sz_bytes = 2; sz_alloc = 2; bytes = 0x81 ∷ 0xff ∷ [] }))
unfolding whbits_init
init_run = refl

set-Puts_example :
    (b' : Whbits) × (whbits_set (some ten_bits) 9 ≡ some (true, some b')) × Puts ten_bits 9 true b'
set-Puts_example = set-Puts 9 ten_bits-IsValid (omega arith)
