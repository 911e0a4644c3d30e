-- ===== src/Bits/Byte.antt =====
-- The laws of the bit operations on one byte, from tables over all bytes and bit numbers.
use whefs.Common.{
  ℕ, zero, suc, ◌<◌, ◌≡◌, refl, arith, Bool, true, false, ◌&&◌, if◌then◌else◌, ◌==◌, ltb, ltb→lt,
}
use whefs.Bits.{byte_set, byte_unset, byte_get}

-- A test of every number under a bound.
unfoldable passes : (ℕ → Bool) → ℕ → Bool
passes test zero = true
passes test (suc top) = if test top then passes test top else false

passes_at : (test : ℕ → Bool) (top i : ℕ) → i < top → passes test top ≡ true → test i ≡ true
unfolding passes
passes_at test zero i under all = absurd (omega arith)
passes_at test (suc top) i under all = ground (arith, passes_at test top i)

bool_eq : Bool → Bool → Bool
bool_eq true b = b
bool_eq false true = false
bool_eq false false = true

bool_eq_sound : (a b : Bool) → bool_eq a b ≡ true → a ≡ b
unfolding bool_eq
bool_eq_sound true b h = ground arith
bool_eq_sound false true h = ground arith
bool_eq_sound false false h = refl

-- One entry of the table: both operations at a byte `v`, a bit `k` and a bit `j` that is read.
entry : ℕ → ℕ → ℕ → Bool
entry v k j =
    bool_eq (byte_get (byte_set v k) j) (if k == j then true else byte_get v j)
    && (bool_eq (byte_get (byte_unset v k) j) (if k == j then false else byte_get v j)
        && (ltb (byte_set v k) 256 && ltb (byte_unset v k) 256))

table : passes (λ v. passes (λ k. passes (λ j. entry v k j) 8) 8) 256 ≡ true
unfolding passes entry bool_eq byte_set byte_unset byte_get
table = refl

-- What the table says at one entry.
pub record Entry (v k j : ℕ) : Type 0 where
  pub set_lem : byte_get (byte_set v k) j ≡ (if k == j then true else byte_get v j)
  pub unset_lem : byte_get (byte_unset v k) j ≡ (if k == j then false else byte_get v j)
  pub set-lt : byte_set v k < 256
  pub unset-lt : byte_unset v k < 256

and_true : (a b : Bool) → (a && b) ≡ true → (a ≡ true) × (b ≡ true)
and_true true b h = (refl, h)
and_true false b h = ground arith

entry-sound : (v k j : ℕ) → entry v k j ≡ true → Entry v k j
unfolding entry
entry-sound v k j h =
    let p = and_true _ _ h in
    let q = and_true _ _ p.1 in
    let r = and_true _ _ q.1 in
    record {
      set_lem = bool_eq_sound _ _ p.0;
      unset_lem = bool_eq_sound _ _ q.0;
      set-lt = ltb→lt _ _ r.0;
      unset-lt = ltb→lt _ _ r.1;
    }

pub byte_entry : (v k j : ℕ) → v < 256 → k < 8 → j < 8 → Entry v k j
byte_entry v k j hv hk hj = entry-sound v k j (
    passes_at (λ b. entry v k b) 8 j hj
      (passes_at (λ a. passes (λ b. entry v a b) 8) 8 k hk
        (passes_at (λ x. passes (λ a. passes (λ b. entry x a b) 8) 8) 256 v hv table)))
