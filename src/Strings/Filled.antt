-- ===== src/Strings/Filled.antt =====
-- The bytes of a string buffer: a C string, and zeros behind it.
use whefs.Common.{
  ℕ, zero, suc, ◌-◌, ◌<◌, ◌≤◌, ◌≡◌, inl, inr, refl, ap, sym, ◌∙◌, arith, true, false, Option, none,
  some, [], ◌∷◌, ◌++◌, ◌==◌, if◌then◌else◌, length, take, drop, replicate, Bool-cases,
  length-replicate, length-take, length-drop, length-append, take-append_left,
}
use whefs.Encode.{Bytes}
use whefs.Encode.Cstring.{strlen}
use whefs.Strings.{filled}

-- What a C string function reads from it.
abbrev pub text : Option Bytes → Bytes
text none = []
text (some buf) = take (strlen buf) buf

pub strlen_end : (c : ℕ) (s : Bytes) → (c == 0) ≡ true → strlen (c ∷ s) ≡ 0
unfolding strlen
strlen_end c s e = ap (λ b. if b then 0 else suc (strlen s)) e

pub strlen_cons : (c : ℕ) (s : Bytes) → (c == 0) ≡ false → strlen (c ∷ s) ≡ suc (strlen s)
unfolding strlen
strlen_cons c s e = ap (λ b. if b then 0 else suc (strlen s)) e

pub strlen-length : (s : Bytes) → strlen s ≤ length s
unfolding strlen
strlen-length [] = omega arith
strlen-length (c ∷ s) = elim (Bool-cases (c == 0)) [
  | inl e ↦ omega (arith, strlen_end c s e)
  | inr e ↦ omega (arith, strlen_cons c s e, strlen-length s)
]

pub strlen_zeros : (n : ℕ) (r : Bytes) → 0 < n → strlen (replicate n 0 ++ r) ≡ 0
unfolding strlen
strlen_zeros zero r h = absurd (omega arith)
strlen_zeros (suc n) r h = refl

-- A C string in front of a null byte.
pub strlen-append : (s r : Bytes) → strlen r ≡ 0 → strlen (take (strlen s) s ++ r) ≡ strlen s
unfolding strlen
strlen-append [] r h = h
strlen-append (c ∷ s) r h = elim (Bool-cases (c == 0)) [
  | inl e ↦ let z = strlen_end c s e in ap (λ n. strlen (take n (c ∷ s) ++ r)) z ∙ h ∙ sym z
  | inr e ↦
      let z = strlen_cons c s e in
      ap (λ n. strlen (take n (c ∷ s) ++ r)) z
      ∙ strlen_cons c (take (strlen s) s ++ r) e
      ∙ ap suc (strlen-append s r h)
      ∙ sym z
]

pub length-taken : (s : Bytes) → strlen s ≡ length (take (strlen s) s)
length-taken s = omega (arith, length-take (strlen s) s, strlen-length s)

pub text-filled :
    (buf s : Bytes) (size : ℕ)
    → strlen s < size
    → text (some (filled buf size (strlen s) s)) ≡ take (strlen s) s
text-filled buf s size h =
    let tail : Bytes = replicate (size - strlen s) 0 ++ drop size buf in
    let z : strlen tail ≡ 0 = strlen_zeros (size - strlen s) (drop size buf) (omega (arith, h)) in
    ap (λ n. take n (take (strlen s) s ++ tail)) (strlen-append s tail z)
    ∙ take-append_left (strlen s) (take (strlen s) s) tail (length-taken s)

pub length-filled :
    (buf s : Bytes) (size : ℕ)
    → strlen s < size
    → length buf ≤ size
    → length (filled buf size (strlen s) s) ≡ size
length-filled buf s size h k = omega (
  arith,
  h,
  k,
  length-append (take (strlen s) s) (replicate (size - strlen s) 0 ++ drop size buf),
  length-append (replicate (size - strlen s) 0) (drop size buf),
  length-replicate {A = ℕ} (size - strlen s) 0,
  length-drop size buf,
  length-taken s,
)
