-- ===== src/Common/Slices.antt =====
-- Buffers: what a part of a buffer is after a write before, at or after it.
use Prim.Native.Nat.{◌<◌, ◌*◌, ◌-◌, ℕ, zero, suc, ◌+◌, ◌≤◌}
use mathlib.Core.Path.{◌≡◌, refl, ap, ◌∙◌}
use mathlib.Core.Logic.{◌⊎◌, inl, inr}
use mathlib.Core.List.{List, [], ◌∷◌, ◌++◌}
use native.Mathlib.Omega.{arith}
use whefs.Common.Lists.{
  length, length-drop, overwrite-nil, take-overwrite_before, take, drop, slice, overwrite,
  take-overwrite, slice-take,
}

module _ {ℓ} {A : Type ℓ} where
  drop_after : (a b p : ℕ) (xs : List A) → p ≡ b + a → drop a (drop b xs) ≡ drop p xs
  drop_after a zero p xs e = ap (λ k. drop k xs) {x = a} {y = p} (omega (arith, e))
  drop_after zero (suc b) zero [] e = refl
  drop_after (suc a) (suc b) zero xs e = absurd (omega (arith, e))
  drop_after zero (suc b) zero (x ∷ xs) e = absurd (omega (arith, e))
  drop_after zero (suc b) (suc p) [] e = refl
  drop_after (suc a) (suc b) (suc p) [] e = refl
  drop_after a (suc b) (suc p) (x ∷ xs) e = drop_after a b p xs (omega (arith, e))

  pub drop-drop : (a b : ℕ) (xs : List A) → drop a (drop b xs) ≡ drop (b + a) xs
  drop-drop a b xs = drop_after a b (b + a) xs refl

  -- From `l` on, a write at `l + a` is a write at `a`.
  overwrite_after :
      (l a p : ℕ) (xs bs : List A)
      → p ≡ l + a
      → drop l (overwrite xs p bs) ≡ overwrite (drop l xs) a bs
  overwrite_after zero a p xs bs e = ap (λ k. overwrite xs k bs) (omega (arith, e))
  overwrite_after (suc l) a zero xs bs e = absurd (omega (arith, e))
  overwrite_after (suc l) a (suc p) [] bs e = refl
  overwrite_after (suc l) a (suc p) (x ∷ xs) bs e = overwrite_after l a p xs bs (omega (arith, e))

  pub drop-overwrite :
      (l a : ℕ) (xs bs : List A) → drop l (overwrite xs (l + a) bs) ≡ overwrite (drop l xs) a bs
  drop-overwrite l a xs bs = overwrite_after l a (l + a) xs bs refl

  pub overwrite_front :
      (xs bs : List A) → length bs ≤ length xs → overwrite xs 0 bs ≡ bs ++ drop (length bs) xs
  overwrite_front [] [] h = refl
  overwrite_front [] (b ∷ bs) h = absurd (omega arith)
  overwrite_front (x ∷ xs) [] h = refl
  overwrite_front (x ∷ xs) (b ∷ bs) h = ap (λ l. b ∷ l) (overwrite_front xs bs (omega arith))

  overwrite_next :
      (xs : List A) (p q : ℕ) (cs bs : List A)
      → q ≡ p + length cs
      → overwrite (overwrite xs p cs) q bs ≡ overwrite xs p (cs ++ bs)
  overwrite_next [] p q cs bs e = refl
  overwrite_next (x ∷ xs) zero q [] bs e =
      ap (λ k. overwrite (x ∷ xs) k bs) {x = q} {y = 0} (omega (arith, e))
  overwrite_next (x ∷ xs) zero zero (c ∷ cs) bs e = absurd (omega (arith, e))
  overwrite_next (x ∷ xs) zero (suc q) (c ∷ cs) bs e =
      ap (λ l. c ∷ l) (overwrite_next xs zero q cs bs (omega (arith, e)))
  overwrite_next (x ∷ xs) (suc p) zero cs bs e = absurd (omega (arith, e))
  overwrite_next (x ∷ xs) (suc p) (suc q) cs bs e =
      ap (λ l. x ∷ l) (overwrite_next xs p q cs bs (omega (arith, e)))

  -- A write of two parts in a row is one write.
  pub overwrite-append :
      (xs : List A) (p : ℕ) (cs bs : List A)
      → overwrite (overwrite xs p cs) (p + length cs) bs ≡ overwrite xs p (cs ++ bs)
  overwrite-append xs p cs bs = overwrite_next xs p (p + length cs) cs bs refl

  pub slice-slice :
      (xs : List A) (l k a n : ℕ)
      → a + n ≤ k
      → l + k ≤ length xs
      → slice (slice xs l k) a n ≡ slice xs (l + a) n
  slice-slice xs l k a n h room =
      slice-take k a n (drop l xs) h (omega (arith, length-drop l xs))
      ∙ ap (λ d. take n d) (drop-drop a l xs)

  pub slice-overwrite :
      (xs : List A) (l k a : ℕ) (bs : List A)
      → slice (overwrite xs (l + a) bs) l k ≡ overwrite (slice xs l k) a bs
  slice-overwrite xs l k a bs =
      ap (λ d. take k d) (drop-overwrite l a xs bs) ∙ take-overwrite k (drop l xs) a bs

  pub overwrite_all : (xs bs : List A) → length xs ≡ length bs → overwrite xs 0 bs ≡ bs
  overwrite_all [] [] e = refl
  overwrite_all [] (b ∷ bs) e = absurd (omega (arith, e))
  overwrite_all (x ∷ xs) [] e = absurd (omega (arith, e))
  overwrite_all (x ∷ xs) (b ∷ bs) e = ap (λ l. b ∷ l) (overwrite_all xs bs (omega (arith, e)))

  -- What is behind the first of two parts.
  pub drop-append_left : (n : ℕ) (xs ys : List A) → n ≡ length xs → drop n (xs ++ ys) ≡ ys
  drop-append_left zero [] ys e = refl
  drop-append_left zero (x ∷ xs) ys e = absurd (omega (arith, e))
  drop-append_left (suc n) [] ys e = absurd (omega (arith, e))
  drop-append_left (suc n) (x ∷ xs) ys e = drop-append_left n xs ys (omega (arith, e))

  -- A write that fits is found again at its place.
  pub drop-overwrite_self :
      (xs : List A) (p : ℕ) (bs : List A)
      → p + length bs ≤ length xs
      → drop p (overwrite xs p bs) ≡ bs ++ drop (length bs) (drop p xs)
  drop-overwrite_self xs p bs h =
      overwrite_after p 0 p xs bs (omega arith)
      ∙ overwrite_front (drop p xs) bs (omega (arith, length-drop p xs))

  drop_behind :
      (q : ℕ) (xs : List A) (p : ℕ) (bs : List A)
      → p + length bs ≤ q
      → drop q (overwrite xs p bs) ≡ drop q xs
  drop_behind zero xs p [] h = overwrite-nil xs p
  drop_behind zero xs p (b ∷ bs) h = absurd (omega arith)
  drop_behind (suc q) [] p bs h = refl
  drop_behind (suc q) (x ∷ xs) zero [] h = refl
  drop_behind (suc q) (x ∷ xs) zero (b ∷ bs) h = drop_behind q xs zero bs (omega arith)
  drop_behind (suc q) (x ∷ xs) (suc p) bs h = drop_behind q xs p bs (omega arith)

  -- A write does not change a part before it or behind it.
  pub slice-overwrite_apart :
      (xs : List A) (p q n : ℕ) (bs : List A)
      → (q + n ≤ p) ⊎ (p + length bs ≤ q)
      → slice (overwrite xs p bs) q n ≡ slice xs q n
  slice-overwrite_apart xs p q n bs (inl h) =
      ap (λ d. take n d) (overwrite_after q (p - q) p xs bs (omega (arith, h)))
      ∙ take-overwrite_before n (drop q xs) (p - q) bs (omega (arith, h))
  slice-overwrite_apart xs p q n bs (inr h) = ap (λ d. take n d) (drop_behind q xs p bs h)

-- Blocks of one size: the end of one is at most the begin of a later one.
module _ {ℓ} {A : Type ℓ} where
  -- A write behind some cells, and what is taken from there.
  pub overwrite-append_right :
      (xs ys bs : List A) (n k : ℕ)
      → n ≡ length xs + k
      → overwrite (xs ++ ys) n bs ≡ xs ++ overwrite ys k bs
  overwrite-append_right [] ys bs n k e =
      ap (λ m. overwrite ys m bs) {x = n} {y = k} (omega (arith, e))
  overwrite-append_right (x ∷ xs) ys bs zero k e = absurd (omega (arith, e))
  overwrite-append_right (x ∷ xs) ys bs (suc n) k e =
      ap (λ l. x ∷ l) (overwrite-append_right xs ys bs n k (omega (arith, e)))

  pub take-append_right :
      (xs ys : List A) (n k : ℕ) → n ≡ length xs + k → take n (xs ++ ys) ≡ xs ++ take k ys
  take-append_right [] ys n k e = ap (λ m. take m ys) {x = n} {y = k} (omega (arith, e))
  take-append_right (x ∷ xs) ys zero k e = absurd (omega (arith, e))
  take-append_right (x ∷ xs) ys (suc n) k e =
      ap (λ l. x ∷ l) (take-append_right xs ys n k (omega (arith, e)))

pub mul-lt : (i c s : ℕ) → i < c → i * s + s ≤ c * s
mul-lt i zero s h = absurd (omega (arith, h))
mul-lt zero (suc c) s h = omega arith
mul-lt (suc i) (suc c) s h = omega (arith, mul-lt i c s (omega (arith, h)))
