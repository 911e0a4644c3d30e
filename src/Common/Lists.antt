-- ===== src/Common/Lists.antt =====
-- Lists measured and indexed by native numbers: byte buffers, and `memcpy` into and out of them.
use Prim.Native.Nat.{ℕ, zero, suc, ◌+◌, ◌-◌, ◌<◌, ◌≤◌, min}
use mathlib.Core.Path.{◌≡◌, refl, ap, ◌∙◌}
use mathlib.Core.Logic.{◌≢◌, ◌⊎◌, inl, inr}
use mathlib.Core.List.{List, [], ◌∷◌, ◌++◌}
use native.Mathlib.Omega.{arith}

module _ {ℓ} {A : Type ℓ} where
  abbrev pub length : List A → ℕ
  length [] = 0
  length (x ∷ xs) = suc (length xs)

  abbrev pub get_or : List A → ℕ → A → A
  get_or [] i d = d
  get_or (x ∷ xs) zero d = x
  get_or (x ∷ xs) (suc i) d = get_or xs i d

  -- A write out of bounds changes nothing.
  abbrev pub set : List A → ℕ → A → List A
  set [] i v = []
  set (x ∷ xs) zero v = v ∷ xs
  set (x ∷ xs) (suc i) v = x ∷ set xs i v

  abbrev pub take : ℕ → List A → List A
  take zero xs = []
  take (suc n) [] = []
  take (suc n) (x ∷ xs) = x ∷ take n xs

  abbrev pub drop : ℕ → List A → List A
  drop zero xs = xs
  drop (suc n) [] = []
  drop (suc n) (x ∷ xs) = drop n xs

  abbrev pub replicate : ℕ → A → List A
  replicate zero a = []
  replicate (suc n) a = a ∷ replicate n a

  -- The `n` elements from index `p` on, fewer at the end.
  abbrev pub slice : List A → ℕ → ℕ → List A
  slice xs p n = take n (drop p xs)

  -- `memcpy(xs + p, bs, length bs)`, clipped to the room that `xs` has.
  abbrev pub overwrite : List A → ℕ → List A → List A
  overwrite [] p bs = []
  overwrite (x ∷ xs) zero [] = x ∷ xs
  overwrite (x ∷ xs) zero (b ∷ bs) = b ∷ overwrite xs zero bs
  overwrite (x ∷ xs) (suc p) bs = x ∷ overwrite xs p bs

module _ {ℓ} {A : Type ℓ} where
  pub length-append : (xs ys : List A) → length (xs ++ ys) ≡ length xs + length ys
  length-append [] ys = omega arith
  length-append (x ∷ xs) ys = omega (arith, length-append xs ys)

  pub length-replicate : (n : ℕ) (a : A) → length (replicate n a) ≡ n
  length-replicate zero a = refl
  length-replicate (suc n) a = ap suc (length-replicate n a)

  pub length-take : (n : ℕ) (xs : List A) → length (take n xs) ≡ min n (length xs)
  length-take zero xs = omega arith
  length-take (suc n) [] = omega arith
  length-take (suc n) (x ∷ xs) = omega (arith, length-take n xs)

  pub length-drop : (n : ℕ) (xs : List A) → length (drop n xs) ≡ length xs - n
  length-drop zero xs = omega arith
  length-drop (suc n) [] = omega arith
  length-drop (suc n) (x ∷ xs) = omega (arith, length-drop n xs)

  pub length-set : (xs : List A) (i : ℕ) (v : A) → length (set xs i v) ≡ length xs
  length-set [] i v = refl
  length-set (x ∷ xs) zero v = refl
  length-set (x ∷ xs) (suc i) v = ap suc (length-set xs i v)

  pub get_or-set_self :
      (xs : List A) (i : ℕ) (v d : A) → i < length xs → get_or (set xs i v) i d ≡ v
  get_or-set_self [] i v d h = absurd (omega arith)
  get_or-set_self (x ∷ xs) zero v d h = refl
  get_or-set_self (x ∷ xs) (suc i) v d h = get_or-set_self xs i v d (omega arith)

  pub get_or-set_ne :
      (xs : List A) (i j : ℕ) (v d : A) → i ≢ j → get_or (set xs i v) j d ≡ get_or xs j d
  get_or-set_ne [] i j v d h = refl
  get_or-set_ne (x ∷ xs) zero zero v d h = absurd (h refl)
  get_or-set_ne (x ∷ xs) zero (suc j) v d h = refl
  get_or-set_ne (x ∷ xs) (suc i) zero v d h = refl
  get_or-set_ne (x ∷ xs) (suc i) (suc j) v d h = get_or-set_ne xs i j v d (λ e. h (ap suc e))

  pub take-all : (n : ℕ) (xs : List A) → length xs ≤ n → take n xs ≡ xs
  take-all zero [] h = refl
  take-all zero (x ∷ xs) h = absurd (omega arith)
  take-all (suc n) [] h = refl
  take-all (suc n) (x ∷ xs) h = ap (λ l. x ∷ l) (take-all n xs (omega arith))

  pub take-append_left : (n : ℕ) (xs ys : List A) → n ≡ length xs → take n (xs ++ ys) ≡ xs
  take-append_left zero [] ys h = refl
  take-append_left zero (x ∷ xs) ys h = absurd (omega arith)
  take-append_left (suc n) [] ys h = absurd (omega arith)
  take-append_left (suc n) (x ∷ xs) ys h = ap (λ l. x ∷ l) (take-append_left n xs ys (omega arith))

  pub length-slice : (xs : List A) (p n : ℕ) → length (slice xs p n) ≡ min n (length xs - p)
  length-slice xs p n = length-take n (drop p xs) ∙ ap (λ k. min n k) (length-drop p xs)

  pub length-overwrite :
      (xs : List A) (p : ℕ) (bs : List A) → length (overwrite xs p bs) ≡ length xs
  length-overwrite [] p bs = refl
  length-overwrite (x ∷ xs) zero [] = refl
  length-overwrite (x ∷ xs) zero (b ∷ bs) = ap suc (length-overwrite xs zero bs)
  length-overwrite (x ∷ xs) (suc p) bs = ap suc (length-overwrite xs p bs)

  -- What was copied in is read back.
  pub slice-overwrite_self :
      (xs : List A) (p : ℕ) (bs : List A)
      → p + length bs ≤ length xs
      → slice (overwrite xs p bs) p (length bs) ≡ bs
  slice-overwrite_self [] zero [] h = refl
  slice-overwrite_self [] zero (b ∷ bs) h = absurd (omega arith)
  slice-overwrite_self [] (suc p) [] h = refl
  slice-overwrite_self [] (suc p) (b ∷ bs) h = absurd (omega arith)
  slice-overwrite_self (x ∷ xs) zero [] h = refl
  slice-overwrite_self (x ∷ xs) zero (b ∷ bs) h =
      ap (λ l. b ∷ l) (slice-overwrite_self xs zero bs (omega arith))
  slice-overwrite_self (x ∷ xs) (suc p) bs h = slice-overwrite_self xs p bs (omega arith)

  -- An index outside the copied range keeps its element.
  pub get_or-overwrite_outside :
      (xs : List A) (p : ℕ) (bs : List A) (j : ℕ) (d : A)
      → (j < p) ⊎ (p + length bs ≤ j)
      → get_or (overwrite xs p bs) j d ≡ get_or xs j d
  get_or-overwrite_outside [] p bs j d h = refl
  get_or-overwrite_outside (x ∷ xs) zero [] j d h = refl
  get_or-overwrite_outside (x ∷ xs) zero (b ∷ bs) zero d h = absurd (omega arith)
  get_or-overwrite_outside (x ∷ xs) zero (b ∷ bs) (suc j) d h =
      get_or-overwrite_outside xs zero bs j d (inr (omega arith))
  get_or-overwrite_outside (x ∷ xs) (suc p) bs zero d h = refl
  get_or-overwrite_outside (x ∷ xs) (suc p) bs (suc j) d (inl h) =
      get_or-overwrite_outside xs p bs j d (inl (omega arith))
  get_or-overwrite_outside (x ∷ xs) (suc p) bs (suc j) d (inr h) =
      get_or-overwrite_outside xs p bs j d (inr (omega arith))

  pub get_or-append_left :
      (xs ys : List A) (i : ℕ) (d : A) → i < length xs → get_or (xs ++ ys) i d ≡ get_or xs i d
  get_or-append_left [] ys i d h = absurd (omega arith)
  get_or-append_left (x ∷ xs) ys zero d h = refl
  get_or-append_left (x ∷ xs) ys (suc i) d h = get_or-append_left xs ys i d (omega arith)

  pub get_or-append_right :
      (xs ys : List A) (i : ℕ) (d : A)
      → length xs ≤ i
      → get_or (xs ++ ys) i d ≡ get_or ys (i - length xs) d
  get_or-append_right [] ys i d h = ap (λ k. get_or ys k d) (omega arith)
  get_or-append_right (x ∷ xs) ys zero d h = absurd (omega arith)
  get_or-append_right (x ∷ xs) ys (suc i) d h =
      get_or-append_right xs ys i d (omega arith) ∙ ap (λ k. get_or ys k d) (omega arith)

  pub get_or-replicate : (n : ℕ) (a : A) (i : ℕ) (d : A) → i < n → get_or (replicate n a) i d ≡ a
  get_or-replicate zero a i d h = absurd (omega arith)
  get_or-replicate (suc n) a zero d h = refl
  get_or-replicate (suc n) a (suc i) d h = get_or-replicate n a i d (omega arith)

  pub get_or-outside : (xs : List A) (i : ℕ) (d : A) → length xs ≤ i → get_or xs i d ≡ d
  get_or-outside [] i d h = refl
  get_or-outside (x ∷ xs) zero d h = absurd (omega arith)
  get_or-outside (x ∷ xs) (suc i) d h = get_or-outside xs i d (omega arith)

  pub get_or-take :
      (n : ℕ) (xs : List A) (i : ℕ) (d : A) → i < n → get_or (take n xs) i d ≡ get_or xs i d
  get_or-take zero xs i d h = absurd (omega arith)
  get_or-take (suc n) [] i d h = refl
  get_or-take (suc n) (x ∷ xs) zero d h = refl
  get_or-take (suc n) (x ∷ xs) (suc i) d h = get_or-take n xs i d (omega arith)

  -- A copy leaves what stands before it.
  pub take-overwrite_before :
      (n : ℕ) (xs : List A) (p : ℕ) (bs : List A) → n ≤ p → take n (overwrite xs p bs) ≡ take n xs
  take-overwrite_before zero xs p bs h = refl
  take-overwrite_before (suc n) [] p bs h = refl
  take-overwrite_before (suc n) (x ∷ xs) zero bs h = absurd (omega arith)
  take-overwrite_before (suc n) (x ∷ xs) (suc p) bs h =
      ap (λ l. x ∷ l) (take-overwrite_before n xs p bs (omega arith))

  pub overwrite-nil : (xs : List A) (p : ℕ) → overwrite xs p [] ≡ xs
  overwrite-nil [] p = refl
  overwrite-nil (x ∷ xs) zero = refl
  overwrite-nil (x ∷ xs) (suc p) = ap (λ l. x ∷ l) (overwrite-nil xs p)

  -- Reading inside the first `n` bytes does not see that there are more.
  pub slice-take :
      (n p k : ℕ) (xs : List A) → p + k ≤ n → n ≤ length xs → slice (take n xs) p k ≡ slice xs p k
  slice-take zero zero zero xs h h' = refl
  slice-take zero zero (suc k) xs h h' = absurd (omega arith)
  slice-take zero (suc p) k xs h h' = absurd (omega arith)
  slice-take (suc n) p k [] h h' = absurd (omega arith)
  slice-take (suc n) zero zero (x ∷ xs) h h' = refl
  slice-take (suc n) zero (suc k) (x ∷ xs) h h' =
      ap (λ l. x ∷ l) (slice-take n zero k xs (omega arith) (omega arith))
  slice-take (suc n) (suc p) k (x ∷ xs) h h' = slice-take n p k xs (omega arith) (omega arith)

  pub take-overwrite :
      (n : ℕ) (xs : List A) (p : ℕ) (bs : List A)
      → take n (overwrite xs p bs) ≡ overwrite (take n xs) p bs
  take-overwrite zero xs p bs = refl
  take-overwrite (suc n) [] p bs = refl
  take-overwrite (suc n) (x ∷ xs) zero [] = refl
  take-overwrite (suc n) (x ∷ xs) zero (b ∷ bs) = ap (λ l. b ∷ l) (take-overwrite n xs zero bs)
  take-overwrite (suc n) (x ∷ xs) (suc p) bs = ap (λ l. x ∷ l) (take-overwrite n xs p bs)
