-- ===== src/Hash/Cells.antt =====
-- Lists of cells by what is in them: how many pass a test, and in which order they stand.
use whefs.Common.{
  ℕ, zero, suc, ◌+◌, ◌<◌, ◌≤◌, ◌≡◌, refl, sym, ◌∙◌, arith, Bool, true, List, [], ◌∷◌, ◌++◌, ◌==◌,
  ◌&&◌, not, if◌then◌else◌, length, get_or, replicate, Bool-cases, inl, inr,
}
use whefs.Hash.{HashId, empty, Sign, Library, compare_numbers, shave}

-- How many cells pass a test. Lists with the same numbers for every test are permutations.
abbrev pub amount : (HashId → Bool) → List HashId → ℕ
amount p [] = 0
amount p (e ∷ list) = (if p e then 1 else 0) + amount p list

abbrev pub Same : List HashId → List HashId → Type 0
Same xs ys = (p : HashId → Bool) → amount p xs ≡ amount p ys

-- Whether a cell is in use, and a test of those that are.
abbrev pub live : HashId → Bool
live e = not (e.id == 0)

abbrev pub is_live : (HashId → Bool) → HashId → Bool
is_live p e = live e && p e

-- Every cell passes a test.
abbrev pub All : (HashId → Bool) → List HashId → Type 0
All p [] = Unit {0}
All p (e ∷ list) = (p e ≡ true) × All p list

-- In the order of a key.
abbrev pub AtLeast : (HashId → ℕ) → ℕ → List HashId → Type 0
AtLeast key k [] = Unit {0}
AtLeast key k (e ∷ list) = (k ≤ key e) × AtLeast key k list

abbrev pub Ordered : (HashId → ℕ) → List HashId → Type 0
Ordered key [] = Unit {0}
Ordered key (e ∷ list) = AtLeast key (key e) list × Ordered key list

-- What is documented of `qsort`: it permutes the cells, and where the comparison of the cells is that
-- of their keys, it puts them in the order of their keys.
pub record IsQsort (lib : Library) : Type 0 where
  pub permutes : (c : HashId → HashId → Sign) (list : List HashId) → Same (lib.qsort c list) list
  pub orders :
      (c : HashId → HashId → Sign) (key : HashId → ℕ) (p : HashId → Bool) (list : List HashId)
      → ((a b : HashId) → p a ≡ true → p b ≡ true → c a b ≡ compare_numbers (key a) (key b))
      → All p list
      → Ordered key (lib.qsort c list)

pub amount-append :
    (p : HashId → Bool) (xs ys : List HashId) → amount p (xs ++ ys) ≡ amount p xs + amount p ys
amount-append p [] ys = omega arith
amount-append p (e ∷ xs) ys = omega (arith, amount-append p xs ys)

pub amount_all : (list : List HashId) → amount (λ e. true) list ≡ length list
amount_all [] = refl
amount_all (e ∷ list) = omega (arith, amount_all list)

pub Same-length : (xs ys : List HashId) → Same xs ys → length xs ≡ length ys
Same-length xs ys s = sym (amount_all xs) ∙ s (λ e. true) ∙ amount_all ys

-- Empty cells do not count among those in use.
pub amount-empties : (p : HashId → Bool) (n : ℕ) → amount (is_live p) (replicate n empty) ≡ 0
amount-empties p zero = refl
amount-empties p (suc n) = omega (arith, amount-empties p n)

pub amount-shave :
    (p : HashId → Bool) (list : List HashId)
    → amount (is_live p) (shave list) ≡ amount (is_live p) list
unfolding shave
amount-shave p [] = refl
amount-shave p (e ∷ list) = ground (arith, amount-shave p list)

pub All-true : (list : List HashId) → All (λ e. true) list
All-true [] = tt
All-true (e ∷ list) = (refl, All-true list)

pub Ordered-shave :
    (key : HashId → ℕ) (list : List HashId) → Ordered key list → Ordered key (shave list)
unfolding shave
Ordered-shave key [] o = tt
Ordered-shave key (e ∷ list) o = elim (Bool-cases (e.id == 0)) [
  | inl gone ↦ rw gone (Ordered-shave key list o.1)
  | inr stays ↦ rw stays o
]

AtLeast-get :
    (key : HashId → ℕ) (k : ℕ) (list : List HashId) (j : ℕ)
    → AtLeast key k list
    → j < length list
    → k ≤ key (get_or list j empty)
AtLeast-get key k [] j a h = absurd (omega arith)
AtLeast-get key k (e ∷ list) zero a h = a.0
AtLeast-get key k (e ∷ list) (suc j) a h = AtLeast-get key k list j a.1 (omega arith)

-- By indices.
pub Ordered-get :
    (key : HashId → ℕ) (list : List HashId) (i j : ℕ)
    → Ordered key list
    → i ≤ j
    → j < length list
    → key (get_or list i empty) ≤ key (get_or list j empty)
Ordered-get key [] i j o h k = absurd (omega arith)
Ordered-get key (e ∷ list) zero zero o h k = omega arith
Ordered-get key (e ∷ list) zero (suc j) o h k = AtLeast-get key (key e) list j o.0 (omega arith)
Ordered-get key (e ∷ list) (suc i) zero o h k = absurd (omega arith)
Ordered-get key (e ∷ list) (suc i) (suc j) o h k =
    Ordered-get key list i j o.1 (omega arith) (omega arith)
