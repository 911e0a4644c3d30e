-- ===== src/Hash/Search.antt =====
-- The two searches of a hash list: on a sorted list they find the same cell.
use whefs.Common.{
  ℕ, zero, suc, ◌<◌, ◌≤◌, ◌≡◌, ◌≢◌, refl, ap, ◌∙◌, arith, true, false, Option, none, some, List, [],
  ◌∷◌, ◌==◌, length, get_or, Bool-cases, ltb-cases, inl, inr, ==_iff,
}
use whefs.Hash.{
  HashId, HashList, empty, Library, cmp, count, first_index, leftmost, search, answer, index_of,
}

-- The hash of the cell at an index.
abbrev pub hash_at : List HashId → ℕ → ℕ
hash_at list i = (get_or list i empty).hash

abbrev pub IsSorted : List HashId → Type 0
IsSorted list = (i j : ℕ) → i ≤ j → j < length list → hash_at list i ≤ hash_at list j

-- The answer of a search: the first cell with the hash, or there is none.
abbrev pub Finds : List HashId → ℕ → Option ℕ → Type 0
Finds list val none = (j : ℕ) → j < length list → hash_at list j ≢ val
Finds list val (some i) =
    (i < length list) × (hash_at list i ≡ val) × ((j : ℕ) → j < i → hash_at list j ≢ val)

-- What is documented of `bsearch`: on a sorted array it gives a cell with the key's hash, whichever
-- there are several of, and none only if there is none.
abbrev pub Matches : List HashId → ℕ → Option ℕ → Type 0
Matches list val none = (j : ℕ) → j < length list → hash_at list j ≢ val
Matches list val (some i) = (i < length list) × (hash_at list i ≡ val)

abbrev pub IsBsearch : Library → Type 0
IsBsearch lib =
    (key : HashId) (list : List HashId)
    → IsSorted list
    → Matches list key.hash (lib.bsearch key list cmp)

-- One cell further, behind one with another hash.
abbrev shifted : Option ℕ → Option ℕ
shifted none = none
shifted (some i) = some (suc i)

ne_of_test : {a b : ℕ} → (a == b) ≡ false → a ≢ b
ne_of_test other e = ground (arith, other)

one_more :
    (e : HashId) (list : List HashId) (val : ℕ) (o : Option ℕ)
    → (e.hash == val) ≡ false
    → Finds list val o
    → Finds (e ∷ list) val (shifted o)
one_more e list val none other f = elim [
  | zero ↦ λ h. ne_of_test other
  | suc j ↦ λ h. f j (omega arith)
]
one_more e list val (some i) other (lt, here, before) =
    (omega arith, here, elim [ zero ↦ λ h. ne_of_test other | suc k ↦ λ h. before k (omega arith) ])

pub first_index-Finds : (list : List HashId) (val : ℕ) → Finds list val (first_index list val)
unfolding first_index
first_index-Finds [] val = λ j h. absurd (omega arith)
first_index-Finds (e ∷ list) val = elim (Bool-cases (e.hash == val)) [
  | inl here ↦ rw here (omega arith, (==_iff _ _).0 here, λ j h. absurd (omega arith))
  | inr there' ↦
      rw there' (one_more e list val (first_index list val) there' (first_index-Finds list val))
]

index_eq :
    (list : List HashId) (val i j : ℕ) → Finds list val (some i) → Finds list val (some j) → i ≡ j
index_eq list val i j f g = elim (ltb-cases i j) [
  | inl less ↦ absurd (g.2 i less f.1)
  | inr most ↦ elim (ltb-cases j i) [ inl less ↦ absurd (f.2 j less g.1) | inr least ↦ omega arith ]
]

-- There is at most one answer.
pub Finds-unique :
    (list : List HashId) (val : ℕ) (a b : Option ℕ) → Finds list val a → Finds list val b → a ≡ b
Finds-unique list val none none f g = refl
Finds-unique list val none (some i) f g = absurd (f i g.0 g.1)
Finds-unique list val (some i) none f g = absurd (g i f.0 f.1)
Finds-unique list val (some i) (some j) f g = ap (λ k. some k) (index_eq list val i j f g)

-- The hashes behind a first match are larger than those before it.
apart :
    (list : List HashId) (val n : ℕ)
    → (hash_at list n == val) ≡ false
    → hash_at list n ≤ hash_at list (suc n)
    → hash_at list (suc n) ≡ val
    → (j : ℕ) → hash_at list j ≤ hash_at list n
    → hash_at list j ≢ val
apart list val n first h e j k same = ground (arith, first)

pub leftmost-Finds :
    (list : List HashId) (val i : ℕ)
    → IsSorted list
    → i < length list
    → hash_at list i ≡ val
    → Finds list val (some (leftmost list val i))
unfolding leftmost
leftmost-Finds list val zero s h e = (h, e, λ j k. absurd (omega arith))
leftmost-Finds list val (suc n) s h e = elim (Bool-cases (hash_at list n == val)) [
  | inl again ↦ rw again (leftmost-Finds list val n s (omega arith) ((==_iff _ _).0 again))
  | inr first ↦ rw first (
    h,
    e,
    λ j k same.
        apart list val n first (s n (suc n) (omega arith) h) e j
          (s j n (omega (arith, k)) (omega arith)) same,
  )
]

same_index : (a b : HashList) (o : Option ℕ) → (answer a o).0 ≡ (answer b o).0
same_index a b none = refl
same_index a b (some i) = refl

same_cells :
    (src : HashList) (o : Option ℕ)
    → (answer (record src { is_sorted = true }) o).1.list
      ≡ (answer (record src { is_sorted = false }) o).1.list
same_cells src none = refl
same_cells src (some i) = refl

module _ (lib : Library) (good : IsBsearch lib) where
  from_match :
      (list : List HashId) (val : ℕ) (o : Option ℕ)
      → IsSorted list
      → Matches list val o
      → Finds list val (elim o [ none ↦ none | some i ↦ some (leftmost list val i) ])
  from_match list val none s m = m
  from_match list val (some i) s m = leftmost-Finds list val i s m.0 m.1

  nothing-Finds : (list : List HashId) (val : ℕ) → (length list == 0) ≡ true → Finds list val none
  nothing-Finds list val h j k = ground (arith, h)

  -- On a list that is sorted if it is marked so, either search gives the first cell with the hash, or
  -- says that there is none.
  pub search-Finds :
      (src : HashList) (val : ℕ)
      → (src.is_sorted ≡ true → IsSorted src.list)
      → Finds src.list val (search lib src val)
  unfolding search
  search-Finds src val s = elim (Bool-cases (count src == 0)) [
    | inl nothing ↦ rw nothing (nothing-Finds src.list val nothing)
    | inr some_cells ↦ elim (Bool-cases src.is_sorted) [
      | inl sorted ↦
          rw (some_cells, sorted)
            (from_match src.list val _ (s sorted)
              (good (record empty { hash = val }) src.list (s sorted)))
      | inr unsorted ↦ rw (some_cells, unsorted) (first_index-Finds src.list val)
    ]
  ]

  -- On a sorted list the binary search, which the mark for sorted lists chooses, and the linear one,
  -- which its absence chooses, give the same index, and count the visit in the same cell.
  pub searches_agree :
      (src : HashList) (val : ℕ)
      → IsSorted src.list
      → ((index_of lib (record src { is_sorted = true }) val).0
          ≡ (index_of lib (record src { is_sorted = false }) val).0)
        × ((index_of lib (record src { is_sorted = true }) val).1.list
            ≡ (index_of lib (record src { is_sorted = false }) val).1.list)
  unfolding index_of
  searches_agree src val s =
      let fast = record src { is_sorted = true } in
      let slow = record src { is_sorted = false } in
      let e : search lib fast val ≡ search lib slow val =
        Finds-unique src.list val _ _ (search-Finds fast val (λ h. s))
          (search-Finds slow val (λ h. s)) in
      (
        ap (λ o. (answer fast o).0) e ∙ same_index fast slow (search lib slow val),
        ap (λ o. (answer fast o).1.list) e ∙ same_cells src (search lib slow val),
      )
