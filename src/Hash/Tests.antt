-- ===== src/Hash/Tests.antt =====
-- Runs of the hash lists, with an insertion sort and a linear search in the place of `qsort` and `bsearch`.
use whefs.Common.{
  ℕ, ◌+◌, ◌<◌, ◌≤◌, ◌≡◌, ◌⊎◌, inl, inr, refl, ap, ◌∙◌, arith, Bool, true, false, Option, none, some,
  List, [], ◌∷◌, ◌++◌, if◌then◌else◌, length, get_or, set, ltb-cases,
}
use whefs.Hash.{
  HashId, HashList, empty, Sign, less, same, more, Library, compare_numbers, cmp, cmp_hits, shave,
  shaved, first_index, count, add, more_cells, add_slots, chomp_lv, search, index_of, sort,
}
use whefs.Hash.Search.{IsSorted, IsBsearch, Matches, Finds, first_index-Finds, searches_agree}
use whefs.Hash.Cells.{amount, Same, is_live, All, AtLeast, Ordered, IsQsort}
use whefs.Hash.Sorting.{sort-IsSorted}
use whefs.Hash.Chomp.{chomp_keeps_least_visited}
use whefs.Hash.Adding.{IsSound, Adds, Refuses, add-IsSound, add_slots_overruns}

abbrev insert : (HashId → HashId → Sign) → HashId → List HashId → List HashId
insert c e [] = e ∷ []
insert c e (x ∷ list) =
    let rest = insert c e list in elim (c e x) [ more ↦ x ∷ rest | other ↦ e ∷ x ∷ list ]

abbrev sorts : (HashId → HashId → Sign) → List HashId → List HashId
sorts c [] = []
sorts c (e ∷ list) = insert c e (sorts c list)

abbrev lib : Library
lib = record {
  makes = true;
  allocates = λ n. true;
  qsort = sorts;
  bsearch = λ key list c. first_index list key.hash;
}

swap : (a b c : ℕ) → a + (b + c) ≡ b + (a + c)
swap a b c = omega arith

amount-insert :
    (c : HashId → HashId → Sign) (e : HashId) (list : List HashId) (p : HashId → Bool)
    → amount p (insert c e list) ≡ amount p (e ∷ list)
amount-insert c e [] p = refl
amount-insert c e (x ∷ list) p =
    elim (c e x)
      as (λ s.
        amount p (elim s [ more ↦ x ∷ insert c e list | other ↦ e ∷ x ∷ list ])
        ≡ amount p (e ∷ x ∷ list)) [
          | more ↦
              ap (λ n. (if p x then 1 else 0) + n) (amount-insert c e list p)
              ∙ swap (if p x then 1 else 0) (if p e then 1 else 0) (amount p list)
          | other ↦ refl
        ]

amount-sorts : (c : HashId → HashId → Sign) (list : List HashId) → Same (sorts c list) list
amount-sorts c [] p = refl
amount-sorts c (e ∷ list) p =
    amount-insert c e (sorts c list) p
    ∙ ap (λ n. (if p e then 1 else 0) + n) (amount-sorts c list p)

-- What insertion keeps of the list, by the test that all its cells pass.
record Kept (key : HashId → ℕ) (p : HashId → Bool) (e : HashId) (list list' : List HashId)
    : Type 0 where
  passes : All p list'
  above : (k : ℕ) → k ≤ key e → AtLeast key k list → AtLeast key k list'
  ordered : Ordered key list'

AtLeast-more :
    (key : HashId → ℕ) (a b : ℕ) (list : List HashId)
    → a ≤ b
    → AtLeast key b list
    → AtLeast key a list
AtLeast-more key a b [] h l = tt
AtLeast-more key a b (e ∷ list) h l = (omega (arith, h, l.0), AtLeast-more key a b list h l.1)

in_front :
    (key : HashId → ℕ) (p : HashId → Bool) (e x : HashId) (list : List HashId)
    → p e ≡ true
    → All p (x ∷ list)
    → Ordered key (x ∷ list)
    → key e ≤ key x
    → Kept key p e (x ∷ list) (e ∷ x ∷ list)
in_front key p e x list h a o le = record {
  passes = (h, a);
  above = λ k l m. (l, m);
  ordered = ((le, AtLeast-more key (key e) (key x) list le o.0), o);
}

abbrev Agrees : (HashId → HashId → Sign) → (HashId → ℕ) → (HashId → Bool) → Type 0
Agrees c key p = (a b : HashId) → p a ≡ true → p b ≡ true → c a b ≡ compare_numbers (key a) (key b)

module _ (c : HashId → HashId → Sign) (key : HashId → ℕ) (p : HashId → Bool)
    (agrees : Agrees c key p) where
  insert-Kept :
      (e : HashId) (list : List HashId)
      → p e ≡ true
      → All p list
      → Ordered key list
      → Kept key p e list (insert c e list)
  insert-Kept e [] h a o = record { passes = (h, tt); above = λ k l m. (l, tt); ordered = (tt, tt) }
  insert-Kept e (x ∷ list) h a o =
      let rest = insert-Kept e list h a.1 o.1 in
      elim (ltb-cases (key e) (key x)) [
        | inl below ↦
            let s : c e x ≡ less = agrees e x h a.0 ∙ ground arith in
            rw (insert, s) (in_front key p e x list h a o (omega arith))
        | inr from ↦ elim (ltb-cases (key x) (key e)) [
          | inl over ↦
              let s : c e x ≡ more = agrees e x h a.0 ∙ ground arith in
              rw (insert, s)
                (record {
                  passes = (a.0, rest.passes);
                  above = λ k l m. (m.0, rest.above k l m.1);
                  ordered = (rest.above (key x) (omega arith) o.0, rest.ordered);
                })
          | inr under ↦
              let s : c e x ≡ same = agrees e x h a.0 ∙ ground arith in
              rw (insert, s) (in_front key p e x list h a o (omega arith))
        ]
      ]

  record Good (list : List HashId) : Type 0 where
    passes : All p list
    ordered : Ordered key list

  sorts-Good : (list : List HashId) → All p list → Good (sorts c list)
  sorts-Good [] a = record { passes = tt; ordered = tt }
  sorts-Good (e ∷ list) a =
      let rest = sorts-Good list a.1 in
      let k = insert-Kept e (sorts c list) a.0 rest.passes rest.ordered in
      record { passes = k.passes; ordered = k.ordered }

lib-IsQsort : IsQsort lib
lib-IsQsort = record {
  permutes = amount-sorts;
  orders = λ c key p list agrees a. (sorts-Good c key p agrees list a).ordered;
}

found-Matches :
    (list : List HashId) (val : ℕ) (o : Option ℕ) → Finds list val o → Matches list val o
found-Matches list val none f = f
found-Matches list val (some i) f = (f.0, f.1)

lib-IsBsearch : IsBsearch lib
lib-IsBsearch key list s =
    found-Matches list key.hash (first_index list key.hash) (first_index-Finds list key.hash)

abbrev cell : ℕ → ℕ → ℕ → HashId
cell hash id hits = record { hash = hash; id = id; hits = hits }

-- Four cells of an allocation of four, two with the same hash.
abbrev four : List HashId
four = cell 9 1 5 ∷ cell 4 2 0 ∷ cell 9 3 7 ∷ cell 2 4 1 ∷ []

abbrev holding : ℕ → List HashId → HashList
holding n list = record {
  alloced = n;
  max_alloc = 0;
  list = list;
  is_sorted = false;
  skip_auto_sort = false;
}

four_sorted :
    sort lib (holding 4 four)
    ≡ record (holding 4 (cell 2 4 1 ∷ cell 4 2 0 ∷ cell 9 1 5 ∷ cell 9 3 7 ∷ [])) {
      is_sorted = true;
    }
unfolding sort shaved shave cmp
four_sorted = refl

chomp_four : (chomp_lv lib (holding 4 four)).list ≡ cell 2 4 1 ∷ cell 4 2 0 ∷ []
unfolding chomp_lv sort shaved shave cmp cmp_hits
chomp_four = refl

-- The linear search counts a visit to the first of two cells.
four_found : index_of lib (holding 4 four) 9 ≡ (some 0, holding 4 (set four 0 (cell 9 1 6)))
unfolding index_of search first_index
four_found = refl

sorts_four-IsSorted : IsSorted (sort lib (holding 4 four)).list
sorts_four-IsSorted = (sort-IsSorted lib lib-IsQsort (holding 4 four)).1

searches_agree_example :
    (let src = sort lib (holding 4 four) in
      ((index_of lib (record src { is_sorted = true }) 9).0
        ≡ (index_of lib (record src { is_sorted = false }) 9).0)
      × ((index_of lib (record src { is_sorted = true }) 9).1.list
          ≡ (index_of lib (record src { is_sorted = false }) 9).1.list))
searches_agree_example =
    searches_agree lib lib-IsBsearch (sort lib (holding 4 four)) 9 sorts_four-IsSorted

chomp_keeps_least_visited_example :
    (kept dropped : List HashId) × Same (kept ++ dropped) four
    × (length kept ≡ 2)
    × ((i j : ℕ)
        → i < length kept
        → j < length dropped
        → (get_or kept i empty).hits ≤ (get_or dropped j empty).hits)
    × ((p : HashId → Bool)
        → amount (is_live p) (chomp_lv lib (holding 4 four)).list ≡ amount (is_live p) kept)
chomp_keeps_least_visited_example =
    chomp_keeps_least_visited lib lib-IsQsort (holding 4 four) (omega arith) (omega arith)
      (refl, (refl, (refl, (refl, tt))))

four-IsSound : IsSound (holding 4 four)
four-IsSound = record { fits = omega arith; narrow = omega arith; limited = omega arith }

-- A full list grows.
add-IsSound_example :
    Adds (holding 4 four) (cell 7 5 0) (add lib (holding 4 four) (cell 7 5 0))
    ⊎ (Refuses (holding 4 four) (add lib (holding 4 four) (cell 7 5 0))
        × (count (holding 4 four) ≡ 4)
        × ((more_cells (holding 4 four) ≤ count (holding 4 four)) ⊎ (true ≡ false)))
add-IsSound_example = add-IsSound lib (holding 4 four) (cell 7 5 0) four-IsSound

-- Three slots at the front of four cells, in an allocation of six.
add_slots_overruns_example : add_slots lib (holding 6 four) 0 3 ≡ none
add_slots_overruns_example =
    add_slots_overruns lib (holding 6 four) 0 3 (omega arith) (omega arith) (omega arith)
      (omega arith) (omega arith)
