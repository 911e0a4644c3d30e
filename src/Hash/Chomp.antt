-- ===== src/Hash/Chomp.antt =====
-- Chomping a hash list: which half of it stays.
use whefs.Common.{
  ℕ, zero, suc, ◌+◌, ◌-◌, ◌/◌, ◌<◌, ◌≤◌, ◌≡◌, refl, ap, ◌∙◌, arith, Bool, true, List, [], ◌∷◌, ◌++◌,
  length, get_or, take, drop, replicate, length-take, length-drop, get_or-take,
}
use whefs.Hash.{HashId, HashList, empty, Library, compare_numbers, cmp_hits, count, sort, chomp_lv}
use whefs.Hash.Cells.{
  amount, Same, live, is_live, All, IsQsort, amount-append, amount-empties, Ordered-get,
  Same-length,
}
use whefs.Hash.Sorting.{sort-IsSorted}

pub take-drop {ℓ} : {A : Type ℓ} (n : ℕ) (xs : List A) → take n xs ++ drop n xs ≡ xs
take-drop zero xs = refl
take-drop (suc n) [] = refl
take-drop (suc n) (x ∷ xs) = ap (λ l. x ∷ l) (take-drop n xs)

get_or_behind {ℓ} :
    {A : Type ℓ} (n : ℕ) (xs : List A) (j k : ℕ) (d : A)
    → k ≡ n + j
    → get_or (drop n xs) j d ≡ get_or xs k d
get_or_behind zero xs j k d e = ap (λ i. get_or xs i d) {x = j} {y = k} (omega (arith, e))
get_or_behind (suc n) [] j k d e = refl
get_or_behind (suc n) (x ∷ xs) j zero d e = absurd (omega (arith, e))
get_or_behind (suc n) (x ∷ xs) j (suc k) d e = get_or_behind n xs j k d (omega (arith, e))

by_hits_agrees :
    (a b : HashId) → live a ≡ true → live b ≡ true → cmp_hits a b ≡ compare_numbers a.hits b.hits
unfolding cmp_hits
by_hits_agrees a b h h' = ground (arith, h)

-- The list that is sorted again.
abbrev cut : HashList → List HashId → HashList
cut li q = record li { list = take (count li / 2) q ++ replicate (count li - count li / 2) empty }

chomp_cuts :
    (lib : Library) (li : HashList)
    → 2 ≤ count li
    → li.alloced / 2 ≤ count li
    → chomp_lv lib li ≡ sort lib (cut li (lib.qsort cmp_hits li.list))
unfolding chomp_lv
chomp_cuts lib li many full = ground arith

-- A list of two cells or more, all of them in use, that fills half of its allocation is cut to half of its
-- cells: to those with the fewest visits. No cell that is kept has more visits than one that is dropped.
pub chomp_keeps_least_visited :
    (lib : Library) (good : IsQsort lib) (li : HashList)
    → 2 ≤ count li
    → li.alloced / 2 ≤ count li
    → All live li.list
    → (kept dropped : List HashId) × Same (kept ++ dropped) li.list
      × (length kept ≡ count li / 2)
      × ((i j : ℕ)
          → i < length kept
          → j < length dropped
          → (get_or kept i empty).hits ≤ (get_or dropped j empty).hits)
      × ((p : HashId → Bool) → amount (is_live p) (chomp_lv lib li).list ≡ amount (is_live p) kept)
chomp_keeps_least_visited lib good li many full used =
    let q = lib.qsort cmp_hits li.list in
    let half : ℕ = count li / 2 in
    let p = good.permutes cmp_hits li.list in
    let len : length q ≡ count li = Same-length q li.list p in
    let o =
      good.orders cmp_hits (λ e. e.hits) live li.list (λ a b h h'. by_hits_agrees a b h h') used in
    (
      take half q,
      drop half q,
      λ t. ap (amount t) (take-drop half q) ∙ p t,
      length-take half q ∙ omega (arith, len),
      λ i j h k. omega (
        arith,
        ap (λ e. e.hits) (get_or-take half q i empty (omega (arith, h, length-take half q))),
        ap (λ e. e.hits) (get_or_behind half q j (half + j) empty refl),
        Ordered-get (λ e. e.hits) q i (half + j) o (omega (arith, h, length-take half q))
            (omega (arith, k, length-drop half q)),
      ),
      λ t.
          ap (λ l. amount (is_live t) l.list) (chomp_cuts lib li many full)
          ∙ (sort-IsSorted lib good (cut li q)).2 t
          ∙ amount-append (is_live t) (take half q) (replicate (count li - half) empty)
          ∙ omega (arith, amount-empties t (count li - half)),
    )
