-- ===== src/Hash/Sorting.antt =====
-- Sorting a hash list, and chomping it.
use whefs.Common.{
  ℕ, ◌<◌, ◌≤◌, ◌≡◌, inl, inr, refl, ◌∙◌, arith, Bool, true, List, [], ◌∷◌, ltb, length, Bool-cases,
}
use whefs.Hash.{
  HashId, HashList, Library, compare_numbers, cmp, shave, or_else, shaved, count, sort,
}
use whefs.Hash.Search.{IsSorted}
use whefs.Hash.Cells.{
  amount, is_live, Ordered, IsQsort, Same-length, amount-shave, All-true, Ordered-shave,
  Ordered-get,
}

-- Sorting a list by its hashes leaves it as it is in use, and in order.
record Sorted (list list' : List HashId) : Type 0 where
  ordered : Ordered (λ e. e.hash) list'
  kept : (p : HashId → Bool) → amount (is_live p) list' ≡ amount (is_live p) list
  shorter : length list' ≤ length list

length-shave : (list : List HashId) → length (shave list) ≤ length list
unfolding shave
length-shave [] = omega arith
length-shave (e ∷ list) = ground (arith, length-shave list)

or_else-Sorted :
    (s list : List HashId)
    → Ordered (λ e. e.hash) list
    → Ordered (λ e. e.hash) s
    → ((p : HashId → Bool) → amount (is_live p) s ≡ amount (is_live p) list)
    → length s ≤ length list
    → Sorted list (or_else s list)
or_else-Sorted [] list o o' k h = record { ordered = o; kept = λ p. refl; shorter = omega arith }
or_else-Sorted (e ∷ s) list o o' k h = record { ordered = o'; kept = k; shorter = h }

shaved-Sorted : (list : List HashId) → Ordered (λ e. e.hash) list → Sorted list (shaved list)
unfolding shaved
shaved-Sorted list o =
    or_else-Sorted (shave list) list o (Ordered-shave (λ e. e.hash) list o)
      (λ p. amount-shave p list) (length-shave list)

few-Ordered : (key : HashId → ℕ) (list : List HashId) → length list < 2 → Ordered key list
few-Ordered key [] h = tt
few-Ordered key (a ∷ []) h = (tt, tt)
few-Ordered key (a ∷ b ∷ list) h = absurd (omega arith)

cmp_agrees : (a b : HashId) → cmp a b ≡ compare_numbers a.hash b.hash
unfolding cmp
cmp_agrees a b = refl

module _ (lib : Library) (good : IsQsort lib) where
  sort-Sorted : (li : HashList) → Sorted li.list (sort lib li).list
  unfolding sort
  sort-Sorted li = elim (Bool-cases (ltb (count li) 2)) [
    | inl few ↦ rw few (record {
      ordered = few-Ordered (λ e. e.hash) li.list (ground arith);
      kept = λ p. refl;
      shorter = omega arith;
    })
    | inr many ↦
        let q = lib.qsort cmp li.list in
        let s = shaved-Sorted q (
          good.orders cmp (λ e. e.hash) (λ e. true) li.list (λ a b h h'. cmp_agrees a b)
            (All-true li.list)) in
        rw many (record {
          ordered = s.ordered;
          kept = λ p. s.kept p ∙ good.permutes cmp li.list (is_live p);
          shorter = omega (arith, s.shorter, Same-length q li.list (good.permutes cmp li.list));
        })
  ]

  -- With a `qsort` that permutes and orders, sorting marks the list as sorted and puts it in the order of
  -- its hashes, with the same cells in use, as often, and no more cells than before; the allocation stays.
  pub sort-IsSorted :
      (li : HashList)
      → ((sort lib li).is_sorted ≡ true)
        × IsSorted (sort lib li).list
        × ((p : HashId → Bool) → amount (is_live p) (sort lib li).list ≡ amount (is_live p) li.list)
        × (count (sort lib li) ≤ count li)
        × ((sort lib li).alloced ≡ li.alloced)
  unfolding sort
  sort-IsSorted li =
      let s = sort-Sorted li in
      (
        ground arith,
        λ i j h k. Ordered-get (λ e. e.hash) (sort lib li).list i j s.ordered h k,
        s.kept,
        s.shorter,
        ground arith,
      )
