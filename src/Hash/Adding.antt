-- ===== src/Hash/Adding.antt =====
-- Adding to a hash list, a cell at its end and slots in its middle.
use whefs.Common.{
  ℕ, ◌+◌, ◌<◌, ◌≤◌, ◌≡◌, ◌⊎◌, inl, inr, refl, arith, false, none, [], ◌∷◌, ◌++◌, if◌then◌else◌,
  take, Bool-cases, ltb-cases, length-append, take-all,
}
use whefs.Rc.{Rc, ok, alloc_error, range_error, id_bound}
use whefs.Hash.{
  HashId, HashList, Library, count, alloc_in, add, append, more_cells, open_slots, add_slots,
}

-- The cells in use are among those that are allocated, and the numbers are of 16 bits.
pub record IsSound (li : HashList) : Type 0 where
  pub fits : count li ≤ li.alloced
  pub narrow : li.alloced < id_bound
  pub limited : li.max_alloc < id_bound

abbrev dirty : HashList → HashList
dirty li = record li { is_sorted = false }

-- Growing past what is allocated, where the limit allows it.
grow_lem :
    (lib : Library) (li : HashList) (n : ℕ)
    → li.alloced < n
    → (li.max_alloc ≡ 0) ⊎ (n ≤ li.max_alloc)
    → alloc_in lib li n ≡ (
        if lib.allocates n
        then (ok, record li { alloced = n; is_sorted = false; list = take n li.list })
        else (alloc_error, li))
unfolding alloc_in
grow_lem lib li n h (inl free) = ground (arith, free)
grow_lem lib li n h (inr within) = ground (arith, within)

more_cells_within : (li : HashList) → (li.max_alloc ≡ 0) ⊎ (more_cells li ≤ li.max_alloc)
more_cells_within li = ground arith

-- Adding as its cases.
add_within :
    (lib : Library) (li : HashList) (val : HashId)
    → count li < li.alloced
    → add lib li val ≡ (ok, append (dirty li) val)
unfolding add
add_within lib li val h = ground arith

add_no_size :
    (lib : Library) (li : HashList) (val : HashId)
    → li.alloced ≤ count li
    → more_cells li ≤ count li
    → add lib li val ≡ (range_error, dirty li)
unfolding add
add_no_size lib li val h k = ground arith

-- What adding to a full list does with the answer of the allocation.
abbrev finish : HashId → Rc × HashList → Rc × HashList
finish val (rc, grown) = elim rc [ ok ↦ (ok, append grown val) | other ↦ (other, grown) ]

add_grows :
    (lib : Library) (li : HashList) (val : HashId)
    → li.alloced ≤ count li
    → count li < more_cells li
    → add lib li val ≡ finish val (alloc_in lib (dirty li) (more_cells li))
unfolding add
add_grows lib li val h k = ground arith

-- The outcome that the list asks for.
abbrev pub Adds : HashList → HashId → Rc × HashList → Type 0
Adds li val (rc, li') =
    (rc ≡ ok) × (li'.list ≡ li.list ++ (val ∷ [])) × (li'.is_sorted ≡ false) × IsSound li'

-- The outcome that leaves the list as it is.
abbrev pub Refuses : HashList → Rc × HashList → Type 0
Refuses li (rc, li') =
    ((rc ≡ range_error) ⊎ (rc ≡ alloc_error)) × (li'.list ≡ li.list) × IsSound li'

append-IsSound :
    (li : HashList) (val : HashId) → IsSound li → count li < li.alloced → IsSound (append li val)
append-IsSound li val s h = record {
  fits = omega (arith, length-append li.list (val ∷ []));
  narrow = s.narrow;
  limited = s.limited;
}

grown_cells :
    (lib : Library) (li : HashList) (val : HashId)
    → IsSound li
    → count li < more_cells li
    → li.alloced ≤ count li
    → Adds li val (
        finish val (
          ok,
          record li {
            alloced = more_cells li;
            is_sorted = false;
            list = take (more_cells li) li.list;
          },
        ))
grown_cells lib li val s h k =
    let whole = take-all (more_cells li) li.list (omega (arith, h)) in
    rw whole (
      refl,
      refl,
      refl,
      append-IsSound (record li { alloced = more_cells li; is_sorted = false }) val
          (record {
            fits = omega (arith, h);
            narrow = ground (arith, s.limited);
            limited = s.limited;
          })
          h,
    )

-- Adding to a sound list either appends the cell, marks the list as unsorted and leaves it sound, or leaves
-- the cells as they are, with an error. It fails only on a full list, and then only when the larger size
-- does not fit in 16 bits or under the list's limit, or when there is no memory for it.
pub add-IsSound :
    (lib : Library) (li : HashList) (val : HashId)
    → IsSound li
    → Adds li val (add lib li val)
      ⊎ (Refuses li (add lib li val)
          × (count li ≡ li.alloced)
          × ((more_cells li ≤ count li) ⊎ (lib.allocates (more_cells li) ≡ false)))
add-IsSound lib li val s = elim (ltb-cases (count li) li.alloced) [
  | inl room ↦ rw (add_within lib li val room) (
      inl (
        refl,
        refl,
        refl,
        append-IsSound (dirty li) val
            (record { fits = s.fits; narrow = s.narrow; limited = s.limited }) room,
      ))
  | inr full ↦ elim (ltb-cases (count li) (more_cells li)) [
    | inl larger ↦ elim (Bool-cases (lib.allocates (more_cells li))) [
      | inl memory ↦
          rw
            (
              add_grows lib li val full larger,
              grow_lem lib (dirty li) (more_cells li) (omega (arith, s.fits))
                  (more_cells_within li),
              memory,
            )
            (inl (grown_cells lib li val s larger full))
      | inr refused ↦
          rw
            (
              add_grows lib li val full larger,
              grow_lem lib (dirty li) (more_cells li) (omega (arith, s.fits))
                  (more_cells_within li),
              refused,
            )
            (inr (
              (inr refl, refl, record { fits = s.fits; narrow = s.narrow; limited = s.limited }),
              omega (arith, s.fits),
              inr refl,
            ))
    ]
    | inr stuck ↦ rw (add_no_size lib li val full stuck) (
        inr (
          (inl refl, refl, record { fits = s.fits; narrow = s.narrow; limited = s.limited }),
          omega (arith, s.fits),
          inl stuck,
        ))
  ]
]

-- Slots in the middle: what is allocated is compared with the end of the slots, and not with the count of
-- cells after it. In a list with that end allocated and fewer cells than the new count, the cells behind
-- the slots are moved past the allocation.
pub add_slots_overruns :
    (lib : Library) (li : HashList) (at n : ℕ)
    → 0 < n
    → at ≤ count li
    → at + n < li.alloced
    → li.alloced < id_bound
    → li.alloced < count li + n
    → add_slots lib li at n ≡ none
unfolding add_slots open_slots
add_slots_overruns lib li at n p h k narrow over = ground arith
