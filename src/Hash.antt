-- ===== src/Hash.antt =====
-- src/whefs_hash.c and src/whefs_hash.h: a list of name hashes with the ids of the inodes that have
-- them. A list is what its pointer points to; the pointers are not null, except where an operation
-- says so. `whefs_rc.IDTypeEnd` as an index is `none`: an index is below it.
pub mod Search
pub mod Cells
pub mod Sorting
pub mod Chomp
pub mod Adding
pub mod Tests
use whefs.Common.{
  ℕ, zero, suc, ◌+◌, ◌-◌, ◌*◌, ◌/◌, ◌%◌, ◌^◌, ◌<◌, ◌≤◌, Bool, true, false, Option, none, some, List,
  [], ◌∷◌, ◌++◌, ltb, leb, ◌==◌, if◌then◌else◌, ◌&&◌, ◌||◌, not, length, get_or, set, take, drop,
  replicate, min,
}
use whefs.Rc.{Rc, ok, arg_error, alloc_error, range_error, size_bound, id_bound}
use whefs.Encode.{Bytes}

-- `whefs_hashid`.
pub record HashId : Type 0 where
  pub hash : ℕ
  pub id : ℕ
  pub hits : ℕ

-- `whefs_hashid_empty_m`.
abbrev pub empty : HashId
empty = record { hash = 0; id = 0; hits = 0 }

-- `whefs_hashid_list`: `list` holds the cells in use, so that its length is the source's `count`. The
-- cells behind them, up to `alloced`, are written before they are used.
pub record HashList : Type 0 where
  pub alloced : ℕ
  pub max_alloc : ℕ
  pub list : List HashId
  pub is_sorted : Bool
  pub skip_auto_sort : Bool

-- `whefs_hashid_list_empty_m`.
abbrev pub list_empty : HashList
list_empty = record {
  alloced = 0;
  max_alloc = 0;
  list = [];
  is_sorted = false;
  skip_auto_sort = false;
}

-- `whefs_hash_cstring`, over a string up to its first null byte; `none` is a null pointer. A `char` is
-- taken as unsigned.
unfoldable pub hash_loop : ℕ → Bytes → ℕ
hash_loop h [] = h
hash_loop h (c ∷ s) =
    let rest = hash_loop ((h * 32 + h + c) % size_bound) s in if c == 0 then h else rest

unfoldable pub hash_cstring : Option Bytes → ℕ
unfolding hash_loop
hash_cstring none = 0
hash_cstring (some s) = hash_loop 5381 s

-- The sign of a comparison, and the two that are passed to `qsort` and `bsearch`.
pub data Sign : Type 0 where
  less same more : Sign

abbrev pub compare_numbers : ℕ → ℕ → Sign
compare_numbers a b = if ltb a b then less else if ltb b a then more else same

unfoldable pub cmp : HashId → HashId → Sign
cmp l r = compare_numbers l.hash r.hash

unfoldable pub cmp_hits : HashId → HashId → Sign
cmp_hits l r =
    if l.id == 0 then (if r.id == 0 then same else less) else compare_numbers l.hits r.hits

-- What the code asks of the C library: memory for a list, memory for so many cells, and the two
-- functions on arrays. `bsearch` gives the index of a cell.
pub record Library : Type 0 where
  pub makes : Bool
  pub allocates : ℕ → Bool
  pub qsort : (HashId → HashId → Sign) → List HashId → List HashId
  pub bsearch : HashId → List HashId → (HashId → HashId → Sign) → Option ℕ

-- The cells behind the first ones without an id; nothing if there is no other.
unfoldable pub shave : List HashId → List HashId
shave [] = []
shave (e ∷ list) = let rest = shave list in if e.id == 0 then rest else e ∷ list

abbrev pub or_else : List HashId → List HashId → List HashId
or_else [] list = list
or_else (e ∷ rest) list = e ∷ rest

-- Sorting takes away what is empty at the front, unless nothing is left then. (The loop looks at the
-- cell behind the last one before it stops there; what it sees makes no difference.)
unfoldable pub shaved : List HashId → List HashId
unfolding shave
shaved list = or_else (shave list) list

-- The `count` of a list.
abbrev pub count : HashList → ℕ
count li = length li.list

-- The cells that `add` asks for when the list is full.
abbrev pub more_cells : HashList → ℕ
more_cells tgt =
    let sz : ℕ = (count tgt + 1) * 2 % id_bound in
    if not (tgt.max_alloc == 0) && ltb tgt.max_alloc sz then tgt.max_alloc else sz

-- The last step of `add`.
abbrev pub append : HashList → HashId → HashList
append tgt val = record tgt { list = tgt.list ++ (val ∷ []) }

-- The linear search for a hash.
unfoldable pub first_index : List HashId → ℕ → Option ℕ
first_index [] val = none
first_index (e ∷ list) val =
    let rest = first_index list val in
    if e.hash == val then some 0 else elim rest [ none ↦ none | some i ↦ some (suc i) ]

-- The cell that is found has one visit more.
abbrev pub visited : HashList → ℕ → HashList
visited src i =
    let e = get_or src.list i empty in
    record src { list = set src.list i (record e { hits = (e.hits + 1) % id_bound }) }

-- What the caller gets, and the list after that.
abbrev pub answer : HashList → Option ℕ → Option ℕ × HashList
answer src none = (none, src)
answer src (some i) = (some i, visited src i)

-- From a match, back over the ones before it.
unfoldable pub leftmost : List HashId → ℕ → ℕ → ℕ
leftmost list val zero = zero
leftmost list val (suc n) =
    let rest = leftmost list val n in if (get_or list n empty).hash == val then rest else suc n

unfoldable pub wipe_index : HashList → ℕ → Rc × HashList
wipe_index tgt ndx =
    if leb (count tgt) ndx
    then (range_error, tgt)
    else (ok, record tgt { list = set tgt.list ndx empty; is_sorted = false })

-- The move of `add_slots`, of the cells from `at` on to `last`; `none` is a move that leaves the cells
-- that are allocated.
unfoldable pub open_slots : HashList → ℕ → ℕ → Option (Rc × HashList)
open_slots li at last =
    if ltb li.alloced (last + (count li - at))
    then none
    else some (
      ok,
      record li {
        is_sorted = false;
        list = take (min at last) li.list ++ (replicate (last - at) empty ++ drop at li.list);
      },
    )

module _ (lib : Library) where
  -- `whefs_hashid_list_sort`, which returns OK.
  unfoldable pub sort : HashList → HashList
  unfolding shaved
  sort li =
      if ltb (count li) 2
      then record li { is_sorted = true }
      else record li { is_sorted = true; list = shaved (lib.qsort cmp li.list) }

  -- `whefs_hashid_list_alloc` on a list that is there.
  unfoldable pub alloc_in : HashList → ℕ → Rc × HashList
  alloc_in obj to_alloc =
      if to_alloc == 0
      then (ok, record list_empty { is_sorted = true })
      else if leb to_alloc obj.alloced
      then (ok, obj)
      else if not (obj.max_alloc == 0) && ltb obj.max_alloc to_alloc
      then (alloc_error, obj)
      else if lib.allocates to_alloc
      then (ok, record obj { alloced = to_alloc; is_sorted = false; list = take to_alloc obj.list })
      else (alloc_error, obj)

  -- `whefs_hashid_list_alloc`, where `tgt` may point to a null pointer. The result `none` is the null
  -- pointer that the code follows when there is no memory for a list.
  unfoldable pub alloc : Option HashList → ℕ → Option (Rc × Option HashList)
  unfolding alloc_in
  alloc none to_alloc =
      if to_alloc == 0
      then some (ok, none)
      else if lib.makes
      then (let (rc, li) = alloc_in list_empty to_alloc in some (rc, some li))
      else none
  alloc (some obj) to_alloc = let (rc, li) = alloc_in obj to_alloc in some (rc, some li)

  unfoldable pub add : HashList → HashId → Rc × HashList
  unfolding alloc_in
  add tgt val =
      let dirty = record tgt { is_sorted = false } in
      let (rc, grown) = alloc_in dirty (more_cells tgt) in
      if leb tgt.alloced (count tgt)
      then (if leb (more_cells tgt) (count tgt)
          then (range_error, dirty)
          else elim rc [ ok ↦ (ok, append grown val) | other ↦ (other, grown) ])
      else (ok, append dirty val)

  -- The index where either search finds the hash.
  unfoldable pub search : HashList → ℕ → Option ℕ
  unfolding first_index leftmost
  search src val =
      if count src == 0
      then none
      else if src.is_sorted
      then elim (lib.bsearch (record empty { hash = val }) src.list cmp) [
        | none ↦ none
        | some i ↦ some (leftmost src.list val i)
      ]
      else first_index src.list val

  unfoldable pub index_of : HashList → ℕ → Option ℕ × HashList
  unfolding search
  index_of src val = answer src (search src val)

  -- `whefs_hashid_list_chomp_lv`, which returns OK.
  unfoldable pub chomp_lv : HashList → HashList
  chomp_lv li =
      let by_hits = lib.qsort cmp_hits li.list in
      let half : ℕ = count li / 2 in
      if ltb (count li) 2 || ltb (count li) (li.alloced / 2)
      then li
      else sort (record li { list = take half by_hits ++ replicate (count li - half) empty })

  -- `whefs_hashid_list_add_slots`. The numbers are of 16 bits, and `last` may wrap.
  unfoldable pub add_slots : HashList → ℕ → ℕ → Option (Rc × HashList)
  unfolding open_slots alloc_in
  add_slots li at n =
      let last : ℕ = (at + n) % id_bound in
      let asz : ℕ = (last + 1) % id_bound in
      let (rc, grown) = alloc_in li asz in
      if n == 0
      then some (arg_error, li)
      else if count li == 0 || ltb (count li) at
      then some (range_error, li)
      else if ltb asz at
      then some (range_error, li)
      else if ltb li.alloced asz
      then elim rc [ ok ↦ open_slots grown at last | other ↦ some (other, grown) ]
      else open_slots li at last
