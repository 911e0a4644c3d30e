-- ===== src/Inode/Opened/Lists.antt =====
-- The list of opened inodes as a map from ids to entries.
use whefs.Common.{ℕ, ◌<◌, ◌≤◌, ◌≡◌, refl, arith, none, some, List, [], ◌∷◌, ◌==◌, if◌then◌else◌}
use whefs.Inode.{Inode}
use whefs.Inode.Opened.{Entry, find, insert, store, unlink}

-- The ids rise, from above a bound on, and every entry has a handle.
abbrev pub Ordered : ℕ → List Entry → Type 0
Ordered b [] = Unit
Ordered b (e ∷ list) = (b < e.inode.id) × (0 < e.inode.open_count) × Ordered e.inode.id list

pub Ordered-lower : (a b : ℕ) (list : List Entry) → a ≤ b → Ordered b list → Ordered a list
Ordered-lower a b [] h o = tt
Ordered-lower a b (e ∷ list) h o = (omega (arith, h, o.0), o.1, o.2)

find_below : (b : ℕ) (list : List Entry) (j : ℕ) → Ordered b list → j ≤ b → find list j ≡ none
unfolding find
find_below b [] j o h = refl
find_below b (e ∷ list) j o h = ground (arith, o.0, h)

pub find-id : (list : List Entry) (id : ℕ) (e : Entry) → find list id ≡ some e → e.inode.id ≡ id
unfolding find
find-id [] id e h = cc
find-id (li ∷ list) id e h = ground (arith, h, find-id list id e)

pub find-count :
    (b : ℕ) (list : List Entry) (id : ℕ) (e : Entry)
    → Ordered b list
    → find list id ≡ some e
    → 0 < e.inode.open_count
unfolding find
find-count b [] id e o h = cc
find-count b (li ∷ list) id e o h = ground (arith, h, o.1, find-count li.inode.id list id e o.2)

-- Each operation on the list, as the map sees it.
pub find-store :
    (b : ℕ) (list : List Entry) (id : ℕ) (e : Entry) (n : Inode) (j : ℕ)
    → Ordered b list
    → find list id ≡ some e
    → n.id ≡ id
    → find (store list id n) j ≡ (if id == j then some (record e { inode = n }) else find list j)
unfolding find store
find-store b [] id e n j o h k = cc
find-store b (li ∷ list) id e n j o h k =
    ground (arith, o.0, h, k, find-store li.inode.id list id e n j o.2)

pub find-unlink :
    (b : ℕ) (list : List Entry) (id j : ℕ)
    → Ordered b list
    → find (unlink list id) j ≡ (if id == j then none else find list j)
unfolding find unlink
find-unlink b [] id j o = ground arith
find-unlink b (li ∷ list) id j o =
    ground (arith, o.0, find-unlink li.inode.id list id j o.2, find_below li.inode.id list j o.2)

pub find-insert :
    (b : ℕ) (list : List Entry) (e : Entry) (j : ℕ)
    → Ordered b list
    → find list e.inode.id ≡ none
    → find (insert list e) j ≡ (if e.inode.id == j then some e else find list j)
unfolding find insert
find-insert b [] e j o h = ground arith
find-insert b (li ∷ list) e j o h =
    ground (arith, o.0, h, find-insert li.inode.id list e j o.2, find_below li.inode.id list j o.2)

pub store-Ordered :
    (b : ℕ) (list : List Entry) (id : ℕ) (n : Inode)
    → Ordered b list
    → n.id ≡ id
    → 0 < n.open_count
    → Ordered b (store list id n)
unfolding store
store-Ordered b [] id n o k h = tt
store-Ordered b (li ∷ list) id n o k h =
    ground (arith, o.0, o.1, o.2, k, h, store-Ordered li.inode.id list id n o.2)

pub unlink-Ordered :
    (b : ℕ) (list : List Entry) (id : ℕ) → Ordered b list → Ordered b (unlink list id)
unfolding unlink
unlink-Ordered b [] id o = tt
unlink-Ordered b (li ∷ list) id o =
    ground (
      arith,
      o.0,
      o.1,
      o.2,
      unlink-Ordered li.inode.id list id o.2,
      Ordered-lower b li.inode.id list,
    )

pub insert-Ordered :
    (b : ℕ) (list : List Entry) (e : Entry)
    → Ordered b list
    → find list e.inode.id ≡ none
    → b < e.inode.id
    → 0 < e.inode.open_count
    → Ordered b (insert list e)
unfolding insert find
insert-Ordered b [] e o h k c = (k, c, tt)
insert-Ordered b (li ∷ list) e o h k c =
    ground (arith, o.0, o.1, o.2, h, k, c, insert-Ordered li.inode.id list e o.2)
