-- ===== src/Lookup/Renaming.antt =====
-- What giving an inode a new name does to the table of names.
use whefs.Common.{
  ℕ, ◌≤◌, ◌≡◌, ◌⊎◌, inl, inr, refl, ap, ap₂, sym, ◌∙◌, subst, arith, Bool, true, false, Option,
  none, some, [], ◌++◌, ◌==◌, if◌then◌else◌, ◌&&◌, not, get_or, length, slice, take, ◌-◌, replicate,
  Bool-cases, ==_iff,
}
use whefs.Rc.{Rc, ok, arg_error, internal_error}
use whefs.Encode.{Bytes}
use whefs.Encode.Cstring.{strlen}
use whefs.Device.{DevApi, DevLaws}
use whefs.Fs.{Fs}
use whefs.Hash.{Library}
use whefs.Inode.{id_is_valid}
use whefs.Inode.Place.{Has}
use whefs.NameCache.{Cache, search_ndx, id_at}
use whefs.Strings.{WhefsString}
use whefs.Strings.Filled.{text, length-taken}
use whefs.Strings.Copy.{IsSound}
use whefs.Names.{chars, name_write, name_get}
use whefs.Names.Record.{head}
use whefs.Names.RoundTrip.{IsLaid, place, place_lem, name_record, name_write_lem}
use whefs.Names.Reading.{stored, Named, after_write, gets}
use whefs.Lookup.{same_text, on_stack, rehash, write_new, replace_name, name_set}
use whefs.Lookup.Alike.{Alike, same_text-Alike, apart_bool}

affirmed : (b : Bool) → not b ≡ false → b ≡ true
affirmed true e = refl
affirmed false e = absurd (apart_bool (sym e))

negated : (b : Bool) → not b ≡ true → b ≡ false
negated true e = absurd (apart_bool e)
negated false e = refl

both : (a b : Bool) → (a && b) ≡ true → b ≡ true
both true b e = e
both false true e = refl
both false false e = e

module _ {D : Type 0} (api : DevApi D) (lib : Library) (allocates : Bool) where
  -- The cell of the cache that is in the way of a new name.
  abbrev collides : Cache → ℕ → Option ℕ → Bool
  collides c nid ndx = elim ndx [ none ↦ false | some i ↦ not (id_at lib c i == nid) ]

  -- The cache with the hash of the new name in the cell that was found, if there is one.
  abbrev pub recached : Cache → Bytes → Option ℕ → Cache
  recached c name ndx = elim ndx [ none ↦ c | some i ↦ rehash lib c i name ]

  write_new_ok :
      (fs fs' : Fs D) (c : Cache) (nid : ℕ) (name : Bytes) (ndx : Option ℕ)
      → name_write api fs nid (some name) ≡ (ok, fs')
      → write_new api lib allocates fs c nid name ndx ≡ (ok, fs', recached c name ndx)
  unfolding write_new
  write_new_ok fs fs' c nid name ndx w =
      ap (λ q. elim q.0 [ ok ↦ (ok, q.1, recached c name ndx) | other ↦ (other, q.1, c) ]) w

  -- The name that is looked for in the cache, before the old one is replaced.
  abbrev pub sought : Bytes → Bytes → Bytes
  sought name old = if not (get_or old 0 0 == 0) then old else name

  -- The search for it finds a cell with another id.
  abbrev pub Blocked : Fs D → Cache → ℕ → Bytes → Bytes → Cache → Type 0
  Blocked fs c nid name old c' =
      (i : ℕ) × (search_ndx lib fs c (sought name old) ≡ (some i, c'))
      × ((id_at lib c' i == nid) ≡ false)

  -- The search finds a cell with this id, or none: the index, and the cache after it.
  abbrev pub Unblocked : Fs D → Cache → ℕ → Bytes → Bytes → Option ℕ → Cache → Type 0
  Unblocked fs c nid name old ndx c' =
      (search_ndx lib fs c (sought name old) ≡ (ndx, c'))
      × ((i : ℕ) → ndx ≡ some i → id_at lib c' i ≡ nid)

  -- The inode has a name, and it is the new one.
  abbrev pub is_kept : Bytes → Bytes → Bool
  is_kept name old = not (get_or old 0 0 == 0) && same_text old name

  collides_at :
      (nid : ℕ) (q : Option ℕ × Cache)
      → collides q.1 nid q.0 ≡ true
      → (i : ℕ) × (q ≡ (some i, q.1)) × ((id_at lib q.1 i == nid) ≡ false)
  collides_at nid (none, c) e = absurd (apart_bool e)
  collides_at nid (some i, c) e = (i, refl, negated (id_at lib c i == nid) e)

  free_at :
      (nid : ℕ) (c : Cache) (ndx : Option ℕ) (i : ℕ)
      → collides c nid ndx ≡ false
      → ndx ≡ some i
      → id_at lib c i ≡ nid
  free_at nid c ndx i free e =
      let off : not (id_at lib c i == nid) ≡ false = sym (ap (λ o. collides c nid o) e) ∙ free in
      (==_iff _ _).0 (affirmed (id_at lib c i == nid) off)

  -- The three outcomes of a new name, where the write succeeds, each with its condition.
  abbrev Replaces : Fs D → Fs D → Cache → ℕ → Bytes → Bytes → Rc × Fs D × Cache → Type 0
  Replaces fs fs' c nid name old r =
      ((is_kept name old ≡ true) × (r ≡ (ok, fs, c)))
      ⊎ (((is_kept name old ≡ false)
            × (c' : Cache) × Blocked fs c nid name old c'
            × (r ≡ (internal_error, fs, c')))
          ⊎ ((is_kept name old ≡ false)
              × (ndx : Option ℕ) × (c' : Cache) × Unblocked fs c nid name old ndx c'
              × (r ≡ (ok, fs', recached c' name ndx))))

  replace_cases :
      (fs fs' : Fs D) (c : Cache) (nid : ℕ) (name old : Bytes)
      → name_write api fs nid (some name) ≡ (ok, fs')
      → Replaces fs fs' c nid name old (replace_name api lib allocates fs c nid name old)
  unfolding replace_name
  replace_cases fs fs' c nid name old w =
      let found = search_ndx lib fs c (sought name old) in
      let last : Bool → Rc × Fs D × Cache = λ b.
        if b
        then (internal_error, fs, found.1)
        else write_new api lib allocates fs found.1 nid name found.0 in
      let from : Bool → Rc × Fs D × Cache =
        λ b. if b then (ok, fs, c) else last (collides found.1 nid found.0) in
      elim (Bool-cases (is_kept name old)) [
        | inl same ↦ inl (same, ap (λ b. from b) same)
        | inr differs ↦ inr (elim (Bool-cases (collides found.1 nid found.0)) [
          | inl stuck ↦ inl (
            differs,
            found.1,
            collides_at nid found stuck,
            ap (λ b. from b) differs ∙ ap (λ b. last b) stuck,
          )
          | inr free ↦ inr (
            differs,
            found.0,
            found.1,
            (refl, λ i e. free_at nid found.1 found.0 i free e),
            ap (λ b. from b) differs
                ∙ ap (λ b. last b) free
                ∙ write_new_ok fs fs' found.1 nid name found.0 w,
          )
        ])
      ]

on_stack-IsSound : IsSound on_stack
on_stack-IsSound = record { sized = refl; small = omega arith }

-- What a C string function reads from a string is what it reads from its bytes.
chars_read : (s : WhefsString) → text s.string ≡ take (strlen (chars s)) (chars s)
unfolding strlen
chars_read s =
    elim s.string
      as (λ o.
        text o
        ≡ (let buf : Bytes = elim o [ none ↦ [] | some buf ↦ buf ] in take (strlen buf) buf)) [
          | none ↦ refl
          | some buf ↦ refl
        ]

chars-Alike :
    (s : WhefsString) (old : Bytes) → text s.string ≡ take (strlen old) old → Alike (chars s) old
chars-Alike s old e =
    let same = sym (chars_read s) ∙ e in
    (length-taken (chars s) ∙ ap length same ∙ sym (length-taken old), same)

module _ {D : Type 0} {api : DevApi D} (L : DevLaws api) where
  name_record-Alike :
      (fs : Fs D) (id : ℕ) (r s : Bytes) → Alike r s → name_record fs id r ≡ name_record fs id s
  name_record-Alike fs id r s a =
      ap₂ (λ k t. head id k ++ (t ++ replicate (fs.options.filename_length - k) 0)) a.0 a.1

  -- What `whefs_inode_name_set` comes to.
  pub data Renames (lib : Library) (fs : Fs D) (c : Cache) (id : ℕ) (name : Bytes)
      : Option (Rc × Fs D × Cache) → Type 0 where
    kept :
        (s : WhefsString) (fs' : Fs D) (c0 : Cache)
        → name_get api lib true fs c id on_stack ≡ some (ok, s, fs', c0)
        → is_kept api lib true name (chars s) ≡ true
        → Named L fs id name fs'
        → L.view fs'.dev ≡ L.view fs.dev
        → Renames lib fs c id name (some (ok, fs', c0))
    renamed :
        (s : WhefsString) (fs0 fs' : Fs D) (c0 c' : Cache) (ndx : Option ℕ)
        → name_get api lib true fs c id on_stack ≡ some (ok, s, fs0, c0)
        → is_kept api lib true name (chars s) ≡ false
        → Unblocked api lib true fs0 c0 id name (chars s) ndx c'
        → IsLaid L fs'
        → Named L fs id name fs'
        → Renames lib fs c id name (some (ok, fs', recached api lib true c' name ndx))
    in_the_way :
        (s : WhefsString) (fs' : Fs D) (c0 c' : Cache)
        → name_get api lib true fs c id on_stack ≡ some (ok, s, fs', c0)
        → is_kept api lib true name (chars s) ≡ false
        → Blocked api lib true fs' c0 id name (chars s) c'
        → L.view fs'.dev ≡ L.view fs.dev
        → Renames lib fs c id name (some (internal_error, fs', c'))

  set_calls :
      (lib : Library) (fs fs' : Fs D) (c c' : Cache) (id : ℕ) (name : Bytes) (s : WhefsString)
      → id_is_valid fs id ≡ true
      → name_get api lib true fs c id on_stack ≡ some (ok, s, fs', c')
      → name_set api lib true fs c id name
        ≡ some (replace_name api lib true fs' c' id name (chars s))
  unfolding name_set
  set_calls lib fs fs' c c' id name s valid g =
      let from : Bool → Option (Rc × WhefsString × Fs D × Cache) → Option (Rc × Fs D × Cache) =
        λ b o. if not b then some (arg_error, fs, c) else elim o [
          | none ↦ none
          | some (rc, n, f, k) ↦
              let replaced = replace_name api lib true f k id name (chars n) in
              elim rc [ ok ↦ some replaced | other ↦ some (other, f, k) ]
        ] in
      ap (λ b. from b (name_get api lib true fs c id on_stack)) valid ∙ ap (λ o. from true o) g

  -- On a filesystem whose table of names lies in a device that keeps its laws, and with memory for a list
  -- of hashes, an inode with a number in range that has a name in the table gets a new name that is not too
  -- long, with three outcomes that exclude each other. If it has a name and that is the new one, OK is
  -- returned and the contents of the device are as they were. Otherwise the old name (the new one, if the
  -- old one is empty) is searched in the cache of names. If a cell with the number of another inode is
  -- found, InternalError is returned, and the contents of the device are as they were. If none is found, or
  -- one with this number, OK is returned, the table has the new name for this inode and every other name as
  -- it was, and a cell that was found gets the new name's hash.
  pub name_set-Renames :
      (lib : Library) (fs : Fs D) (c : Cache) (id : ℕ) (old name : Bytes)
      → lib.makes ≡ true
      → IsLaid L fs
      → Has fs id
      → strlen old ≤ fs.options.filename_length
      → stored L fs id ≡ name_record fs id old
      → strlen name ≤ fs.options.filename_length
      → Renames lib fs c id name (name_set api lib true fs c id name)
  name_set-Renames lib fs c id old name memory v h short there fits =
      let g =
        gets L lib fs c id old on_stack memory v h short there on_stack-IsSound
          (λ e. omega arith) in
      let mid = record fs { dev = g.dev } in
      let w = name_write_lem L mid id name g.laid h fits in
      let calls =
        set_calls lib fs mid c g.cache id name g.into (place_lem L fs id v h).valid g.is in
      let a = after_write L mid id name w.0 g.laid h fits w.3 in
      let before : (j : ℕ) → stored L mid j ≡ stored L fs j =
        λ j. ap (λ x. slice x (place fs j) fs.sizes.inode_name) g.disk in
      let result : (r : Rc × Fs D × Cache)
          → Renames lib fs c id name (some r)
          → replace_name api lib true mid g.cache id name (chars g.into) ≡ r
          → Renames lib fs c id name (name_set api lib true fs c id name) =
        λ r x e. subst (λ o. Renames lib fs c id name o) (sym (calls ∙ ap some e)) x in
      elim (replace_cases api lib true mid (record mid { dev = w.0 }) g.cache id name (chars g.into)
        w.1) [
          | inl same ↦
              let alike = same_text-Alike (chars g.into) name (
                both (not (get_or (chars g.into) 0 0 == 0)) (same_text (chars g.into) name)
                  same.0) in
              let was = chars-Alike g.into old g.reads in
              result (ok, mid, g.cache)
                (kept g.into mid g.cache g.is same.0
                  (
                    before id
                        ∙ there
                        ∙ name_record-Alike fs id old name
                            (sym was.0 ∙ alike.0, sym was.1 ∙ alike.1),
                    λ j h' ne. before j,
                  )
                  g.disk)
                same.1
          | inr (inl (differs, c', blocked, e)) ↦
              result (internal_error, mid, c')
                (in_the_way g.into mid g.cache c' g.is differs blocked g.disk) e
          | inr (inr (differs, ndx, c', free, e)) ↦
              result (ok, record mid { dev = w.0 }, recached api lib true c' name ndx)
                (renamed g.into mid (record mid { dev = w.0 }) g.cache c' ndx g.is differs free w.2
                  (a.0, λ j h' ne. a.1 j h' ne ∙ before j))
                e
        ]
