-- ===== src/Names/Reading.antt =====
-- A name that was written is read into a string, and no other name is changed.
use whefs.Common.{
  ℕ, ◌+◌, ◌-◌, ◌<◌, ◌≤◌, ◌≡◌, ◌≢◌, ◌⊎◌, inl, inr, refl, ap, sym, subst, ◌∙◌, arith, ◌/◌, Bool, true,
  false, Option, none, some, ◌==◌, if◌then◌else◌, not, length, get_or, take, slice, overwrite, min,
  mul-lt, ltb-cases, slice-overwrite_self, slice-overwrite_apart,
}
use whefs.Rc.{Rc, ok}
use whefs.Encode.{Bytes}
use whefs.Encode.Cstring.{strlen}
use whefs.Device.{DevApi, DevLaws}
use whefs.Fs.{Fs}
use whefs.Hash.{HashList, Library, alloc}
use whefs.Inode.Place.{Has}
use whefs.NameCache.{Cache, is_enabled, wanted, hash_cache}
use whefs.Strings.{WhefsString}
use whefs.Strings.Filled.{text}
use whefs.Strings.Copy.{IsSound, Holds, copy_cstring_lem}
use whefs.Names.{name_write, name_get, take_name, remember, chars}
use whefs.Names.Record.{buffer_text, length-field, strlen-buffer_text}
use whefs.Names.RoundTrip.{IsLaid, place, place_lem, name_record, name_write_lem, name_get_lem}

-- An optional result that is there.
abbrev IsGiven : {X : Type 0} → Option X → Type 0
IsGiven {X} o = (x : X) × (o ≡ some x)

distinct : true ≡ false → ⊥
distinct e = subst (λ b. if b then Unit else ⊥) e tt

if-IsGiven :
    {X : Type 0} (b : Bool) (o o' : Option X)
    → IsGiven o
    → IsGiven o'
    → IsGiven (if b then o else o')
if-IsGiven true o o' g g' = g
if-IsGiven false o o' g g' = g'

then-IsGiven : {X : Type 0} (b : Bool) (x : X) → b ≡ true → IsGiven (if b then some x else none)
then-IsGiven b x e = (x, ap (λ b. if b then some x else none) e)

bind-IsGiven :
    {X Y : Type 0} (o : Option X) (k : X → Option Y)
    → IsGiven o
    → ((x : X) → IsGiven (k x))
    → IsGiven (elim o [ none ↦ none | some x ↦ k x ])
bind-IsGiven none k (x, e) rest =
    let y = rest x in (y.0, ap (λ o. elim o [ none ↦ none | some x ↦ k x ]) e ∙ y.1)
bind-IsGiven (some w) k g rest = rest w

module _ (lib : Library) (memory : lib.makes ≡ true) where
  alloc-IsGiven : (n : ℕ) → IsGiven (alloc lib none n)
  unfolding alloc
  alloc-IsGiven n = if-IsGiven (n == 0) _ _ (_, refl) (then-IsGiven lib.makes _ memory)

  -- With memory for a list, no null pointer is followed.
  wanted-IsGiven :
      {D : Type 0} (fs : Fs D) (hashes : Option HashList) (hashfunc : Bytes → ℕ)
      → IsGiven (wanted lib fs (record { hashes = hashes; hashfunc = hashfunc }))
  unfolding wanted
  wanted-IsGiven fs (some li) hashfunc = (_, refl)
  wanted-IsGiven fs none hashfunc =
      bind-IsGiven (alloc lib none (min (100 / 8) fs.options.inode_count)) _
        (alloc-IsGiven (min (100 / 8) fs.options.inode_count)) (λ x. (_, refl))

  hash_cache-IsGiven :
      {D : Type 0} (fs : Fs D) (c : Cache) (id : ℕ) (name : Bytes)
      → IsGiven (hash_cache lib fs c id name)
  unfolding hash_cache
  hash_cache-IsGiven fs c id name =
      if-IsGiven (not (is_enabled fs)) _ _ (_, refl)
        (if-IsGiven (get_or name 0 0 == 0) _ _ (_, refl)
          (bind-IsGiven (wanted lib fs c) _ (wanted-IsGiven fs c.hashes c.hashfunc)
            (λ x. (_, refl))))

  remember-IsGiven :
      {D : Type 0} (api : DevApi D) (fs : Fs D) (c : Cache) (id : ℕ) (s : WhefsString)
      → IsGiven (remember api lib true fs c id s)
  unfolding remember
  remember-IsGiven api fs c id s =
      if-IsGiven (s.length == 0) _ _ (_, refl)
        (bind-IsGiven (hash_cache lib fs c id (chars s)) _ (hash_cache-IsGiven fs c id (chars s))
          (λ x. (_, refl)))

  take_name_lem :
      {D : Type 0} (api : DevApi D) (fs : Fs D) (c : Cache) (id : ℕ) (str : Bytes)
      (tgt : WhefsString)
      → IsSound tgt
      → strlen str < 43691
      → (strlen str ≡ 1 → 1 < tgt.alloced)
      → (s : WhefsString) × (c' : Cache) × (take_name api lib true fs c id str tgt
          ≡ some (ok, s, fs, c'))
        × Holds str s
  unfolding take_name
  take_name_lem {D = D} api fs c id str tgt v small one =
      let kept : WhefsString → Option Cache → Option (Rc × WhefsString × Fs D × Cache) =
        λ s o. elim o [ none ↦ none | some c' ↦ some (ok, s, fs, c') ] in
      let named : Option (Rc × Option WhefsString) → Option (Rc × WhefsString × Fs D × Cache) = λ o.
        elim o [
          | none ↦ none
          | some (rc, s) ↦
              let t : WhefsString = elim s [ none ↦ tgt | some s' ↦ s' ] in
              elim (remember api lib true fs c id t) [
                | none ↦ none
                | some c' ↦ some (rc, t, fs, c')
              ]
        ] in
      elim (copy_cstring_lem true tgt str v small one) [
        | inl refused ↦ absurd (distinct refused.0)
        | inr stored ↦
            let r = remember-IsGiven api fs c id stored.0 in
            (stored.0, r.0, ap (λ o. named o) stored.1 ∙ ap (λ o. kept stored.0 o) r.1, stored.2)
      ]

module _ {D : Type 0} {api : DevApi D} (L : DevLaws api) where
  -- The record of a name on the disk.
  abbrev pub stored : Fs D → ℕ → Bytes
  stored fs id = slice (L.view fs.dev) (place fs id) fs.sizes.inode_name

  apart :
      (fs : Fs D) (id j : ℕ)
      → Has fs id
      → Has fs j
      → j ≢ id
      → (place fs j + fs.sizes.inode_name ≤ place fs id)
        ⊎ (place fs id + fs.sizes.inode_name ≤ place fs j)
  apart fs id j h h' ne = elim (ltb-cases j id) [
    | inl lower ↦
        inl
          (omega (arith, mul-lt (j - 1) (id - 1) fs.sizes.inode_name (omega (arith, lower, h'.0))))
    | inr upper ↦
        inr (
          omega
            (arith, mul-lt (id - 1) (j - 1) fs.sizes.inode_name (omega (arith, upper, ne, h.0))))
  ]

  -- What a write of the record of a name leaves of the table.
  abbrev pub Named : Fs D → ℕ → Bytes → Fs D → Type 0
  Named fs id name fs' =
      (stored fs' id ≡ name_record fs id name)
      × ((j : ℕ) → Has fs j → j ≢ id → stored fs' j ≡ stored fs j)

  pub after_write :
      (fs : Fs D) (id : ℕ) (name : Bytes) (d : D)
      → IsLaid L fs
      → Has fs id
      → strlen name ≤ fs.options.filename_length
      → L.view d ≡ overwrite (L.view fs.dev) (place fs id) (name_record fs id name)
      → Named fs id name (record fs { dev = d })
  after_write fs id name d v h short e =
      let size : length (name_record fs id name) ≡ fs.sizes.inode_name =
        omega (arith, length-field fs.options.filename_length name short, v.sized) in
      (
        ap (λ x. slice x (place fs id) fs.sizes.inode_name) e
            ∙ ap
                (λ k.
                  slice (overwrite (L.view fs.dev) (place fs id) (name_record fs id name))
                    (place fs id) k)
                (sym size)
            ∙ slice-overwrite_self (L.view fs.dev) (place fs id) (name_record fs id name)
                (omega (arith, (place_lem L fs id v h).fits, size)),
        λ j h' ne.
            ap (λ x. slice x (place fs j) fs.sizes.inode_name) e
            ∙ slice-overwrite_apart (L.view fs.dev) (place fs id) (place fs j) fs.sizes.inode_name
                (name_record fs id name)
                (subst
                  (λ m.
                    (place fs j + fs.sizes.inode_name ≤ place fs id)
                    ⊎ (place fs id + m ≤ place fs j))
                  (sym size) (apart fs id j h h' ne)),
      )

  -- What reading a name that is on the disk gives.
  pub record Gets (lib : Library) (fs : Fs D) (c : Cache) (id : ℕ) (name : Bytes)
      (tgt : WhefsString) : Type 0 where
    pub dev : D
    pub cache : Cache
    pub into : WhefsString
    pub is : name_get api lib true fs c id tgt ≡ some (ok, into, record fs { dev = dev }, cache)
    pub laid : IsLaid L (record fs { dev = dev })
    pub disk : L.view dev ≡ L.view fs.dev
    pub sound : IsSound into
    pub long : into.length ≡ strlen name
    pub reads : text into.string ≡ take (strlen name) name

  pub gets :
      (lib : Library) (fs : Fs D) (c : Cache) (id : ℕ) (name : Bytes) (tgt : WhefsString)
      → lib.makes ≡ true
      → IsLaid L fs
      → Has fs id
      → strlen name ≤ fs.options.filename_length
      → stored fs id ≡ name_record fs id name
      → IsSound tgt
      → (strlen name ≡ 1 → 1 < tgt.alloced)
      → Gets lib fs c id name tgt
  gets lib fs c id name tgt memory v h short there sound one =
      let n = fs.options.filename_length in
      let g = name_get_lem L lib true fs c id name tgt v h short there in
      let str = strlen-buffer_text n name v.short in
      let t =
        take_name_lem lib memory api (record fs { dev = g.0 }) c id (buffer_text n name) tgt sound
          (omega (arith, str.0, short, v.short)) (λ e. one (sym str.0 ∙ e)) in
      record {
        dev = g.0;
        cache = t.1;
        into = t.0;
        is = g.1 ∙ t.2;
        laid = record {
          ready = g.2;
          sized = v.sized;
          short = v.short;
          room = omega (arith, v.room, ap length g.3);
        };
        disk = g.3;
        sound = t.3.sound;
        long = t.3.long ∙ str.0;
        reads = t.3.reads ∙ str.1;
      }

  -- On a filesystem whose table of names lies in a device that keeps its laws, and with memory for a list
  -- of hashes and for a string, a name that is not too long is written under a number in range, and reading
  -- it then returns OK: the string has the length of the name and its bytes, terminated inside the buffer,
  -- whatever sound string it was before (with room for two bytes, if the name has one). The records of all
  -- other names are as they were, after the write and after the read.
  pub name_get-write :
      (lib : Library) (fs : Fs D) (c : Cache) (id : ℕ) (name : Bytes) (tgt : WhefsString)
      → lib.makes ≡ true
      → IsLaid L fs
      → Has fs id
      → strlen name ≤ fs.options.filename_length
      → IsSound tgt
      → (strlen name ≡ 1 → 1 < tgt.alloced)
      → (fs' fs2 : Fs D) × (c' : Cache) × (s : WhefsString) × (name_write api fs id (some name)
          ≡ (ok, fs'))
        × (name_get api lib true fs' c id tgt ≡ some (ok, s, fs2, c'))
        × IsSound s
        × (s.length ≡ strlen name)
        × (text s.string ≡ take (strlen name) name)
        × (L.view fs2.dev ≡ L.view fs'.dev)
        × ((j : ℕ) → Has fs j → j ≢ id → stored fs' j ≡ stored fs j)
  name_get-write lib fs c id name tgt memory v h short sound one =
      let w = name_write_lem L fs id name v h short in
      let fs' = record fs { dev = w.0 } in
      let a = after_write fs id name w.0 v h short w.3 in
      let g = gets lib fs' c id name tgt memory w.2 h short a.0 sound one in
      (
        fs',
        record fs' { dev = g.dev },
        g.cache,
        g.into,
        w.1,
        g.is,
        g.sound,
        g.long,
        g.reads,
        g.disk,
        a.1,
      )
