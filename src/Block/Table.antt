-- ===== src/Block/Table.antt =====
-- The table of the blocks and the bitset of those in use, as they agree with each other.
use whefs.Common.{
  ℕ, ◌<◌, ◌≡◌, ◌≢◌, inl, inr, refl, ap, sym, ◌∙◌, subst, arith, Bool, true, false, ◌==◌,
  if◌then◌else◌, length, Bool-cases, ==_refl, ==_iff,
}
use whefs.Bits.{Whbits}
use whefs.Bits.Laws.{IsValid}
use whefs.Device.{DevApi, DevLaws}
use whefs.Fs.{Fs, has_flag, flag_used, bcache_is_used}
use whefs.Fs.Bcache.{Notes, set_used-Notes, unset_used-Notes}
use whefs.Block.{Block, encode, update_used}
use whefs.Block.Header.{IsNarrow}
use whefs.Block.Place.{update_used_dev, IsLaid, header, Has, header_lem, Kept-IsLaid}
use whefs.Block.Flush.{moved}

-- Whether a block of the table is in use.
abbrev pub used : (ℕ → Block) → ℕ → Bool
used blocks j = has_flag (blocks j).flags flag_used

-- The blocks with one in the place of another.
abbrev pub put : (ℕ → Block) → Block → ℕ → Block
put blocks b j = if b.id == j then b else blocks j

pub put_here : (blocks : ℕ → Block) (b : Block) (j : ℕ) → b.id ≡ j → put blocks b j ≡ b
put_here blocks b j e =
    ap (λ t. if t then b else blocks j) (ap (λ k. b.id == k) (sym e) ∙ ==_refl b.id)

put_there :
    (blocks : ℕ → Block) (b : Block) (j : ℕ) → (b.id == j) ≡ false → put blocks b j ≡ blocks j
put_there blocks b j e = ap (λ t. if t then b else blocks j) e

-- What holds of all blocks and of the new one holds of all blocks after that.
pub put_all :
    (P : Block → ℕ → Type 0) (blocks : ℕ → Block) (b : Block) (j : ℕ)
    → (b.id ≡ j → P b j)
    → (b.id ≢ j → P (blocks j) j)
    → P (put blocks b j) j
put_all P blocks b j here there = elim (Bool-cases (b.id == j)) [
  | inl same ↦
      let e : b.id ≡ j = (==_iff _ _).0 same in
      subst (λ c. P c j) (sym (put_here blocks b j e)) (here e)
  | inr other ↦
      subst (λ c. P c j) (sym (put_there blocks b j other)) (there (λ e. ground (arith, other, e)))
]

put_self : (blocks : ℕ → Block) (i j : ℕ) → (blocks i).id ≡ i → put blocks (blocks i) j ≡ blocks j
put_self blocks i j e =
    put_all (λ c k. c ≡ blocks k) blocks (blocks i) j
      (λ same. ap blocks {x = i} {y = j} (omega (arith, e, same))) (λ other. refl)

module _ {D : Type 0} {api : DevApi D} (L : DevLaws api) where
  -- The headers on the disk are those of the blocks, and a block that the bitset has as used is so. The
  -- bitset need not have all of the used blocks.
  pub record Table (blocks : ℕ → Block) (fs : Fs D) : Type 0 where
    pub laid : IsLaid L fs
    pub on_disk : (j : ℕ) → Has L fs j → header L fs j ≡ encode (blocks j)
    pub narrow : (j : ℕ) → Has L fs j → IsNarrow (blocks j)
    pub numbered : (j : ℕ) → Has L fs j → (blocks j).id ≡ j
    pub bits : IsValid fs.used_blocks
    pub enough : fs.options.block_count < fs.used_blocks.sz_bits
    pub cached :
        (j : ℕ)
        → Has L fs j
        → fs.b_loaded ≡ true
        → bcache_is_used fs.used_blocks j ≡ true
        → used blocks j ≡ true

  -- The bitset, once it is loaded, has the used blocks and no others.
  abbrev pub Cached : (ℕ → Block) → Fs D → Type 0
  Cached blocks fs =
      fs.b_loaded ≡ true → (j : ℕ) → Has L fs j → bcache_is_used fs.used_blocks j ≡ used blocks j

  -- What is noted of a block that is made known.
  pub update-Notes :
      (blocks : ℕ → Block) (fs : Fs D) (b : Block)
      → Table blocks fs
      → Has L fs b.id
      → fs.b_loaded ≡ true
      → Notes fs.used_blocks b.id (has_flag b.flags flag_used) (update_used fs b).used_blocks
  unfolding update_used
  update-Notes blocks fs b t h loaded =
      let small : b.id < fs.used_blocks.sz_bits = omega (arith, h.1, t.enough) in
      elim (Bool-cases (has_flag b.flags flag_used)) [
        | inl is_used ↦ rw (loaded, is_used) (set_used-Notes fs.used_blocks b.id t.bits small)
        | inr is_free ↦ rw (loaded, is_free) (unset_used-Notes fs.used_blocks b.id t.bits small)
      ]

  -- A bitset that has the used blocks and no others has them again with a block in its place.
  pub update-Cached :
      (blocks : ℕ → Block) (fs : Fs D) (b : Block) (j : ℕ)
      → Table blocks fs
      → Has L fs b.id
      → Has L fs j
      → fs.b_loaded ≡ true
      → bcache_is_used fs.used_blocks j ≡ used blocks j
      → bcache_is_used (update_used fs b).used_blocks j ≡ used (put blocks b) j
  update-Cached blocks fs b j t h h' loaded agrees =
      (update-Notes blocks fs b t h loaded).reads j (omega (arith, h'.1, t.enough))
      ∙ elim (Bool-cases (b.id == j)) [
        | inl same ↦
            ap (λ x. if x then has_flag b.flags flag_used else bcache_is_used fs.used_blocks j) same
            ∙ ap (λ x. has_flag (if x then b else blocks j).flags flag_used) (sym same)
        | inr other ↦
            ap (λ x. if x then has_flag b.flags flag_used else bcache_is_used fs.used_blocks j)
              other
            ∙ agrees
            ∙ ap (λ x. has_flag (if x then b else blocks j).flags flag_used) (sym other)
      ]

  -- A bit of the bitset after a block is noted there, by its flag.
  noted_used :
      (blocks : ℕ → Block) (fs : Fs D) (b : Block) (c : Whbits) (x : Bool) (j : ℕ)
      → Table blocks fs
      → Has L fs j
      → fs.b_loaded ≡ true
      → has_flag b.flags flag_used ≡ x
      → Notes fs.used_blocks b.id x c
      → bcache_is_used c j ≡ true
      → used (put blocks b) j ≡ true
  noted_used blocks fs b c x j t h loaded flag n e =
      let r = n.reads j (omega (arith, h.1, t.enough)) in
      put_all (λ d k. (bcache_is_used c k ≡ true) → has_flag d.flags flag_used ≡ true) blocks b j
        (λ same e'. flag ∙ (ground (arith, r, same, e')))
        (λ other e'. t.cached j h loaded (ground (arith, r, other, e'))) e

  -- What the bitset is after a block is made known.
  pub record Knows (blocks : ℕ → Block) (fs : Fs D) (b : Block) (c : Whbits) : Type 0 where
    pub bits : IsValid c
    pub size : c.sz_bits ≡ fs.used_blocks.sz_bits
    pub cached :
        (j : ℕ)
        → Has L fs j
        → fs.b_loaded ≡ true
        → bcache_is_used c j ≡ true
        → used (put blocks b) j ≡ true

  pub update-Knows :
      (blocks : ℕ → Block) (fs : Fs D) (b : Block)
      → Table blocks fs
      → Has L fs b.id
      → Knows blocks fs b (update_used fs b).used_blocks
  unfolding update_used
  update-Knows blocks fs b t h =
      let small : b.id < fs.used_blocks.sz_bits = omega (arith, h.1, t.enough) in
      elim (Bool-cases fs.b_loaded) [
        | inl loaded ↦ elim (Bool-cases (has_flag b.flags flag_used)) [
          | inl is_used ↦
              let n = set_used-Notes fs.used_blocks b.id t.bits small in
              rw (loaded, is_used)
                (record {
                  bits = n.valid;
                  size = n.size;
                  cached = λ j h' l c. noted_used blocks fs b _ true j t h' loaded is_used n c;
                })
          | inr is_free ↦
              let n = unset_used-Notes fs.used_blocks b.id t.bits small in
              rw (loaded, is_free)
                (record {
                  bits = n.valid;
                  size = n.size;
                  cached = λ j h' l c. noted_used blocks fs b _ false j t h' loaded is_free n c;
                })
        ]
        | inr unloaded ↦
            rw unloaded (record { bits = t.bits; size = refl; cached = λ j h' l c. cc })
      ]

  -- The table after a block of it was read, in a device with the same contents.
  pub read-Table :
      (blocks : ℕ → Block) (fs : Fs D) (i : ℕ) (d : D)
      → Table blocks fs
      → Has L fs i
      → L.Valid d
      → L.view d ≡ L.view fs.dev
      → Table blocks (update_used (record fs { dev = d }) (blocks i))
  read-Table blocks fs i d t h v e =
      let fs' = update_used (record fs { dev = d }) (blocks i) in
      let k = moved L fs d (blocks i) in
      let dev : fs'.dev ≡ d = update_used_dev (record fs { dev = d }) (blocks i) in
      let view : L.view fs'.dev ≡ L.view fs.dev = ap (λ x. L.view x) dev ∙ e in
      let count = ap (λ o. o.block_count) k.options in
      let there : Table blocks (record fs { dev = d }) = record {
        laid =
            Kept-IsLaid L {fs' = record fs { dev = d }}
              (record {
                flags = refl;
                offsets = refl;
                sizes = refl;
                options = refl;
                b_loaded = refl;
              })
              t.laid v (ap length e);
        on_disk = λ j h'.
            header_lem L j
              (record {
                flags = refl;
                offsets = refl;
                sizes = refl;
                options = refl;
                b_loaded = refl;
              })
              e
            ∙ t.on_disk j h';
        narrow = t.narrow;
        numbered = t.numbered;
        bits = t.bits;
        enough = t.enough;
        cached = t.cached;
      } in
      let n =
        update-Knows blocks (record fs { dev = d }) (blocks i) there
          (omega (arith, t.numbered i h, h.0), omega (arith, t.numbered i h, h.1)) in
      let has : (j : ℕ) → Has L fs' j → Has L fs j = λ j h'. (h'.0, omega (arith, h'.1, count)) in
      record {
        laid = Kept-IsLaid L k t.laid (subst (λ x. L.Valid x) (sym dev) v) (ap length view);
        on_disk = λ j h'. header_lem L j k view ∙ t.on_disk j (has j h');
        narrow = λ j h'. t.narrow j (has j h');
        numbered = λ j h'. t.numbered j (has j h');
        bits = n.bits;
        enough = omega (arith, t.enough, n.size, count);
        cached = λ j h' l c.
            ap (λ x. has_flag x.flags flag_used) (sym (put_self blocks i j (t.numbered i h)))
            ∙ n.cached j (has j h') (sym k.b_loaded ∙ l) c;
      }
