-- ===== src/Inode/Place.antt =====
-- Where the records of the inodes lie, over a device that keeps its laws.
use whefs.Common.{
  ℕ, ◌+◌, ◌-◌, ◌*◌, ◌%◌, ◌<◌, ◌≤◌, ◌≡◌, ◌≢◌, ◌⊎◌, inl, inr, refl, ap, ◌∙◌, arith, true, length,
  slice, mul-lt, ltb-cases,
}
use whefs.Rc.{size_bound, id_type_end}
use whefs.Encode.{Bytes}
use whefs.Device.{DevApi, DevLaws}
use whefs.Fs.{Fs, sizeof_encoded_inode}
use whefs.Inode.{Inode, id_is_valid, id_pos, update_used}

-- The filesystem has changed in its device and in what it knows of the used inodes, at most.
pub record Same {D : Type 0} (fs fs' : Fs D) : Type 0 where
  pub flags : fs'.flags ≡ fs.flags
  pub offsets : fs'.offsets ≡ fs.offsets
  pub sizes : fs'.sizes ≡ fs.sizes
  pub options : fs'.options ≡ fs.options
  pub used_blocks : fs'.used_blocks ≡ fs.used_blocks
  pub b_loaded : fs'.b_loaded ≡ fs.b_loaded
  pub unused_block_start : fs'.unused_block_start ≡ fs.unused_block_start
  pub i_loaded : fs'.i_loaded ≡ fs.i_loaded

pub Same-trans : {D : Type 0} {a b c : Fs D} → Same a b → Same b c → Same a c
Same-trans k l = record {
  flags = l.flags ∙ k.flags;
  offsets = l.offsets ∙ k.offsets;
  sizes = l.sizes ∙ k.sizes;
  options = l.options ∙ k.options;
  used_blocks = l.used_blocks ∙ k.used_blocks;
  b_loaded = l.b_loaded ∙ k.b_loaded;
  unused_block_start = l.unused_block_start ∙ k.unused_block_start;
  i_loaded = l.i_loaded ∙ k.i_loaded;
}

-- A device in the place of the filesystem's.
pub moved-Same : {D : Type 0} (fs : Fs D) (d : D) → Same fs (record fs { dev = d })
moved-Same fs d = record {
  flags = refl;
  offsets = refl;
  sizes = refl;
  options = refl;
  used_blocks = refl;
  b_loaded = refl;
  unused_block_start = refl;
  i_loaded = refl;
}

pub update_used-Same : {D : Type 0} (fs : Fs D) (n : Inode) → Same fs (update_used fs n)
unfolding update_used
update_used-Same fs n = record {
  flags = ground arith;
  offsets = ground arith;
  sizes = ground arith;
  options = ground arith;
  used_blocks = ground arith;
  b_loaded = ground arith;
  unused_block_start = ground arith;
  i_loaded = ground arith;
}

pub update_used_dev : {D : Type 0} (fs : Fs D) (n : Inode) → (update_used fs n).dev ≡ fs.dev
unfolding update_used
update_used_dev fs n = ground arith

-- The position of an inode.
abbrev pub place : {D : Type 0} → Fs D → ℕ → ℕ
place fs id = fs.offsets.inodes_no_str + (id - 1) * fs.sizes.inode_no_str

pub Same-place : {D : Type 0} {fs fs' : Fs D} → Same fs fs' → (id : ℕ) → place fs' id ≡ place fs id
Same-place {fs = fs} {fs' = fs'} k id =
    ap (λ o. o.inodes_no_str + (id - 1) * fs'.sizes.inode_no_str) k.offsets
    ∙ ap (λ s. fs.offsets.inodes_no_str + (id - 1) * s.inode_no_str) k.sizes

-- A number of an inode.
abbrev pub Has : {D : Type 0} → Fs D → ℕ → Type 0
Has fs id = (0 < id) × (id ≤ fs.options.inode_count)

pub Same-Has : {D : Type 0} {fs fs' : Fs D} → Same fs fs' → (id : ℕ) → Has fs id → Has fs' id
Same-Has k id h = (h.0, omega (arith, h.1, ap (λ o. o.inode_count) k.options))

module _ {D : Type 0} {api : DevApi D} (L : DevLaws api) where
  -- The table of inodes lies in the contents of the device, behind other parts.
  pub record IsLaid (fs : Fs D) : Type 0 where
    pub ready : L.Valid fs.dev
    pub behind : 0 < fs.offsets.inodes_no_str
    pub sized : fs.sizes.inode_no_str ≡ sizeof_encoded_inode
    pub counted : fs.options.inode_count < id_type_end
    pub room :
        fs.offsets.inodes_no_str + fs.options.inode_count * fs.sizes.inode_no_str
        ≤ length (L.view fs.dev)

  -- The bytes on the disk of an inode.
  unfoldable pub stored : Fs D → ℕ → Bytes
  stored fs id = slice (L.view fs.dev) (place fs id) sizeof_encoded_inode

  pub record Placed (fs : Fs D) (id : ℕ) : Type 0 where
    pub valid : id_is_valid fs id ≡ true
    pub is : id_pos fs id ≡ place fs id
    pub some_pos : 0 < place fs id
    pub fits : place fs id + sizeof_encoded_inode ≤ length (L.view fs.dev)

  pub place_lem : (fs : Fs D) (id : ℕ) → IsLaid fs → Has fs id → Placed fs id
  unfolding id_is_valid id_pos
  place_lem fs id v h =
      let k =
        mul-lt (id - 1) fs.options.inode_count fs.sizes.inode_no_str (omega (arith, h.0, h.1)) in
      let small = L.view-lt fs.dev v.ready in
      let e : (id - 1) * fs.sizes.inode_no_str % size_bound ≡ (id - 1) * fs.sizes.inode_no_str =
        omega (arith, k, v.room, small) in
      let ok : id_is_valid fs id ≡ true = ground (arith, h.0, h.1) in
      record {
        valid = ok;
        is = rw (ok, e) (omega (arith, k, v.room, small));
        some_pos = omega (arith, v.behind);
        fits = omega (arith, k, v.room, v.sized);
      }

  pub stored_lem :
      {fs fs' : Fs D} (id : ℕ)
      → Same fs fs'
      → L.view fs'.dev ≡ L.view fs.dev
      → stored fs' id ≡ stored fs id
  unfolding stored
  stored_lem {fs} {fs'} id k e =
      ap (λ x. slice x (place fs' id) sizeof_encoded_inode) e
      ∙ ap (λ p. slice (L.view fs.dev) p sizeof_encoded_inode) (Same-place k id)

  pub Same-IsLaid :
      {fs fs' : Fs D}
      → Same fs fs'
      → IsLaid fs
      → L.Valid fs'.dev
      → length (L.view fs'.dev) ≡ length (L.view fs.dev)
      → IsLaid fs'
  Same-IsLaid k v ready e =
      let o = ap (λ o. o.inodes_no_str) k.offsets in
      let s = ap (λ s. s.inode_no_str) k.sizes in
      let c = ap (λ o. o.inode_count) k.options in
      record {
        ready = ready;
        behind = omega (arith, o, v.behind);
        sized = s ∙ v.sized;
        counted = omega (arith, c, v.counted);
        room = rw (o, s, c, e) v.room;
      }

  -- Two inodes do not meet.
  pub apart :
      (fs : Fs D) (id j : ℕ)
      → IsLaid fs
      → Has fs id
      → Has fs j
      → j ≢ id
      → (place fs j + sizeof_encoded_inode ≤ place fs id)
        ⊎ (place fs id + sizeof_encoded_inode ≤ place fs j)
  apart fs id j v h h' ne = elim (ltb-cases j id) [
    | inl lower ↦ inl (
        omega (
          arith,
          v.sized,
          mul-lt (j - 1) (id - 1) fs.sizes.inode_no_str (omega (arith, lower, h'.0)),
        ))
    | inr upper ↦ inr (
        omega (
          arith,
          v.sized,
          mul-lt (id - 1) (j - 1) fs.sizes.inode_no_str (omega (arith, upper, ne, h.0)),
        ))
  ]
