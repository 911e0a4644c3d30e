-- ===== src/Block/Place.antt =====
-- Where the blocks of a container lie, over a device that keeps its laws.
use whefs.Common.{
  ℕ, ◌+◌, ◌-◌, ◌*◌, ◌%◌, ◌<◌, ◌≤◌, ◌≡◌, ◌≢◌, ◌⊎◌, inl, inr, ap, ◌∙◌, arith, true, length, slice,
  mul-lt, ltb-cases,
}
use whefs.Rc.{size_bound, size_t_error, id_type_end}
use whefs.Encode.{Bytes}
use whefs.Device.{DevApi, DevLaws}
use whefs.Fs.{Fs, sizeof_encoded_block}
use whefs.Block.{Block, id_is_valid, id_pos, id_data_pos, update_used}

-- The filesystem has changed in its device and in what it knows of the used blocks, at most.
pub record Kept {D : Type 0} (fs fs' : Fs D) : Type 0 where
  pub flags : fs'.flags ≡ fs.flags
  pub offsets : fs'.offsets ≡ fs.offsets
  pub sizes : fs'.sizes ≡ fs.sizes
  pub options : fs'.options ≡ fs.options
  pub b_loaded : fs'.b_loaded ≡ fs.b_loaded

pub Kept-trans : {D : Type 0} {a b c : Fs D} → Kept a b → Kept b c → Kept a c
Kept-trans k l = record {
  flags = l.flags ∙ k.flags;
  offsets = l.offsets ∙ k.offsets;
  sizes = l.sizes ∙ k.sizes;
  options = l.options ∙ k.options;
  b_loaded = l.b_loaded ∙ k.b_loaded;
}

pub update_used-Kept : {D : Type 0} (fs : Fs D) (bl : Block) → Kept fs (update_used fs bl)
unfolding update_used
update_used-Kept fs bl = record {
  flags = ground arith;
  offsets = ground arith;
  sizes = ground arith;
  options = ground arith;
  b_loaded = ground arith;
}

pub update_used_dev : {D : Type 0} (fs : Fs D) (bl : Block) → (update_used fs bl).dev ≡ fs.dev
unfolding update_used
update_used_dev fs bl = ground arith

-- The position of a block.
abbrev pub place : {D : Type 0} → Fs D → ℕ → ℕ
place fs id = fs.offsets.blocks + (id - 1) * fs.sizes.block

pub Kept-place : {D : Type 0} {fs fs' : Fs D} → Kept fs fs' → (id : ℕ) → place fs' id ≡ place fs id
Kept-place {fs = fs} {fs' = fs'} k id =
    ap (λ o. o.blocks + (id - 1) * fs'.sizes.block) k.offsets
    ∙ ap (λ s. fs.offsets.blocks + (id - 1) * s.block) k.sizes

data_pos_lem :
    {D : Type 0} (fs : Fs D) (id p : ℕ)
    → id_pos fs id ≡ p
    → 0 < p
    → p + sizeof_encoded_block < size_bound
    → id_data_pos fs id ≡ p + sizeof_encoded_block
unfolding id_data_pos
data_pos_lem fs id p e h k = ground (arith, e)

module _ {D : Type 0} {api : DevApi D} (L : DevLaws api) where
  -- The table of blocks lies in the contents of the device, behind other parts.
  pub record IsLaid (fs : Fs D) : Type 0 where
    pub ready : L.Valid fs.dev
    pub behind : 0 < fs.offsets.blocks
    pub sized : fs.sizes.block ≡ fs.options.block_size + sizeof_encoded_block
    pub counted : fs.options.block_count < id_type_end
    pub room : fs.offsets.blocks + fs.options.block_count * fs.sizes.block ≤ length (L.view fs.dev)

  -- The header of a block, and its data.
  unfoldable pub header : Fs D → ℕ → Bytes
  header fs id = slice (L.view fs.dev) (place fs id) sizeof_encoded_block

  unfoldable pub contents : Fs D → ℕ → Bytes
  contents fs id = slice (L.view fs.dev) (place fs id + sizeof_encoded_block) fs.options.block_size

  -- A number of a block.
  abbrev pub Has : Fs D → ℕ → Type 0
  Has fs id = (0 < id) × (id ≤ fs.options.block_count)

  pub record Placed (fs : Fs D) (id : ℕ) : Type 0 where
    pub valid : id_is_valid fs id ≡ true
    pub is : id_pos fs id ≡ place fs id
    pub data_is : id_data_pos fs id ≡ place fs id + sizeof_encoded_block
    pub some_pos : 0 < place fs id
    pub fits : place fs id + fs.sizes.block ≤ length (L.view fs.dev)
    pub small : place fs id + fs.sizes.block < size_t_error

  pub place_lem : (fs : Fs D) (id : ℕ) → IsLaid fs → Has fs id → Placed fs id
  unfolding id_is_valid id_pos
  place_lem fs id v h =
      let k = mul-lt (id - 1) fs.options.block_count fs.sizes.block (omega (arith, h.0, h.1)) in
      let small = L.view-lt fs.dev v.ready in
      let e : (id - 1) * fs.sizes.block % size_bound ≡ (id - 1) * fs.sizes.block =
        omega (arith, k, v.room, small) in
      let ok : id_is_valid fs id ≡ true = ground (arith, h.0, h.1) in
      let p : id_pos fs id ≡ place fs id = rw (ok, e) (omega (arith, k, v.room, small)) in
      record {
        valid = ok;
        is = p;
        data_is =
            data_pos_lem fs id (place fs id) p (omega (arith, v.behind))
              (omega (arith, k, v.room, v.sized, small));
        some_pos = omega (arith, v.behind);
        fits = omega (arith, k, v.room);
        small = omega (arith, k, v.room, small);
      }

  -- What a filesystem has on the disk for a block is seen in its device alone.
  pub header_lem :
      {fs fs' : Fs D} (id : ℕ)
      → Kept fs fs'
      → L.view fs'.dev ≡ L.view fs.dev
      → header fs' id ≡ header fs id
  unfolding header
  header_lem {fs} {fs'} id k e =
      ap (λ x. slice x (place fs' id) sizeof_encoded_block) e
      ∙ ap (λ p. slice (L.view fs.dev) p sizeof_encoded_block) (Kept-place k id)

  pub contents_lem :
      {fs fs' : Fs D} (id : ℕ)
      → Kept fs fs'
      → L.view fs'.dev ≡ L.view fs.dev
      → contents fs' id ≡ contents fs id
  unfolding contents
  contents_lem {fs} {fs'} id k e =
      ap (λ x. slice x (place fs' id + sizeof_encoded_block) fs'.options.block_size) e
      ∙ ap (λ p. slice (L.view fs.dev) (p + sizeof_encoded_block) fs'.options.block_size)
          (Kept-place k id)
      ∙ ap (λ o. slice (L.view fs.dev) (place fs id + sizeof_encoded_block) o.block_size) k.options

  pub Kept-IsLaid :
      {fs fs' : Fs D}
      → Kept fs fs'
      → IsLaid fs
      → L.Valid fs'.dev
      → length (L.view fs'.dev) ≡ length (L.view fs.dev)
      → IsLaid fs'
  Kept-IsLaid k v ready e =
      let o = ap (λ o. o.blocks) k.offsets in
      let s = ap (λ s. s.block) k.sizes in
      let c = ap (λ o. o.block_count) k.options in
      record {
        ready = ready;
        behind = omega (arith, o, v.behind);
        sized = s ∙ v.sized ∙ omega (arith, ap (λ o. o.block_size) k.options);
        counted = omega (arith, c, v.counted);
        room = rw (o, s, c, e) v.room;
      }

  -- Two blocks do not meet.
  pub apart :
      (fs : Fs D) (id j : ℕ)
      → Has fs id
      → Has fs j
      → j ≢ id
      → (place fs j + fs.sizes.block ≤ place fs id) ⊎ (place fs id + fs.sizes.block ≤ place fs j)
  apart fs id j h h' ne = elim (ltb-cases j id) [
    | inl lower ↦
        inl (omega (arith, mul-lt (j - 1) (id - 1) fs.sizes.block (omega (arith, lower, h'.0))))
    | inr upper ↦
        inr (omega (arith, mul-lt (id - 1) (j - 1) fs.sizes.block (omega (arith, upper, ne, h.0))))
  ]
