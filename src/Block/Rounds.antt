-- ===== src/Block/Rounds.antt =====
-- What the search for a free block is to find, and one round of its loop.
use whefs.Common.{
  choose, ℕ, suc, ◌+◌, ◌%◌, ◌≡◌, refl, ap, sym, ◌∙◌, Bool, true, Option, some, ◌==◌, if◌then◌else◌,
  not, ◌&&◌, ltb, ==_refl,
}
use whefs.Rc.{Rc, ok, internal_error, fs_full, id_bound}
use whefs.Device.{DevApi}
use whefs.Fs.{Fs, has_flag, flag_used, bcache_is_used}
use whefs.Block.{Block, update_used, read}
use whefs.Block.Alloc.{found, scan}

-- One round of the loop, by what it meets.
module _ {D : Type 0} (api : DevApi D) where
  pub scan_full :
      (rounds : ℕ) (fs : Fs D) (i : ℕ) (bl tgt : Block) (m : Bool)
      → ltb fs.options.block_count i ≡ true
      → scan api (suc rounds) fs i bl tgt m ≡ some (fs_full, tgt, fs)
  unfolding scan
  scan_full rounds fs i bl tgt m full = rw full refl

  -- The rest of a round, after the block was read.
  abbrev pub round : ℕ → ℕ → Block → Bool → Rc × Block × Fs D → Option (Rc × Block × Fs D)
  round rounds i tgt m (rc, bl, fs) = elim rc [
    | ok ↦
        if not (bl.id == i)
        then some (internal_error, tgt, fs)
        else if has_flag bl.flags flag_used
        then scan api rounds (update_used fs bl) ((i + 1) % id_bound) bl tgt m
        else some (found api fs bl m)
    | other ↦ some (other, tgt, fs)
  ]

  pub scan-round :
      (rounds : ℕ) (fs : Fs D) (i : ℕ) (bl tgt : Block) (m : Bool)
      → scan api (suc rounds) fs i bl tgt m
        ≡ choose
            (ltb fs.options.block_count i)
            (fs.b_loaded && bcache_is_used fs.used_blocks i)
            (some (fs_full, tgt, fs))
            (scan api rounds fs ((i + 1) % id_bound) bl tgt m)
            (round rounds i tgt m (read api fs i bl))
  unfolding scan
  scan-round rounds fs i bl tgt m = refl

  pub round_lem :
      (rounds i : ℕ) (bl tgt : Block) (m : Bool) (fs : Fs D)
      → bl.id ≡ i
      → round rounds i tgt m (ok, bl, fs) ≡ (
          if has_flag bl.flags flag_used
          then scan api rounds (update_used fs bl) ((i + 1) % id_bound) bl tgt m
          else some (found api fs bl m))
  round_lem rounds i bl tgt m fs e =
      ap
        (λ b.
          if not b
          then some (internal_error, tgt, fs)
          else if has_flag bl.flags flag_used
          then scan api rounds (update_used fs bl) ((i + 1) % id_bound) bl tgt m
          else some (found api fs bl m))
        (ap (λ n. bl.id == n) (sym e) ∙ ==_refl bl.id)
