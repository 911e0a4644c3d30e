-- ===== src/Block/Format.antt =====
-- Making a container: the loop over all blocks leaves each free and with zeros for its data.
use whefs.Common.{
  ℕ, zero, suc, ◌+◌, ◌%◌, ◌<◌, ◌≤◌, ◌≡◌, ◌≢◌, inl, inr, refl, ap, sym, ◌∙◌, subst, arith, true,
  false, Option, none, some, if◌then◌else◌, ltb, length, ltb-cases,
}
use whefs.Rc.{Rc, ok, arg_error, id_bound}
use whefs.Device.{DevApi, DevLaws}
use whefs.Fs.{Fs, is_rw, fs_seek}
use whefs.Block.{Block, empty, id_is_valid}
use whefs.Block.Wiping.{wipe}
use whefs.Block.Alloc.{write_blocklist_loop, write_blocklist}
use whefs.Block.Place.{Kept, Kept-trans, IsLaid, Has, Kept-IsLaid}
use whefs.Block.Flush.{Others}
use whefs.Block.Zeros.{zeros}
use whefs.Block.Marks.{Kept-is_rw}
use whefs.Block.Clean.{clean}
use whefs.Block.Blank.{IsBlank, wipe-IsBlank}

module _ {D : Type 0} (api : DevApi D) where
  wipe_invalid :
      (fs : Fs D) (bl : Block)
      → id_is_valid fs bl.id ≡ false
      → wipe api 0 fs bl true true false ≡ some (arg_error, bl, fs)
  unfolding wipe
  wipe_invalid fs bl v = rw v refl

  abbrev next_round : ℕ → Fs D → ℕ → Option (Rc × Block × Fs D) → Option (Rc × Fs D)
  next_round rounds fs i o = elim o [
    | none ↦ none
    | some (rc, bl, fs') ↦ if ltb fs.options.block_count i then some (ok, fs) else elim rc [
      | ok ↦ write_blocklist_loop api rounds fs' ((i + 1) % id_bound) bl
      | other ↦ some (other, fs')
    ]
  ]

  loop_round :
      (rounds : ℕ) (fs : Fs D) (i : ℕ) (bl : Block)
      → write_blocklist_loop api (suc rounds) fs i bl
        ≡ next_round rounds fs i (wipe api 0 fs (record bl { id = i }) true true false)
  unfolding write_blocklist_loop
  loop_round rounds fs i bl = refl

  past_end : (fs : Fs D) (i : ℕ) → fs.options.block_count < i → id_is_valid fs i ≡ false
  unfolding id_is_valid
  past_end fs i h = ground (arith, h)

  loop_ends :
      (rounds : ℕ) (fs : Fs D) (i : ℕ) (bl : Block)
      → fs.options.block_count < i
      → write_blocklist_loop api (suc rounds) fs i bl ≡ some (ok, fs)
  loop_ends rounds fs i bl h =
      let past : ltb fs.options.block_count i ≡ true = ground (arith, h) in
      loop_round rounds fs i bl
      ∙ ap (λ o. next_round rounds fs i o)
          (wipe_invalid fs (record bl { id = i }) (past_end fs i h))
      ∙ ap (λ b. if b then some (ok, fs) else some (arg_error, fs)) past

  loop_step :
      (rounds : ℕ) (fs fs' : Fs D) (i : ℕ) (bl bl' : Block)
      → i ≤ fs.options.block_count
      → i + 1 < id_bound
      → wipe api 0 fs (record bl { id = i }) true true false ≡ some (ok, bl', fs')
      → write_blocklist_loop api (suc rounds) fs i bl
        ≡ write_blocklist_loop api rounds fs' (i + 1) bl'
  loop_step rounds fs fs' i bl bl' h small e =
      let left : ltb fs.options.block_count i ≡ false = ground (arith, h) in
      loop_round rounds fs i bl
      ∙ ap (λ o. next_round rounds fs i o) e
      ∙ ap
          (λ b.
            if b
            then some (ok, fs)
            else write_blocklist_loop api rounds fs' ((i + 1) % id_bound) bl')
          left
      ∙ ap (λ n. write_blocklist_loop api rounds fs' n bl') {x = (i + 1) % id_bound} {y = i + 1}
          (omega (arith, small))

module _ {D : Type 0} {api : DevApi D} (L : DevLaws api) where
  -- The blocks before `i` are blank.
  abbrev BlankTo : Fs D → ℕ → Type 0
  BlankTo fs i = (j : ℕ) → Has L fs j → j < i → IsBlank L fs j

  BlankTo-next :
      (fs fs' : Fs D) (i : ℕ)
      → Kept fs fs'
      → BlankTo fs i
      → IsBlank L fs' i
      → Others L fs i fs'
      → BlankTo fs' (i + 1)
  BlankTo-next fs fs' i k before here o j h lt =
      let count = ap (λ o. o.block_count) k.options in
      let size = ap (λ o. o.block_size) k.options in
      elim (ltb-cases j i) [
        | inl earlier ↦
            let hj : Has L fs j = (h.0, omega (arith, h.1, count)) in
            let ne : j ≢ i = λ e. omega (arith, earlier, e) in
            let b = before j hj earlier in
            (
              o.headers j hj ne ∙ b.0,
              o.bodies j hj ne
                  ∙ b.1
                  ∙ ap zeros {x = fs.options.block_size} {y = fs'.options.block_size} (sym size),
            )
        | inr now ↦ let e : i ≡ j = omega (arith, now, lt) in subst (λ n. IsBlank L fs' n) e here
      ]

  loop-IsBlank :
      (rounds : ℕ) (fs : Fs D) (i : ℕ) (bl : Block)
      → IsLaid L fs
      → is_rw fs ≡ true
      → 0 < fs.options.block_size
      → 0 < i
      → 0 < rounds
      → fs.options.block_count + 1 < i + rounds
      → BlankTo fs i
      → (fs' : Fs D) × (write_blocklist_loop api rounds fs i bl ≡ some (ok, fs'))
        × Kept fs fs'
        × IsLaid L fs'
        × ((j : ℕ) → Has L fs' j → IsBlank L fs' j)
  loop-IsBlank zero fs i bl v m some_data p r enough before = absurd (omega (arith, r))
  loop-IsBlank (suc rounds) fs i bl v m some_data p r enough before =
      elim (ltb-cases fs.options.block_count i) [
        | inl past ↦ (
          fs,
          loop_ends api rounds fs i bl past,
          record { flags = refl; offsets = refl; sizes = refl; options = refl; b_loaded = refl },
          v,
          λ j h. before j h (omega (arith, past, h.1)),
        )
        | inr left ↦
            let w = wipe-IsBlank L fs i bl v m (p, left) some_data in
            let k = w.2 in
            let rest =
              loop-IsBlank rounds w.0 (i + 1) (clean i) w.3 (Kept-is_rw k ∙ m)
                (omega (arith, some_data, ap (λ o. o.block_size) k.options)) (omega arith)
                (omega (arith, left, enough))
                (omega (arith, enough, ap (λ o. o.block_count) k.options))
                (BlankTo-next fs w.0 i k before w.4 w.5) in
            (
              rest.0,
              loop_step api rounds fs w.0 i bl (clean i) left (omega (arith, left, v.counted)) w.1
                  ∙ rest.1,
              Kept-trans k rest.2,
              rest.3,
              rest.4,
            )
      ]

  -- With rounds for all blocks, writing the blocks of a new container comes to an end and returns OK on a
  -- writable device that has room for the table of blocks, whatever is on it before. After it every block
  -- is free on the disk, without a next one, and its data are zeros.
  pub write_blocklist_blanks :
      (rounds : ℕ) (fs : Fs D)
      → IsLaid L fs
      → is_rw fs ≡ true
      → 0 < fs.options.block_size
      → fs.options.block_count < rounds
      → 0 < fs.options.block_count
      → (fs' : Fs D) × (write_blocklist api rounds fs ≡ some (ok, fs'))
        × Kept fs fs'
        × IsLaid L fs'
        × ((j : ℕ) → Has L fs' j → IsBlank L fs' j)
  unfolding write_blocklist fs_seek
  write_blocklist_blanks rounds fs v m some_data enough some_block =
      let s = L.seek_lem fs.dev fs.offsets.blocks v.ready (omega (arith, v.room)) in
      let fs0 = record fs { dev = s.0 } in
      let k : Kept fs fs0 = record {
        flags = refl;
        offsets = refl;
        sizes = refl;
        options = refl;
        b_loaded = refl;
      } in
      let r =
        loop-IsBlank rounds fs0 1 empty (Kept-IsLaid L k v s.2 (ap length s.3)) (Kept-is_rw k ∙ m)
          some_data (omega arith) (omega (arith, enough)) (omega (arith, enough))
          (λ j h lt. absurd (omega (arith, h.0, lt))) in
      (
        r.0,
        ap (λ q. write_blocklist_loop api rounds (record fs { dev = q.1 }) 1 empty) s.1 ∙ r.1,
        Kept-trans k r.2,
        r.3,
        r.4,
      )
