-- ===== src/Block/Freed.antt =====
-- A deep wipe of a block: it and the blocks behind it are free after that.
use whefs.Common.{
  ℕ, zero, suc, ◌<◌, ◌≤◌, ◌≡◌, inl, inr, refl, ap, ap₂, sym, ◌∙◌, subst, arith, Bool, true, false,
  Option, none, some, List, [], ◌∷◌, ◌==◌, length, Bool-cases, ==_iff,
}
use whefs.Rc.{Rc, ok}
use whefs.Device.{DevApi, DevLaws}
use whefs.Fs.{Fs, is_rw}
use whefs.Block.{Block, empty, id_is_valid, update_used, read}
use whefs.Block.Wiping.{wipe_self, wipe_chain, wipe}
use whefs.Block.Place.{Has, place_lem, contents_lem}
use whefs.Block.Table.{Table, put}
use whefs.Block.Free.{Searched, read_block}
use whefs.Block.Marks.{Kept-is_rw}
use whefs.Block.Clean.{clean, member, Spared, Spared-then, wipe_self_lem}
use whefs.Block.Chain.{freed, freed_cons, IsChain, IsChain-put, chain_ends, chain_step}

module _ {D : Type 0} {api : DevApi D} (L : DevLaws api) where
  Searched-Spared :
      (blocks : ℕ → Block) (fs fs' : Fs D) → Searched L blocks fs fs' → Spared L [] fs fs'
  Searched-Spared blocks fs fs' s = record {
    kept = s.kept;
    bodies = λ j h e. contents_lem L j s.kept s.disk;
  }

  -- One block of the chain, read and wiped.
  record Stepped (blocks : ℕ → Block) (rounds : ℕ) (fs : Fs D) (xb : Block) (wd : Bool) (n : ℕ)
      : Type 0 where
    after : Fs D
    goes_on :
        wipe_chain api (suc rounds) fs xb wd true ≡ wipe_chain api rounds after (blocks n) wd true
    table : Table L (put blocks (clean n)) after
    spared : Spared L (n ∷ []) fs after

  stepped :
      (blocks : ℕ → Block) (rounds : ℕ) (fs : Fs D) (xb : Block) (wd : Bool) (n : ℕ)
      → Table L blocks fs
      → is_rw fs ≡ true
      → 0 < fs.options.block_size
      → Has L fs xb.id
      → Has L fs n
      → xb.next_block ≡ n
      → Stepped blocks rounds fs xb wd n
  stepped blocks rounds fs xb wd n t m some_data hx h next =
      let q = read_block L blocks fs n empty t h in
      let fs1 = update_used (record fs { dev = q.0 }) (blocks n) in
      let s = q.2 in
      let o = s.kept.options in
      let id : (blocks n).id ≡ n = t.numbered n h in
      let there : Has L fs1 (blocks n).id =
        (omega (arith, id, h.0), omega (arith, id, h.1, ap (λ o. o.block_count) o)) in
      let w =
        wipe_self_lem L blocks fs1 (record (blocks n) { next_block = 0 }) wd s.table
          (Kept-is_rw s.kept ∙ m) there (omega (arith, some_data, ap (λ o. o.block_size) o)) in
      record {
        after = w.0;
        goes_on =
            chain_step api rounds fs fs1 w.0 xb (blocks n) (clean (blocks n).id) wd true
              (place_lem L fs xb.id t.laid hx).valid (omega (arith, next, h.0))
              (ap (λ i. read api fs i empty) next ∙ q.1)
              (place_lem L fs1 (blocks n).id s.table.laid there).valid w.1;
        table = subst (λ i. Table L (put blocks (clean i)) w.0) id w.2;
        spared =
            Spared-then L [] (n ∷ []) (n ∷ []) fs fs1 w.0 (λ j e. (refl, e))
              (Searched-Spared blocks fs fs1 s) (subst (λ i. Spared L (i ∷ []) fs1 w.0) id w.3);
      }

  split_member :
      (n j : ℕ) (ids : List ℕ)
      → member j (n ∷ ids) ≡ false
      → (member j (n ∷ []) ≡ false) × (member j ids ≡ false)
  split_member n j ids e = ground (arith, e)

  chain_lem :
      (ids : List ℕ) (blocks : ℕ → Block) (rounds : ℕ) (fs : Fs D) (xb : Block) (wd : Bool)
      → Table L blocks fs
      → is_rw fs ≡ true
      → 0 < fs.options.block_size
      → Has L fs xb.id
      → IsChain blocks fs.options.block_count xb ids
      → length ids ≤ rounds
      → (fs' : Fs D) × (wipe_chain api rounds fs xb wd true ≡ some (ok, fs'))
        × Table L (freed ids blocks) fs'
        × Spared L ids fs fs'
  chain_lem [] blocks rounds fs xb wd t m some_data hx chain enough = (
    fs,
    chain_ends api rounds fs xb wd true chain,
    t,
    record {
      kept = record { flags = refl; offsets = refl; sizes = refl; options = refl; b_loaded = refl };
      bodies = λ j h e. refl;
    },
  )
  chain_lem (n ∷ ids) blocks zero fs xb wd t m some_data hx chain enough =
      absurd (omega (arith, enough))
  chain_lem (n ∷ ids) blocks (suc rounds) fs xb wd t m some_data hx
        (next, pos_n, has_n, apart, chain) enough =
      let h : Has L fs n = (pos_n, has_n) in
      let s = stepped blocks rounds fs xb wd n t m some_data hx h next in
      let o = s.spared.kept.options in
      let id : (blocks n).id ≡ n = t.numbered n h in
      let blocks' = put blocks (clean n) in
      let r =
        chain_lem ids blocks' rounds s.after (blocks n) wd s.table (Kept-is_rw s.spared.kept ∙ m)
          (omega (arith, some_data, ap (λ o. o.block_size) o))
          (omega (arith, id, pos_n), omega (arith, id, has_n, ap (λ o. o.block_count) o))
          (subst (λ c. IsChain blocks' c (blocks n) ids) (sym (ap (λ o. o.block_count) o))
            (IsChain-put blocks (blocks n) (clean n) fs.options.block_count ids apart chain))
          (omega (arith, enough)) in
      let same : freed ids blocks' ≡ freed (n ∷ ids) blocks = λ i j. freed_cons n ids blocks j i in
      (
        r.0,
        s.goes_on ∙ r.1,
        subst (λ b. Table L b r.0) same r.2,
        Spared-then L (n ∷ []) ids (n ∷ ids) fs s.after r.0 (λ j e. split_member n j ids e) s.spared
            r.3,
      )

  -- The end of a deep wipe, by the loop's answer.
  wipe_after :
      (rounds : ℕ) (fs fs1 : Fs D) (bl : Block) (wd : Bool)
      → id_is_valid fs bl.id ≡ true
      → (bl.next_block == 0) ≡ false
      → wipe_chain api rounds fs bl wd true ≡ some (ok, fs1)
      → wipe api rounds fs bl wd true true
        ≡ some (wipe_self api fs1 (record bl { next_block = 0 }) wd true)
  unfolding wipe
  wipe_after rounds fs fs1 bl wd v more e = rw (v, more, e) refl

  wipe_alone :
      (rounds : ℕ) (fs : Fs D) (bl : Block) (wd : Bool)
      → id_is_valid fs bl.id ≡ true
      → (bl.next_block == 0) ≡ true
      → wipe api rounds fs bl wd true true ≡ some (wipe_self api fs bl wd true)
  unfolding wipe
  wipe_alone rounds fs bl wd v none_more = rw (v, none_more) refl

  answered :
      {fs fs1 : Fs D} → ◌≡◌ {A = Option (Rc × Fs D)} (some (ok, fs)) (some (ok, fs1)) → fs ≡ fs1
  answered {fs = fs} e = ap (λ o. elim o [ none ↦ fs | some q ↦ q.1 ]) e

  wipe_ends :
      (rounds : ℕ) (fs fs1 : Fs D) (bl : Block) (wd : Bool)
      → id_is_valid fs bl.id ≡ true
      → wipe_chain api rounds fs bl wd true ≡ some (ok, fs1)
      → wipe api rounds fs bl wd true true
        ≡ some (wipe_self api fs1 (record bl { next_block = 0 }) wd true)
  wipe_ends rounds fs fs1 bl wd v e = elim (Bool-cases (bl.next_block == 0)) [
    | inl last ↦
        let z : bl.next_block ≡ 0 = (==_iff _ _).0 last in
        wipe_alone rounds fs bl wd v last
        ∙ ap₂ (λ f b. some (wipe_self api f b wd true))
            (answered (sym (chain_ends api rounds fs bl wd true z) ∙ e))
            (ap (λ n. record bl { next_block = n }) z)
    | inr more ↦ wipe_after rounds fs fs1 bl wd v more e
  ]

  put-freed :
      (n : ℕ) (ids : List ℕ) (blocks : ℕ → Block) (j : ℕ)
      → put (freed ids blocks) (clean n) j ≡ freed (n ∷ ids) blocks j
  put-freed n ids blocks j = elim (Bool-cases (n == j)) [
    | inl here ↦ rw here (ap clean ((==_iff _ _).0 here))
    | inr there ↦ rw there refl
  ]

  first_or :
      (n j : ℕ) (ids : List ℕ)
      → member j (n ∷ ids) ≡ false
      → (member j ids ≡ false) × (member j (n ∷ []) ≡ false)
  first_or n j ids e = ground (arith, e)

  -- On a writable filesystem, in a chain of blocks without a cycle, a deep wipe of the metadata of the
  -- first one, with the data or without, comes to an end and returns OK, if there are rounds for the blocks
  -- behind it. All blocks of the chain are free then and without a next one, the table is otherwise as
  -- before, and no block outside of the chain has lost its data.
  pub wipe_frees_chain :
      (blocks : ℕ → Block) (rounds : ℕ) (fs : Fs D) (id : ℕ) (ids : List ℕ) (wipes_data : Bool)
      → Table L blocks fs
      → is_rw fs ≡ true
      → 0 < fs.options.block_size
      → Has L fs id
      → IsChain blocks fs.options.block_count (blocks id) ids
      → length ids ≤ rounds
      → (fs' : Fs D) × (wipe api rounds fs (blocks id) wipes_data true true
          ≡ some (ok, clean id, fs'))
        × Table L (freed (id ∷ ids) blocks) fs'
        × Spared L (id ∷ ids) fs fs'
  wipe_frees_chain blocks rounds fs id ids wipes_data t m some_data h chain enough =
      let e : (blocks id).id ≡ id = t.numbered id h in
      let hx : Has L fs (blocks id).id = (omega (arith, e, h.0), omega (arith, e, h.1)) in
      let v = (place_lem L fs (blocks id).id t.laid hx).valid in
      let c = chain_lem ids blocks rounds fs (blocks id) wipes_data t m some_data hx chain enough in
      let o = c.3.kept.options in
      let w =
        wipe_self_lem L (freed ids blocks) c.0 (record (blocks id) { next_block = 0 }) wipes_data
          c.2 (Kept-is_rw c.3.kept ∙ m) (hx.0, omega (arith, hx.1, ap (λ o. o.block_count) o))
          (omega (arith, some_data, ap (λ o. o.block_size) o)) in
      let same : put (freed ids blocks) (clean id) ≡ freed (id ∷ ids) blocks =
        λ i j. put-freed id ids blocks j i in
      (
        w.0,
        wipe_ends rounds fs c.0 (blocks id) wipes_data v c.1
            ∙ ap (λ q. some q) w.1
            ∙ ap (λ i. some (ok, clean i, w.0)) e,
        subst (λ b. Table L b w.0) (ap (λ i. put (freed ids blocks) (clean i)) e ∙ same) w.2,
        Spared-then L ids (id ∷ []) (id ∷ ids) fs c.0 w.0 (λ j f. first_or id j ids f) c.3
            (subst (λ i. Spared L (i ∷ []) c.0 w.0) e w.3),
      )
