-- ===== src/Block/Chain.antt =====
-- Wiping the blocks of a chain, one behind the other.
use whefs.Common.{
  ℕ, zero, suc, ◌<◌, ◌≤◌, ◌≡◌, inl, inr, refl, ap, ap₂, sym, ◌∙◌, subst, arith, Bool, true, false,
  Option, none, some, List, [], ◌∷◌, ◌==◌, if◌then◌else◌, not, Bool-cases, ==_iff,
}
use whefs.Rc.{Rc, ok, arg_error, range_error}
use whefs.Device.{DevApi}
use whefs.Fs.{Fs}
use whefs.Block.{Block, empty, id_is_valid, read, read_next}
use whefs.Block.Wiping.{wipe_self, wipe_chain}
use whefs.Block.Table.{put}
use whefs.Block.Clean.{clean, member}

-- The blocks with some of them wiped.
abbrev pub freed : List ℕ → (ℕ → Block) → ℕ → Block
freed ids blocks j = if member j ids then clean j else blocks j

-- From a block, these are the blocks behind it, up to one without a next one; there is no block twice.
abbrev pub IsChain : (ℕ → Block) → ℕ → Block → List ℕ → Type 0
IsChain blocks count b [] = b.next_block ≡ 0
IsChain blocks count b (n ∷ ids) =
    (b.next_block ≡ n)
    × (0 < n)
    × (n ≤ count)
    × (member n ids ≡ false)
    × IsChain blocks count (blocks n) ids

both_clean : (t : Bool) (a b : Block) → a ≡ b → (if t then a else b) ≡ a
both_clean true a b e = refl
both_clean false a b e = sym e

-- Wiping one block first.
pub freed_cons :
    (n : ℕ) (ids : List ℕ) (blocks : ℕ → Block) (j : ℕ)
    → freed ids (put blocks (clean n)) j ≡ freed (n ∷ ids) blocks j
freed_cons n ids blocks j = elim (Bool-cases (n == j)) [
  | inl here ↦
      let q : n ≡ j = (==_iff _ _).0 here in
      rw here (both_clean (member j ids) (clean j) (clean n) (ap clean (sym q)))
  | inr there ↦ rw there refl
]

ne_turn : (n m : ℕ) → (n == m) ≡ false → (m == n) ≡ false
ne_turn n m e = ground (arith, e)

member_or :
    (n j : ℕ) (ids : List ℕ)
    → member j (n ∷ ids) ≡ false
    → ((n == j) ≡ false) × (member j ids ≡ false)
member_or n j ids e = ground (arith, e)

-- A chain does not see a block that is not in it.
pub IsChain-put :
    (blocks : ℕ → Block) (b c : Block) (count : ℕ) (ids : List ℕ)
    → member c.id ids ≡ false
    → IsChain blocks count b ids
    → IsChain (put blocks c) count b ids
IsChain-put blocks b c count [] e h = h
IsChain-put blocks b c count (n ∷ ids) e h =
    let o = member_or n c.id ids e in
    let same : put blocks c n ≡ blocks n =
      ap (λ t. if t then c else blocks n) (ne_turn n c.id o.0) in
    (
      h.0,
      h.1,
      h.2,
      h.3,
      subst (λ x. IsChain (put blocks c) count x ids) (sym same)
          (IsChain-put blocks (blocks n) c count ids o.1 h.4),
    )

module _ {D : Type 0} (api : DevApi D) where
  read_next_calls :
      (fs : Fs D) (b next : Block)
      → id_is_valid fs b.id ≡ true
      → 0 < b.next_block
      → read_next api fs b next ≡ read api fs b.next_block empty
  unfolding read_next
  read_next_calls fs b next v h =
      let more : (b.next_block == 0) ≡ false = ground (arith, h) in
      let there = read api fs b.next_block empty in
      ap₂
        (λ ok_id last.
          if not ok_id
          then (arg_error, next, fs)
          else if last
          then (range_error, next, fs)
          else there)
        v more

  pub chain_ends :
      (rounds : ℕ) (fs : Fs D) (xb : Block) (wd wm : Bool)
      → xb.next_block ≡ 0
      → wipe_chain api rounds fs xb wd wm ≡ some (ok, fs)
  unfolding wipe_chain
  chain_ends zero fs xb wd wm e = ap (λ n. if n == 0 then some (ok, fs) else none) e
  chain_ends (suc rounds) fs xb wd wm e =
      let z : (xb.next_block == 0) ≡ true = ground (arith, e) in rw z refl

  -- A round of the loop, by whether it is to end and by what is read.
  abbrev round : ℕ → Fs D → Bool → Bool → Bool → Rc × Block × Fs D → Option (Rc × Fs D)
  round rounds fs wd wm ended (rc, b, fs') =
      let (wrc, w, fs2) =
        if id_is_valid fs' b.id
        then wipe_self api fs' (record b { next_block = 0 }) wd wm
        else (arg_error, b, fs') in
      if ended then some (ok, fs) else elim rc [
        | ok ↦ elim wrc [ ok ↦ wipe_chain api rounds fs2 b wd wm | other ↦ some (other, fs2) ]
        | other ↦ some (other, fs')
      ]

  round_is :
      (rounds : ℕ) (fs : Fs D) (xb : Block) (wd wm : Bool)
      → wipe_chain api (suc rounds) fs xb wd wm
        ≡ round rounds fs wd wm (xb.next_block == 0) (read_next api fs xb xb)
  unfolding wipe_chain
  round_is rounds fs xb wd wm = refl

  pub chain_step :
      (rounds : ℕ) (fs fs1 fs2 : Fs D) (xb b w : Block) (wd wm : Bool)
      → id_is_valid fs xb.id ≡ true
      → 0 < xb.next_block
      → read api fs xb.next_block empty ≡ (ok, b, fs1)
      → id_is_valid fs1 b.id ≡ true
      → wipe_self api fs1 (record b { next_block = 0 }) wd wm ≡ (ok, w, fs2)
      → wipe_chain api (suc rounds) fs xb wd wm ≡ wipe_chain api rounds fs2 b wd wm
  chain_step rounds fs fs1 fs2 xb b w wd wm v h r v1 e =
      let more : (xb.next_block == 0) ≡ false = ground (arith, h) in
      let goes_on : Rc × Block × Fs D → Option (Rc × Fs D) =
        λ q. elim q.0 [ ok ↦ wipe_chain api rounds q.2 b wd wm | other ↦ some (other, q.2) ] in
      round_is rounds fs xb wd wm
      ∙ ap₂ (λ t q. round rounds fs wd wm t q) more (read_next_calls fs xb xb v h ∙ r)
      ∙ ap
          (λ t. goes_on (
            if t
            then wipe_self api fs1 (record b { next_block = 0 }) wd wm
            else (arg_error, b, fs1)))
          v1
      ∙ ap goes_on e
