-- ===== src/Inode/Free.antt =====
-- The search for a free inode, over a device that keeps its laws.
use whefs.Common.{
  ℕ, zero, suc, ◌+◌, ◌%◌, ◌<◌, ◌≡◌, ◌⊎◌, inl, inr, refl, ap, sym, ◌∙◌, subst, arith, Bool, true,
  false, Option, some, ◌==◌, if◌then◌else◌, not, ◌&&◌, ltb, Bool-cases, ltb-cases, ==_refl,
  NoneFree, FirstFree, NoneFree-here, FirstFree-here, choose, choose_lem, and_true,
}
use whefs.Rc.{Rc, ok, internal_error, fs_full, id_bound}
use whefs.Device.{DevApi, DevLaws}
use whefs.Fs.{Fs, has_flag, flag_used, bcache_is_used}
use whefs.Inode.{Inode, empty, update_used, id_read}
use whefs.Inode.Record.{stored_in}
use whefs.Inode.Place.{Same, Same-trans, moved-Same, Has}
use whefs.Inode.Search.{found, scan}
use whefs.Inode.Table.{Table, Cached, Reads, Reads-Cached, used, id_read-Reads}
use whefs.Inode.Loading.{updated_again}

-- One round of the loop, by what it meets.
module _ {D : Type 0} (api : DevApi D) (now : ℕ) where
  -- The rest of a round, after the inode was read.
  abbrev round : ℕ → ℕ → Inode → Bool → Rc × Inode × Fs D → Option (Rc × Inode × Fs D)
  round rounds i tgt m (rc, n, fs) = elim rc [
    | ok ↦
        if not (n.id == i)
        then some (internal_error, tgt, fs)
        else if has_flag n.flags flag_used
        then scan api now rounds (update_used fs n) ((i + 1) % id_bound) n tgt m
        else some (found api now fs n m)
    | other ↦ some (other, tgt, fs)
  ]

  scan-round :
      (rounds : ℕ) (fs : Fs D) (i : ℕ) (n tgt : Inode) (m : Bool)
      → scan api now (suc rounds) fs i n tgt m
        ≡ choose
            (ltb fs.options.inode_count i)
            (fs.i_loaded && bcache_is_used fs.used_inodes i)
            (some (fs_full, tgt, fs))
            (scan api now rounds fs ((i + 1) % id_bound) n tgt m)
            (round rounds i tgt m (id_read api fs i n))
  unfolding scan
  scan-round rounds fs i n tgt m = refl

  scan_full :
      (rounds : ℕ) (fs : Fs D) (i : ℕ) (n tgt : Inode) (m : Bool)
      → ltb fs.options.inode_count i ≡ true
      → scan api now (suc rounds) fs i n tgt m ≡ some (fs_full, tgt, fs)
  scan_full rounds fs i n tgt m full =
      scan-round rounds fs i n tgt m
      ∙ ap
          (λ b.
            choose b (fs.i_loaded && bcache_is_used fs.used_inodes i) (some (fs_full, tgt, fs))
              (scan api now rounds fs ((i + 1) % id_bound) n tgt m)
              (round rounds i tgt m (id_read api fs i n)))
          full

  round_lem :
      (rounds i : ℕ) (n tgt : Inode) (m : Bool) (fs : Fs D)
      → n.id ≡ i
      → round rounds i tgt m (ok, n, fs) ≡ (
          if has_flag n.flags flag_used
          then scan api now rounds (update_used fs n) ((i + 1) % id_bound) n tgt m
          else some (found api now fs n m))
  round_lem rounds i n tgt m fs e =
      ap
        (λ b.
          if not b
          then some (internal_error, tgt, fs)
          else if has_flag n.flags flag_used
          then scan api now rounds (update_used fs n) ((i + 1) % id_bound) n tgt m
          else some (found api now fs n m))
        (ap (λ k. n.id == k) (sym e) ∙ ==_refl n.id)

module _ {D : Type 0} {api : DevApi D} (L : DevLaws api) (nodes : ℕ → Inode) (now : ℕ) where
  -- The filesystem after a search, with the same disk.
  pub record Searched (fs fs' : Fs D) : Type 0 where
    pub same : Same fs fs'
    pub table : Table L nodes fs'
    pub cached : Cached L nodes fs'
    pub disk : L.view fs'.dev ≡ L.view fs.dev

  -- What a search from `i` on comes to.
  pub record Outcome (fs : Fs D) (i : ℕ) (tgt : Inode) (m : Bool) (r : Option (Rc × Inode × Fs D))
      : Type 0 where
    pub after : Fs D
    pub searched : Searched fs after
    pub is :
        (NoneFree (used nodes) i fs.options.inode_count × (r ≡ some (fs_full, tgt, after)))
        ⊎ ((j : ℕ) × FirstFree (used nodes) i fs.options.inode_count j
            × (r ≡ some (found api now after (stored_in empty (nodes j)) m)))

  -- An inode in use is passed.
  passed :
      (fs fs' : Fs D) (i : ℕ) (tgt : Inode) (m : Bool) (r r' : Option (Rc × Inode × Fs D))
      → Searched fs fs'
      → used nodes i ≡ true
      → r ≡ r'
      → Outcome fs' (i + 1) tgt m r'
      → Outcome fs i tgt m r
  passed fs fs' i tgt m r r' s u e o =
      let count : fs'.options.inode_count ≡ fs.options.inode_count =
        ap (λ o. o.inode_count) s.same.options in
      record {
        after = o.after;
        searched = record {
          same = Same-trans s.same o.searched.same;
          table = o.searched.table;
          cached = o.searched.cached;
          disk = o.searched.disk ∙ s.disk;
        };
        is = elim o.is [
          | inl full ↦ inl (
            NoneFree-here (used nodes) i fs.options.inode_count u
                (subst (λ n. NoneFree (used nodes) (i + 1) n) count full.0),
            e ∙ full.1,
          )
          | inr there ↦ inr (
            there.0,
            FirstFree-here (used nodes) i fs.options.inode_count there.0 u
                (subst (λ n. FirstFree (used nodes) (i + 1) n there.0) count there.1),
            e ∙ there.2,
          )
        ];
      }

  Reads-Searched :
      (fs fs' : Fs D) (id : ℕ)
      → Table L nodes fs
      → Cached L nodes fs
      → Reads L nodes fs id fs'
      → Searched fs fs'
  Reads-Searched fs fs' id t c r = record {
    same = r.same;
    table = r.table;
    cached = Reads-Cached L nodes fs fs' id t r c;
    disk = r.disk;
  }

  -- A round that reads the inode, if the search goes on from any such filesystem behind it.
  read_case :
      (rounds : ℕ) (fs : Fs D) (i : ℕ) (b tgt : Inode) (m : Bool)
      → Table L nodes fs
      → Cached L nodes fs
      → Has fs i
      → (fs.i_loaded && bcache_is_used fs.used_inodes i) ≡ false
      → ((fs' : Fs D)
          → Searched fs fs'
          → Outcome fs'
              (i + 1)
              tgt
              m
              (scan api now rounds fs' (i + 1) (stored_in empty (nodes i)) tgt m))
      → Outcome fs i tgt m (scan api now (suc rounds) fs i (stored_in empty b) tgt m)
  read_case rounds fs i b tgt m t c h unknown rest =
      let q = id_read-Reads L nodes fs i (stored_in empty b) t h in
      let n = stored_in empty (nodes i) in
      let fs' = q.0 in
      let num = t.numbered i h in
      let twice = updated_again L nodes fs fs' i empty h num q.2 in
      let next : (i + 1) % id_bound ≡ i + 1 = omega (arith, h.1, t.laid.counted) in
      let inside : ltb fs.options.inode_count i ≡ false = ground (arith, h.1) in
      let branch : Bool → Option (Rc × Inode × Fs D) = λ b.
        if b
        then scan api now rounds (update_used fs' n) ((i + 1) % id_bound) n tgt m
        else some (found api now fs' n m) in
      let read_it =
        scan-round api now rounds fs i (stored_in empty b) tgt m
        ∙ choose_lem _ _ false _ _ _ inside unknown
        ∙ ap (λ x. round api now rounds i tgt m x) q.1
        ∙ round_lem api now rounds i n tgt m fs' num in
      elim (Bool-cases (used nodes i)) [
        | inl in_use ↦
            let s = Reads-Searched fs (update_used fs' n) i t c twice in
            passed fs (update_used fs' n) i tgt m _ _ s in_use
              (read_it
                ∙ ap branch in_use
                ∙ ap (λ k. scan api now rounds (update_used fs' n) k n tgt m) next)
              (rest (update_used fs' n) s)
        | inr free ↦ record {
          after = fs';
          searched = Reads-Searched fs fs' i t c q.2;
          is = inr (
            i,
            record {
              from = omega arith;
              until = h.1;
              free = free;
              before = λ k k1 k2. absurd (omega (arith, k1, k2));
            },
            read_it ∙ ap branch free,
          );
        }
      ]

  pub scan_lem :
      (rounds : ℕ) (fs : Fs D) (i : ℕ) (b tgt : Inode) (m : Bool)
      → Table L nodes fs
      → Cached L nodes fs
      → 1 < i
      → 0 < rounds
      → fs.options.inode_count + 1 < i + rounds
      → Outcome fs i tgt m (scan api now rounds fs i (stored_in empty b) tgt m)
  scan_lem zero fs i b tgt m t c client pos_r enough = absurd (omega (arith, pos_r))
  scan_lem (suc rounds) fs i b tgt m t c client pos_r enough =
      let stay : Searched fs fs = record {
        same = moved-Same fs fs.dev;
        table = t;
        cached = c;
        disk = refl;
      } in
      elim (ltb-cases fs.options.inode_count i) [
        | inl full ↦ record {
          after = fs;
          searched = stay;
          is = inl (
            λ j h k. absurd (omega (arith, full, h, k)),
            scan_full api now rounds fs i (stored_in empty b) tgt m (ground (arith, full)),
          );
        }
        | inr left ↦ elim (Bool-cases (fs.i_loaded && bcache_is_used fs.used_inodes i)) [
          | inl known ↦
              let both = and_true fs.i_loaded (bcache_is_used fs.used_inodes i) known in
              let inside : ltb fs.options.inode_count i ≡ false = ground (arith, left) in
              let next : (i + 1) % id_bound ≡ i + 1 = omega (arith, left, t.laid.counted) in
              passed fs fs i tgt m _ _ stay
                (sym (c both.0 i (omega (arith, client), left) client) ∙ both.1)
                (scan-round api now rounds fs i (stored_in empty b) tgt m
                  ∙ choose_lem _ _ true _ _ _ inside known
                  ∙ ap (λ k. scan api now rounds fs k (stored_in empty b) tgt m) next)
                (scan_lem rounds fs (i + 1) b tgt m t c (omega (arith, client))
                  (omega (arith, left, enough)) (omega (arith, enough)))
          | inr unknown ↦
              read_case rounds fs i b tgt m t c (omega (arith, client), left) unknown
                (λ fs' s.
                  let count = ap (λ o. o.inode_count) s.same.options in
                  scan_lem rounds fs' (i + 1) (nodes i) tgt m s.table s.cached
                    (omega (arith, client)) (omega (arith, left, enough))
                    (omega (arith, enough, count)))
        ]
      ]
