-- ===== src/Fs/Bcache.antt =====
-- The bitset of the used blocks, by the macros that read and write it.
use whefs.Common.{
  ℕ, ◌<◌, ◌≡◌, ap, sym, ◌∙◌, subst, arith, Bool, true, false, some, ◌==◌, if◌then◌else◌,
}
use whefs.Bits.{Whbits, set_macro, unset_macro, get_macro, whbits_set, whbits_unset, whbits_get}
use whefs.Bits.Laws.{IsValid, in_bounds, Puts, set-Puts, unset-Puts}
use whefs.Fs.{prechecked, bcache_set_used, bcache_unset_used, bcache_is_used}

prechecked_lem : (b : Whbits) (id : ℕ) → IsValid b → id < b.sz_bits → prechecked b id ≡ true
prechecked_lem b id v h = ground (arith, v.sized, v.fits)

is_used_reads :
    (b : Whbits) (id : ℕ)
    → IsValid b
    → id < b.sz_bits
    → whbits_get (some b) id ≡ some (bcache_is_used b id)
unfolding whbits_get bcache_is_used get_macro
is_used_reads b id v h = rw (prechecked_lem b id v h) (ground (arith, in_bounds v h))

some_eq : (a b : Bool) → some a ≡ some b → a ≡ b
some_eq a b e = cc

set_used_is :
    (b b' : Whbits) (id : ℕ)
    → IsValid b
    → id < b.sz_bits
    → whbits_set (some b) id ≡ some (true, some b')
    → bcache_set_used b id ≡ b'
unfolding bcache_set_used whbits_set set_macro
set_used_is b b' id v h e = rw (prechecked_lem b id v h) (ground (arith, in_bounds v h, e))

unset_used_is :
    (b b' : Whbits) (id : ℕ)
    → IsValid b
    → id < b.sz_bits
    → whbits_unset (some b) id ≡ some (true, some b')
    → bcache_unset_used b id ≡ b'
unfolding bcache_unset_used whbits_unset unset_macro
unset_used_is b b' id v h e = rw (prechecked_lem b id v h) (ground (arith, in_bounds v h, e))

-- A bitset with one bit changed, as the macro for reading has it.
pub record Notes (b : Whbits) (id : ℕ) (x : Bool) (b' : Whbits) : Type 0 where
  pub valid : IsValid b'
  pub size : b'.sz_bits ≡ b.sz_bits
  pub reads :
      (j : ℕ) → j < b.sz_bits → bcache_is_used b' j ≡ (if id == j then x else bcache_is_used b j)

if_some : (t x y z : Bool) → some z ≡ (if t then some x else some y) → z ≡ (if t then x else y)
if_some true x y z e = some_eq z x e
if_some false x y z e = some_eq z y e

Puts-Notes :
    (b : Whbits) (id : ℕ) (x : Bool) (b' : Whbits) → IsValid b → Puts b id x b' → Notes b id x b'
Puts-Notes b id x b' v p = record {
  valid = p.valid;
  size = p.same_size;
  reads = λ j h. if_some (id == j) x (bcache_is_used b j) (bcache_is_used b' j) (
      sym (is_used_reads b' j p.valid (omega (arith, h, p.same_size)))
      ∙ p.reads j h
      ∙ ap (λ o. if id == j then some x else o) (is_used_reads b j v h));
}

-- On a valid bitset, marking an id that is one of its bits as used marks that one alone, and keeps the
-- bitset valid.
pub set_used-Notes :
    (b : Whbits) (id : ℕ) → IsValid b → id < b.sz_bits → Notes b id true (bcache_set_used b id)
set_used-Notes b id v h =
    let s = set-Puts id v h in
    subst (λ c. Notes b id true c) (sym (set_used_is b s.0 id v h s.1))
      (Puts-Notes b id true s.0 v s.2)

-- So does marking it as unused.
pub unset_used-Notes :
    (b : Whbits) (id : ℕ) → IsValid b → id < b.sz_bits → Notes b id false (bcache_unset_used b id)
unset_used-Notes b id v h =
    let s = unset-Puts id v h in
    subst (λ c. Notes b id false c) (sym (unset_used_is b s.0 id v h s.1))
      (Puts-Notes b id false s.0 v s.2)
