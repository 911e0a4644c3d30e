-- ===== src/Common/First.antt =====
-- The first number that is free, for searches over numbered things, and the Boolean tests of such a loop.
use Prim.Native.Nat.{ℕ, ◌+◌, ◌<◌, ◌≤◌}
use mathlib.Core.Path.{◌≡◌, refl, ap, ap₂, ◌∙◌}
use mathlib.Core.Logic.{inl, inr}
use mathlib.Core.Bool.{Bool, true, false, ◌&&◌}
use native.Mathlib.Omega.{arith}
use whefs.Common.Tests.{ltb-cases, if◌then◌else◌}

-- In use from `i` up to `count`.
abbrev pub NoneFree : (ℕ → Bool) → ℕ → ℕ → Type 0
NoneFree used i count = (j : ℕ) → i ≤ j → j ≤ count → used j ≡ true

-- The first one that is not in use, from `i` on.
pub record FirstFree (used : ℕ → Bool) (i count j : ℕ) : Type 0 where
  pub from : i ≤ j
  pub until : j ≤ count
  pub free : used j ≡ false
  pub before : (k : ℕ) → i ≤ k → k < j → used k ≡ true

pub NoneFree-here :
    (used : ℕ → Bool) (i count : ℕ)
    → used i ≡ true
    → NoneFree used (i + 1) count
    → NoneFree used i count
NoneFree-here used i count u n j h k = elim (ltb-cases i j) [
  | inl after ↦ n j (omega (arith, after)) k
  | inr here ↦ ap used {x = j} {y = i} (omega (arith, here, h)) ∙ u
]

pub FirstFree-here :
    (used : ℕ → Bool) (i count j : ℕ)
    → used i ≡ true
    → FirstFree used (i + 1) count j
    → FirstFree used i count j
FirstFree-here used i count j u f = record {
  from = omega (arith, f.from);
  until = f.until;
  free = f.free;
  before = λ k h h'. elim (ltb-cases i k) [
    | inl after ↦ f.before k (omega (arith, after)) h'
    | inr here ↦ ap used {x = k} {y = i} (omega (arith, here, h)) ∙ u
  ];
}

abbrev pub choose : {A : Type 0} → Bool → Bool → A → A → A → A
choose full cached a b c = if full then a else if cached then b else c

pub choose_lem :
    {A : Type 0} (full cached cached' : Bool) (a b c : A)
    → full ≡ false
    → cached ≡ cached'
    → choose full cached a b c ≡ (if cached' then b else c)
choose_lem full cached cached' a b c e e' = ap₂ (λ f k. choose f k a b c) e e'

pub and_true : (a b : Bool) → (a && b) ≡ true → (a ≡ true) × (b ≡ true)
and_true true b e = (refl, e)
and_true false b e = (e, cc)
