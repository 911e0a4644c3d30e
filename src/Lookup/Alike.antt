-- ===== src/Lookup/Alike.antt =====
-- Strings that `strcmp` finds no difference in.
use whefs.Common.{
  ℕ, suc, ◌≡◌, ◌⊎◌, inl, inr, refl, ap, sym, ◌∙◌, subst, Bool, true, false, [], ◌∷◌, ◌==◌,
  if◌then◌else◌, not, take, Bool-cases, ==_iff,
}
use whefs.Encode.{Bytes}
use whefs.Encode.Cstring.{strlen}
use whefs.Lookup.{same_text}

-- Two strings have the same bytes up to the null byte.
abbrev pub Alike : Bytes → Bytes → Type 0
Alike r s = (strlen r ≡ strlen s) × (take (strlen r) r ≡ take (strlen s) s)

ends : (c : ℕ) (s : Bytes) → (c == 0) ≡ true → strlen (c ∷ s) ≡ 0
unfolding strlen
ends c s e = ap (λ b. if b then 0 else suc (strlen s)) e

goes : (c : ℕ) (s : Bytes) → (c == 0) ≡ false → strlen (c ∷ s) ≡ suc (strlen s)
unfolding strlen
goes c s e = ap (λ b. if b then 0 else suc (strlen s)) e

-- Strings of no bytes are alike.
Alike-empty : (r s : Bytes) → strlen r ≡ 0 → strlen s ≡ 0 → Alike r s
Alike-empty r s e e' = (e ∙ sym e', ap (λ n. take n r) e ∙ sym (ap (λ n. take n s) e'))

Alike-cons : (c : ℕ) (r s : Bytes) → (c == 0) ≡ false → Alike r s → Alike (c ∷ r) (c ∷ s)
Alike-cons c r s e a =
    let one = goes c r e in
    let two = goes c s e in
    (
      one ∙ ap suc a.0 ∙ sym two,
      ap (λ n. take n (c ∷ r)) one ∙ ap (λ l. c ∷ l) a.1 ∙ sym (ap (λ n. take n (c ∷ s)) two),
    )

strlen_nil : strlen [] ≡ 0
unfolding strlen
strlen_nil = refl

same_empty : (s : Bytes) → same_text [] s ≡ true → strlen s ≡ 0
unfolding same_text
same_empty [] e = strlen_nil
same_empty (c ∷ s) e = ends c s e

same_end : (c : ℕ) (r : Bytes) → same_text (c ∷ r) [] ≡ true → (c == 0) ≡ true
unfolding same_text
same_end c r e = e

pub apart_bool : false ≡ true → ⊥
apart_bool e = subst (λ b. if b then ⊥ else Unit) e tt

abbrev Step : ℕ → ℕ → Bytes → Bytes → Type 0
Step c k r s = (c ≡ k) × (((c == 0) ≡ true) ⊎ (((c == 0) ≡ false) × (same_text r s ≡ true)))

-- A step of the comparison.
same_text-Step : (c k : ℕ) (r s : Bytes) → same_text (c ∷ r) (k ∷ s) ≡ true → Step c k r s
unfolding same_text
same_text-Step c k r s e =
    let from : Bool → Bool → Bool =
      λ same ended. if not same then false else if ended then true else same_text r s in
    let ended : Bool = c == 0 in
    elim (Bool-cases (c == k)) [
      | inr other ↦ absurd (apart_bool (sym (ap (λ b. from b ended) other) ∙ e))
      | inl same ↦
          let left : from true ended ≡ true = sym (ap (λ b. from b ended) same) ∙ e in
          (
            (==_iff _ _).0 same,
            elim (Bool-cases (c == 0)) [
              | inl at_end ↦ inl at_end
              | inr more ↦ inr (more, sym (ap (λ b. from true b) more) ∙ left)
            ],
          )
    ]

pub same_text-Alike : (r s : Bytes) → same_text r s ≡ true → Alike r s
same_text-Alike [] s e = Alike-empty [] s strlen_nil (same_empty s e)
same_text-Alike (c ∷ r) [] e = Alike-empty (c ∷ r) [] (ends c r (same_end c r e)) strlen_nil
same_text-Alike (c ∷ r) (k ∷ s) e =
    let st = same_text-Step c k r s e in
    subst (λ x. Alike (c ∷ r) (x ∷ s)) st.0
      (elim st.1 [
        | inl at_end ↦ Alike-empty (c ∷ r) (c ∷ s) (ends c r at_end) (ends c s at_end)
        | inr more ↦ Alike-cons c r s more.0 (same_text-Alike r s more.1)
      ])
