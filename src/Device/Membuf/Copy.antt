-- ===== src/Device/Membuf/Copy.antt =====
-- The copy of `whio_dev_membuf_write` into a sound buffer.
use whefs.Common.{
  ℕ, ◌+◌, ◌-◌, ◌<◌, ◌≤◌, ◌≡◌, ◌⊎◌, refl, arith, false, ltb, leb, if◌then◌else◌, length, take, slice,
  get_or, length-take, length-overwrite, slice-overwrite_self, get_or-overwrite_outside, overwrite,
  inl, inr, ◌∙◌, ap, min, sym,
}
use whefs.Rc.{add_size, sub_size}
use whefs.Encode.{Bytes}
use whefs.Device.Membuf.{Membuf, copy_in, write_at_end, leaves}
use whefs.Device.Membuf.Resize.{IsSound}

-- What storing `n` bytes of `src` at the cursor of `mb` comes to.
pub record Wrote (mb : Membuf) (src : Bytes) (n : ℕ) (out : ℕ × Membuf) : Type 0 where
  pub count : out.0 ≡ n
  pub sound : IsSound out.1
  pub at : out.1.at ≡ mb.at + n
  pub bytes : slice out.1.buffer mb.at n ≡ take n src
  pub kept :
      (j : ℕ)
      → j < mb.size
      → (j < mb.at) ⊎ (mb.at + n ≤ j)
      → get_or out.1.buffer j 0 ≡ get_or mb.buffer j 0

copied : Membuf → Bytes → ℕ → Membuf
copied mb src n = record mb {
  at = add_size mb.at n;
  buffer = overwrite mb.buffer mb.at (take n src);
  overrun = leaves mb n;
  size = if ltb mb.size (add_size mb.at n) then add_size mb.at n else mb.size;
}

module _ {mb : Membuf} (v : IsSound mb) (src : Bytes) (n : ℕ) (inside : mb.at + n ≤ mb.size)
    (long : n ≤ length src) where
  copied-Wrote : Wrote mb src n (n, copied mb src n)
  unfolding copied
  copied-Wrote =
      let l : length (take n src) ≡ n = omega (arith, length-take n src) in
      record {
        count = refl;
        sound = record {
          holds = ground (arith, v.holds, v.alloc-lt);
          alloc = length-overwrite mb.buffer mb.at (take n src) ∙ v.alloc;
          alloc-lt = v.alloc-lt;
          at-lt = omega arith;
          safe = ground (arith, v.safe, v.alloc, v.holds);
        };
        at = omega (arith, v.holds, v.alloc-lt);
        bytes =
            ap (λ k. slice (overwrite mb.buffer mb.at (take n src)) mb.at k) (sym l)
            ∙ slice-overwrite_self mb.buffer mb.at (take n src) (omega (arith, v.holds, v.alloc));
        kept = λ j hj away.
            get_or-overwrite_outside mb.buffer mb.at (take n src) j 0
              (elim away [ inl h ↦ inl h | inr h ↦ inr (omega arith) ]);
      }

  copy_in-Wrote : 0 < n → Wrote mb src n (copy_in mb src n)
  unfolding copy_in
  copy_in-Wrote positive =
      let e : copy_in mb src n ≡ (n, copied mb src n) = unfold copied in (ground arith) in
      rw e copied-Wrote

-- Copying into a buffer `mb1` that was made from `mb` by `make_room`.
pub placed :
    {mb mb1 : Membuf} (src : Bytes) (n : ℕ)
    → IsSound mb1
    → mb1.at ≡ mb.at
    → mb.at + n ≤ mb1.size
    → 0 < n
    → n ≤ length src
    → ((j : ℕ) → j < mb.size → get_or mb1.buffer j 0 ≡ get_or mb.buffer j 0)
    → mb.size ≤ mb1.size
    → Wrote mb src n (copy_in mb1 src n)
placed {mb} {mb1} src n v same inside positive long kept grows =
    let w = copy_in-Wrote v src n (omega (arith, same)) long positive in
    record {
      count = w.count;
      sound = w.sound;
      at = w.at ∙ ap (λ k. k + n) same;
      bytes = ap (λ k. slice (copy_in mb1 src n).1.buffer k n) (sym same) ∙ w.bytes;
      kept = λ j hj away.
          w.kept j (omega arith)
            (elim away [ inl h ↦ inl (omega (arith, same)) | inr h ↦ inr (omega (arith, same)) ])
          ∙ kept j hj;
    }

-- Where `write_at_end` puts the bytes of a write whose cursor is inside.
pub at_end-inside :
    (mb : Membuf) (src : Bytes) (n end c : ℕ)
    → IsSound mb
    → end ≡ mb.at + n
    → mb.at < mb.size
    → c ≡ min n (mb.size - mb.at)
    → write_at_end mb src n end ≡ copy_in mb src c
unfolding write_at_end
at_end-inside mb src n end c v e' inside e =
    let k : (if leb mb.size end then sub_size mb.size mb.at else n) ≡ c =
      ground (arith, v.holds, v.alloc-lt) in
    ground (arith, k)

pub at_end-outside :
    (mb : Membuf) (src : Bytes) (n end : ℕ)
    → mb.expandable ≡ false
    → mb.size ≤ mb.at
    → write_at_end mb src n end ≡ (0, mb)
unfolding write_at_end
at_end-outside mb src n end fixed h = ground arith

pub Wrote-counted :
    {mb : Membuf} {src : Bytes} {n : ℕ} {out : ℕ × Membuf}
    → Wrote mb src n out
    → Wrote mb src n (n, out.1)
Wrote-counted w = record {
  count = refl;
  sound = w.sound;
  at = w.at;
  bytes = w.bytes;
  kept = w.kept;
}
