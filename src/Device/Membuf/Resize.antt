-- ===== src/Device/Membuf/Resize.antt =====
-- `whio_dev_membuf_trunc`: what a resized buffer keeps.
use whefs.Common.{
  ℕ, zero, suc, ◌-◌, ◌<◌, ◌≤◌, ◌≡◌, ◌⊎◌, refl, arith, false, [], ◌++◌, ltb, ◌&&◌, length, take,
  replicate, get_or, length-append, length-take, length-replicate, take-all, get_or-append_left,
  get_or-take, Bool-cases, inl, inr, ◌∙◌,
}
use whefs.Rc.{ok, alloc_error, size_bound}
use whefs.Device.Membuf.{Growth, Membuf, wanted, grow, shrink, resize}

-- A buffer that holds its bytes, in the bounds of `whio_size_t`, and was not overrun.
pub record IsSound (mb : Membuf) : Type 0 where
  pub holds : mb.size ≤ mb.alloced
  pub alloc : length mb.buffer ≡ mb.alloced
  pub alloc-lt : mb.alloced < size_bound
  pub at-lt : mb.at < size_bound
  pub safe : mb.overrun ≡ false

-- `mb'` is `mb` resized to `ulen` bytes: sound, with the bytes that both sizes have.
pub record Resized (mb : Membuf) (ulen : ℕ) (mb' : Membuf) : Type 0 where
  pub sound : IsSound mb'
  pub size : mb'.size ≡ ulen
  pub same_at : mb'.at ≡ mb.at
  pub same_mode : mb'.expandable ≡ mb.expandable
  pub kept : (j : ℕ) → j < mb.size → j < ulen → get_or mb'.buffer j 0 ≡ get_or mb.buffer j 0

module _ (g : Growth) (bounded : (a : ℕ) → g.grown a < size_bound) {mb : Membuf}
    (v : IsSound mb) where
  wanted-lt :
      (ulen : ℕ) → ulen < size_bound → (ulen ≤ wanted g mb ulen) × (wanted g mb ulen < size_bound)
  wanted-lt ulen h = ground (arith, bounded mb.alloced)

  abbrev grown_buffer : ℕ → Membuf
  grown_buffer ulen = record mb {
    size = ulen;
    alloced = wanted g mb ulen;
    buffer = take (wanted g mb ulen) mb.buffer ++ replicate (wanted g mb ulen - mb.alloced) 0;
  }

  grown-Resized :
      (ulen : ℕ) (h : mb.alloced < ulen) (h' : ulen < size_bound)
      → Resized mb ulen (grown_buffer ulen)
  grown-Resized ulen h h' =
      let w = wanted-lt ulen h' in
      let t : take (wanted g mb ulen) mb.buffer ≡ mb.buffer =
        take-all (wanted g mb ulen) mb.buffer (omega (arith, v.alloc, w.0)) in
      record {
        sound = record {
          holds = w.0;
          alloc = rw t (
              omega (
                arith,
                length-append mb.buffer (replicate (wanted g mb ulen - mb.alloced) 0),
                length-replicate {A = ℕ} (wanted g mb ulen - mb.alloced) 0,
                v.alloc,
                w.0,
              ));
          alloc-lt = w.1;
          at-lt = v.at-lt;
          safe = v.safe;
        };
        size = refl;
        same_at = refl;
        same_mode = refl;
        kept =
            λ j hj hj'. rw t (get_or-append_left mb.buffer _ j 0 (omega (arith, v.alloc, v.holds)));
      }

  grow-cases :
      (ulen : ℕ)
      → mb.alloced < ulen
      → ulen < size_bound
      → ((grow g mb ulen).0 ≡ ok) × Resized mb ulen (grow g mb ulen).1
        ⊎ ((g.allocates (wanted g mb ulen) ≡ false) × (grow g mb ulen ≡ (alloc_error, mb)))
  unfolding grow
  grow-cases ulen h h' = elim (Bool-cases (g.allocates (wanted g mb ulen))) [
    | inl yes_room ↦ inl (rw yes_room (refl, grown-Resized ulen h h'))
    | inr no_room ↦ inr (no_room, rw no_room refl)
  ]

  shrink-Resized : (ulen : ℕ) → ulen ≤ mb.alloced → Resized mb ulen (shrink g mb ulen)
  unfolding shrink
  shrink-Resized ulen h =
      elim (Bool-cases (
        mb.expandable
        && (ltb ulen mb.alloced && (g.releases ulen mb.alloced && g.allocates ulen)))) [
          | inl released ↦ rw released (record {
            sound = record {
              holds = omega arith;
              alloc = omega (arith, length-take ulen mb.buffer, v.alloc);
              alloc-lt = omega (arith, v.alloc-lt);
              at-lt = v.at-lt;
              safe = v.safe;
            };
            size = refl;
            same_at = refl;
            same_mode = refl;
            kept = λ j hj hj'. get_or-take ulen mb.buffer j 0 hj';
          })
          | inr held ↦ rw held (record {
            sound = record {
              holds = h;
              alloc = v.alloc;
              alloc-lt = v.alloc-lt;
              at-lt = v.at-lt;
              safe = v.safe;
            };
            size = refl;
            same_at = refl;
            same_mode = refl;
            kept = λ j hj hj'. refl;
          })
        ]

  -- Emptying the buffer: an expandable one gives its memory back.
  emptied-Resized :
      Resized mb 0 (record mb { size = 0; alloced = 0; buffer = [] })
      × Resized mb 0 (record mb { size = 0 })
  emptied-Resized = (
    record {
      sound = record {
        holds = omega arith;
        alloc = refl;
        alloc-lt = omega arith;
        at-lt = v.at-lt;
        safe = v.safe;
      };
      size = refl;
      same_at = refl;
      same_mode = refl;
      kept = λ j hj hj'. absurd (omega arith);
    },
    record {
      sound = record {
        holds = omega arith;
        alloc = v.alloc;
        alloc-lt = v.alloc-lt;
        at-lt = v.at-lt;
        safe = v.safe;
      };
      size = refl;
      same_at = refl;
      same_mode = refl;
      kept = λ j hj hj'. refl;
    },
  )

  resize-empty :
      (resize g mb 0 ≡ (ok, record mb { size = 0; alloced = 0; buffer = [] }))
      ⊎ (resize g mb 0 ≡ (ok, record mb { size = 0 }))
  unfolding resize
  resize-empty = elim (Bool-cases mb.expandable) [
    | inl e ↦ inl (ground arith)
    | inr e ↦ inr (ground arith)
  ]

  resize-more : (n : ℕ) → mb.alloced < suc n → resize g mb (suc n) ≡ grow g mb (suc n)
  unfolding resize
  resize-more n h = ground arith

  resize-enough : (n : ℕ) → suc n ≤ mb.alloced → resize g mb (suc n) ≡ (ok, shrink g mb (suc n))
  unfolding resize
  resize-enough n h = ground arith

  -- Resizing a sound buffer succeeds, or more memory was wanted and refused, and nothing changed.
  pub resize-cases :
      (ulen : ℕ)
      → ulen < size_bound
      → ((resize g mb ulen).0 ≡ ok) × Resized mb ulen (resize g mb ulen).1
        ⊎ ((mb.alloced < ulen)
            × (g.allocates (wanted g mb ulen) ≡ false)
            × (resize g mb ulen ≡ (alloc_error, mb)))
  resize-cases zero h = elim resize-empty [
    | inl e ↦ inl (rw e (refl, emptied-Resized.0))
    | inr e ↦ inl (rw e (refl, emptied-Resized.1))
  ]
  resize-cases (suc n) h = elim (Bool-cases (ltb mb.alloced (suc n))) [
    | inl more ↦
        let lt : mb.alloced < suc n = ground arith in
        elim (grow-cases (suc n) lt h) [
          | inl done ↦ inl (rw (resize-more n lt) done)
          | inr (refused, same) ↦ inr (lt, refused, resize-more n lt ∙ same)
        ]
    | inr enough ↦
        let le : suc n ≤ mb.alloced = ground arith in
        inl (rw (resize-enough n le) (refl, shrink-Resized (suc n) le))
  ]
