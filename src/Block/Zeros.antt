-- ===== src/Block/Zeros.antt =====
-- The loop that writes zeros over the data of a block, over a device that keeps its laws.
use whefs.Common.{
  ℕ, zero, suc, ◌+◌, ◌-◌, ◌<◌, ◌≤◌, ◌≡◌, refl, ap, ap₂, sym, ◌∙◌, arith, Bool, false, some, ◌∷◌,
  ◌++◌, ◌==◌, if◌then◌else◌, length, take, overwrite, replicate, min, ==_refl, overwrite-append,
  overwrite-nil, length-overwrite, length-replicate,
}
use whefs.Rc.{Rc, ok, io_error}
use whefs.Encode.{Bytes}
use whefs.Device.{DevApi, DevLaws}
use whefs.Fs.{Fs, fs_write}
use whefs.Block.Wiping.{buf_size, wipe_buf, wipe_loop}

abbrev pub zeros : ℕ → Bytes
zeros n = replicate n 0

pub zeros_add : (m n k : ℕ) → k ≡ m + n → zeros m ++ zeros n ≡ zeros k
zeros_add zero n k e = ap zeros {x = n} {y = k} (omega (arith, e))
zeros_add (suc m) n zero e = absurd (omega (arith, e))
zeros_add (suc m) n (suc k) e = ap (λ l. 0 ∷ l) (zeros_add m n k (omega (arith, e)))

pub take-zeros : (n m : ℕ) → n ≤ m → take n (zeros m) ≡ zeros n
take-zeros zero m h = refl
take-zeros (suc n) zero h = absurd (omega arith)
take-zeros (suc n) (suc m) h = ap (λ l. 0 ∷ l) (take-zeros n m (omega (arith, h)))

pub length-zeros : (n : ℕ) → length (zeros n) ≡ n
length-zeros n = length-replicate n 0

take-wipe_buf : (n : ℕ) → n ≤ buf_size → take n wipe_buf ≡ zeros n
unfolding wipe_buf
take-wipe_buf n h = take-zeros n buf_size h

length-wipe_buf : length wipe_buf ≡ buf_size
unfolding wipe_buf
length-wipe_buf = length-zeros buf_size

ne_zero : (n : ℕ) → 0 < n → (n == 0) ≡ false
ne_zero n h = ground (arith, h)

-- One round of the loop.
module _ {D : Type 0} (api : DevApi D) where
  wipe_loop_ends : (rounds : ℕ) (fs : Fs D) → wipe_loop api rounds 0 fs ≡ (ok, fs)
  unfolding wipe_loop
  wipe_loop_ends zero fs = refl
  wipe_loop_ends (suc rounds) fs = refl

  wipe_loop_step :
      (rounds x : ℕ) (fs : Fs D) (d : D)
      → 0 < x
      → api.write fs.dev (some wipe_buf) (min buf_size x) ≡ (min buf_size x, d)
      → wipe_loop api (suc rounds) x fs
        ≡ wipe_loop api rounds (x - min buf_size x) (record fs { dev = d })
  unfolding wipe_loop fs_write
  wipe_loop_step rounds x fs d h w =
      let wsz : ℕ = min buf_size x in
      let whole : Bool → Bool → Bool → ℕ × D → Rc × Fs D = λ ended stuck full q.
        if ended
        then (ok, fs)
        else if stuck
        then (ok, record fs { dev = q.1 })
        else if full
        then wipe_loop api rounds (x - wsz) (record fs { dev = q.1 })
        else (io_error, record fs { dev = q.1 }) in
      ap (λ q. whole (x == 0) (q.0 == 0) (wsz == q.0) q) w
      ∙ ap (λ b. whole b (wsz == 0) (wsz == wsz) (wsz, d)) (ne_zero x h)
      ∙ ap (λ b. whole false b (wsz == wsz) (wsz, d)) (ne_zero wsz (omega (arith, h)))
      ∙ ap (λ b. whole false false b (wsz, d)) (==_refl wsz)

  stuck_step :
      (rounds x : ℕ) (fs : Fs D) (d : D)
      → 0 < x
      → api.write fs.dev (some wipe_buf) (min buf_size x) ≡ (0, d)
      → wipe_loop api (suc rounds) x fs ≡ (ok, record fs { dev = d })
  unfolding wipe_loop fs_write
  stuck_step rounds x fs d h w =
      let wsz : ℕ = min buf_size x in
      let whole : Bool → ℕ × D → Rc × Fs D = λ ended q.
        if ended
        then (ok, fs)
        else if q.0 == 0
        then (ok, record fs { dev = q.1 })
        else if wsz == q.0
        then wipe_loop api rounds (x - wsz) (record fs { dev = q.1 })
        else (io_error, record fs { dev = q.1 }) in
      ap (λ q. whole (x == 0) q) w ∙ ap (λ b. whole b (0, d)) (ne_zero x h)

  -- A write that writes nothing ends the loop with OK.
  pub wipe_loop_stuck :
      (rounds x : ℕ) (fs : Fs D) (d : D)
      → 0 < x
      → 0 < rounds
      → api.write fs.dev (some wipe_buf) (min buf_size x) ≡ (0, d)
      → wipe_loop api rounds x fs ≡ (ok, record fs { dev = d })
  wipe_loop_stuck zero x fs d h k w = absurd (omega (arith, k))
  wipe_loop_stuck (suc rounds) x fs d h k w = stuck_step rounds x fs d h w

module _ {D : Type 0} {api : DevApi D} (L : DevLaws api) where
  -- The loop writes zeros from the cursor on, as many as are asked for.
  pub record Zeroes (fs : Fs D) (x : ℕ) (r : Rc × Fs D) : Type 0 where
    pub d : D
    pub is : r ≡ (ok, record fs { dev = d })
    pub valid : L.Valid d
    pub view : L.view d ≡ overwrite (L.view fs.dev) (L.cursor fs.dev) (zeros x)

  pub wipe_loop-Zeroes :
      (rounds x : ℕ) (fs : Fs D)
      → L.Valid fs.dev
      → x ≤ rounds
      → L.cursor fs.dev + x ≤ length (L.view fs.dev)
      → Zeroes fs x (wipe_loop api rounds x fs)
  wipe_loop-Zeroes rounds zero fs v h room = record {
    d = fs.dev;
    is = wipe_loop_ends api rounds fs;
    valid = v;
    view = sym (overwrite-nil (L.view fs.dev) (L.cursor fs.dev));
  }
  wipe_loop-Zeroes zero (suc x) fs v h room = absurd (omega (arith, h))
  wipe_loop-Zeroes (suc rounds) (suc x) fs v h room =
      let n : ℕ = suc x in
      let wsz : ℕ = min buf_size n in
      let left : ℕ = n - wsz in
      let w =
        L.write_lem fs.dev wipe_buf wsz v (omega (arith, length-wipe_buf)) (omega (arith, room)) in
      let put : L.view w.0 ≡ overwrite (L.view fs.dev) (L.cursor fs.dev) (zeros wsz) =
        w.3
        ∙ ap (λ b. overwrite (L.view fs.dev) (L.cursor fs.dev) b)
            (take-wipe_buf wsz (omega arith)) in
      let size = ap length put ∙ length-overwrite (L.view fs.dev) (L.cursor fs.dev) (zeros wsz) in
      let fs' = record fs { dev = w.0 } in
      let rest =
        wipe_loop-Zeroes rounds left fs' w.2 (omega (arith, h)) (omega (arith, room, size, w.4)) in
      record {
        d = rest.d;
        is = wipe_loop_step api rounds n fs w.0 (omega arith) w.1 ∙ rest.is;
        valid = rest.valid;
        view =
            rest.view
            ∙ ap₂ (λ y c. overwrite y c (zeros left)) put
                (w.4 ∙ ap (λ k. L.cursor fs.dev + k) (sym (length-zeros wsz)))
            ∙ overwrite-append (L.view fs.dev) (L.cursor fs.dev) (zeros wsz) (zeros left)
            ∙ ap (λ b. overwrite (L.view fs.dev) (L.cursor fs.dev) b)
                (zeros_add wsz left n (omega arith));
      }
