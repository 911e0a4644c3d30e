-- ===== src/Strings/Copy.antt =====
-- What a string holds after a C string is copied into it.
use whefs.Common.{
  ℕ, zero, suc, ◌+◌, ◌-◌, ◌*◌, ◌/◌, ◌%◌, ◌<◌, ◌≤◌, ◌≡◌, ◌⊎◌, inl, inr, refl, ap, sym, ◌∙◌, subst,
  arith, Bool, true, false, Option, none, some, [], ◌∷◌, ◌++◌, ◌==◌, ltb, leb, if◌then◌else◌,
  length, take, drop, replicate, Bool-cases, ltb-cases, length-replicate, length-drop,
  length-append,
}
use whefs.Rc.{ok, alloc_error}
use whefs.Encode.{Bytes}
use whefs.Encode.Cstring.{strlen}
use whefs.Strings.{WhefsString, empty, filled, regrown, copy_cstring, string_size_bound}
use whefs.Strings.Filled.{text, strlen_end, strlen_cons, text-filled, length-filled}

-- A buffer has the size that is noted, and there is none only for the size 0.
abbrev behind : Option Bytes → ℕ
behind none = 0
behind (some buf) = length buf

pub record IsSound (s : WhefsString) : Type 0 where
  pub sized : behind s.string ≡ s.alloced
  pub small : s.alloced < string_size_bound

copy_fits :
    (allocates : Bool) (buf str : Bytes) (l size : ℕ)
    → 0 < strlen str
    → strlen str < size
    → copy_cstring allocates
        (some (record { string = some buf; length = l; alloced = size }))
        (some str)
      ≡ some (
        ok,
        some (record {
          string = some (filled buf size (strlen str) str);
          length = strlen str % string_size_bound;
          alloced = size;
        }),
      )
unfolding copy_cstring
copy_fits allocates buf str l size h k =
    let e0 : (strlen str == 0) ≡ false = ground (arith, h) in
    let e1 : ltb (strlen str) size ≡ true = ground (arith, k) in rw (e0, e1) refl

-- The string is longer than the buffer and not too long.
copy_grows :
    (allocates : Bool) (s : WhefsString) (str : Bytes)
    → 0 < strlen str
    → s.alloced ≤ strlen str
    → strlen str < 43691
    → copy_cstring allocates (some s) (some str) ≡ (
        if allocates
        then some (ok, some (regrown s (strlen str * 3 / 2) (strlen str) str))
        else some (alloc_error, some s))
unfolding copy_cstring
copy_grows allocates s str h k m =
    let e0 : (strlen str == 0) ≡ false = ground (arith, h) in
    let e1 : ltb (strlen str) s.alloced ≡ false = ground (arith, k) in
    let e2 : leb (string_size_bound - 1) (strlen str + 1) ≡ false = ground (arith, m) in
    let e3 : leb string_size_bound (strlen str * 3 / 2) ≡ false = ground (arith, m) in
    let e4 : ltb (strlen str * 3 / 2) (strlen str) ≡ false = ground arith in
    rw (e0, e1, e2, e3, e4) refl

-- What a string is after a copy: sound, with the length of the C string, which is read from it, and with a
-- null byte behind that inside the buffer, unless nothing was copied.
pub record Holds (str : Bytes) (s : WhefsString) : Type 0 where
  pub sound : IsSound s
  pub long : s.length ≡ strlen str
  pub reads : text s.string ≡ take (strlen str) str
  pub ended : (strlen str ≡ 0) ⊎ (strlen str < s.alloced)

abbrev pub Stored : Bool → WhefsString → Bytes → Type 0
Stored allocates s str =
    (s' : WhefsString) × (copy_cstring allocates (some s) (some str) ≡ some (ok, some s'))
    × Holds str s'

filled-Holds :
    (buf str : Bytes) (size l : ℕ)
    → strlen str < size
    → length buf ≤ size
    → size < string_size_bound
    → l ≡ strlen str
    → Holds str
        (record { string = some (filled buf size (strlen str) str); length = l; alloced = size })
filled-Holds buf str size l h k m e = record {
  sound = record { sized = length-filled buf str size h k; small = m };
  long = e;
  reads = text-filled buf str size h;
  ended = inr h;
}

zeros_text : (n : ℕ) (r : Bytes) → length r ≡ 0 → strlen (replicate n 0 ++ r) ≡ 0
unfolding strlen
zeros_text zero [] h = refl
zeros_text zero (c ∷ r) h = absurd (omega (arith, h))
zeros_text (suc n) r h = refl

copy_empty :
    (allocates : Bool) (o : Option Bytes) (l size : ℕ) (str : Bytes)
    → strlen str ≡ 0
    → IsSound (record { string = o; length = l; alloced = size })
    → Stored allocates (record { string = o; length = l; alloced = size }) str
unfolding copy_cstring
copy_empty allocates none l size str e v =
    let e0 : (strlen str == 0) ≡ true = ground (arith, e) in
    (
      record { string = none; length = 0; alloced = size },
      rw e0 refl,
      record {
        sound = record { sized = v.sized; small = v.small };
        long = sym e;
        reads = sym (ap (λ n. take n str) e);
        ended = inl e;
      },
    )
copy_empty allocates (some buf) l size str e v =
    let e0 : (strlen str == 0) ≡ true = ground (arith, e) in
    let rest : Bytes = drop size buf in
    let none_left : length rest ≡ 0 = omega (arith, length-drop size buf, v.sized) in
    (
      record { string = some (replicate size 0 ++ rest); length = 0; alloced = size },
      rw e0 refl,
      record {
        sound = record {
          sized = omega (
            arith,
            length-append (replicate size 0) rest,
            length-replicate {A = ℕ} size 0,
            none_left,
          );
          small = v.small;
        };
        long = sym e;
        reads =
            ap (λ n. take n (replicate size 0 ++ rest)) (zeros_text size rest none_left)
            ∙ sym (ap (λ n. take n str) e);
        ended = inl e;
      },
    )

copy_into :
    (allocates : Bool) (o : Option Bytes) (l size : ℕ) (str : Bytes)
    → 0 < strlen str
    → strlen str < size
    → IsSound (record { string = o; length = l; alloced = size })
    → Stored allocates (record { string = o; length = l; alloced = size }) str
copy_into allocates none l size str h k v = absurd (omega (arith, k, v.sized))
copy_into allocates (some buf) l size str h k v = (
  _,
  copy_fits allocates buf str l size h k,
  filled-Holds buf str size (strlen str % string_size_bound) k (omega (arith, v.sized)) v.small
      (omega (arith, k, v.small)),
)

copy_longer :
    (s : WhefsString) (str : Bytes)
    → 1 < strlen str
    → s.alloced ≤ strlen str
    → strlen str < 43691
    → Stored true s str
unfolding regrown
copy_longer s str h k m = (
  _,
  copy_grows true s str (omega (arith, h)) k m,
  filled-Holds [] str (strlen str * 3 / 2) (strlen str % string_size_bound) (omega (arith, h))
      (omega arith) (omega (arith, m)) (omega (arith, m)),
)

-- Copying a C string of less than 43691 bytes into a sound string, which has room for two bytes if there is
-- one byte to copy: it returns OK, the C string is read from it, terminated inside the buffer, and it is
-- sound again; or the allocation is refused, it returns AllocError, and the string is as it was.
pub copy_cstring_lem :
    (allocates : Bool) (s : WhefsString) (str : Bytes)
    → IsSound s
    → strlen str < 43691
    → (strlen str ≡ 1 → 1 < s.alloced)
    → ((allocates ≡ false)
        × (copy_cstring allocates (some s) (some str) ≡ some (alloc_error, some s)))
      ⊎ Stored allocates s str
copy_cstring_lem allocates s str v m one = elim (ltb-cases 0 (strlen str)) [
  | inr none_at_all ↦
      inr (copy_empty allocates s.string s.length s.alloced str (omega (arith, none_at_all)) v)
  | inl some_at_all ↦ elim (ltb-cases (strlen str) s.alloced) [
    | inl fits ↦ inr (copy_into allocates s.string s.length s.alloced str some_at_all fits v)
    | inr long ↦ elim (Bool-cases allocates) [
      | inl t ↦
          let two : 1 < strlen str = elim (ltb-cases 1 (strlen str)) [
            | inl lt ↦ lt
            | inr ge ↦ absurd (omega (arith, one (omega (arith, ge, some_at_all)), ge, long))
          ] in
          inr (subst (λ a. Stored a s str) (sym t) (copy_longer s str two long m))
      | inr f ↦ inl (
        f,
        ap (λ a. copy_cstring a (some s) (some str)) f ∙ copy_grows false s str some_at_all long m,
      )
    ]
  ]
]

-- A string of one byte that is copied into an empty string fills the allocation: no null byte is behind it.
copy_one_unterminated :
    (c : ℕ)
    → 0 < c
    → copy_cstring true (some empty) (some (c ∷ 0 ∷ []))
      ≡ some (ok, some (record { string = some (c ∷ []); length = 1; alloced = 1 }))
unfolding regrown
copy_one_unterminated c h =
    let e0 : (c == 0) ≡ false = ground (arith, h) in
    let e1 : strlen (c ∷ 0 ∷ []) ≡ 1 = strlen_cons c (0 ∷ []) e0 ∙ ap suc (strlen_end 0 [] refl) in
    copy_grows true empty (c ∷ 0 ∷ []) (omega (arith, e1)) (omega arith) (omega (arith, e1))
    ∙ ap (λ n. some (ok, some (regrown empty (n * 3 / 2) n (c ∷ 0 ∷ [])))) e1
