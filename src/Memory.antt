-- ===== src/Memory.antt =====
-- Byte arrays of a fixed size that the program fills in place.
use dtn_rpc.Common.{
  ◌∙◌, length-replicate, replicate, true, append-nil, ℕ, zero, suc, ◌+◌, ◌-◌, ◌≤◌, ◌≡◌, refl, ap,
  Bool, false, ◌||◌, List, [], ◌∷◌, ◌++◌, arith, Bytes, length, length-append, take, drop,
  drop-append_length, ltb, append_assoc,
}

-- `overrun` records that a write went past the end, which C leaves undefined; the bytes of the
-- array itself are then those that such a write leaves in it.
pub record Buffer : Type 0 where
  pub bytes : Bytes
  pub overrun : Bool

abbrev pub fresh : Bytes → Buffer
fresh old = record { bytes = old; overrun = false }

-- `memcpy(&b[i], v, length v)`
unfoldable pub memcpy : Buffer → ℕ → Bytes → Buffer
memcpy b i v = record {
  bytes = take (length b.bytes) (take i b.bytes ++ (v ++ drop (i + length v) b.bytes));
  overrun = b.overrun || ltb (length b.bytes) (i + length v);
}

module _ {ℓ} {A : Type ℓ} where
  pub take-append_length : (xs ys : List A) → take (length xs) (xs ++ ys) ≡ xs
  take-append_length [] ys = refl
  take-append_length (x ∷ xs) ys = ap (◌∷◌ x) (take-append_length xs ys)

  pub take_all : (n : ℕ) (xs : List A) → length xs ≤ n → take n xs ≡ xs
  take_all zero [] h = refl
  take_all (suc n) [] h = refl
  take_all zero (x ∷ xs) h = absurd (omega arith)
  take_all (suc n) (x ∷ xs) h = ap (◌∷◌ x) (take_all n xs (omega arith))

  pub length-take-le : (n : ℕ) (xs : List A) → length (take n xs) ≤ n
  length-take-le zero xs = omega arith
  length-take-le (suc n) [] = omega arith
  length-take-le (suc n) (x ∷ xs) = omega (arith, length-take-le n xs)

  pub drop_prefix : (n : ℕ) (xs ys : List A) → length xs ≡ n → drop n (xs ++ ys) ≡ ys
  drop_prefix n xs ys e = rw (← e) (drop-append_length xs ys)

-- A write inside the array replaces just the bytes that it covers.
pub memcpy_inside :
    (before old after v : Bytes)
    → length old ≡ length v
    → memcpy (fresh (before ++ (old ++ after))) (length before) v ≡ fresh (before ++ (v ++ after))
unfolding memcpy
memcpy_inside before old after v same = λ i. record { bytes = inside i; overrun = within i }
  where
    sizes : length (before ++ (old ++ after)) ≡ length before + length v + length after
    sizes = omega (arith, length-append before (old ++ after), length-append old after)

    behind : drop (length before + length v) (before ++ (old ++ after)) ≡ after
    behind =
        rw (← append_assoc)
          (drop_prefix _ (before ++ old) after (omega (arith, length-append before old)))

    inside :
        take (length (before ++ (old ++ after))) (
          take (length before) (before ++ (old ++ after))
          ++ (v ++ drop (length before + length v) (before ++ (old ++ after))))
        ≡ before ++ (v ++ after)
    inside =
        rw (take-append_length before (old ++ after), behind)
          (take_all _ (before ++ (v ++ after))
            (omega (arith, sizes, length-append before (v ++ after), length-append v after)))

    within : ltb (length (before ++ (old ++ after))) (length before + length v) ≡ false
    within = ground (arith, sizes)

module _ {ℓ} {A : Type ℓ} where
  take-append-drop : (n : ℕ) (xs : List A) → take n xs ++ drop n xs ≡ xs
  take-append-drop zero xs = refl
  take-append-drop (suc n) [] = refl
  take-append-drop (suc n) (x ∷ xs) = ap (◌∷◌ x) (take-append-drop n xs)

  pub length-take : (n : ℕ) (xs : List A) → n ≤ length xs → length (take n xs) ≡ n
  length-take zero xs h = refl
  length-take (suc n) [] h = absurd (omega arith)
  length-take (suc n) (x ∷ xs) h = ap suc (length-take n xs (omega arith))

  pub length-drop : (n : ℕ) (xs : List A) → length (drop n xs) ≡ length xs - n
  length-drop zero xs = omega arith
  length-drop (suc n) [] = omega arith
  length-drop (suc n) (x ∷ xs) = omega (arith, length-drop n xs)

-- Filling an array from the left: the next write goes behind what stands there.
pub memcpy_next :
    (i : ℕ) (before old v : Bytes)
    → length before ≡ i
    → length v ≤ length old
    → memcpy (fresh (before ++ old)) i v ≡ fresh ((before ++ v) ++ drop (length v) old)
memcpy_next i before old v at fits =
    rw (append_assoc, ← at)
      (rw (take-append-drop (length v) old) at (
        memcpy_inside before (take (length v) old) (drop (length v) old) v
          (length-take (length v) old fits)))

-- The array begins with the `i` bytes `written`, `left` bytes are not written yet, and no write
-- went outside.
pub record Filled (b : Buffer) (written : Bytes) (i left : ℕ) : Type 0 where
  pub rest : Bytes
  pub layout : b ≡ fresh (written ++ rest)
  pub used : length written ≡ i
  pub room : length rest ≡ left

pub Filled-fresh : (old : Bytes) {n : ℕ} → length old ≡ n → Filled (fresh old) [] 0 n
Filled-fresh old e = record { rest = old; layout = refl; used = refl; room = e }

pub Filled-memcpy :
    {b : Buffer} {written : Bytes} {i n : ℕ} (v : Bytes) (j left : ℕ)
    → Filled b written i n
    → j ≡ i + length v
    → n ≡ length v + left
    → Filled (memcpy b i v) (written ++ v) j left
Filled-memcpy {written} {i} v j left f at e = record {
  rest = drop (length v) f.rest;
  layout = rw f.layout (memcpy_next i written f.rest v f.used (omega (arith, f.room)));
  used = omega (arith, length-append written v, f.used);
  room = omega (arith, length-drop (length v) f.rest, f.room);
}

-- A full array holds what was written, and nothing else.
pub Filled-full : {b : Buffer} {written : Bytes} {i : ℕ} → Filled b written i 0 → b ≡ fresh written
Filled-full {b} {written} f = full f.rest f.layout f.room
  where
    full : (rest : Bytes) → b ≡ fresh (written ++ rest) → length rest ≡ 0 → b ≡ fresh written
    full [] e r = rw append-nil at e
    full (x ∷ rest) e r = absurd (omega arith)

-- A write that starts right behind the array leaves the array as it is, and is an overrun.
pub memcpy_behind :
    (old : Bytes) (n : ℕ) (c : ℕ) (v : Bytes)
    → length old ≡ n
    → memcpy (fresh old) n (c ∷ v) ≡ record { bytes = old; overrun = true }
unfolding memcpy
memcpy_behind old n c v e = λ i. record { bytes = same i; overrun = past i }
  where
    same : take (length old) (take n old ++ ((c ∷ v) ++ drop (n + length (c ∷ v)) old)) ≡ old
    same = rw (take_all n old (omega arith)) (take-append_length old _)

    past : ltb (length old) (n + length (c ∷ v)) ≡ true
    past = ground arith

-- A write into a zeroed array, followed by its terminator.
pub memcpy_zeroed :
    (before v : Bytes) (i n : ℕ)
    → length before ≡ i
    → length v ≤ n
    → memcpy (fresh (before ++ replicate n 0)) i v
      ≡ fresh (before ++ (v ++ replicate (n - length v) 0))
memcpy_zeroed before v i n at fits =
    memcpy_next i before (replicate n 0) v at (omega (arith, length-replicate {A = ℕ} n 0))
    ∙ rw (append_assoc, drop-replicate (length v) n 0)
  where
    drop-replicate : (k m a : ℕ) → drop k (replicate m a) ≡ replicate (m - k) a
    drop-replicate zero m a = let e : m - 0 ≡ m = omega arith in rw e
    drop-replicate (suc k) zero a = let e : 0 - suc k ≡ 0 = omega arith in rw e
    drop-replicate (suc k) (suc m) a =
        let e : suc m - suc k ≡ m - k = omega arith in rw e (drop-replicate k m a)

-- What stands in an array behind a write at its start.
pub memcpy_front :
    (old v : Bytes)
    → length v ≤ length old
    → (memcpy (fresh old) 0 v).bytes ≡ v ++ drop (length v) old
memcpy_front old v fits = ap (λ (b : Buffer). b.bytes) (memcpy_next 0 [] old v refl fits)

pub take_prefix : (n : ℕ) (xs ys : Bytes) → n ≤ length xs → take n (xs ++ ys) ≡ take n xs
take_prefix zero xs ys h = refl
take_prefix (suc n) [] ys h = absurd (omega arith)
take_prefix (suc n) (x ∷ xs) ys h = ap (◌∷◌ x) (take_prefix n xs ys (omega arith))
