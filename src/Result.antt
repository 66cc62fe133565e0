-- ===== src/Result.antt =====
-- The outcome of C code that can step outside the language: a value, or the fault that ends the run.
use dtn_rpc.Common.{Option, none, some, ◌≡◌, refl}

-- A read past the end of a string with no terminator, a null pointer that is read through, an index
-- outside its array, bytes that nothing has written, and a loop whose fuel is used up.
pub data Fault : Type 0 where
  unterminated null_pointer out_of_bounds uninitialised out_of_fuel : Fault

pub data Result {ℓ} (A : Type ℓ) : Type ℓ where
  err : Fault → Result A
  ok : A → Result A

infixl 5 ◌>>=◌
abbrev pub ◌>>=◌ {ℓ κ} : {A : Type ℓ} {B : Type κ} → Result A → (A → Result B) → Result B
err fault >>= k = err fault
ok value >>= k = k value

-- A pointer that is read through: `none` is `NULL`.
abbrev pub deref {ℓ} : {A : Type ℓ} → Option A → Result A
deref none = err null_pointer
deref (some a) = ok a

-- An element of an array.
abbrev pub elem {ℓ} : {A : Type ℓ} → Option A → Result A
elem none = err out_of_bounds
elem (some a) = ok a

-- Where a sequence gives a value, its first part gives one.
pub bind-eq-ok {ℓ κ} :
    {A : Type ℓ} {B : Type κ} {b : B} (first : Result A) (next : A → Result B)
    → first >>= next ≡ ok b
    → (a : A) × (first ≡ ok a) × (next a ≡ ok b)
bind-eq-ok (err fault) next h = cc
bind-eq-ok (ok value) next h = (value, refl, h)
