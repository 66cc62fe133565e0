-- ===== src/System/Ensures.antt =====
-- What a function that acts on the outside ensures of its value, if it does not fault.
use dtn_rpc.Common.{
  Option, none, some, ap, ◌≡◌, refl, sym, ◌∙◌, ◌⊎◌, inl, inr, Bool, true, false, if◌then◌else◌,
  List,
}
use dtn_rpc.Result.{Result, ok, err, Fault}
use dtn_rpc.System.{Effect, Exec, pure, ◌>>=◌}

abbrev pub Ensures : {A : Type 0} → Exec A → (A → Type 0) → Type 0
Ensures {A} m P =
    (trace : List Effect) (a : A) (trace' : List Effect) → m trace ≡ ok (a, trace') → P a

pub Result-cases :
    {A : Type 0} (r : Result A) → ((a : A) × (r ≡ ok a)) ⊎ ((e : Fault) × (r ≡ err e))
Result-cases (ok a) = inl (a, refl)
Result-cases (err e) = inr (e, refl)

module _ {A : Type 0} where
  pub ensures-pure : (P : A → Type 0) (a : A) → P a → Ensures (pure a) P
  ensures-pure P a p trace b trace' e = let same : b ≡ a = cc in rw same p

  pub ensures-if :
      (P : A → Type 0) (b : Bool) (m k : Exec A)
      → (b ≡ true → Ensures m P)
      → (b ≡ false → Ensures k P)
      → Ensures (if b then m else k) P
  ensures-if P true m k h g = h refl
  ensures-if P false m k h g = g refl

  module _ {B : Type 0} where
    pub ensures-option :
        (P : B → Type 0) (o : Option A) (m : Exec B) (k : A → Exec B)
        → Ensures m P
        → ((a : A) → Ensures (k a) P)
        → Ensures (elim o [ none ↦ m | some a ↦ k a ]) P
    ensures-option P none m k h g = h
    ensures-option P (some a) m k h g = g a

    abbrev next : (A → Exec B) → Result (A × List Effect) → Result (B × List Effect)
    next f r = elim r [ ok (a, t) ↦ f a t | err e ↦ err e ]

    -- Behind a first part that does not fault, the second goes on.
    pub bind_ok :
        (m : Exec A) (f : A → Exec B) {trace t : List Effect} {a : A}
        → m trace ≡ ok (a, t)
        → (m >>= f) trace ≡ f a t
    bind_ok m f q = ap (next f) q

    -- A first part that faults is the end.
    pub bind_err :
        (m : Exec A) (f : A → Exec B) {trace : List Effect} {fault : Fault}
        → m trace ≡ err fault
        → (m >>= f) trace ≡ err fault
    bind_err m f q = ap (next f) q

    -- The value of the first part is known to come from a run of it.
    pub ensures-bind :
        (Q : A → Type 0) (P : B → Type 0) (m : Exec A) (f : A → Exec B)
        → Ensures m Q
        → ((a : A) → Q a → Ensures (f a) P)
        → Ensures (m >>= f) P
    ensures-bind Q P m f h g trace b trace' e = elim (Result-cases (m trace)) [
      | inl ((a, t), q) ↦ g a (h trace a t q) t b trace' (sym (ap (next f) q) ∙ e)
      | inr (fault, q) ↦ let faults : (m >>= f) trace ≡ err fault = ap (next f) q in cc
    ]

    pub ensures-then :
        (P : B → Type 0) (m : Exec A) (f : A → Exec B)
        → ((a : A) → Ensures (f a) P)
        → Ensures (m >>= f) P
    ensures-then P m f g = ensures-bind (λ a. Unit {0}) P m f (λ trace a trace' e. tt) (λ a q. g a)
