-- ===== src/CString/Compare.antt =====
-- What the string comparisons decide.
use dtn_rpc.Common.{◌≡◌, refl, ◌↔◌, true, [], ◌∷◌, ◌++◌, arith, Bytes, length}
use dtn_rpc.CString.{str_eq, strn_eq}

-- `strcmp` decides equality.
pub str_eq_iff : (a b : Bytes) → (str_eq a b ≡ true) ↔ (a ≡ b)
unfolding str_eq
str_eq_iff (x ∷ a) (y ∷ b) = ground (arith, str_eq_iff a b)
str_eq_iff _ _ = ground arith

pub str_eq_refl : (a : Bytes) → str_eq a a ≡ true
str_eq_refl a = (str_eq_iff a a).1 refl

-- `strncmp(a, b, strlen(a))` asks only that `b` begins with `a`.
pub strn_eq-length :
    (a b : Bytes) → (strn_eq a b (length a) ≡ true) ↔ ((rest : Bytes) × (b ≡ a ++ rest))
unfolding strn_eq
strn_eq-length [] b = ((λ h. (b, refl)), (λ h. refl))
strn_eq-length (x ∷ a) [] = ((λ h. cc), (λ (rest, e). cc))
strn_eq-length (x ∷ a) (y ∷ b) = (
  (λ h. let (rest, e) = (strn_eq-length a b).0 (ground arith) in (rest, ground arith)),
  (λ (rest, e). let again = (strn_eq-length a b).1 (rest, ground arith) in ground arith),
)

pub strn_eq_self : (a : Bytes) → strn_eq a a (length a) ≡ true
unfolding strn_eq
strn_eq_self [] = refl
strn_eq_self (x ∷ a) = ground (arith, strn_eq_self a)

-- The same with the sides exchanged.
pub strn_eq-prefix :
    (a b : Bytes) → (strn_eq b a (length a) ≡ true) ↔ ((rest : Bytes) × (b ≡ a ++ rest))
unfolding strn_eq
strn_eq-prefix [] b = ((λ h. (b, refl)), (λ h. refl))
strn_eq-prefix (x ∷ a) [] = ((λ h. cc), (λ (rest, e). cc))
strn_eq-prefix (x ∷ a) (y ∷ b) = (
  (λ h. let (rest, e) = (strn_eq-prefix a b).0 (ground arith) in (rest, ground arith)),
  (λ (rest, e). let again = (strn_eq-prefix a b).1 (rest, ground arith) in ground arith),
)
