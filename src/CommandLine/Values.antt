-- ===== src/CommandLine/Values.antt =====
-- The requirements on the command line of main.c.
use dtn_rpc.Common.{
  ℕ, suc, ◌+◌, ◌*◌, ◌≤◌, ◌<◌, ◌≡◌, refl, ◌∙◌, inl, inr, true, false, some, List, [], ◌∷◌, ◌++◌, map,
  append_assoc, arith, ◌==◌, Bool-cases, Bytes, length, set, replicate, length-append,
  set-append_length, All,
}
use dtn_rpc.Common.Int.{ℤ, pos}
use dtn_rpc.CString.{strtok, print_u8}
use dtn_rpc.CString.Tokens.{join, join_rest, strtok-join}
use dtn_rpc.CommandLine.{
  is_space, skip_spaces, digits_value, signed_value, atoi, str_loop, str_to_int_arr, count_commas,
  has_requirements, call_values,
}

abbrev pub IsDigit : ℕ → Type 0
IsDigit v = v ≤ 9

-- A number of one digit, as text.
abbrev pub digit_text : ℕ → Bytes
digit_text v = (b'0' + v) ∷ []

atoi-digit_text : (v : ℕ) → IsDigit v → atoi (digit_text v) ≡ pos v
unfolding atoi skip_spaces is_space signed_value digits_value
atoi-digit_text v h = ground arith

str_loop_token :
    (rounds i : ℕ) (text : Bytes) (values : List ℤ) {val_str rest : Bytes}
    → strtok b',' text ≡ some (val_str, rest)
    → str_loop (suc rounds) i text values
      ≡ str_loop rounds (i + 1) rest (set values i (atoi val_str))
unfolding str_loop
str_loop_token rounds i text values e = rw (str_loop, e) refl

-- Each round takes one number of the text and writes it behind those that are written.
str_loop-digits :
    (vs : List ℕ) (done old : List ℤ) (i : ℕ)
    → length done ≡ i
    → length old ≡ length vs
    → All IsDigit vs
    → str_loop (length vs) i (join_rest b',' (map digit_text vs)) (done ++ old) ≡ done ++ map pos vs
unfolding str_loop
str_loop-digits [] done [] i at same all = refl
str_loop-digits [] done (x ∷ old) i at same all = absurd (omega arith)
str_loop-digits (v ∷ vs) done [] i at same all = absurd (omega arith)
str_loop-digits (v ∷ vs) done (x ∷ old) i at same (hv, all) =
    let next : strtok b',' (digit_text v ++ join b',' (map digit_text vs))
        ≡ some (digit_text v, join_rest b',' (map digit_text vs)) =
      strtok-join b',' (digit_text v) (map digit_text vs) (λ e. cc) (omega arith, tt) in
    let written : set (done ++ x ∷ old) i (pos v) ≡ (done ++ pos v ∷ []) ++ old =
      rw (← at, set-append_length done x (pos v) old, append_assoc) refl in
    let joined : (done ++ pos v ∷ []) ++ map pos vs ≡ done ++ map pos (v ∷ vs) =
      rw append_assoc refl in
    str_loop_token (length vs) i (digit_text v ++ join b',' (map digit_text vs)) (done ++ x ∷ old)
      next
    ∙ rw (atoi-digit_text v hv, written)
        (str_loop-digits vs (done ++ pos v ∷ []) old (i + 1)
            (omega (arith, length-append done (pos v ∷ []))) (omega arith) all
          ∙ joined)

count_commas-digits :
    (vs : List ℕ) (n : ℕ)
    → All IsDigit vs
    → count_commas n (join b',' (map digit_text vs)) ≡ n + length vs
unfolding count_commas
count_commas-digits [] n all = omega arith
count_commas-digits (v ∷ vs) n (hv, all) =
    let digit : (b'0' + v == b',') ≡ false = ground arith in
    rw (digit, count_commas-digits vs (n + 1) all) (omega arith)

length-join-digits : (vs : List ℕ) → length (join b',' (map digit_text vs)) ≡ 2 * length vs
length-join-digits [] = refl
length-join-digits (v ∷ vs) = omega (arith, length-join-digits vs)

pub has_requirements-digits :
    (vs : List ℕ)
    → length vs ≡ 8
    → All IsDigit vs
    → has_requirements (join_rest b',' (map digit_text vs)) ≡ true
unfolding has_requirements count_commas
has_requirements-digits [] len all = absurd (omega arith)
has_requirements-digits (v ∷ vs) len (hv, all) =
    let digit : (b'0' + v == b',') ≡ false = ground arith in
    let commas : (0 + length vs == 7) ≡ true = ground arith in
    let size : (length (join_rest b',' (map digit_text (v ∷ vs))) == 15) ≡ true =
      ground (arith, length-join-digits vs) in
    rw (digit, count_commas-digits vs 0 all, commas, size) refl

-- Eight digits with commas between them are the requirements of a call: they are recognised, and the
-- array has their values, in their order.
pub call_values-digits :
    (vs : List ℕ) (old : List ℤ)
    → length vs ≡ 8
    → length old ≡ 8
    → All IsDigit vs
    → call_values old (join_rest b',' (map digit_text vs)) ≡ map pos vs
unfolding call_values str_to_int_arr
call_values-digits vs old len room all =
    rw (has_requirements-digits vs len all, ← len)
      (str_loop-digits vs [] old 0 refl (omega arith) all)

zero_le : 0 ≤ 9
zero_le = omega arith

pub eight_zeros : All IsDigit (replicate 8 0)
eight_zeros =
    (zero_le, (zero_le, (zero_le, (zero_le, (zero_le, (zero_le, (zero_le, (zero_le, tt))))))))

-- Any other last argument leaves eight zeros.
pub call_values-plain :
    (last_arg : Bytes) (old : List ℤ)
    → has_requirements last_arg ≡ false
    → length old ≡ 8
    → call_values old last_arg ≡ map pos (replicate 8 0)
unfolding call_values str_to_int_arr
call_values-plain last_arg old other room =
    rw other (str_loop-digits (replicate 8 0) [] old 0 refl room eight_zeros)

length-print_u8 : (v : ℕ) → 1 ≤ length (print_u8 v)
unfolding print_u8
length-print_u8 v = ground arith

long-print_u8 : (v : ℕ) → 9 < v → 2 ≤ length (print_u8 v)
unfolding print_u8
long-print_u8 v h = ground arith

length-join-numbers : (vs : List ℕ) → 2 * length vs ≤ length (join b',' (map print_u8 vs))
length-join-numbers [] = omega arith
length-join-numbers (v ∷ vs) = omega (
  arith,
  length-append (print_u8 v) (join b',' (map print_u8 vs)),
  length-print_u8 v,
  length-join-numbers vs,
)

length-join-long :
    (before after : List ℕ) (v : ℕ)
    → 9 < v
    → 2 * length (before ++ v ∷ after) + 1 ≤ length (join b',' (map print_u8 (before ++ v ∷ after)))
length-join-long [] after v h = omega (
  arith,
  length-append (print_u8 v) (join b',' (map print_u8 after)),
  long-print_u8 v h,
  length-join-numbers after,
)
length-join-long (u ∷ before) after v h = omega (
  arith,
  length-append (print_u8 u) (join b',' (map print_u8 (before ++ v ∷ after))),
  length-print_u8 u,
  length-join-long before after v h,
)

length-join_rest : (vs : List Bytes) → length (join b',' vs) ≤ length (join_rest b',' vs) + 1
length-join_rest [] = omega arith
length-join_rest (v ∷ vs) = omega arith

has_requirements-long :
    (before after : List ℕ) (v : ℕ)
    → 9 < v
    → length (before ++ v ∷ after) ≡ 8
    → has_requirements (join_rest b',' (map print_u8 (before ++ v ∷ after))) ≡ false
unfolding has_requirements
has_requirements-long before after v long len =
    let text = join_rest b',' (map print_u8 (before ++ v ∷ after)) in
    let size : (length text == 15) ≡ false = ground (
      arith,
      length-join-long before after v long,
      length-join_rest (map print_u8 (before ++ v ∷ after)),
    ) in
    elim (Bool-cases (count_commas 0 text == 7)) [
      | inl seven ↦ rw (seven, size) refl
      | inr other ↦ rw other refl
    ]

-- Eight numbers below 1000, in decimal and with commas between them, of which one is 10 or more are not
-- taken for the requirements of a call, although such a value may stand in them up to 15: the array has
-- zeros.
pub call_values-long :
    (before after : List ℕ) (v : ℕ) (old : List ℤ)
    → 9 < v
    → length (before ++ v ∷ after) ≡ 8
    → length old ≡ 8
    → call_values old (join_rest b',' (map print_u8 (before ++ v ∷ after)))
      ≡ map pos (replicate 8 0)
call_values-long before after v old long len room =
    call_values-plain (join_rest b',' (map print_u8 (before ++ v ∷ after))) old
      (has_requirements-long before after v long len) room
