-- ===== src/Serval/Sample.antt =====
-- Functions that meet the laws, for tests.
use dtn_rpc.Common.{
  ℕ, suc, ◌+◌, ◌-◌, ◌*◌, ◌/◌, ◌%◌, ◌<◌, ◌≡◌, refl, ap, ◌↔◌, Bool, true, ◌&&◌, Option, none, some,
  [], ◌∷◌, map, Bytes, length, replicate, All, arith, ◌==◌, if◌then◌else◌,
}
use dtn_rpc.Common.Int.{ℤ, pos, minus_one}
use dtn_rpc.CString.{str_eq}
use dtn_rpc.CString.Compare.{str_eq_iff}
use dtn_rpc.Serval.{Words, Sids, Sid}

-- Four bytes, the highest first.
abbrev pub big_endian : ℕ → Bytes
big_endian v = v / 16777216 % 256 ∷ v / 65536 % 256 ∷ v / 256 % 256 ∷ v % 256 ∷ []

abbrev pub from_big_endian : Bytes → ℕ
from_big_endian (a ∷ b ∷ c ∷ d ∷ rest) = a * 16777216 + b * 65536 + c * 256 + d
from_big_endian rest = 0

pub four_digits :
    (v : ℕ)
    → v < 4294967296
    → v / 16777216 % 256 * 16777216 + v / 65536 % 256 * 65536 + v / 256 % 256 * 256 + v % 256 ≡ v
four_digits v h =
    let e : v / 65536 ≡ v / 256 / 256 = omega arith in
    let f : v / 16777216 ≡ v / 256 / 256 / 256 = omega arith in rw (e, f) (omega arith)

abbrev pub sample_words : Words
sample_words = record {
  write_uint32 = big_endian;
  read_uint32 = from_big_endian;
  length-write_uint32 = λ v. refl;
  read_uint32-write_uint32 = λ v rest h. four_digits v h;
}

abbrev pub all_matching : Bytes → ℕ → Bool
all_matching [] c = true
all_matching (x ∷ b) c = x == c && all_matching b c

all_matching_to : (b : Bytes) (c : ℕ) → all_matching b c ≡ true → All (λ x. x ≡ c) b
all_matching_to [] c h = tt
all_matching_to (x ∷ b) c h = (ground arith, all_matching_to b c (ground arith))

all_matching_from : (b : Bytes) (c : ℕ) → All (λ x. x ≡ c) b → all_matching b c ≡ true
all_matching_from [] c h = refl
all_matching_from (x ∷ b) c (hx, hb) = let rest = all_matching_from b c hb in ground arith

abbrev pub compare_sids : Bytes → Bytes → ℤ
compare_sids a b = if str_eq a b then pos 0 else minus_one

pub compare_sids_iff : (a b : Sid) → (compare_sids a b ≡ pos 0) ↔ (a ≡ b)
compare_sids_iff a b = grind (arith, str_eq_iff)

abbrev pub shift : Bytes → Bytes
shift s = map suc s

abbrev pub before : ℕ → ℕ
before n = n - 1

abbrev pub unshift : Bytes → Option Sid
unshift t = if length t == 32 then some (map before t) else none

length-shift : (s : Bytes) → length (shift s) ≡ length s
length-shift [] = refl
length-shift (x ∷ s) = ap suc (length-shift s)

before-shift : (s : Bytes) → map before (shift s) ≡ s
before-shift [] = refl
before-shift (x ∷ s) = let e : suc x - 1 ≡ x = omega arith in rw (e, before-shift s) refl

pub all_matching_iff : (b : Bytes) (c : ℕ) → (all_matching b c ≡ true) ↔ All (λ x. x ≡ c) b
all_matching_iff b c = (all_matching_to b c, all_matching_from b c)

pub unshift-shift : (s : Sid) → length s ≡ 32 → unshift (shift s) ≡ some s
unshift-shift s h = rw (length-shift s, h, before-shift s) refl

abbrev pub sample_sid : Sid
sample_sid = replicate 32 7

abbrev pub sample_sids : Sids
sample_sids = record {
  is_all_matching = all_matching;
  cmp_sid_t = compare_sids;
  alloca_tohex_sid_t = shift;
  str_to_sid_t = unshift;
  my_sid = sample_sid;
  is_all_matching_iff = all_matching_iff;
  cmp_sid_t_iff = compare_sids_iff;
  str_to_sid_t-tohex = unshift-shift;
}
