-- ===== src/Serval.antt =====
-- The parts of Serval DNA that the program calls and that the repository does not hold
-- (dataformats.h, serval_types.h, str.h declare them): records of functions with the laws that the
-- program relies on.
pub mod Sample
use dtn_rpc.Common.{
  ℕ, ◌^◌, ◌<◌, ◌≡◌, ◌↔◌, Bool, true, Option, some, ◌++◌, Bytes, length, replicate, All,
}
use dtn_rpc.Common.Int.{ℤ, pos}

-- `write_uint32` gives the bytes that it writes, `read_uint32` reads from a pointer.
pub record Words : Type 0 where
  pub write_uint32 : ℕ → Bytes
  pub read_uint32 : Bytes → ℕ
  pub length-write_uint32 : (v : ℕ) → length (write_uint32 v) ≡ 4
  pub read_uint32-write_uint32 :
      (v : ℕ) (rest : Bytes) → v < 2 ^ 32 → read_uint32 (write_uint32 v ++ rest) ≡ v

-- The 32 bytes of a `sid_t`.
abbrev pub Sid : Type 0
Sid = Bytes

abbrev pub sid_size : ℕ
sid_size = 32

abbrev pub sid_any : Sid
sid_any = replicate 32 0

abbrev pub sid_broadcast : Sid
sid_broadcast = replicate 32 0xff

pub record Sids : Type 0 where
  pub is_all_matching : Bytes → ℕ → Bool
  pub cmp_sid_t : Sid → Sid → ℤ
  pub alloca_tohex_sid_t : Sid → Bytes
  -- `none` is the return value -1
  pub str_to_sid_t : Bytes → Option Sid
  -- `get_my_subscriber(0)->sid`
  pub my_sid : Sid
  pub is_all_matching_iff : (b : Bytes) (c : ℕ) → (is_all_matching b c ≡ true) ↔ All (λ x. x ≡ c) b
  pub cmp_sid_t_iff : (a b : Sid) → (cmp_sid_t a b ≡ pos 0) ↔ (a ≡ b)
  pub str_to_sid_t-tohex :
      (s : Sid) → length s ≡ sid_size → str_to_sid_t (alloca_tohex_sid_t s) ≡ some s

-- The macros of serval_types.h.
module _ (S : Sids) where
  unfoldable pub is_sid_t_broadcast : Sid → Bool
  is_sid_t_broadcast sid = S.is_all_matching sid 0xff

  unfoldable pub is_sid_t_any : Sid → Bool
  is_sid_t_any sid = S.is_all_matching sid 0
