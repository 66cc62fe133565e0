-- ===== src/Requirements/Unpack.antt =====
-- Unpacking.
use dtn_rpc.Common.{
  ℕ, suc, ◌+◌, ◌*◌, ◌/◌, ◌%◌, ◌≡◌, refl, List, [], ◌∷◌, map, reverse, arith, length, All,
}
use dtn_rpc.Common.{bit_and_nibble}
use dtn_rpc.Common.Int.{pos}
use dtn_rpc.Result.{ok}
use dtn_rpc.Requirements.{
  unpack_loop, swap_loop, rpc_client_prepare_requirements, rpc_server_parse_requirements,
}
use dtn_rpc.Requirements.Pack.{IsNibble, hex_value, prepare_requirements_value}

unpack_digit : (k n v : ℕ) → IsNibble v → unpack_loop (suc k) (n * 16 + v) ≡ v ∷ unpack_loop k n
unfolding unpack_loop
unpack_digit k n v hv =
    let low : (n * 16 + v) % 16 ≡ v = omega arith in
    let high : (n * 16 + v) / 16 ≡ n = omega arith in rw (bit_and_nibble (n * 16 + v), low, high)

-- The digits of a packed number come out from the last to the first.
pub parse_requirements_value :
    (vs : List ℕ)
    → length vs ≡ 8
    → All IsNibble vs
    → rpc_server_parse_requirements (hex_value 0 vs) ≡ reverse vs
unfolding rpc_server_parse_requirements swap_loop
parse_requirements_value (a ∷ b ∷ c ∷ d ∷ e ∷ f ∷ g ∷ h ∷ []) len
      (ha, (hb, (hc, (hd, (he, (hf, (hg, (hh, _)))))))) =
    let n₁ : ℕ = 0 * 16 + a in
    let n₂ : ℕ = n₁ * 16 + b in
    let n₃ : ℕ = n₂ * 16 + c in
    let n₄ : ℕ = n₃ * 16 + d in
    let n₅ : ℕ = n₄ * 16 + e in
    let n₆ : ℕ = n₅ * 16 + f in
    let n₇ : ℕ = n₆ * 16 + g in
    rw
      (
        unpack_digit 7 n₇ h hh,
        unpack_digit 6 n₆ g hg,
        unpack_digit 5 n₅ f hf,
        unpack_digit 4 n₄ e he,
        unpack_digit 3 n₃ d hd,
        unpack_digit 2 n₂ c hc,
        unpack_digit 1 n₁ b hb,
        unpack_digit 0 0 a ha,
      )
      (unfold unpack_loop in refl)
parse_requirements_value vs len all = absurd (omega arith)

-- Eight values from 0 to 15 that the client packs are unpacked by the server in the reverse order.
pub parse_requirements-prepare_requirements :
    (vs : List ℕ)
    → length vs ≡ 8
    → All IsNibble vs
    → (r : ℕ) × (rpc_client_prepare_requirements (map pos vs) ≡ ok r)
      × (rpc_server_parse_requirements r ≡ reverse vs)
parse_requirements-prepare_requirements vs len all =
    (hex_value 0 vs, prepare_requirements_value vs len all, parse_requirements_value vs len all)
