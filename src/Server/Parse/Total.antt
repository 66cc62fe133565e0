-- ===== src/Server/Parse/Total.antt =====
-- The loops of `_rpc_server_parse_call` of rpc_server.c and their fuel.
use dtn_rpc.Common.{
  ℕ, zero, suc, ◌+◌, ◌<◌, ◌≡◌, ◌≢◌, inl, inr, Option, none, some, List, [], ◌∷◌, arith,
  Option-cases, Bytes, length, set, replicate, length-set,
}
use dtn_rpc.Result.{out_of_fuel, ok, err}
use dtn_rpc.CString.{c_string, strtok}
use dtn_rpc.CString.Tokens.{length-strtok}
use dtn_rpc.Wire.{read_uint8}
use dtn_rpc.Server.Parse.{store_params, parse_text, rpc_server_parse_call}

store_params-fuel :
    (fuel : ℕ) (s : Bytes) (i : ℕ) (params : List (Option Bytes))
    → length s < fuel
    → store_params fuel s i params ≢ err out_of_fuel
unfolding store_params
store_params-fuel zero s i params h = absurd (omega arith)
store_params-fuel (suc fuel) s i params h = elim (Option-cases (strtok b'|' s)) [
  | inl e ↦ ground arith
  | inr ((tok, rest), e) ↦
      ground (
        arith,
        length-strtok b'|' s e,
        store_params-fuel fuel rest (i + 1) (set params i (some tok)),
      )
]

length-store_params :
    (fuel : ℕ) (s : Bytes) (i : ℕ) (params : List (Option Bytes)) {stored : List (Option Bytes)}
    → store_params fuel s i params ≡ ok stored
    → length stored ≡ length params
unfolding store_params
length-store_params zero s i params h = cc
length-store_params (suc fuel) s i params {stored} h = elim (Option-cases (strtok b'|' s)) [
  | inl e ↦ ground arith
  | inr ((tok, rest), e) ↦ ground (
    arith,
    length-set params i (some tok),
    length-store_params fuel rest (i + 1) (set params i (some tok)) {stored = stored},
  )
]

parse_text-fuel : (paramc_n : ℕ) (text : Bytes) → parse_text paramc_n text ≢ err out_of_fuel
unfolding parse_text
parse_text-fuel paramc_n text = elim (Option-cases (strtok b'|' text)) [
  | inl e ↦ ground arith
  | inr ((name, rest), e) ↦
      ground (
        arith,
        store_params-fuel (suc (length rest)) rest 0 (replicate paramc_n none) (omega arith),
      )
]

c_string-fuel : (s : Bytes) → c_string s ≢ err out_of_fuel
unfolding c_string
c_string-fuel [] = cc
c_string-fuel (c ∷ s) = ground (arith, c_string-fuel s)

-- The loops of the parser end on every packet: its fuel is never used up.
pub rpc_server_parse_call-fuel :
    (payload : Bytes) (len : ℕ) → rpc_server_parse_call payload len ≢ err out_of_fuel
unfolding rpc_server_parse_call read_uint8
rpc_server_parse_call-fuel payload len h = grind (arith, c_string-fuel, parse_text-fuel)
