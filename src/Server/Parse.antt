-- ===== src/Server/Parse.antt =====
-- `_rpc_server_parse_call` of rpc_server.c.
pub mod RoundTrip
pub mod Total
pub mod Fields
pub mod Slots
use dtn_rpc.Common.{
  ℕ, zero, suc, ◌+◌, ◌-◌, ◌||◌, Option, none, some, List, ltb, if◌then◌else◌, Bytes, length, set,
  take, drop, replicate,
}
use dtn_rpc.Result.{out_of_bounds, out_of_fuel, Result, ok, err, ◌>>=◌, deref}
use dtn_rpc.CString.{c_string, strtok, print_u8}
use dtn_rpc.Wire.{read_uint8}
use dtn_rpc.Server.{RpcProcedure, unset_sid}

-- `while (tok) { rp.params[i++] = tok; tok = strtok(NULL, "|"); }` over the text behind the name.
-- Each round takes a token from the text, so its length and one more round are enough.
pub store_params : ℕ → Bytes → ℕ → List (Option Bytes) → Result (List (Option Bytes))
store_params zero s i params = err out_of_fuel
store_params (suc fuel) s i params = elim (strtok b'|' s) [
  | none ↦ ok params
  | some (tok, rest) ↦
      let next = store_params fuel rest (i + 1) (set params i (some tok)) in
      if ltb i (length params) then next else err out_of_bounds
]

-- The body from the first `strtok` on: `text` is the string in `ch_payload`.
pub parse_text : ℕ → Bytes → Result RpcProcedure
unfolding store_params
parse_text paramc_n text = do
  (name, rest) ← deref (strtok b'|' text)
  params ← store_params (suc (length rest)) rest 0 (replicate paramc_n none)
  ok (record {
    name = name;
    paramc_n = paramc_n;
    paramc_s = print_u8 paramc_n;
    params = params;
    caller_sid = unset_sid;
  })

-- `payload` is the array that the pointer points into. An array of `len - 6` bytes needs `len ≥ 6`.
unfoldable pub rpc_server_parse_call : Bytes → ℕ → Result RpcProcedure
unfolding parse_text
rpc_server_parse_call payload len = do
  paramc_n ← read_uint8 payload 5
  ch_payload ←
      if ltb len 6 || ltb (length payload) len
      then err out_of_bounds
      else ok (take (len - 6) (drop 6 payload))
  text ← c_string ch_payload
  parse_text paramc_n text
