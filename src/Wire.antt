-- ===== src/Wire.antt =====
-- rpc_helpers.c and rpc.h: packet types, one-byte fields and the parameter string.
pub mod Params
pub mod Call
use dtn_rpc.Common.{
  ℕ, ◌+◌, ◌-◌, ◌%◌, zero, suc, Option, List, [], ◌∷◌, ◌++◌, bit_and, bit_or, Bytes, length,
  get_elem?,
}
use dtn_rpc.Result.{Result, ok, err, out_of_bounds, elem, deref, ◌>>=◌}
use dtn_rpc.Memory.{Buffer, memcpy}
use dtn_rpc.Serval.{Words}

abbrev pub rpc_pkt_call : ℕ
rpc_pkt_call = 0

abbrev pub rpc_pkt_call_ack : ℕ
rpc_pkt_call_ack = 1

abbrev pub rpc_pkt_call_response : ℕ
rpc_pkt_call_response = 2

-- constants.h
abbrev pub mdp_mtu : ℕ
mdp_mtu = 1200 - 40

abbrev pub rpc_pkt_size : ℕ
rpc_pkt_size = mdp_mtu - 200

-- `write_uint8(&payload[i], value)`
unfoldable pub write_uint8 : Buffer → ℕ → ℕ → Buffer
write_uint8 payload i value = memcpy payload i (bit_and value 0xff ∷ [])

-- `read_uint8(&payload[i])`
unfoldable pub read_uint8 : Bytes → ℕ → Result ℕ
read_uint8 payload i = do c ← elem (get_elem? payload i); ok (bit_or 0 c)

-- The first loop: the characters of the first `paramc` parameters.
params_size : ℕ → List (Option Bytes) → ℕ → Result ℕ
params_size zero params size = ok size
params_size (suc n) [] size = err out_of_bounds
params_size (suc n) (p ∷ params) size = do s ← deref p; params_size n params (size + length s)

-- The second loop: `strcat` of the delimiter and of the parameter.
append_params : ℕ → List (Option Bytes) → Bytes → Bytes → Result Bytes
append_params zero params delim flat_params = ok flat_params
append_params (suc n) [] delim flat_params = err out_of_bounds
append_params (suc n) (p ∷ params) delim flat_params = do
  s ← deref p
  append_params n params delim ((flat_params ++ delim) ++ s)

-- The string, and the bytes that were allocated for it.
unfoldable pub rpc_flatten_params : ℕ → List (Option Bytes) → Bytes → Result (Bytes × ℕ)
unfolding params_size append_params
rpc_flatten_params paramc params delim = do
  size ← params_size paramc params 0
  flat_params ← append_params paramc params delim []
  ok (flat_params, size + paramc + 1)

-- `_rpc_client_prepare_call_payload` of rpc_client.c. `paramc` is cast to 16 bits, and to 8 in the call.
module _ (W : Words) where
  unfoldable pub rpc_client_prepare_call_payload : Buffer → ℕ → Bytes → Bytes → ℕ → Buffer
  unfolding write_uint8
  rpc_client_prepare_call_payload payload paramc rpc_name flat_params requirements =
      let typed = write_uint8 payload 0 rpc_pkt_call in
      let required = memcpy typed 1 (W.write_uint32 requirements) in
      let counted = write_uint8 required 5 (paramc % 65536 % 256) in
      let named = memcpy counted 6 rpc_name in
      let filled = memcpy named (6 + length rpc_name) flat_params in
      memcpy filled (6 + length rpc_name + length flat_params) (0 ∷ [])
