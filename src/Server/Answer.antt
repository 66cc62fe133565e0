-- ===== src/Server/Answer.antt =====
-- What the three handlers share: the test whether a call is served, and the packets of the answer.
pub mod Served
use dtn_rpc.Common.{refl, ◌≡◌, length, Bool, not, ◌&&◌, [], ◌∷◌, ◌==◌, Bytes, drop, replicate}
use dtn_rpc.Common.Int.{truth}
use dtn_rpc.Serval.{Words}
use dtn_rpc.Memory.{memcpy, Buffer, fresh}
use dtn_rpc.Result.{Result, ok, ◌>>=◌}
use dtn_rpc.Wire.{rpc_pkt_call_ack, rpc_pkt_size, write_uint8}
use dtn_rpc.System.{System}
use dtn_rpc.Server.{RpcProcedure}
use dtn_rpc.Server.Offering.{rpc_server_offering, rpc_server_accepts}

-- The array `ack_payload`.
unfoldable pub ack_payload : Bytes
unfolding write_uint8
ack_payload = (write_uint8 (fresh (0 ∷ [])) 0 rpc_pkt_call_ack).bytes

pub length-ack_payload : length ack_payload ≡ 1
unfolding ack_payload memcpy
length-ack_payload = refl

-- The array `result_payload` behind its `memset`.
abbrev pub zero_payload : Buffer
zero_payload = fresh (replicate rpc_pkt_size 0)

-- `_rpc_server_offering(&rp) && _rpc_server_accepts(&rp, read_uint32(&payload[1]))`
unfoldable pub is_served : Words → System → RpcProcedure → Bytes → Result Bool
is_served W system rp payload = do
  offered ← rpc_server_offering system.conf_file rp
  let accepted = rpc_server_accepts rp (W.read_uint32 (drop 1 payload))
  ok (not (offered == 0) && truth accepted)
