-- ===== src/Server/Msp.antt =====
-- `_rpc_server_msp_handler` of rpc_server_msp.c.
pub mod Session
use dtn_rpc.Common.{
  ℕ, zero, suc, bit_and, bit_or, Bool, not, ◌&&◌, Option, none, some, ◌==◌, if◌then◌else◌, Bytes,
}
use dtn_rpc.Serval.{Words, Sid, Sids}
use dtn_rpc.Wire.{rpc_pkt_call, read_uint8}
use dtn_rpc.System.{System, msp_stop, msp_send, Exec, pure, emit, lift, ◌>>=◌, ◌>>◌}
use dtn_rpc.Server.{RpcProcedure, ServerMode, is_mode_all}
use dtn_rpc.Server.Parse.{rpc_server_parse_call}
use dtn_rpc.Server.Execute.{rpc_server_execute}
use dtn_rpc.Server.SendResult.{rpc_server_rhizome_send_result}
use dtn_rpc.Server.Answer.{ack_payload, zero_payload, is_served}

-- What Serval's functions say of a socket.
pub record MspSocket : Type 0 where
  -- `msp_socket_is_null` and `msp_socket_is_data` when the result is ready
  pub is_null : Bool
  pub is_data : Bool
  -- `msp_get_remote`
  pub remote : Sid

-- MSP_STATE_SHUTDOWN_REMOTE | MSP_STATE_CLOSED | MSP_STATE_ERROR
abbrev pub closing_states : ℕ
closing_states = bit_or (bit_or 16 32) 64

module _ (W : Words) (S : Sids) (system : System) (mode : ServerMode) (sock : MspSocket) where
  -- The branches behind a successful execution.
  send_result : RpcProcedure → Bytes → Exec (Unit {0})
  send_result rp result_payload =
      if not sock.is_null && sock.is_data
      then emit (msp_send result_payload)
      else if is_mode_all mode
      then (do
        rpc_server_rhizome_send_result S system rp.caller_sid rp.name result_payload
        pure tt)
      else pure tt

  answer : RpcProcedure → Exec (Unit {0})
  unfolding send_result
  answer rp = do
    emit (msp_send ack_payload)
    (status, result_payload) ← rpc_server_execute S system zero_payload rp
    if status == 0 then pure tt else send_result rp result_payload.bytes

  -- A call packet; the return value is `len` on every way through.
  handle_call : Bytes → ℕ → Exec ℕ
  unfolding answer
  handle_call payload len = do
    parsed ← lift (rpc_server_parse_call payload len)
    elim (S.str_to_sid_t (S.alloca_tohex_sid_t sock.remote)) [
      | none ↦ pure len
      | some caller ↦ (do
        let rp = record parsed { caller_sid = caller }
        served ← lift (is_served W system rp payload)
        if served then answer rp else pure tt
        pure len)
    ]

  handle_payload : ℕ → Option Bytes → ℕ → Exec ℕ
  unfolding handle_call
  handle_payload ret none len = pure ret
  handle_payload ret (some payload) zero = pure ret
  handle_payload ret (some payload) (suc n) = do
    pkt_type ← lift (read_uint8 payload 0)
    if pkt_type == rpc_pkt_call then handle_call payload (suc n) else pure ret

  -- `payload` may be `NULL`.
  unfoldable pub rpc_server_msp_handler : ℕ → Option Bytes → ℕ → Exec ℕ
  unfolding handle_payload
  rpc_server_msp_handler state payload len =
      if bit_and state closing_states == 0
      then handle_payload 0 payload len
      else (do emit msp_stop; handle_payload len payload len)
