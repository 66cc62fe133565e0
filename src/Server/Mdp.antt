-- ===== src/Server/Mdp.antt =====
-- rpc_server_mdp.c
pub mod Session
use dtn_rpc.Reachable.{rpc_sid_is_reachable}
use dtn_rpc.Common.{ℕ, Option, none, some, ◌==◌, if◌then◌else◌, Bytes, length}
use dtn_rpc.Common.Int.{ℤ, pos, minus_one, truth}
use dtn_rpc.Serval.{Words, Sid, sid_broadcast, Sids}
use dtn_rpc.Memory.{fresh, memcpy}
use dtn_rpc.Wire.{rpc_pkt_call, read_uint8}
use dtn_rpc.System.{System, mdp_send, Exec, pure, emit, lift, ◌>>=◌, ◌>>◌}
use dtn_rpc.Server.{RpcProcedure, ServerMode, is_mode_all}
use dtn_rpc.Server.Parse.{rpc_server_parse_call}
use dtn_rpc.Server.Execute.{rpc_server_execute}
use dtn_rpc.Server.SendResult.{rpc_server_rhizome_send_result}
use dtn_rpc.Server.Answer.{ack_payload, zero_payload, is_served}

-- A packet from `mdp_recv`: the sender in its header, and the bytes that were received.
pub record MdpPacket : Type 0 where
  pub remote : Sid
  pub received : Bytes

module _ (W : Words) (S : Sids) (system : System) (mode : ServerMode) where
  send_result : Sid → RpcProcedure → Bytes → Exec (Unit {0})
  send_result remote rp result_payload =
      if truth (rpc_sid_is_reachable S system remote)
      then emit (mdp_send remote result_payload)
      else if is_mode_all mode
      then (do
        rpc_server_rhizome_send_result S system sid_broadcast rp.name result_payload
        pure tt)
      else pure tt

  answer : Sid → RpcProcedure → Exec (Unit {0})
  unfolding send_result
  answer remote rp = do
    emit (mdp_send remote ack_payload)
    (status, result_payload) ← rpc_server_execute S system zero_payload rp
    if status == 0 then pure tt else send_result remote rp result_payload.bytes

  handle_call : Sid → Bytes → ℕ → Exec ℤ
  unfolding answer
  handle_call remote payload len = do
    parsed ← lift (rpc_server_parse_call payload len)
    elim (S.str_to_sid_t (S.alloca_tohex_sid_t remote)) [
      | none ↦ pure minus_one
      | some caller ↦ (do
        let rp = record parsed { caller_sid = caller }
        served ← lift (is_served W system rp payload)
        if served then answer remote rp else pure tt
        pure (pos 0))
    ]

  -- `none`: `mdp_recv` returns -1. What is received stands at the start of the array `payload`.
  unfoldable pub rpc_server_mdp_handle : Option MdpPacket → Exec ℤ
  unfolding handle_call
  rpc_server_mdp_handle none = pure minus_one
  rpc_server_mdp_handle (some packet) = do
    let len = length packet.received
    let payload = (memcpy (fresh system.uninit) 0 packet.received).bytes
    pkt_type ← lift (read_uint8 payload 0)
    if pkt_type == rpc_pkt_call then handle_call packet.remote payload len else pure (pos 0)

  -- `none`: the socket has no data.
  unfoldable pub rpc_server_mdp_process : Option (Option MdpPacket) → Exec (Unit {0})
  unfolding rpc_server_mdp_handle
  rpc_server_mdp_process none = pure tt
  rpc_server_mdp_process (some recv) = do rpc_server_mdp_handle recv; pure tt
