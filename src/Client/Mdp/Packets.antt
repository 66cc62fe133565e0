-- ===== src/Client/Mdp/Packets.antt =====
-- The packets of a direct call over MDP: what an ACK and a result do.
use dtn_rpc.Common.{
  ℕ, suc, ◌+◌, ◌≤◌, ◌≡◌, refl, ap, ◌∙◌, Bool, false, List, [], ◌∷◌, ◌++◌, arith, if◌then◌else◌,
  Bytes, length, drop,
}
use dtn_rpc.Common.Int.{ℤ, pos}
use dtn_rpc.System.{System, Effect, Exec, pure}
use dtn_rpc.Result.{ok}
use dtn_rpc.CString.{c_string}
use dtn_rpc.Memory.{fresh, memcpy}
use dtn_rpc.Serval.{Words, Sid, Sids, is_sid_t_broadcast}
use dtn_rpc.Wire.{rpc_pkt_call_ack, rpc_pkt_call_response, rpc_pkt_size, read_uint8}
use dtn_rpc.Filehash.{rpc_str_is_filehash}
use dtn_rpc.Memory.{memcpy_front}
use dtn_rpc.System.Ensures.{bind_ok}
use dtn_rpc.Client.{RpcResult, no_results, ClientState}
use dtn_rpc.Client.Answers.{record_ack, record_result}
use dtn_rpc.Client.Answers.Direct.{answered_table, record_result-direct}
use dtn_rpc.Client.Mdp.{handle_packet}

module _ (W : Words) (S : Sids) (system : System) (server_sid : Sid) (rpc_name : Bytes) where
  -- A result packet as the client finds it in its array, and whose text is no file hash.
  pub record IsResult (body : Bytes) : Type 0 where
    pub text : Bytes
    pub fits : length body + 1 ≤ rpc_pkt_size
    pub room : rpc_pkt_size ≤ length system.uninit
    pub reads : c_string (body ++ drop (length body + 1) system.uninit) ≡ ok text
    pub no_file : rpc_str_is_filehash text ≡ false

  pub handle_packet_ack :
      (remote : Sid) (wait_time : ℕ) (code : ℤ) (trace : List Effect)
      → is_sid_t_broadcast S server_sid ≡ false
      → 1 ≤ length system.uninit
      → handle_packet W S system server_sid rpc_name
          (record { remote = remote; received = rpc_pkt_call_ack ∷ [] })
          wait_time
          (record { received = code; rpc_result = no_results })
          trace
        ≡ ok ((wait_time + 20, record { received = pos 1; rpc_result = no_results }), trace)
  unfolding handle_packet read_uint8 record_ack
  handle_packet_ack remote wait_time code trace direct room =
      rw (memcpy_front system.uninit (rpc_pkt_call_ack ∷ []) room, direct) refl

  pub handle_packet_result :
      (remote : Sid) (body : Bytes) (wait_time : ℕ) (code : ℤ) (trace : List Effect)
      → is_sid_t_broadcast S server_sid ≡ false
      → IsResult body
      → handle_packet W S system server_sid rpc_name
          (record { remote = remote; received = rpc_pkt_call_response ∷ body })
          wait_time
          (record { received = code; rpc_result = no_results })
          trace
        ≡ ok (
          (wait_time, record { received = pos 2; rpc_result = answered_table remote body }),
          trace,
        )
  unfolding handle_packet read_uint8
  handle_packet_result remote body wait_time code trace direct r =
      let behind = drop (length body + 1) system.uninit in
      let state : ClientState = record { received = code; rpc_result = no_results } in
      let finish : List RpcResult × Bool → Exec (ℕ × ClientState) = λ (table, complete). pure (
        wait_time,
        record { received = if complete then pos 2 else state.received; rpc_result = table },
      ) in
      let size : suc (length body) ≡ length body + 1 = omega arith in
      let front : (memcpy (fresh system.uninit) 0 (rpc_pkt_call_response ∷ body)).bytes
          ≡ rpc_pkt_call_response ∷ body ++ behind =
        memcpy_front system.uninit (rpc_pkt_call_response ∷ body) (omega (arith, r.fits, r.room))
        ∙ ap (λ n. rpc_pkt_call_response ∷ body ++ drop n system.uninit) size in
      rw (front, size)
        (bind_ok
          (record_result S system server_sid rpc_name no_results remote
            (rpc_pkt_call_response ∷ body ++ behind) (length body + 1))
          finish {trace = trace}
          (record_result-direct S system server_sid rpc_name remote body behind r.text trace direct
            (omega (arith, r.fits)) r.reads r.no_file))
