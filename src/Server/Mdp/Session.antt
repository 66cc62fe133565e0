-- ===== src/Server/Mdp/Session.antt =====
-- `_rpc_server_mdp_handle` on a call that a client built, from the ACK to the result.
use dtn_rpc.Common.{
  ℕ, ◌≤◌, ◌<◌, ◌≡◌, refl, ◌∙◌, inl, inr, some, List, [], ◌∷◌, ◌++◌, append-nil, arith, ◌==◌,
  if◌then◌else◌, Bool-cases, Bytes, length, take, drop, length-append,
}
use dtn_rpc.Common.Int.{ℤ, pos, truth}
use dtn_rpc.System.{System, Effect, Exec, pure, mdp_send, insert_bytes}
use dtn_rpc.Result.{ok}
use dtn_rpc.CString.Tokens.{join, IsToken}
use dtn_rpc.Memory.{Buffer, fresh, memcpy}
use dtn_rpc.Serval.{Words, Sid, sid_broadcast, Sids}
use dtn_rpc.Wire.{rpc_pkt_size, read_uint8}
use dtn_rpc.Wire.Call.{call_packet}
use dtn_rpc.Memory.{memcpy_front, take_prefix}
use dtn_rpc.System.Ensures.{bind_ok}
use dtn_rpc.Server.{RpcProcedure, ServerMode, is_mode_all}
use dtn_rpc.Server.Parse.Slots.{AreTokens}
use dtn_rpc.Server.Parse.RoundTrip.{parsed_call, rpc_server_parse_call-packet}
use dtn_rpc.Server.Execute.{rpc_server_execute}
use dtn_rpc.Server.Execute.Payload.{printed_payload, length-printed_payload}
use dtn_rpc.Server.Answer.{ack_payload, zero_payload}
use dtn_rpc.Server.Answer.Served.{
  IsServed, program_run, is_served_offered, rpc_server_execute_served,
}
use dtn_rpc.Server.SendResult.{result_manifest, rpc_server_rhizome_send_result}
use dtn_rpc.Server.SendResult.Whole.{rpc_server_rhizome_send_result_lem}
use dtn_rpc.Server.Mdp.{send_result, answer, handle_call, rpc_server_mdp_handle}
use dtn_rpc.Reachable.{rpc_sid_is_reachable}

module _ (W : Words) (S : Sids) (system : System) (mode : ServerMode) (remote : Sid) where
  -- What is done with a result: it is sent back, or in the mode for all ways it is posted as a
  -- broadcast, or it is dropped.
  abbrev pub delivery : Bytes → Bytes → List Effect
  delivery name result =
      if truth (rpc_sid_is_reachable S system remote)
      then mdp_send remote result ∷ []
      else if is_mode_all mode
      then insert_bytes (result_manifest S system sid_broadcast name) (take 959 result) ∷ []
      else []

  send_result-delivery :
      (rp : RpcProcedure) (result : Bytes) (trace : List Effect)
      → length result ≡ rpc_pkt_size
      → send_result W S system mode remote rp result trace
        ≡ ok (tt, trace ++ delivery rp.name result)
  unfolding send_result
  send_result-delivery rp result trace size =
      elim (Bool-cases (truth (rpc_sid_is_reachable S system remote))) [
        | inl there ↦ rw there refl
        | inr away ↦ elim (Bool-cases (is_mode_all mode)) [
          | inl every_way ↦
              let done : ℤ → Exec (Unit {0}) = λ code. pure tt in
              let whole : take 959 (result ++ system.behind) ≡ take 959 result =
                take_prefix 959 result system.behind (omega arith) in
              rw (away, every_way, ← whole)
                (bind_ok (rpc_server_rhizome_send_result S system sid_broadcast rp.name result) done
                  {trace = trace}
                  (rpc_server_rhizome_send_result_lem S system sid_broadcast rp.name result trace
                    (omega (arith, length-append result system.behind))))
          | inr single ↦ rw (away, single, append-nil) refl
        ]
      ]

  module _ (requirements : ℕ) (name : Bytes) (ps : List Bytes) where
    abbrev packet : Bytes
    packet = call_packet W requirements (length ps) name (join b'|' ps)

    abbrev pub caller_call : RpcProcedure
    caller_call = record (parsed_call name ps) { caller_sid = remote }

    module _ (first : Bytes) (others : List Bytes) (out : Bytes) (trace : List Effect) where
      -- What a call that is served does.
      abbrev pub served_effects : List Effect
      served_effects =
          ((trace ++ mdp_send remote ack_payload ∷ [])
            ++ program_run W S system caller_call first others out ∷ [])
          ++ delivery name (printed_payload out).bytes

      answer_serves :
          IsServed W S system caller_call first others out
          → answer W S system mode remote caller_call trace ≡ ok (tt, served_effects)
      unfolding answer
      answer_serves s =
          let sent : List Effect = trace ++ mdp_send remote ack_payload ∷ [] in
          let finish : (r : ℕ × Buffer) → Exec (Unit {0}) = λ (status, result).
            if status == 0
            then pure tt
            else send_result W S system mode remote caller_call result.bytes in
          bind_ok (rpc_server_execute S system zero_payload caller_call) finish {trace = sent}
            (rpc_server_execute_served W S system caller_call first others out sent s)
          ∙ send_result-delivery caller_call (printed_payload out).bytes _
              (length-printed_payload out)

      -- A call packet of an offered procedure whose first parameter is no file hash, and whose program
      -- runs with success and prints a first line that is not the path of a file: an ACK is sent to the
      -- sender, the program is run once on the parameters, and that line is sent to the sender if it can
      -- be reached; otherwise it is posted as a broadcast in the mode for all ways, and dropped in the
      -- other modes, that of a server for MDP alone included. Nothing else is done.
      pub rpc_server_mdp_handle_serves :
          IsToken b'|' name
          → AreTokens ps
          → length ps < 256
          → length remote ≡ 32
          → length packet ≤ length system.uninit
          → IsServed W S system caller_call first others out
          → rpc_server_mdp_handle W S system mode
              (some (record { remote = remote; received = packet }))
              trace
            ≡ ok (pos 0, served_effects)
      unfolding rpc_server_mdp_handle handle_call read_uint8
      rpc_server_mdp_handle_serves t ts few sid fits s =
          let rest = drop (length packet) system.uninit in
          let taken : Unit {0} → Exec ℤ = λ done. pure (pos 0) in
          rw
            (
              memcpy_front system.uninit packet fits,
              rpc_server_parse_call-packet W requirements name ps rest t ts few,
              S.str_to_sid_t-tohex remote sid,
              is_served_offered W S system caller_call first others out
                  (memcpy (fresh system.uninit) 0 packet).bytes s,
            )
            (bind_ok (answer W S system mode remote caller_call) taken {trace = trace}
              (answer_serves s))
