-- ===== src/Server/Msp/Session.antt =====
-- What the MSP handler does with a call that a client built, from the ACK to the result.
use dtn_rpc.Common.{
  ℕ, ◌<◌, bit_and, ◌≡◌, refl, ◌∙◌, true, false, some, List, [], ◌∷◌, ◌++◌, ◌==◌, if◌then◌else◌,
  Bytes, length,
}
use dtn_rpc.Serval.{Words, Sids}
use dtn_rpc.Result.{ok}
use dtn_rpc.CString.Tokens.{join, IsToken}
use dtn_rpc.Wire.{read_uint8}
use dtn_rpc.Wire.Call.{call_packet}
use dtn_rpc.System.{System, Effect, msp_send, Exec, pure}
use dtn_rpc.Memory.{Buffer}
use dtn_rpc.System.Ensures.{bind_ok}
use dtn_rpc.Server.{RpcProcedure, ServerMode}
use dtn_rpc.Server.Parse.Slots.{AreTokens}
use dtn_rpc.Server.Parse.RoundTrip.{parsed_call, rpc_server_parse_call-exact}
use dtn_rpc.Server.Offering.{rpc_server_offering}
use dtn_rpc.Server.Execute.{rpc_server_execute}
use dtn_rpc.Server.Execute.Payload.{printed_payload}
use dtn_rpc.Server.Answer.Served.{
  IsServed, program_run, is_served_offered, rpc_server_execute_served,
}
use dtn_rpc.Server.Answer.{ack_payload, zero_payload, is_served}
use dtn_rpc.Server.Msp.{
  MspSocket, closing_states, send_result, answer, handle_call, handle_payload,
  rpc_server_msp_handler,
}

module _ (W : Words) (S : Sids) (system : System) (mode : ServerMode) (sock : MspSocket) where
  module _ (requirements : ℕ) (name : Bytes) (ps : List Bytes) where
    abbrev packet : Bytes
    packet = call_packet W requirements (length ps) name (join b'|' ps)

    abbrev pub caller_call : RpcProcedure
    caller_call = record (parsed_call name ps) { caller_sid = sock.remote }

    -- A call over MSP of a procedure that is not offered, on a connection that is not closing, has no
    -- effect, and its bytes are taken.
    pub rpc_server_msp_handler_ignores :
        (state : ℕ) (trace : List Effect)
        → bit_and state closing_states ≡ 0
        → IsToken b'|' name
        → AreTokens ps
        → length ps < 256
        → length sock.remote ≡ 32
        → rpc_server_offering system.conf_file caller_call ≡ ok 0
        → rpc_server_msp_handler W S system mode sock state (some packet) (length packet) trace
          ≡ ok (length packet, trace)
    unfolding rpc_server_msp_handler handle_payload handle_call is_served read_uint8
    rpc_server_msp_handler_ignores state trace live t ts few sid unoffered =
        rw
          (
            live,
            rpc_server_parse_call-exact W requirements name ps t ts few,
            S.str_to_sid_t-tohex sock.remote sid,
            unoffered,
          )
          refl

    module _ (first : Bytes) (others : List Bytes) (out : Bytes) (trace : List Effect) where
      -- What a call that is served does on a socket that takes data.
      abbrev pub served_effects : List Effect
      served_effects =
          ((trace ++ msp_send ack_payload ∷ [])
            ++ program_run W S system caller_call first others out ∷ [])
          ++ msp_send (printed_payload out).bytes ∷ []

      answer_serves :
          IsServed W S system caller_call first others out
          → sock.is_null ≡ false
          → sock.is_data ≡ true
          → answer W S system mode sock caller_call trace ≡ ok (tt, served_effects)
      unfolding answer send_result
      answer_serves s open_socket live_data =
          let sent : List Effect = trace ++ msp_send ack_payload ∷ [] in
          let finish : (r : ℕ × Buffer) → Exec (Unit {0}) = λ (status, result).
            if status == 0
            then pure tt
            else send_result W S system mode sock caller_call result.bytes in
          bind_ok (rpc_server_execute S system zero_payload caller_call) finish {trace = sent}
            (rpc_server_execute_served W S system caller_call first others out sent s)
          ∙ rw (open_socket, live_data) refl

      -- A call on a socket that takes data and a connection that is not closing, of an offered procedure
      -- whose first parameter is no file hash, and whose program runs with success and prints a first
      -- line that is not the path of a file: an ACK is sent, the program is run once on the parameters,
      -- and that line is sent as the result. The bytes of the call are taken.
      pub rpc_server_msp_handler_serves :
          (state : ℕ)
          → bit_and state closing_states ≡ 0
          → IsToken b'|' name
          → AreTokens ps
          → length ps < 256
          → length sock.remote ≡ 32
          → IsServed W S system caller_call first others out
          → sock.is_null ≡ false
          → sock.is_data ≡ true
          → rpc_server_msp_handler W S system mode sock state (some packet) (length packet) trace
            ≡ ok (length packet, served_effects)
      unfolding rpc_server_msp_handler handle_payload handle_call read_uint8
      rpc_server_msp_handler_serves state live t ts few sid s open_socket live_data =
          let taken : Unit {0} → Exec ℕ = λ done. pure (length packet) in
          rw
            (
              live,
              rpc_server_parse_call-exact W requirements name ps t ts few,
              S.str_to_sid_t-tohex sock.remote sid,
              is_served_offered W S system caller_call first others out packet s,
            )
            (bind_ok (answer W S system mode sock caller_call) taken {trace = trace}
              (answer_serves s open_socket live_data))
