-- ===== src/RemoteCall/Connected.antt =====
-- A call from end to end over MSP: rpc_client_msp.c on one host and the handler of rpc_server_msp.c on
-- another, with what the one sends as what the other receives.
use dtn_rpc.Common.{
  ℕ, ◌-◌, ◌<◌, bit_and, ◌≡◌, refl, sym, ap, ◌∙◌, true, false, some, List, [], ◌∷◌, ◌++◌, append-nil,
  arith, Bytes, length, replicate, Lacks,
}
use dtn_rpc.Common.Int.{pos}
use dtn_rpc.System.{System, Effect, msp_send}
use dtn_rpc.Result.{ok}
use dtn_rpc.CString.{c_string}
use dtn_rpc.CString.Tokens.{IsToken}
use dtn_rpc.Memory.{memcpy}
use dtn_rpc.Serval.{Words, Sid, Sids}
use dtn_rpc.Wire.{rpc_pkt_call_ack, rpc_pkt_call_response}
use dtn_rpc.Filehash.{rpc_str_is_filehash}
use dtn_rpc.Common.{subst}
use dtn_rpc.Server.{RpcProcedure, ServerMode}
use dtn_rpc.Server.Parse.Slots.{AreTokens}
use dtn_rpc.Server.Execute.{line_of}
use dtn_rpc.Server.Execute.Payload.{printed_payload_lem}
use dtn_rpc.Server.Answer.{ack_payload}
use dtn_rpc.Server.Answer.Served.{IsServed}
use dtn_rpc.Server.Msp.{MspSocket, closing_states, rpc_server_msp_handler}
use dtn_rpc.Server.Msp.Session.{caller_call, served_effects, rpc_server_msp_handler_serves}
use dtn_rpc.Client.{RpcResult, no_result}
use dtn_rpc.Client.Msp.{MspRun}
use dtn_rpc.Client.Msp.Answered.{
  IsAnswered, IsReady, called, sent_packet, rpc_client_call_msp_answered,
}
use dtn_rpc.RemoteCall.Packets.{
  zeros, result_body, length-result_body, stored-result_body, c_string-result_body,
}

-- What a host sends over an MSP connection, in its order.
abbrev pub sent_over : List Effect → List Bytes
sent_over [] = []
sent_over (msp_send payload ∷ effects) = payload ∷ sent_over effects
sent_over (_ ∷ effects) = sent_over effects

c_string-result :
    (out : Bytes) → Lacks 0 (line_of 958 out) → c_string (result_body out) ≡ ok (line_of 958 out)
c_string-result out clean =
    ap c_string (sym (append-nil (result_body out))) ∙ c_string-result_body out [] clean

module _ (W : Words) (client server : Sids) (at_client at_server : System) (mode : ServerMode)
    (sock : MspSocket) (server_sid : Sid) (name first : Bytes) (others : List Bytes)
    (requirements : ℕ) (c : ℕ) (out : Bytes) where
  abbrev params : List Bytes
  params = first ∷ others

  abbrev pub line : Bytes
  line = line_of 958 (c ∷ out)

  abbrev pub call_at_server : RpcProcedure
  call_at_server = caller_call W server at_server mode sock requirements name params

  -- What makes a call work on both hosts: the server has the procedure, its program prints a line that
  -- is no file hash, and its socket takes data.
  pub record IsWorking : Type 0 where
    pub is_token : IsToken b'|' name
    pub are_tokens : AreTokens params
    pub few : length params < 256
    pub client_size : length sock.remote ≡ 32
    pub served : IsServed W server at_server call_at_server first others (c ∷ out)
    pub open_socket : sock.is_null ≡ false
    pub takes_data : sock.is_data ≡ true
    pub clean : Lacks 0 line
    pub no_file : rpc_str_is_filehash line ≡ false

  abbrev effects_of_call : List Effect
  effects_of_call =
      served_effects W server at_server mode sock requirements name params first others (c ∷ out) []

  -- The server answers with an ACK and with the line.
  answer_packets :
      sent_over effects_of_call
      ≡ (rpc_pkt_call_ack ∷ []) ∷ (rpc_pkt_call_response ∷ result_body (c ∷ out)) ∷ []
  unfolding ack_payload memcpy
  answer_packets = rw (printed_payload_lem c out) refl

  -- A client calls a server over MSP. The call works, in the sense of `IsWorking`, the client's loop is
  -- reached, and the handler of the server gets the packet that the client sends, on a connection that
  -- is not closing. If the two packets that the server then sends are what the handler of the client
  -- gets, the call ends with 2: the first entry of the table has the server and the first line that
  -- the program on the server prints, up to 958 bytes, and zeros behind it. The packet is sent once.
  pub remote_call_connected :
      (net : MspRun) (table : List RpcResult) (trace effects : List Effect) (state taken : ℕ)
      (early late : Bytes)
      → IsWorking
      → IsReady W client at_client server_sid name net first others requirements table trace
      → bit_and state closing_states ≡ 0
      → (let packet =
            sent_packet W client at_client server_sid name net first others requirements table
              trace in
          rpc_server_msp_handler W server at_server mode sock state (some packet) (length packet) []
          ≡ ok (taken, effects))
      → sent_over effects ≡ early ∷ late ∷ []
      → IsAnswered W client at_client name
          (client.alloca_tohex_sid_t server_sid)
          net
          server_sid
          early
          late
      → called W client at_client server_sid name net first others requirements table trace
        ≡ ok (
          (
            pos 2,
            record {
              received = pos 2;
              rpc_result =
                  record { server_sid = server_sid; content = line ++ zeros (960 - length line) }
                  ∷ replicate 4 no_result;
            },
          ),
          trace
              ++ msp_send (
                  sent_packet W client at_client server_sid name net first others requirements table
                    trace)
                ∷ [],
        )
  remote_call_connected net table trace effects state taken early late w ready live handled both
        heard =
      let done =
        rpc_server_msp_handler_serves W server at_server mode sock requirements name params first
          others (c ∷ out) [] state live w.is_token w.are_tokens w.few w.client_size w.served
          w.open_socket w.takes_data in
      let same : effects ≡ effects_of_call = cc (sym handled ∙ done) in
      let two = sym both ∙ ap sent_over same ∙ answer_packets in
      let is_ack : early ≡ rpc_pkt_call_ack ∷ [] = cc two in
      let is_result : late ≡ rpc_pkt_call_response ∷ result_body (c ∷ out) = cc two in
      let hex = client.alloca_tohex_sid_t server_sid in
      let answered =
        subst
          (λ late'.
            IsAnswered W client at_client name hex net server_sid (rpc_pkt_call_ack ∷ []) late')
          is_result
          (subst (λ early'. IsAnswered W client at_client name hex net server_sid early' late)
            is_ack heard) in
      rpc_client_call_msp_answered W client at_client server_sid name net first others requirements
        table trace server_sid [] (result_body (c ∷ out)) line ready
        (omega (arith, length-result_body (c ∷ out))) (c_string-result (c ∷ out) w.clean) w.no_file
        answered
      ∙ rw (stored-result_body (c ∷ out)) refl
