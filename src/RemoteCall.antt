-- ===== src/RemoteCall.antt =====
-- A call from end to end: rpc_client_mdp.c on one host and rpc_server_mdp.c on another, with the
-- packets of the one as what the other receives.
pub mod Packets
pub mod Program
pub mod Connected
pub mod Delayed
pub mod Transparent
pub mod Lost
use dtn_rpc.RemoteCall.Packets.{
  packets_to, zeros, result_body, length-result_body, stored-result_body, c_string-result_body,
}
use dtn_rpc.Common.{
  ℕ, ◌+◌, ◌-◌, ◌≤◌, ◌<◌, ◌≡◌, refl, sym, ap, ◌∙◌, true, false, some, List, [], ◌∷◌, ◌++◌, arith,
  Bytes, length, drop, replicate, All, Lacks,
}
use dtn_rpc.Common.Int.{ℤ, pos, truth}
use dtn_rpc.System.{System, Effect, mdp_send}
use dtn_rpc.Result.{ok}
use dtn_rpc.CString.Tokens.{join, IsToken}
use dtn_rpc.CString.Compare.{str_eq_refl}
use dtn_rpc.Memory.{memcpy}
use dtn_rpc.Serval.{Words, Sid, Sids, is_sid_t_broadcast}
use dtn_rpc.Wire.{rpc_pkt_call_ack, rpc_pkt_call_response, rpc_pkt_size}
use dtn_rpc.Filehash.{rpc_str_is_filehash}
use dtn_rpc.Wire.Call.{call_packet}
use dtn_rpc.Common.{subst}
use dtn_rpc.Reachable.{rpc_sid_is_reachable}
use dtn_rpc.Server.{RpcProcedure, ServerMode}
use dtn_rpc.Server.Parse.Slots.{AreTokens}
use dtn_rpc.Server.Execute.{line_of}
use dtn_rpc.Server.Execute.Payload.{printed_payload_lem}
use dtn_rpc.Server.Answer.{ack_payload}
use dtn_rpc.Server.Answer.Served.{IsServed}
use dtn_rpc.Server.Mdp.{rpc_server_mdp_handle}
use dtn_rpc.Server.Mdp.Session.{caller_call, served_effects, rpc_server_mdp_handle_serves}
use dtn_rpc.Client.{RpcResult, no_result}
use dtn_rpc.Client.Mdp.{Tick, MdpRun}
use dtn_rpc.Client.Mdp.Unanswered.{IsQuiet, destination, called, IsReady}
use dtn_rpc.Client.Mdp.Packets.{IsResult}
use dtn_rpc.Client.Mdp.Answered.{IsIdle, Arrives, IsAnswered, rpc_client_call_mdp_answered}

module _ (W : Words) (client server : Sids) (at_client at_server : System) (mode : ServerMode)
    (client_sid server_sid : Sid) (name first : Bytes) (others : List Bytes) (requirements : ℕ)
    (c : ℕ) (out : Bytes) where
  abbrev params : List Bytes
  params = first ∷ others

  abbrev pub line : Bytes
  line = line_of 958 (c ∷ out)

  -- The call as the server parses it.
  abbrev pub call_at_server : RpcProcedure
  call_at_server = caller_call W server at_server mode client_sid requirements name params

  -- What makes a call work on both hosts: the server has the procedure, its program prints a line that
  -- is no file hash, the two reach one another, and the packet fits into the server's array.
  pub record IsWorking : Type 0 where
    pub is_token : IsToken b'|' name
    pub are_tokens : AreTokens params
    pub few : length params < 256
    pub client_size : length client_sid ≡ 32
    pub direct : is_sid_t_broadcast client server_sid ≡ false
    pub served : IsServed W server at_server call_at_server first others (c ∷ out)
    pub reaches_client : truth (rpc_sid_is_reachable server at_server client_sid) ≡ true
    pub packet_fits :
        length (call_packet W requirements (length params) name (join b'|' params))
        ≤ length at_server.uninit
    pub room : rpc_pkt_size ≤ length at_client.uninit
    pub clean : Lacks 0 line
    pub no_file : rpc_str_is_filehash line ≡ false

  abbrev packet : Bytes
  packet = call_packet W requirements (length params) name (join b'|' params)

  abbrev effects_of_call : List Effect
  effects_of_call =
      served_effects W server at_server mode client_sid requirements name params first others
        (c ∷ out) []

  -- The server answers with an ACK and with the line.
  answer_packets :
      IsWorking
      → packets_to client_sid effects_of_call
        ≡ (rpc_pkt_call_ack ∷ []) ∷ (rpc_pkt_call_response ∷ result_body (c ∷ out)) ∷ []
  unfolding ack_payload memcpy
  answer_packets w =
      rw (w.reaches_client, str_eq_refl client_sid) (rw (printed_payload_lem c out) refl)

  is_result : IsWorking → IsResult W client at_client server_sid name (result_body (c ∷ out))
  is_result w = record {
    text = line;
    fits = omega (arith, length-result_body (c ∷ out));
    room = w.room;
    reads =
        c_string-result_body (c ∷ out) (drop (length (result_body (c ∷ out)) + 1) at_client.uninit)
          w.clean;
    no_file = w.no_file;
  }

  -- The rounds of the client in which two packets come from the server, the first within ten seconds
  -- and the second within thirty.
  pub record Hears (net : MdpRun) (packets : List Bytes) : Type 0 where
    pub early : Bytes
    pub late : Bytes
    pub both : packets ≡ early ∷ late ∷ []
    pub quiet : List Tick
    pub ack : Tick
    pub idle : List Tick
    pub result : Tick
    pub later : List Tick
    pub rounds : net.ticks ≡ quiet ++ ack ∷ idle ++ result ∷ later
    pub all_quiet : All IsQuiet quiet
    pub ack_arrives : Arrives W client at_client server_sid name 10 server_sid early ack
    pub all_idle : All (IsIdle W client at_client server_sid name) idle
    pub result_arrives : Arrives W client at_client server_sid name 30 server_sid late result

  hears_answer :
      (net : MdpRun) (packets : List Bytes)
      → packets ≡ (rpc_pkt_call_ack ∷ []) ∷ (rpc_pkt_call_response ∷ result_body (c ∷ out)) ∷ []
      → Hears net packets
      → IsAnswered W client at_client server_sid name net server_sid (result_body (c ∷ out))
  hears_answer net packets e h =
      let same = sym h.both ∙ e in
      let is_ack : h.early ≡ rpc_pkt_call_ack ∷ [] = cc same in
      let is_result : h.late ≡ rpc_pkt_call_response ∷ result_body (c ∷ out) = cc same in
      record {
        quiet = h.quiet;
        ack = h.ack;
        idle = h.idle;
        result = h.result;
        later = h.later;
        rounds = h.rounds;
        all_quiet = h.all_quiet;
        ack_arrives =
            subst (λ p. Arrives W client at_client server_sid name 10 server_sid p h.ack) is_ack
              h.ack_arrives;
        all_idle = h.all_idle;
        result_arrives =
            subst (λ p. Arrives W client at_client server_sid name 30 server_sid p h.result)
              is_result h.result_arrives;
      }

  -- A client calls a server over MDP. On both hosts the call works, in the sense of `IsWorking`; the
  -- client's loop is reached, and the server receives the packet that the client sends. If the packets
  -- that the server sends to the client are what the client hears, the first within ten seconds and the
  -- second within thirty, the call ends with 2: the first entry of the table has the server and the
  -- first line that the program on the server prints, up to 958 bytes, and zeros behind it. The packet
  -- is sent in every round up to the first answer and no more.
  pub remote_call :
      (net : MdpRun) (table : List RpcResult) (trace effects : List Effect) (code : ℤ)
      → IsWorking
      → IsReady W client at_client server_sid name net first others requirements table trace
      → rpc_server_mdp_handle W server at_server mode
          (some (record { remote = client_sid; received = packet }))
          []
        ≡ ok (code, effects)
      → (h : Hears net (packets_to client_sid effects))
      → called W client at_client server_sid name net first others requirements table trace
        ≡ ok (
          (
            pos 2,
            record {
              received = pos 2;
              rpc_result =
                  record { server_sid = server_sid; content = line ++ zeros (960 - length line) }
                  ∷ replicate 4 no_result;
            },
          ),
          trace
              ++ replicate
                  (length h.quiet + 1)
                  (mdp_send (destination W client at_client server_sid name) packet),
        )
  unfolding hears_answer
  remote_call net table trace effects code w ready handled h =
      let done =
        rpc_server_mdp_handle_serves W server at_server mode client_sid requirements name params
          first others (c ∷ out) [] w.is_token w.are_tokens w.few w.client_size w.packet_fits
          w.served in
      let same : effects ≡ effects_of_call = cc (sym handled ∙ done) in
      let a =
        hears_answer net (packets_to client_sid effects)
          (ap (packets_to client_sid) same ∙ answer_packets w) h in
      rpc_client_call_mdp_answered W client at_client server_sid name net first others requirements
        table trace server_sid (result_body (c ∷ out)) ready w.direct a (is_result w)
      ∙ rw (stored-result_body (c ∷ out)) refl
