-- ===== src/Client/Msp/Answered.antt =====
-- A call over MSP that its server answers.
use dtn_rpc.Common.{
  ℕ, ◌≤◌, ◌<◌, bit_and, ◌≡◌, refl, ap, ◌∙◌, true, false, not, ◌&&◌, some, List, [], ◌∷◌, ◌++◌, map,
  ◌==◌, Bytes, length, All,
}
use dtn_rpc.Common.Int.{ℤ, pos, truth}
use dtn_rpc.System.{System, Effect, Exec, emit, ◌>>◌, msp_send}
use dtn_rpc.Result.{Result, ok}
use dtn_rpc.CString.{c_string}
use dtn_rpc.CString.Tokens.{join}
use dtn_rpc.Serval.{Words, Sid, Sids}
use dtn_rpc.Wire.{
  rpc_pkt_call_ack, rpc_pkt_call_response, rpc_pkt_size, read_uint8,
  rpc_client_prepare_call_payload,
}
use dtn_rpc.Filehash.{rpc_str_is_filehash}
use dtn_rpc.System.Ensures.{bind_ok}
use dtn_rpc.Wire.Call.{call_packet}
use dtn_rpc.Reachable.{rpc_sid_is_reachable}
use dtn_rpc.Client.{RpcResult, no_results, ClientState, rpc_client_replace_if_path}
use dtn_rpc.Client.Params.{rpc_client_replace_if_path-plain, prepared_packet}
use dtn_rpc.Client.Answers.{write_sid}
use dtn_rpc.Client.Answers.Direct.{answered_table, write_content-first}
use dtn_rpc.Client.Mdp.{call_array, is_waiting}
use dtn_rpc.Client.Msp.{
  MspEvent, MspTick, MspRun, broken_states, shutdown_remote, note_state, take_result, take_payload,
  rpc_client_msp_handler, handle_events, call_loop, rpc_client_call_msp,
}

-- A round in which the socket is open and nothing arrives.
pub record IsSilent (tick : MspTick) : Type 0 where
  pub open_socket : (tick.is_null && not tick.is_data) ≡ false
  pub nothing : tick.events ≡ []

-- A round in which the socket is open, and in which `bytes` of `remote` arrive on a connection that is
-- neither broken nor shut down.
pub record IsHeard (remote : Sid) (bytes : Bytes) (tick : MspTick) : Type 0 where
  pub event : MspEvent
  pub open_socket : (tick.is_null && not tick.is_data) ≡ false
  pub one : tick.events ≡ event ∷ []
  pub unbroken : (bit_and event.state broken_states == 0) ≡ true
  pub unshut : (bit_and event.state shutdown_remote == 0) ≡ true
  pub holds : event.payload ≡ some bytes
  pub from : event.remote ≡ remote

abbrev acked : ClientState
acked = record { received = pos 1; rpc_result = no_results }

abbrev unanswered : ClientState
unanswered = record { received = pos 0; rpc_result = no_results }

module _ (W : Words) (S : Sids) (system : System) (rpc_name hex : Bytes) (net : MspRun) where
  call_loop-silent :
      (ticks later : List MspTick) (client : ClientState) (trace : List Effect)
      → is_waiting client.received ≡ true
      → All IsSilent ticks
      → call_loop W S system rpc_name hex net (ticks ++ later) client trace
        ≡ call_loop W S system rpc_name hex net later client trace
  unfolding call_loop handle_events
  call_loop-silent [] later client trace waits all = refl
  call_loop-silent (tick ∷ ticks) later client trace waits (q, all) =
      rw (waits, q.open_socket, q.nothing) (call_loop-silent ticks later client trace waits all)

  -- What the handler does with an ACK, and with a result.
  handler-ack :
      (remote : Sid) (rest : Bytes) (tick : MspTick) (trace : List Effect)
      → (h : IsHeard remote (rpc_pkt_call_ack ∷ rest) tick)
      → rpc_client_msp_handler W S system rpc_name hex h.event unanswered trace ≡ ok (acked, trace)
  unfolding rpc_client_msp_handler note_state take_payload read_uint8
  handler-ack remote rest tick trace h = rw (h.unbroken, h.unshut, h.holds) refl

  handler-result :
      (remote : Sid) (body text : Bytes) (tick : MspTick) (trace : List Effect)
      → length body ≤ rpc_pkt_size
      → c_string body ≡ ok text
      → rpc_str_is_filehash text ≡ false
      → (h : IsHeard remote (rpc_pkt_call_response ∷ body) tick)
      → rpc_client_msp_handler W S system rpc_name hex h.event acked trace
        ≡ ok (record { received = pos 2; rpc_result = answered_table remote body }, trace)
  unfolding rpc_client_msp_handler note_state take_payload take_result read_uint8 write_sid
  handler-result remote body text tick trace fits reads no_file h =
      rw (h.unbroken, h.unshut, h.holds, h.from)
        (rw reads (rw no_file (rw (write_content-first body fits) refl)))

  -- A round with one call of the handler.
  call_loop-heard :
      (remote : Sid) (bytes : Bytes) (tick : MspTick) (later : List MspTick)
      (client after : ClientState) (trace : List Effect)
      → is_waiting client.received ≡ true
      → (h : IsHeard remote bytes tick)
      → rpc_client_msp_handler W S system rpc_name hex h.event client trace ≡ ok (after, trace)
      → call_loop W S system rpc_name hex net (tick ∷ later) client trace
        ≡ call_loop W S system rpc_name hex net later after trace
  unfolding call_loop handle_events
  call_loop-heard remote bytes tick later client after trace waits h handled =
      let next : ClientState → Exec (ℤ × ClientState) =
        λ client'. call_loop W S system rpc_name hex net later client' in
      let end : ClientState → Exec ClientState =
        λ client'. handle_events W S system rpc_name hex [] client' in
      let one : handle_events W S system rpc_name hex (h.event ∷ []) client trace
          ≡ ok (after, trace) =
        bind_ok (rpc_client_msp_handler W S system rpc_name hex h.event client) end {trace = trace}
          handled in
      rw (waits, h.open_socket, h.one)
        (bind_ok (handle_events W S system rpc_name hex (h.event ∷ []) client) next {trace = trace}
          one)

  call_loop-done :
      (later : List MspTick) (table : List RpcResult) (trace : List Effect)
      → let end : ClientState = record { received = pos 2; rpc_result = table } in
        call_loop W S system rpc_name hex net later end trace ≡ ok ((pos 2, end), trace)
  unfolding call_loop is_waiting
  call_loop-done [] table trace = refl
  call_loop-done (tick ∷ later) table trace = refl

  -- The rounds of a call with two packets of `remote`.
  pub record IsAnswered (remote : Sid) (early late : Bytes) : Type 0 where
    pub quiet : List MspTick
    pub ack : MspTick
    pub idle : List MspTick
    pub result : MspTick
    pub later : List MspTick
    pub rounds : net.ticks ≡ quiet ++ (ack ∷ (idle ++ (result ∷ later)))
    pub all_quiet : All IsSilent quiet
    pub ack_arrives : IsHeard remote early ack
    pub all_idle : All IsSilent idle
    pub result_arrives : IsHeard remote late result

  call_loop-answered :
      (remote : Sid) (rest body text : Bytes) (trace : List Effect)
      → length body ≤ rpc_pkt_size
      → c_string body ≡ ok text
      → rpc_str_is_filehash text ≡ false
      → IsAnswered remote (rpc_pkt_call_ack ∷ rest) (rpc_pkt_call_response ∷ body)
      → call_loop W S system rpc_name hex net net.ticks unanswered trace
        ≡ ok ((pos 2, record { received = pos 2; rpc_result = answered_table remote body }), trace)
  unfolding is_waiting
  call_loop-answered remote rest body text trace fits reads no_file a =
      let tail = a.idle ++ (a.result ∷ a.later) in
      let end : ClientState = record {
        received = pos 2;
        rpc_result = answered_table remote body;
      } in
      ap (λ ticks. call_loop W S system rpc_name hex net ticks unanswered trace) a.rounds
      ∙ call_loop-silent a.quiet (a.ack ∷ tail) unanswered trace refl a.all_quiet
      ∙ call_loop-heard remote (rpc_pkt_call_ack ∷ rest) a.ack tail unanswered acked trace refl
          a.ack_arrives (handler-ack remote rest a.ack trace a.ack_arrives)
      ∙ call_loop-silent a.idle (a.result ∷ a.later) acked trace refl a.all_idle
      ∙ call_loop-heard remote (rpc_pkt_call_response ∷ body) a.result a.later acked end trace refl
          a.result_arrives
          (handler-result remote body text a.result trace fits reads no_file a.result_arrives)
      ∙ call_loop-done a.later (answered_table remote body) trace

module _ (W : Words) (S : Sids) (system : System) (sid : Sid) (rpc_name : Bytes) (net : MspRun)
    (first : Bytes) (others : List Bytes) (requirements : ℕ) (table : List RpcResult)
    (trace : List Effect) where
  -- The packet of the call.
  abbrev pub sent_packet : Bytes
  sent_packet =
      call_packet W requirements (length (first ∷ others)) rpc_name (join b'|' (first ∷ others))

  -- The run of a call with these parameters.
  abbrev pub called : Result ((ℤ × ClientState) × List Effect)
  called =
      rpc_client_call_msp W S system net sid rpc_name (length (first ∷ others))
        (map some (first ∷ others)) requirements (record { received = pos 0; rpc_result = table })
        trace

  -- What lets a call come to its loop: the server can be reached, the first parameter is no path, and
  -- the parameters fit into the 512 bytes for them.
  pub record IsReady : Type 0 where
    pub reached : truth (rpc_sid_is_reachable S system sid) ≡ true
    pub plain : system.exists first ≡ false
    pub fits : length (join b'|' (first ∷ others)) < 512

  -- A call over MSP of a server that can be reached, with parameters of which the first is no path: the
  -- packet is sent once. If an ACK and then a result of the server come over the open connection, the
  -- call ends with 2, and the first entry of the table has the server and the bytes of the result,
  -- whose text is no file hash.
  pub rpc_client_call_msp_answered :
      (remote : Sid) (rest body text : Bytes)
      → IsReady
      → length body ≤ rpc_pkt_size
      → c_string body ≡ ok text
      → rpc_str_is_filehash text ≡ false
      → IsAnswered W S system rpc_name
          (S.alloca_tohex_sid_t sid)
          net
          remote
          (rpc_pkt_call_ack ∷ rest)
          (rpc_pkt_call_response ∷ body)
      → called
        ≡ ok (
          (pos 2, record { received = pos 2; rpc_result = answered_table remote body }),
          trace ++ msp_send sent_packet ∷ [],
        )
  unfolding rpc_client_call_msp
  rpc_client_call_msp_answered remote rest body text r fits reads no_file a =
      let params = join b'|' (first ∷ others) in
      let n = length (first ∷ others) in
      let hex = S.alloca_tohex_sid_t sid in
      let after : Bytes → Exec (ℤ × ClientState) = λ flat_params.
        emit (
          msp_send
            (rpc_client_prepare_call_payload W (call_array system rpc_name flat_params) n rpc_name
              flat_params requirements).bytes)
        >> call_loop W S system rpc_name hex net net.ticks unanswered in
      rw r.reached (
        bind_ok (rpc_client_replace_if_path S system rpc_name (map some (first ∷ others)) n) after
          {trace = trace}
          (rpc_client_replace_if_path-plain S system rpc_name first others trace r.plain r.fits)
        ∙ rw (prepared_packet S system rpc_name W params n requirements) (
            call_loop-answered W S system rpc_name hex net remote rest body text
              (trace ++ msp_send sent_packet ∷ []) fits reads no_file a))
