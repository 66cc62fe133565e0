-- ===== src/Client/Mdp/Answered.antt =====
-- A direct call over MDP that its server answers.
use dtn_rpc.Common.{
  ℕ, ◌+◌, ◌≤◌, ◌≡◌, refl, ap, ◌∙◌, true, false, none, some, List, [], ◌∷◌, ◌++◌, append_assoc,
  arith, ltb, Bytes, length, replicate, All,
}
use dtn_rpc.Common.Int.{ℤ, pos}
use dtn_rpc.System.{System, Effect, Exec, mdp_send}
use dtn_rpc.Result.{ok}
use dtn_rpc.Serval.{Words, Sid, Sids, is_sid_t_broadcast}
use dtn_rpc.Wire.{rpc_pkt_call_ack, rpc_pkt_call_response}
use dtn_rpc.System.Ensures.{bind_ok}
use dtn_rpc.Server.Mdp.{MdpPacket}
use dtn_rpc.Client.{RpcResult, no_results, ClientState}
use dtn_rpc.Client.Answers.Direct.{answered_table}
use dtn_rpc.Client.Mdp.{Tick, MdpRun, is_waiting, handle_packet, receive, send_call, call_loop}
use dtn_rpc.Client.Mdp.Unanswered.{
  IsQuiet, waiting, destination, call_loop-quiet, sent_packet, called, IsReady,
  rpc_client_call_mdp_starts,
}
use dtn_rpc.Client.Mdp.Packets.{IsResult, handle_packet_ack, handle_packet_result}
use dtn_rpc.Common.{append-replicate-snoc}

module _ (W : Words) (S : Sids) (system : System) (server_sid : Sid) (rpc_name : Bytes) where
  -- A round within the thirty seconds behind an ACK, in which nothing arrives.
  pub record IsIdle (tick : Tick) : Type 0 where
    pub in_time : tick.elapsed ≤ 30
    pub nothing : tick.arrival ≡ none

  -- A round in which a packet of `remote` arrives, within `limit` seconds.
  pub record Arrives (limit : ℕ) (remote : Sid) (bytes : Bytes) (tick : Tick) : Type 0 where
    pub in_time : tick.elapsed ≤ limit
    pub is_sent : tick.sends ≡ true
    pub arrives : tick.arrival ≡ some (some (record { remote = remote; received = bytes }))

  abbrev pub acked : ClientState
  acked = record { received = pos 1; rpc_result = no_results }

  pub call_loop-ack :
      (tick : Tick) (later : List Tick) (remote : Sid) (payload : Bytes) (trace : List Effect)
      → is_sid_t_broadcast S server_sid ≡ false
      → 1 ≤ length system.uninit
      → Arrives 10 remote (rpc_pkt_call_ack ∷ []) tick
      → call_loop W S system server_sid rpc_name (tick ∷ later) payload 10 waiting trace
        ≡ call_loop W S system server_sid rpc_name later payload 30 acked
            (trace ++ mdp_send (destination W S system server_sid rpc_name) payload ∷ [])
  unfolding call_loop is_waiting send_call receive
  call_loop-ack tick later remote payload trace direct room a =
      let in_time : ltb 10 tick.elapsed ≡ false = ground (arith, a.in_time) in
      let sent = trace ++ mdp_send (destination W S system server_sid rpc_name) payload ∷ [] in
      let packet : MdpPacket = record { remote = remote; received = rpc_pkt_call_ack ∷ [] } in
      let goes_on : ℕ × ClientState → Exec (ℤ × ClientState) = λ (wait_time, state).
        call_loop W S system server_sid rpc_name later payload wait_time state in
      rw (in_time, a.is_sent, a.arrives)
        (bind_ok (handle_packet W S system server_sid rpc_name packet 10 waiting) goes_on
          {trace = sent}
          (handle_packet_ack W S system server_sid rpc_name remote 10 (pos 0) sent direct room))

  pub call_loop-idle :
      (ticks later : List Tick) (payload : Bytes) (trace : List Effect)
      → All IsIdle ticks
      → call_loop W S system server_sid rpc_name (ticks ++ later) payload 30 acked trace
        ≡ call_loop W S system server_sid rpc_name later payload 30 acked trace
  unfolding call_loop is_waiting send_call receive
  call_loop-idle [] later payload trace idle = refl
  call_loop-idle (tick ∷ ticks) later payload trace (idle, rest) =
      let in_time : ltb 30 tick.elapsed ≡ false = ground (arith, idle.in_time) in
      rw (in_time, idle.nothing) (call_loop-idle ticks later payload trace rest)

  call_loop-done :
      (later : List Tick) (payload : Bytes) (wait_time : ℕ) (table : List RpcResult)
      (trace : List Effect)
      → let state : ClientState = record { received = pos 2; rpc_result = table } in
        call_loop W S system server_sid rpc_name later payload wait_time state trace
        ≡ ok ((pos 2, state), trace)
  unfolding call_loop is_waiting
  call_loop-done [] payload wait_time table trace = refl
  call_loop-done (tick ∷ later) payload wait_time table trace = refl

  call_loop-result :
      (tick : Tick) (later : List Tick) (remote : Sid) (body payload : Bytes) (trace : List Effect)
      → is_sid_t_broadcast S server_sid ≡ false
      → IsResult W S system server_sid rpc_name body
      → Arrives 30 remote (rpc_pkt_call_response ∷ body) tick
      → call_loop W S system server_sid rpc_name (tick ∷ later) payload 30 acked trace
        ≡ ok ((pos 2, record { received = pos 2; rpc_result = answered_table remote body }), trace)
  unfolding call_loop is_waiting send_call receive
  call_loop-result tick later remote body payload trace direct r a =
      let in_time : ltb 30 tick.elapsed ≡ false = ground (arith, a.in_time) in
      let packet : MdpPacket = record {
        remote = remote;
        received = rpc_pkt_call_response ∷ body;
      } in
      let goes_on : ℕ × ClientState → Exec (ℤ × ClientState) = λ (wait_time, state).
        call_loop W S system server_sid rpc_name later payload wait_time state in
      rw (in_time, a.arrives)
        (bind_ok (handle_packet W S system server_sid rpc_name packet 30 acked) goes_on
            {trace = trace}
            (handle_packet_result W S system server_sid rpc_name remote body 30 (pos 1) trace direct
              r)
          ∙ call_loop-done later payload 30 (answered_table remote body) trace)

  -- The rounds of a call that is answered: quiet ones, one in which an ACK comes, idle ones, one in
  -- which the result comes, and others that are not reached.
  pub record IsAnswered (net : MdpRun) (remote : Sid) (body : Bytes) : Type 0 where
    pub quiet : List Tick
    pub ack : Tick
    pub idle : List Tick
    pub result : Tick
    pub later : List Tick
    pub rounds : net.ticks ≡ quiet ++ ack ∷ idle ++ result ∷ later
    pub all_quiet : All IsQuiet quiet
    pub ack_arrives : Arrives 10 remote (rpc_pkt_call_ack ∷ []) ack
    pub all_idle : All IsIdle idle
    pub result_arrives : Arrives 30 remote (rpc_pkt_call_response ∷ body) result

  -- A call of one server that can be reached, with parameters of which the first is no path: where an
  -- ACK comes within ten seconds and a result, whose text is no file hash, within thirty, the call ends
  -- with 2. The packet is sent in every round up to the one with the ACK and no more, and the first
  -- entry of the table has the sender of the result and its bytes; the other entries are empty.
  pub rpc_client_call_mdp_answered :
      (net : MdpRun) (first : Bytes) (others : List Bytes) (requirements : ℕ)
      (table : List RpcResult) (trace : List Effect) (remote : Sid) (body : Bytes)
      → IsReady W S system server_sid rpc_name net first others requirements table trace
      → is_sid_t_broadcast S server_sid ≡ false
      → (a : IsAnswered net remote body) → IsResult W S system server_sid rpc_name body
      → called W S system server_sid rpc_name net first others requirements table trace
        ≡ ok (
          (pos 2, record { received = pos 2; rpc_result = answered_table remote body }),
          trace
              ++ replicate (length a.quiet + 1) (
                  mdp_send (destination W S system server_sid rpc_name) (
                    sent_packet W S system server_sid rpc_name net first others requirements table
                      trace)),
        )
  rpc_client_call_mdp_answered net first others requirements table trace remote body ready direct a
        r =
      let packet =
        sent_packet W S system server_sid rpc_name net first others requirements table trace in
      let dest = destination W S system server_sid rpc_name in
      let end : ℤ × ClientState =
        (pos 2, record { received = pos 2; rpc_result = answered_table remote body }) in
      let sends = trace ++ replicate (length a.quiet) (mdp_send dest packet) in
      rpc_client_call_mdp_starts W S system server_sid rpc_name net first others requirements table
        trace ready
      ∙ ap (λ rounds. call_loop W S system server_sid rpc_name rounds packet 10 waiting trace)
          a.rounds
      ∙ ap (λ rounds. call_loop W S system server_sid rpc_name rounds packet 10 waiting trace)
          (append_assoc a.quiet (a.ack ∷ a.idle) (a.result ∷ a.later))
      ∙ call_loop-quiet W S system server_sid rpc_name a.quiet
          (a.ack ∷ a.idle ++ a.result ∷ a.later) packet trace a.all_quiet
      ∙ call_loop-ack a.ack (a.idle ++ a.result ∷ a.later) remote packet sends direct
          (omega (arith, r.room)) a.ack_arrives
      ∙ call_loop-idle a.idle (a.result ∷ a.later) packet (sends ++ mdp_send dest packet ∷ [])
          a.all_idle
      ∙ call_loop-result a.result a.later remote body packet (sends ++ mdp_send dest packet ∷ [])
          direct r a.result_arrives
      ∙ ap (λ effects. ok (end, effects))
          (append-replicate-snoc trace (length a.quiet) (mdp_send dest packet))
