-- ===== src/Client/Mdp/Outcome.antt =====
-- What an MDP call can end with.
use dtn_rpc.Reachable.{rpc_sid_is_reachable}
use dtn_rpc.Common.{
  ℕ, ◌+◌, Bool, true, false, not, ◌&&◌, ◌||◌, Option, none, some, List, [], ◌∷◌, ltb, ◌==◌,
  if◌then◌else◌, Bytes, length,
}
use dtn_rpc.Common.Int.{ℤ, pos, minus_one, truth}
use dtn_rpc.Serval.{Words, Sid, Sids, is_sid_t_broadcast, is_sid_t_any}
use dtn_rpc.Memory.{fresh, memcpy}
use dtn_rpc.Wire.{
  rpc_pkt_call_ack, rpc_pkt_call_response, read_uint8, rpc_client_prepare_call_payload,
}
use dtn_rpc.System.{System, lift}
use dtn_rpc.System.Ensures.{Ensures, ensures-pure, ensures-if, ensures-bind, ensures-then}
use dtn_rpc.Server.Mdp.{MdpPacket}
use dtn_rpc.Client.{
  ClientState, no_results, rpc_client_result_get_insert_index, rpc_client_replace_if_path,
}
use dtn_rpc.Client.Codes.{failed, answered, IsCode, final, late}
use dtn_rpc.Client.Answers.{record_ack, record_result}
use dtn_rpc.Client.Mdp.{
  Tick, MdpRun, is_positive, is_waiting, call_array, handle_packet, receive, send_call, timed_out,
  call_loop, start_call, rpc_client_call_mdp,
}

module _ (W : Words) (S : Sids) (system : System) (server_sid : Sid) (rpc_name : Bytes) where
  answer-IsCode :
      (complete : Bool) (received : ℤ)
      → IsCode received
      → IsCode (if complete then pos 2 else received)
  answer-IsCode true received h = final answered
  answer-IsCode false received h = h

  handle_packet-IsCode :
      (packet : MdpPacket) (wait_time : ℕ) (state : ClientState)
      → IsCode state.received
      → Ensures
          (handle_packet W S system server_sid rpc_name packet wait_time state)
          (λ (wait, state'). IsCode state'.received)
  unfolding handle_packet
  handle_packet-IsCode packet wait_time state h =
      let recv_payload : Bytes = (memcpy (fresh system.uninit) 0 packet.received).bytes in
      ensures-then _ (lift (read_uint8 recv_payload 0)) _ (λ pkt_type.
        ensures-if _ (pkt_type == rpc_pkt_call_ack) _ _
          (λ ack.
            ensures-then _ (lift (record_ack S system server_sid state.rpc_result packet.remote)) _
              (λ table.
                ensures-pure _ (wait_time + 20, record { received = pos 1; rpc_result = table })
                  late))
          (λ no_ack.
            ensures-if _ (pkt_type == rpc_pkt_call_response) _ _
              (λ response.
                ensures-then _
                  (record_result S system server_sid rpc_name state.rpc_result packet.remote
                    recv_payload (length packet.received))
                  _
                  (λ (table, complete).
                    ensures-pure _
                      (
                        wait_time,
                        record {
                          received = if complete then pos 2 else state.received;
                          rpc_result = table;
                        },
                      )
                      (answer-IsCode complete state.received h)))
              (λ other. ensures-pure _ (wait_time, state) h)))

  receive-IsCode :
      (arrival : Option (Option MdpPacket)) (wait_time : ℕ) (state : ClientState)
      → IsCode state.received
      → Ensures
          (receive W S system server_sid rpc_name arrival wait_time state)
          (λ (wait, state'). IsCode state'.received)
  unfolding receive
  receive-IsCode (some (some packet)) wait_time state h =
      handle_packet-IsCode packet wait_time state h
  receive-IsCode (some none) wait_time state h = ensures-pure _ (wait_time, state) h
  receive-IsCode none wait_time state h = ensures-pure _ (wait_time, state) h

  timed_out-IsCode :
      (state : ClientState)
      → IsCode state.received
      → IsCode (timed_out W S system server_sid rpc_name state)
  unfolding timed_out
  timed_out-IsCode state h =
      answer-IsCode
        (is_sid_t_broadcast S server_sid
          && is_positive (rpc_client_result_get_insert_index S state.rpc_result))
        state.received h

  call_loop-IsCode :
      (ticks : List Tick) (payload : Bytes) (wait_time : ℕ) (state : ClientState)
      → IsCode state.received
      → Ensures
          (call_loop W S system server_sid rpc_name ticks payload wait_time state)
          (λ (code, state'). IsCode code)
  unfolding call_loop
  call_loop-IsCode [] payload wait_time state h =
      ensures-if _ (is_waiting state.received) _ _ (λ waits trace end trace' e. absurd cc)
        (λ ends. ensures-pure _ (state.received, state) h)
  call_loop-IsCode (tick ∷ ticks) payload wait_time state h =
      ensures-if _ (not (is_waiting state.received)) _ _
        (λ ends. ensures-pure _ (state.received, state) h)
        (λ waits.
          ensures-if _ (ltb wait_time tick.elapsed) _ _
            (λ over.
              ensures-pure _ (timed_out W S system server_sid rpc_name state, state)
                (timed_out-IsCode state h))
            (λ in_time.
              ensures-then _ (send_call W S system server_sid rpc_name tick payload state) _
                (λ sent.
                  ensures-if _ (not sent) _ _
                    (λ unsent. ensures-pure _ (minus_one, state) (final failed))
                    (λ is_sent.
                      ensures-bind _ _
                        (receive W S system server_sid rpc_name tick.arrival wait_time state) _
                        (receive-IsCode tick.arrival wait_time state h)
                        (λ (wait_time', state') g.
                          call_loop-IsCode ticks payload wait_time' state' g)))))

  pub rpc_client_call_mdp-IsCode :
      (net : MdpRun) (paramc : ℕ) (params : List (Option Bytes)) (requirements : ℕ)
      (state : ClientState)
      → IsCode state.received
      → Ensures
          (rpc_client_call_mdp W S system server_sid rpc_name net paramc params requirements state)
          (λ (code, state'). IsCode code)
  unfolding rpc_client_call_mdp start_call
  rpc_client_call_mdp-IsCode net paramc params requirements state h =
      let emptied : ClientState = record state { rpc_result = no_results } in
      ensures-if _
        (not (is_sid_t_any S server_sid)
          && (not (is_sid_t_broadcast S server_sid)
              && not (truth (rpc_sid_is_reachable S system server_sid))))
        _ _ (λ unreachable. ensures-pure _ (minus_one, state) (final failed))
        (λ tried.
          ensures-if _ (not net.has_socket || not net.binds) _ _
            (λ no_socket. ensures-pure _ (minus_one, emptied) (final failed))
            (λ open_socket.
              ensures-then _ (rpc_client_replace_if_path S system rpc_name params paramc) _
                (λ flat_params.
                  let payload =
                    rpc_client_prepare_call_payload W (call_array system rpc_name flat_params)
                      paramc rpc_name flat_params requirements in
                  call_loop-IsCode net.ticks payload.bytes 10 emptied h)))
