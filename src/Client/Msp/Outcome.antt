-- ===== src/Client/Msp/Outcome.antt =====
-- What an MSP call can end with.
use dtn_rpc.Reachable.{rpc_sid_is_reachable}
use dtn_rpc.Common.{
  ℕ, bit_and, not, ◌&&◌, Option, none, some, List, [], ◌∷◌, ◌==◌, if◌then◌else◌, Bytes, drop,
}
use dtn_rpc.Common.Int.{ℤ, pos, minus_one, truth}
use dtn_rpc.Serval.{Words, Sid, Sids}
use dtn_rpc.Filehash.{rpc_str_is_filehash}
use dtn_rpc.CString.{c_string}
use dtn_rpc.Wire.{
  rpc_pkt_call_ack, rpc_pkt_call_response, read_uint8, rpc_client_prepare_call_payload,
}
use dtn_rpc.System.{System, msp_send, msp_stop, msp_shutdown, pure, emit, lift, ◌>>=◌, ◌>>◌}
use dtn_rpc.System.Ensures.{Ensures, ensures-pure, ensures-if, ensures-bind, ensures-then}
use dtn_rpc.Client.{ClientState, no_results, rpc_client_replace_if_path}
use dtn_rpc.Client.Codes.{failed, answered, IsCode, final, lost, late}
use dtn_rpc.Client.Answers.{write_sid, write_content, path_array}
use dtn_rpc.Client.Mdp.{call_array, is_waiting}
use dtn_rpc.Client.Rhizome.Outcome.{rpc_client_rhizome_listen-IsFinal}
use dtn_rpc.Rhizome.{await_download}
use dtn_rpc.Client.Msp.{
  MspEvent, MspTick, MspRun, broken_states, shutdown_remote, kept_received, note_state, take_result,
  take_payload, rpc_client_msp_handler, handle_events, call_loop, rpc_client_call_msp,
}

module _ (W : Words) (S : Sids) (system : System) where
  kept_received-IsCode : {received : ℤ} → IsCode received → IsCode (kept_received received)
  unfolding kept_received
  kept_received-IsCode (final failed) = final failed
  kept_received-IsCode (final answered) = final answered
  kept_received-IsCode lost = final failed
  kept_received-IsCode late = late

  note_state-IsCode :
      (state : ℕ) (client : ClientState)
      → IsCode client.received
      → Ensures (note_state W S system state client) (λ client'. IsCode client'.received)
  unfolding note_state
  note_state-IsCode state client h =
      ensures-bind _ _
        (if bit_and state broken_states == 0 then pure client else (do
          emit msp_stop
          pure (record client { received = kept_received client.received })))
        _
        (ensures-if (λ client'. IsCode client'.received) (bit_and state broken_states == 0) _ _
          (λ whole. ensures-pure _ client h)
          (λ broken. ensures-then _ (emit msp_stop) _ (λ sent.
            ensures-pure _ (record client { received = kept_received client.received })
              (kept_received-IsCode h))))
        (λ stopped g.
          ensures-if _ (bit_and state shutdown_remote == 0) _ _ (λ whole. ensures-pure _ stopped g)
            (λ shut. ensures-then _ (emit msp_shutdown) _ (λ sent.
              ensures-pure _ (record stopped { received = kept_received stopped.received })
                (kept_received-IsCode g))))

  take_result-IsCode :
      (current_rpc current_sid : Bytes) (remote : Sid) (payload : Bytes) (client : ClientState)
      → Ensures
          (take_result W S system current_rpc current_sid remote payload client)
          (λ client'. IsCode client'.received)
  unfolding take_result
  take_result-IsCode current_rpc current_sid remote payload client =
      ensures-then _ (lift (c_string (drop 1 payload))) _ (λ text.
        ensures-then _
          (if rpc_str_is_filehash text
            then (do
              fpath ← lift (await_download S system.polls current_rpc current_sid)
              lift (path_array system current_rpc fpath))
            else pure (drop 1 payload))
          _
          (λ bytes. ensures-then _ (lift (write_content client.rpc_result 0 bytes)) _ (λ filled.
            ensures-then _ (lift (write_sid filled (pos 0) remote)) _ (λ table.
              ensures-pure _ (record { received = pos 2; rpc_result = table }) (final answered)))))

  take_payload-IsCode :
      (current_rpc current_sid : Bytes) (event : MspEvent) (client : ClientState)
      → IsCode client.received
      → Ensures
          (take_payload W S system current_rpc current_sid event client)
          (λ client'. IsCode client'.received)
  unfolding take_payload
  take_payload-IsCode current_rpc current_sid event client h = taken event.payload
    where
      typed :
          (c : ℕ) (cs : Bytes) (pkt_type : ℕ)
          → Ensures
              (if pkt_type == rpc_pkt_call_ack
                then pure (record client { received = pos 1 })
                else if pkt_type == rpc_pkt_call_response
                then take_result W S system current_rpc current_sid event.remote (c ∷ cs) client
                else pure client)
              (λ client'. IsCode client'.received)
      typed c cs pkt_type =
          ensures-if _ (pkt_type == rpc_pkt_call_ack) _ _
            (λ ack. ensures-pure _ (record client { received = pos 1 }) late)
            (λ no_ack.
              ensures-if _ (pkt_type == rpc_pkt_call_response) _ _
                (λ response.
                  take_result-IsCode current_rpc current_sid event.remote (c ∷ cs) client)
                (λ other. ensures-pure _ client h))

      taken :
          (payload : Option Bytes)
          → Ensures
              (elim payload [
                | none ↦ pure client
                | some [] ↦ pure client
                | some (c ∷ cs) ↦ (do
                  pkt_type ← lift (read_uint8 (c ∷ cs) 0)
                  if pkt_type == rpc_pkt_call_ack
                      then pure (record client { received = pos 1 })
                      else if pkt_type == rpc_pkt_call_response
                      then take_result W S system current_rpc current_sid event.remote
                          (c ∷ cs)
                          client
                      else pure client)
              ])
              (λ client'. IsCode client'.received)
      taken none = ensures-pure _ client h
      taken (some []) = ensures-pure _ client h
      taken (some (c ∷ cs)) = ensures-then _ (lift (read_uint8 (c ∷ cs) 0)) _ (typed c cs)

  rpc_client_msp_handler-IsCode :
      (current_rpc current_sid : Bytes) (event : MspEvent) (client : ClientState)
      → IsCode client.received
      → Ensures
          (rpc_client_msp_handler W S system current_rpc current_sid event client)
          (λ client'. IsCode client'.received)
  unfolding rpc_client_msp_handler
  rpc_client_msp_handler-IsCode current_rpc current_sid event client h =
      ensures-bind _ _ (note_state W S system event.state client) _
        (note_state-IsCode event.state client h)
        (λ noted g. take_payload-IsCode current_rpc current_sid event noted g)

  handle_events-IsCode :
      (current_rpc current_sid : Bytes) (events : List MspEvent) (client : ClientState)
      → IsCode client.received
      → Ensures
          (handle_events W S system current_rpc current_sid events client)
          (λ client'. IsCode client'.received)
  unfolding handle_events
  handle_events-IsCode current_rpc current_sid [] client h = ensures-pure _ client h
  handle_events-IsCode current_rpc current_sid (event ∷ events) client h =
      ensures-bind _ _ (rpc_client_msp_handler W S system current_rpc current_sid event client) _
        (rpc_client_msp_handler-IsCode current_rpc current_sid event client h)
        (λ client' g. handle_events-IsCode current_rpc current_sid events client' g)

  call_loop-IsCode :
      (current_rpc current_sid : Bytes) (net : MspRun) (ticks : List MspTick) (client : ClientState)
      → IsCode client.received
      → Ensures
          (call_loop W S system current_rpc current_sid net ticks client)
          (λ (code, state'). IsCode code)
  unfolding call_loop
  call_loop-IsCode current_rpc current_sid net [] client h =
      ensures-if _ (is_waiting client.received) _ _ (λ waits trace end trace' e. absurd cc)
        (λ ends. ensures-pure _ (client.received, client) h)
  call_loop-IsCode current_rpc current_sid net (tick ∷ ticks) client h =
      ensures-if _ (not (is_waiting client.received)) _ _
        (λ ends. ensures-pure _ (client.received, client) h)
        (λ waits.
          ensures-if _ (tick.is_null && not tick.is_data) _ _
            (λ closed trace end trace' e. final (
              rpc_client_rhizome_listen-IsFinal W S system net.stray_sid net.stray_name net.listener
                client trace end trace' e))
            (λ live.
              ensures-bind _ _ (handle_events W S system current_rpc current_sid tick.events client)
                _ (handle_events-IsCode current_rpc current_sid tick.events client h)
                (λ client' g. call_loop-IsCode current_rpc current_sid net ticks client' g)))

  pub rpc_client_call_msp-IsCode :
      (net : MspRun) (sid : Sid) (rpc_name : Bytes) (paramc : ℕ) (params : List (Option Bytes))
      (requirements : ℕ) (state : ClientState)
      → IsCode state.received
      → Ensures
          (rpc_client_call_msp W S system net sid rpc_name paramc params requirements state)
          (λ (code, state'). IsCode code)
  unfolding rpc_client_call_msp
  rpc_client_call_msp-IsCode net sid rpc_name paramc params requirements state h =
      ensures-if _ (not (truth (rpc_sid_is_reachable S system sid))) _ _
        (λ unreachable. ensures-pure _ (minus_one, state) (final failed))
        (λ reachable.
          ensures-then _ (rpc_client_replace_if_path S system rpc_name params paramc) _
            (λ flat_params.
              let payload =
                rpc_client_prepare_call_payload W (call_array system rpc_name flat_params) paramc
                  rpc_name flat_params requirements in
              ensures-then _ (emit (msp_send payload.bytes)) _ (λ sent.
                call_loop-IsCode rpc_name (S.alloca_tohex_sid_t sid) net net.ticks
                  (record state { rpc_result = no_results }) h)))
