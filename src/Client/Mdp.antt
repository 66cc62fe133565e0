-- ===== src/Client/Mdp.antt =====
-- rpc_client_mdp.c: a call over MDP, direct or as a broadcast.
pub mod Outcome
pub mod Unanswered
pub mod Packets
pub mod Answered
pub mod Abandoned
use dtn_rpc.Reachable.{rpc_sid_is_reachable}
use dtn_rpc.Common.{
  ℕ, ◌+◌, Bool, true, false, not, ◌&&◌, ◌||◌, Option, some, List, [], ◌∷◌, ◌++◌, ltb, ◌==◌,
  if◌then◌else◌, Bytes, length, take, replicate,
}
use dtn_rpc.Common.Int.{ℤ, pos, negsuc, ◌==ℤ◌, minus_one, truth}
use dtn_rpc.Serval.{Words, Sid, sid_broadcast, Sids, is_sid_t_broadcast, is_sid_t_any}
use dtn_rpc.Result.{err, out_of_fuel}
use dtn_rpc.Memory.{Buffer, fresh, memcpy}
use dtn_rpc.Wire.{
  rpc_pkt_call_ack, rpc_pkt_call_response, read_uint8, rpc_client_prepare_call_payload,
}
use dtn_rpc.System.{System, mdp_send, Exec, pure, emit, lift, ◌>>=◌, ◌>>◌}
use dtn_rpc.Server.Mdp.{MdpPacket}
use dtn_rpc.Client.{
  ClientState, no_results, rpc_client_result_get_insert_index, rpc_client_replace_if_path,
}
use dtn_rpc.Client.Answers.{record_ack, record_result}

-- One round of the loop, as Serval and the clock make it.
pub record Tick : Type 0 where
  pub elapsed : ℕ  -- time(NULL) - start_time
  pub sends : Bool  -- whether `mdp_send` succeeds
  pub arrival : Option (Option MdpPacket)  -- `some none`: `mdp_recv` gives -1

pub record MdpRun : Type 0 where
  pub has_socket : Bool
  pub binds : Bool
  pub ticks : List Tick

-- An `int` above 0.
unfoldable pub is_positive : ℤ → Bool
is_positive (pos n) = ltb 0 n
is_positive (negsuc n) = false

-- `received == 0 || received == 1`
unfoldable pub is_waiting : ℤ → Bool
is_waiting received = (received ==ℤ pos 0) || (received ==ℤ pos 1)

-- How many bytes the callers allocate for the packet.
abbrev pub call_size : Bytes → Bytes → ℕ
call_size rpc_name flat_params = 1 + 4 + 1 + length rpc_name + length flat_params + 1

-- The array for the packet, before anything is written.
unfoldable pub call_array : System → Bytes → Bytes → Buffer
call_array system rpc_name flat_params =
    let size = call_size rpc_name flat_params in
    fresh (take size (system.uninit ++ replicate size 0))

module _ (W : Words) (S : Sids) (system : System) (server_sid : Sid) (rpc_name : Bytes) where
  -- What is received changes the state and the seconds to wait.
  pub handle_packet : MdpPacket → ℕ → ClientState → Exec (ℕ × ClientState)
  handle_packet packet wait_time state = do
    let recv_payload = (memcpy (fresh system.uninit) 0 packet.received).bytes
    pkt_type ← lift (read_uint8 recv_payload 0)
    if pkt_type == rpc_pkt_call_ack
        then (do
          table ← lift (record_ack S system server_sid state.rpc_result packet.remote)
          pure (wait_time + 20, record { received = pos 1; rpc_result = table }))
        else if pkt_type == rpc_pkt_call_response
        then (do
          (table, complete) ←
              record_result S system server_sid rpc_name state.rpc_result packet.remote recv_payload
                (length packet.received)
          pure (
            wait_time,
            record { received = if complete then pos 2 else state.received; rpc_result = table },
          ))
        else pure (wait_time, state)

  pub receive : Option (Option MdpPacket) → ℕ → ClientState → Exec (ℕ × ClientState)
  unfolding handle_packet
  receive (some (some packet)) wait_time state = handle_packet packet wait_time state
  receive _ wait_time state = pure (wait_time, state)

  -- The call is sent until there is an ACK.
  pub send_call : Tick → Bytes → ClientState → Exec Bool
  send_call tick payload state =
      if state.received ==ℤ pos 0
      then (if tick.sends
          then (do
            emit
                (mdp_send (if is_sid_t_any S server_sid then sid_broadcast else server_sid) payload)
            pure true)
          else pure false)
      else pure true

  pub timed_out : ClientState → ℤ
  unfolding is_positive
  timed_out state =
      let num_answers = rpc_client_result_get_insert_index S state.rpc_result in
      if is_sid_t_broadcast S server_sid && is_positive num_answers then pos 2 else state.received

  -- The loop; the run must go on for as long as it waits.
  pub call_loop : List Tick → Bytes → ℕ → ClientState → Exec (ℤ × ClientState)
  unfolding is_waiting receive send_call timed_out
  call_loop [] payload wait_time state =
      if is_waiting state.received then lift (err out_of_fuel) else pure (state.received, state)
  call_loop (tick ∷ ticks) payload wait_time state =
      if not (is_waiting state.received)
      then pure (state.received, state)
      else if ltb wait_time tick.elapsed
      then pure (timed_out state, state)
      else (do
        sent ← send_call tick payload state
        if not sent then pure (minus_one, state) else (do
          (wait_time', state') ← receive tick.arrival wait_time state
          call_loop ticks payload wait_time' state'))

  -- Everything behind the test for a server that can be reached.
  pub start_call : MdpRun → ℕ → List (Option Bytes) → ℕ → ClientState → Exec (ℤ × ClientState)
  unfolding call_loop
  start_call net paramc params requirements state =
      let emptied = record state { rpc_result = no_results } in
      if not net.has_socket || not net.binds then pure (minus_one, emptied) else (do
        flat_params ← rpc_client_replace_if_path S system rpc_name params paramc
        let array = call_array system rpc_name flat_params
        let payload =
            rpc_client_prepare_call_payload W array paramc rpc_name flat_params requirements
        call_loop net.ticks payload.bytes 10 emptied)

  -- The return value and the state.
  unfoldable pub rpc_client_call_mdp :
      MdpRun → ℕ → List (Option Bytes) → ℕ → ClientState → Exec (ℤ × ClientState)
  unfolding start_call
  rpc_client_call_mdp net paramc params requirements state =
      if not (is_sid_t_any S server_sid)
        && (not (is_sid_t_broadcast S server_sid)
            && not (truth (rpc_sid_is_reachable S system server_sid)))
      then pure (minus_one, state)
      else start_call net paramc params requirements state
