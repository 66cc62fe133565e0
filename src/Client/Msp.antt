-- ===== src/Client/Msp.antt =====
-- rpc_client_msp.c: a call over MSP.
pub mod Outcome
pub mod Answered
use dtn_rpc.Reachable.{rpc_sid_is_reachable}
use dtn_rpc.Common.{
  ℕ, bit_and, bit_or, Bool, not, ◌&&◌, ◌||◌, Option, none, some, List, [], ◌∷◌, ◌==◌, if◌then◌else◌,
  Bytes, drop,
}
use dtn_rpc.Common.Int.{ℤ, pos, ◌==ℤ◌, minus_one, truth}
use dtn_rpc.Serval.{Words, Sid, Sids}
use dtn_rpc.Filehash.{rpc_str_is_filehash}
use dtn_rpc.Result.{err, out_of_fuel}
use dtn_rpc.CString.{c_string}
use dtn_rpc.Wire.{
  rpc_pkt_call_ack, rpc_pkt_call_response, read_uint8, rpc_client_prepare_call_payload,
}
use dtn_rpc.System.{System, msp_stop, msp_shutdown, msp_send, Exec, pure, emit, lift, ◌>>=◌, ◌>>◌}
use dtn_rpc.Client.{ClientState, no_results, rpc_client_replace_if_path}
use dtn_rpc.Client.Answers.{write_sid, write_content, path_array}
use dtn_rpc.Client.Mdp.{call_array, is_waiting}
use dtn_rpc.Client.Rhizome.{RhizomeRun, rpc_client_rhizome_listen}
use dtn_rpc.Rhizome.{await_download}

-- One call of the handler by Serval: the state of the connection and what has arrived.
pub record MspEvent : Type 0 where
  pub state : ℕ
  pub payload : Option Bytes
  pub remote : Sid  -- `msp_get_remote`

-- One round of the loop: the tests of the socket at its start, and the handler's calls in it.
pub record MspTick : Type 0 where
  pub is_null : Bool
  pub is_data : Bool
  pub events : List MspEvent

-- The arguments that the listener is called without: what it finds in their place.
pub record MspRun : Type 0 where
  pub ticks : List MspTick
  pub listener : RhizomeRun
  pub stray_sid : Sid
  pub stray_name : Bytes

-- MSP_STATE_CLOSED | MSP_STATE_ERROR
abbrev pub broken_states : ℕ
broken_states = bit_or 32 64

-- MSP_STATE_SHUTDOWN_REMOTE
abbrev pub shutdown_remote : ℕ
shutdown_remote = 16

-- `received == 1 || received == 2 ? received : -1`
pub kept_received : ℤ → ℤ
kept_received received =
    if (received ==ℤ pos 1) || (received ==ℤ pos 2) then received else minus_one

module _ (W : Words) (S : Sids) (system : System) where
  -- The handler's two tests of the state.
  pub note_state : ℕ → ClientState → Exec ClientState
  unfolding kept_received
  note_state state client = do
    stopped ←
        if bit_and state broken_states == 0
        then pure client
        else (do emit msp_stop; pure (record client { received = kept_received client.received }))
    if bit_and state shutdown_remote == 0 then pure stopped else (do
      emit msp_shutdown
      pure (record stopped { received = kept_received stopped.received }))

  -- `current_rpc` and `current_sid` are set by the call. The first entry is filled.
  pub take_result : Bytes → Bytes → Sid → Bytes → ClientState → Exec ClientState
  take_result current_rpc current_sid remote payload client = do
    text ← lift (c_string (drop 1 payload))
    bytes ←
        if rpc_str_is_filehash text
        then (do
          fpath ← lift (await_download S system.polls current_rpc current_sid)
          lift (path_array system current_rpc fpath))
        else pure (drop 1 payload)
    filled ← lift (write_content client.rpc_result 0 bytes)
    table ← lift (write_sid filled (pos 0) remote)
    pure (record { received = pos 2; rpc_result = table })

  pub take_payload : Bytes → Bytes → MspEvent → ClientState → Exec ClientState
  unfolding take_result
  take_payload current_rpc current_sid event client = elim event.payload [
    | none ↦ pure client
    | some [] ↦ pure client
    | some (c ∷ cs) ↦ (do
      pkt_type ← lift (read_uint8 (c ∷ cs) 0)
      if pkt_type == rpc_pkt_call_ack
          then pure (record client { received = pos 1 })
          else if pkt_type == rpc_pkt_call_response
          then take_result current_rpc current_sid event.remote (c ∷ cs) client
          else pure client)
  ]

  -- It returns `len` always; the state of the client is what changes.
  unfoldable pub rpc_client_msp_handler : Bytes → Bytes → MspEvent → ClientState → Exec ClientState
  unfolding note_state take_payload
  rpc_client_msp_handler current_rpc current_sid event client = do
    noted ← note_state event.state client
    take_payload current_rpc current_sid event noted

  pub handle_events : Bytes → Bytes → List MspEvent → ClientState → Exec ClientState
  unfolding rpc_client_msp_handler
  handle_events current_rpc current_sid [] client = pure client
  handle_events current_rpc current_sid (event ∷ events) client = do
    client' ← rpc_client_msp_handler current_rpc current_sid event client
    handle_events current_rpc current_sid events client'

  pub call_loop : Bytes → Bytes → MspRun → List MspTick → ClientState → Exec (ℤ × ClientState)
  unfolding handle_events
  call_loop current_rpc current_sid net [] client =
      if is_waiting client.received then lift (err out_of_fuel) else pure (client.received, client)
  call_loop current_rpc current_sid net (tick ∷ ticks) client =
      if not (is_waiting client.received)
      then pure (client.received, client)
      else if tick.is_null && not tick.is_data
      then rpc_client_rhizome_listen W S system net.stray_sid net.stray_name net.listener client
      else (do
        client' ← handle_events current_rpc current_sid tick.events client
        call_loop current_rpc current_sid net ticks client')

  unfoldable pub rpc_client_call_msp :
      MspRun → Sid → Bytes → ℕ → List (Option Bytes) → ℕ → ClientState → Exec (ℤ × ClientState)
  unfolding call_loop
  rpc_client_call_msp net sid rpc_name paramc params requirements state =
      if not (truth (rpc_sid_is_reachable S system sid)) then pure (minus_one, state) else (do
        let emptied = record state { rpc_result = no_results }
        flat_params ← rpc_client_replace_if_path S system rpc_name params paramc
        let array = call_array system rpc_name flat_params
        let payload =
            rpc_client_prepare_call_payload W array paramc rpc_name flat_params requirements
        emit (msp_send payload.bytes)
        call_loop rpc_name (S.alloca_tohex_sid_t sid) net net.ticks emptied)
