-- ===== src/Client/Mdp/Unanswered.antt =====
-- An MDP call to which no server answers.
use dtn_rpc.Reachable.{rpc_sid_is_reachable}
use dtn_rpc.Common.{
  ap, ℕ, ◌≤◌, ◌<◌, ◌≡◌, refl, ◌∙◌, ◌⊎◌, inl, inr, true, false, not, ◌&&◌, none, some, List, [], ◌∷◌,
  ◌++◌, map, append-nil, append_assoc, arith, ltb, if◌then◌else◌, Bool-cases, Bytes, length,
  replicate, All,
}
use dtn_rpc.Common.Int.{ℤ, pos, truth}
use dtn_rpc.Serval.{Words, Sid, sid_broadcast, Sids, is_sid_t_broadcast, is_sid_t_any}
use dtn_rpc.Result.{ok}
use dtn_rpc.CString.Tokens.{join}
use dtn_rpc.Wire.Call.{call_packet}
use dtn_rpc.System.{System, Effect, mdp_send, Exec}
use dtn_rpc.System.Ensures.{bind_ok}
use dtn_rpc.Client.{Result, RpcResult, ClientState, no_results, rpc_client_replace_if_path}
use dtn_rpc.Client.Table.{rpc_client_result_get_insert_index-padded}
use dtn_rpc.Client.Params.{rpc_client_replace_if_path-plain, prepared_packet}
use dtn_rpc.Client.Mdp.{
  rpc_client_prepare_call_payload, Tick, MdpRun, is_positive, is_waiting, call_array, receive,
  send_call, timed_out, call_loop, start_call, rpc_client_call_mdp,
}

-- A round within the ten seconds, in which the packet is sent and nothing arrives.
pub record IsQuiet (tick : Tick) : Type 0 where
  pub in_time : tick.elapsed ≤ 10
  pub is_sent : tick.sends ≡ true
  pub nothing : tick.arrival ≡ none

abbrev pub waiting : ClientState
waiting = record { received = pos 0; rpc_result = no_results }

module _ (W : Words) (S : Sids) (system : System) (server_sid : Sid) (rpc_name : Bytes) where
  -- Where a call is sent.
  abbrev pub destination : Sid
  destination = if is_sid_t_any S server_sid then sid_broadcast else server_sid

  timed_out-waiting : timed_out W S system server_sid rpc_name waiting ≡ pos 0
  unfolding timed_out is_positive
  timed_out-waiting =
      let first = rpc_client_result_get_insert_index-padded S [] tt (omega arith) in
      rw first (elim (Bool-cases (is_sid_t_broadcast S server_sid)) [
        | inl everyone ↦ rw everyone refl
        | inr single ↦ rw single refl
      ])

  -- In quiet rounds the packet is sent, and nothing else happens.
  pub call_loop-quiet :
      (ticks later : List Tick) (payload : Bytes) (trace : List Effect)
      → All IsQuiet ticks
      → call_loop W S system server_sid rpc_name (ticks ++ later) payload 10 waiting trace
        ≡ call_loop W S system server_sid rpc_name later payload 10 waiting
            (trace ++ replicate (length ticks) (mdp_send destination payload))
  unfolding call_loop is_waiting send_call receive
  call_loop-quiet [] later payload trace quiet = rw append-nil
  call_loop-quiet (tick ∷ ticks) later payload trace (quiet, rest) =
      let in_time : ltb 10 tick.elapsed ≡ false = ground (arith, quiet.in_time) in
      rw (in_time, quiet.is_sent, quiet.nothing)
        (call_loop-quiet ticks later payload (trace ++ mdp_send destination payload ∷ []) rest
          ∙ simp append_assoc)

  call_loop-late :
      (last : Tick) (payload : Bytes) (trace : List Effect)
      → 10 < last.elapsed
      → call_loop W S system server_sid rpc_name (last ∷ []) payload 10 waiting trace
        ≡ ok ((pos 0, waiting), trace)
  unfolding call_loop is_waiting
  call_loop-late last payload trace late =
      let over : ltb 10 last.elapsed ≡ true = ground arith in rw (over, timed_out-waiting) refl

  module _ (net : MdpRun) (first : Bytes) (others : List Bytes) (requirements : ℕ)
      (table : List RpcResult) (trace : List Effect) where
    -- The packet of the call.
    abbrev pub sent_packet : Bytes
    sent_packet =
        call_packet W requirements (length (first ∷ others)) rpc_name (join b'|' (first ∷ others))

    -- The run of a call with these parameters from a state in which nothing was received.
    abbrev pub called : Result ((ℤ × ClientState) × List Effect)
    called =
        rpc_client_call_mdp W S system server_sid rpc_name net (length (first ∷ others))
          (map some (first ∷ others)) requirements (record { received = pos 0; rpc_result = table })
          trace

    -- What lets a call come to its loop: the server can be reached or is any, there is a socket, the
    -- first parameter is no path, and the parameters fit into the 512 bytes for them.
    pub record IsReady : Type 0 where
      pub reached :
          truth (rpc_sid_is_reachable S system server_sid) ≡ true ⊎ is_sid_t_any S server_sid ≡ true
      pub has_socket : net.has_socket ≡ true
      pub binds : net.binds ≡ true
      pub plain : system.exists first ≡ false
      pub fits : length (join b'|' (first ∷ others)) < 512

    pub rpc_client_call_mdp_starts :
        IsReady
        → called ≡ call_loop W S system server_sid rpc_name net.ticks sent_packet 10 waiting trace
    unfolding rpc_client_call_mdp start_call
    rpc_client_call_mdp_starts ready =
        let params = join b'|' (first ∷ others) in
        let tried : (not (is_sid_t_any S server_sid)
              && (not (is_sid_t_broadcast S server_sid)
                  && not (truth (rpc_sid_is_reachable S system server_sid))))
            ≡ false =
          let may = ready.reached in ground arith in
        let n = length (first ∷ others) in
        let after : Bytes → Exec (ℤ × ClientState) = λ flat_params.
          call_loop W S system server_sid rpc_name net.ticks
            (rpc_client_prepare_call_payload W (call_array system rpc_name flat_params) n rpc_name
              flat_params requirements).bytes
            10 waiting in
        rw (tried, ready.has_socket, ready.binds)
          (bind_ok (rpc_client_replace_if_path S system rpc_name (map some (first ∷ others)) n)
              after {trace = trace}
              (rpc_client_replace_if_path-plain S system rpc_name first others trace ready.plain
                ready.fits)
            ∙ rw (prepared_packet S system rpc_name W params n requirements) refl)

    -- A call of a server that can be reached, or of any, with parameters of which the first is no path:
    -- where nothing arrives, the packet is sent once in every round of the first ten seconds, the first
    -- round behind them ends the call with 0, and the table is empty.
    pub rpc_client_call_mdp_unanswered :
        (ticks : List Tick) (last : Tick)
        → IsReady
        → net.ticks ≡ ticks ++ last ∷ []
        → All IsQuiet ticks
        → 10 < last.elapsed
        → called
          ≡ ok (
            (pos 0, record { received = pos 0; rpc_result = no_results }),
            trace ++ replicate (length ticks) (mdp_send destination sent_packet),
          )
    rpc_client_call_mdp_unanswered ticks last ready split quiet late =
        rpc_client_call_mdp_starts ready
        ∙ ap
            (λ rounds. call_loop W S system server_sid rpc_name rounds sent_packet 10 waiting trace)
            split
        ∙ call_loop-quiet ticks (last ∷ []) sent_packet trace quiet
        ∙ call_loop-late last sent_packet _ late
