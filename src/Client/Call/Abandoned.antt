-- ===== src/Client/Call/Abandoned.antt =====
-- The way of `rpc_client_call` of rpc_client.c to any server, where one accepts and does not answer.
use dtn_rpc.Common.{
  ℕ, ◌+◌, ◌≤◌, ◌≡◌, refl, sym, ◌∙◌, inl, inr, true, false, some, List, [], ◌∷◌, ◌++◌, Bytes, length,
  map, replicate,
}
use dtn_rpc.Common.Int.{ℤ, pos, minus_one}
use dtn_rpc.System.{System, Effect, Exec, mdp_send}
use dtn_rpc.Result.{ok}
use dtn_rpc.Serval.{Words, Sid, Sids, sid_broadcast, is_sid_t_broadcast, is_sid_t_any}
use dtn_rpc.System.Ensures.{Ensures, bind_ok, bind_err, Result-cases}
use dtn_rpc.Client.{ClientState, no_results}
use dtn_rpc.Client.Codes.{IsFinal, failed, answered}
use dtn_rpc.Client.Mdp.{rpc_client_call_mdp}
use dtn_rpc.Client.Mdp.Unanswered.{IsReady, sent_packet}
use dtn_rpc.Client.Mdp.Abandoned.{IsAbandoned, rpc_client_call_mdp_abandoned}
use dtn_rpc.Client.Rhizome.{RhizomeRun, rpc_client_call_rhizome}
use dtn_rpc.Client.Rhizome.Outcome.{rpc_client_call_rhizome-IsFinal}
use dtn_rpc.Client.Call.{
  CallRun, Attempt, end_if, after_late, after_lost, after_direct, rpc_client_call,
}

-- The last tests pass a final result on.
final_stays :
    (code : ℤ) (state : ClientState) (trace : List Effect)
    → IsFinal code
    → end_if (minus_one ∷ pos 0 ∷ pos 1 ∷ []) (λ r t. ok (r, t)) (code, state) trace
      ≡ ok ((code, state), trace)
unfolding end_if
final_stays code state trace failed = refl
final_stays code state trace answered = refl

-- Behind an ACK without a result, an attempt through the store that ends with a final result is the
-- rest of the call.
after_direct-acked :
    (rhizome lost late : Attempt) (state : ClientState) (trace : List Effect)
    → Ensures (late state) (λ (code, state'). IsFinal code)
    → after_direct rhizome lost late (pos 1, state) trace ≡ late state trace
unfolding after_direct after_lost after_late
after_direct-acked rhizome lost late state trace settles = elim (Result-cases (late state trace)) [
  | inl (((code, state'), trace'), e) ↦
      bind_ok (late state) (end_if (minus_one ∷ pos 0 ∷ pos 1 ∷ []) (λ r t. ok (r, t)))
        {trace = trace} e
      ∙ final_stays code state' trace' (settles trace (code, state') trace' e)
      ∙ sym e
  | inr (fault, e) ↦
      bind_err (late state) (end_if (minus_one ∷ pos 0 ∷ pos 1 ∷ []) (λ r t. ok (r, t)))
        {trace = trace} e
      ∙ sym e
]

module _ (W : Words) (S : Sids) (system : System) (net : CallRun) (server_sid : Sid)
    (rpc_name first : Bytes) (others : List Bytes) (requirements : ℕ) (state : ClientState)
    (trace : List Effect) where
  -- A transparent call of any server, with parameters of which the first is no path: where an ACK comes
  -- over MDP within ten seconds and nothing else within thirty, the rest of the call is the call
  -- through the Rhizome store, with its result, its table, its effects and its faults. Before it the
  -- packet is broadcast in every round up to the one with the ACK.
  pub rpc_client_call_abandoned :
      (remote : Sid)
      → IsReady W S system server_sid rpc_name net.mdp first others requirements state.rpc_result
          trace
      → is_sid_t_any S server_sid ≡ true
      → is_sid_t_broadcast S server_sid ≡ false
      → 1 ≤ length system.uninit
      → (a : IsAbandoned W S system server_sid rpc_name net.mdp remote)
      → rpc_client_call W S system net server_sid rpc_name
          (length (first ∷ others))
          (map some (first ∷ others))
          requirements
          state
          trace
        ≡ rpc_client_call_rhizome W S system server_sid rpc_name net.if_late
            (length (first ∷ others))
            (map some (first ∷ others))
            requirements
            (record { received = pos 1; rpc_result = no_results })
            (trace
              ++ replicate (length a.quiet + 1) (
                  mdp_send sid_broadcast (
                    sent_packet W S system server_sid rpc_name net.mdp first others requirements
                      state.rpc_result trace)))
  unfolding rpc_client_call
  rpc_client_call_abandoned remote ready anyone direct room a =
      let n = length (first ∷ others) in
      let params = map some (first ∷ others) in
      let rhizome : RhizomeRun → Attempt =
        λ run. rpc_client_call_rhizome W S system server_sid rpc_name run n params requirements in
      let mdp : Exec (ℤ × ClientState) =
        rpc_client_call_mdp W S system server_sid rpc_name net.mdp n params requirements
          (record state { received = pos 0 }) in
      let acked : ClientState = record { received = pos 1; rpc_result = no_results } in
      let ends =
        rpc_client_call_mdp_abandoned W S system server_sid rpc_name net.mdp first others
          requirements state.rpc_result trace remote ready direct room a in
      rw (direct, anyone)
        (bind_ok mdp
            (after_direct (rhizome net.if_unreachable) (rhizome net.if_lost) (rhizome net.if_late))
            {trace = trace} (rw anyone at ends)
          ∙ after_direct-acked (rhizome net.if_unreachable) (rhizome net.if_lost)
              (rhizome net.if_late) acked _
              (rpc_client_call_rhizome-IsFinal W S system server_sid rpc_name net.if_late n params
                requirements acked))
