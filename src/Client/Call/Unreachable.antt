-- ===== src/Client/Call/Unreachable.antt =====
-- The way of `rpc_client_call` of rpc_client.c to a server that cannot be reached.
use dtn_rpc.Common.{ℕ, ◌≡◌, refl, sym, ◌∙◌, inl, inr, false, ◌||◌, Option, List, [], ◌∷◌, Bytes}
use dtn_rpc.Common.Int.{ℤ, pos, minus_one, truth}
use dtn_rpc.System.{System, Effect}
use dtn_rpc.Result.{ok}
use dtn_rpc.Serval.{Words, Sid, Sids, is_sid_t_broadcast, is_sid_t_any}
use dtn_rpc.System.Ensures.{Ensures, bind_ok, bind_err, Result-cases}
use dtn_rpc.Reachable.{rpc_sid_is_reachable}
use dtn_rpc.Client.{ClientState}
use dtn_rpc.Client.Codes.{IsFinal, failed, answered}
use dtn_rpc.Client.Msp.{rpc_client_call_msp}
use dtn_rpc.Client.Rhizome.{RhizomeRun, rpc_client_call_rhizome}
use dtn_rpc.Client.Rhizome.Outcome.{rpc_client_call_rhizome-IsFinal}
use dtn_rpc.Client.Call.{
  CallRun, Attempt, end_if, after_late, after_lost, after_direct, rpc_client_call,
}

-- The tests behind the first attempt pass a final result on.
final_stays :
    (lost late : Attempt) (code : ℤ) (state : ClientState) (trace : List Effect)
    → IsFinal code
    → end_if (minus_one ∷ []) (after_lost lost late) (code, state) trace ≡ ok ((code, state), trace)
unfolding end_if after_lost after_late
final_stays lost late code state trace failed = refl
final_stays lost late code state trace answered = refl

-- Behind a direct call that could not be made, an attempt through the store that ends with a final
-- result is the whole call.
after_direct-failed :
    (rhizome lost late : Attempt) (state : ClientState) (trace : List Effect)
    → Ensures (rhizome state) (λ (code, state'). IsFinal code)
    → after_direct rhizome lost late (minus_one, state) trace ≡ rhizome state trace
unfolding after_direct
after_direct-failed rhizome lost late state trace settles =
    elim (Result-cases (rhizome state trace)) [
      | inl (((code, state'), trace'), e) ↦
          bind_ok (rhizome state) (end_if (minus_one ∷ []) (after_lost lost late)) {trace = trace} e
          ∙ final_stays lost late code state' trace' (settles trace (code, state') trace' e)
          ∙ sym e
      | inr (fault, e) ↦
          bind_err (rhizome state) (end_if (minus_one ∷ []) (after_lost lost late)) {trace = trace}
            e
          ∙ sym e
    ]

-- A transparent call of one server that cannot be reached is the call through the Rhizome store,
-- whatever comes of that: the same result, the same table, the same effects and the same faults, and
-- no further attempt.
pub rpc_client_call_unreachable :
    (W : Words) (S : Sids) (system : System) (net : CallRun) (server_sid : Sid) (rpc_name : Bytes)
    (paramc : ℕ) (params : List (Option Bytes)) (requirements : ℕ) (state : ClientState)
    (trace : List Effect)
    → (is_sid_t_broadcast S server_sid || is_sid_t_any S server_sid) ≡ false
    → truth (rpc_sid_is_reachable S system server_sid) ≡ false
    → rpc_client_call W S system net server_sid rpc_name paramc params requirements state trace
      ≡ rpc_client_call_rhizome W S system server_sid rpc_name net.if_unreachable paramc params
          requirements
          (record state { received = pos 0 })
          trace
unfolding rpc_client_call rpc_client_call_msp
rpc_client_call_unreachable W S system net server_sid rpc_name paramc params requirements state
      trace single away =
    let rhizome : RhizomeRun → Attempt = λ run.
      rpc_client_call_rhizome W S system server_sid rpc_name run paramc params requirements in
    rw (single, away)
      (after_direct-failed (rhizome net.if_unreachable) (rhizome net.if_lost) (rhizome net.if_late)
        (record state { received = pos 0 }) trace
        (rpc_client_call_rhizome-IsFinal W S system server_sid rpc_name net.if_unreachable paramc
          params requirements (record state { received = pos 0 })))
