-- ===== src/Client/Call/Outcome.antt =====
-- The results of `rpc_client_call` of rpc_client.c.
use dtn_rpc.Common.{ℕ, ◌≡◌, refl, ◌≢◌, true, ◌||◌, Option, List, [], ◌∷◌, if◌then◌else◌, Bytes}
use dtn_rpc.Common.Int.{ℤ, pos, ◌==ℤ◌, minus_one, ==ℤ_iff}
use dtn_rpc.Serval.{Words, Sid, Sids, is_sid_t_broadcast, is_sid_t_any}
use dtn_rpc.Result.{ok}
use dtn_rpc.System.{System, Effect, Exec, pure}
use dtn_rpc.System.Ensures.{Ensures, ensures-pure, ensures-if, ensures-bind}
use dtn_rpc.Client.{ClientState}
use dtn_rpc.Client.Codes.{IsFinal, failed, IsCode, final, lost, late}
use dtn_rpc.Client.Mdp.{rpc_client_call_mdp}
use dtn_rpc.Client.Mdp.Outcome.{rpc_client_call_mdp-IsCode}
use dtn_rpc.Client.Rhizome.{RhizomeRun, rpc_client_call_rhizome}
use dtn_rpc.Client.Rhizome.Outcome.{rpc_client_call_rhizome-IsFinal}
use dtn_rpc.Client.Msp.{rpc_client_call_msp}
use dtn_rpc.Client.Msp.Outcome.{rpc_client_call_msp-IsCode}
use dtn_rpc.Client.Call.{
  CallRun, Attempt, end_if, after_late, after_lost, after_direct, rpc_client_call,
}

-- An attempt that ends with -1 or 2.
abbrev Settles : Attempt → Type 0
Settles attempt = (state : ClientState) → Ensures (attempt state) (λ (code, state'). IsFinal code)

-- The tests behind an attempt leave its final results as they are.
end_if-IsFinal :
    (failures : List ℤ) (next : ℤ × ClientState → Exec (ℤ × ClientState)) (code : ℤ)
    (state : ClientState)
    → Ensures (next (code, state)) (λ (code, state'). IsFinal code)
    → Ensures (end_if failures next (code, state)) (λ (code, state'). IsFinal code)
unfolding end_if
end_if-IsFinal [] next code state h = h
end_if-IsFinal (failure ∷ failures) next code state h =
    ensures-if _ (code ==ℤ failure) _ _ (λ fails. ensures-pure _ (minus_one, state) failed)
      (λ passes. end_if-IsFinal failures next code state h)

after_late-IsFinal :
    (late_attempt : Attempt) (code : ℤ) (state : ClientState)
    → Settles late_attempt
    → (code ≢ pos 1 → IsFinal code)
    → Ensures (after_late late_attempt (code, state)) (λ (code, state'). IsFinal code)
unfolding after_late
after_late-IsFinal late_attempt code state settles h =
    ensures-if _ (code ==ℤ pos 1) _ _
      (λ is_late.
        ensures-bind _ _ (late_attempt state) _ (settles state) (λ (code', state') final_code.
          end_if-IsFinal (minus_one ∷ pos 0 ∷ pos 1 ∷ []) pure code' state'
            (ensures-pure _ (code', state') final_code)))
      (λ other.
        ensures-pure _ (code, state)
          (h (λ e. let same : (code ==ℤ pos 1) ≡ true = (==ℤ_iff code (pos 1)).1 e in absurd cc)))

IsFinal-not_late : {code : ℤ} → IsCode code → code ≢ pos 0 → code ≢ pos 1 → IsFinal code
IsFinal-not_late (final h) ne_lost ne_late = h
IsFinal-not_late lost ne_lost ne_late = absurd (ne_lost refl)
IsFinal-not_late late ne_lost ne_late = absurd (ne_late refl)

after_lost-IsFinal :
    (lost_attempt late_attempt : Attempt) (code : ℤ) (state : ClientState)
    → Settles lost_attempt
    → Settles late_attempt
    → (code ≢ pos 0 → code ≢ pos 1 → IsFinal code)
    → Ensures (after_lost lost_attempt late_attempt (code, state)) (λ (code, state'). IsFinal code)
unfolding after_lost
after_lost-IsFinal lost_attempt late_attempt code state settles settles_late h =
    ensures-if _ (code ==ℤ pos 0) _ _
      (λ is_lost.
        ensures-bind _ _ (lost_attempt state) _ (settles state) (λ (code', state') final_code.
          end_if-IsFinal (minus_one ∷ pos 0 ∷ []) (after_late late_attempt) code' state'
            (after_late-IsFinal late_attempt code' state' settles_late (λ ne. final_code))))
      (λ other.
        after_late-IsFinal late_attempt code state settles_late
          (h (λ e. let same : (code ==ℤ pos 0) ≡ true = (==ℤ_iff code (pos 0)).1 e in absurd cc)))

after_direct-IsFinal :
    (attempt lost_attempt late_attempt : Attempt) (code : ℤ) (state : ClientState)
    → Settles attempt
    → Settles lost_attempt
    → Settles late_attempt
    → IsCode code
    → Ensures
        (after_direct attempt lost_attempt late_attempt (code, state))
        (λ (code, state'). IsFinal code)
unfolding after_direct
after_direct-IsFinal attempt lost_attempt late_attempt code state settles settles_lost settles_late
      h =
    ensures-if _ (code ==ℤ minus_one) _ _
      (λ fails. ensures-bind _ _ (attempt state) _ (settles state) (λ (code', state') final_code.
        end_if-IsFinal (minus_one ∷ []) (after_lost lost_attempt late_attempt) code' state' (
          after_lost-IsFinal lost_attempt late_attempt code' state' settles_lost settles_late
            (λ ne ne'. final_code))))
      (λ other.
        after_lost-IsFinal lost_attempt late_attempt code state settles_lost settles_late
          (IsFinal-not_late h))

module _ (W : Words) (S : Sids) (system : System) (net : CallRun) where
  -- A transparent call that does not fault and does not run out of rounds ends with -1 or 2,
  -- whichever way it took: the results 0 and 1 of a direct call never reach the caller.
  pub rpc_client_call-IsFinal :
      (server_sid : Sid) (rpc_name : Bytes) (paramc : ℕ) (params : List (Option Bytes))
      (requirements : ℕ) (state state' : ClientState) (trace trace' : List Effect) (code : ℤ)
      → rpc_client_call W S system net server_sid rpc_name paramc params requirements state trace
        ≡ ok ((code, state'), trace')
      → IsFinal code
  unfolding rpc_client_call
  rpc_client_call-IsFinal server_sid rpc_name paramc params requirements state state' trace trace'
        code e =
      let started : ClientState = record state { received = pos 0 } in
      let rhizome : RhizomeRun → Attempt = λ run.
        rpc_client_call_rhizome W S system server_sid rpc_name run paramc params requirements in
      let settles : (run : RhizomeRun) → Settles (rhizome run) = λ run.
        rpc_client_call_rhizome-IsFinal W S system server_sid rpc_name run paramc params
          requirements in
      ensures-bind (λ (code, state'). IsCode code) (λ (code, state'). IsFinal code)
        (if is_sid_t_broadcast S server_sid || is_sid_t_any S server_sid
          then rpc_client_call_mdp W S system server_sid rpc_name net.mdp paramc params requirements
              started
          else rpc_client_call_msp W S system net.msp server_sid rpc_name paramc params requirements
              started)
        (after_direct (rhizome net.if_unreachable) (rhizome net.if_lost) (rhizome net.if_late))
        (ensures-if _ (is_sid_t_broadcast S server_sid || is_sid_t_any S server_sid) _ _
          (λ everyone.
            rpc_client_call_mdp-IsCode W S system server_sid rpc_name net.mdp paramc params
              requirements started lost)
          (λ single.
            rpc_client_call_msp-IsCode W S system net.msp server_sid rpc_name paramc params
              requirements started lost))
        (λ (code, next) h.
          after_direct-IsFinal (rhizome net.if_unreachable) (rhizome net.if_lost)
            (rhizome net.if_late) code next (settles net.if_unreachable) (settles net.if_lost)
            (settles net.if_late) h)
        trace (code, state') trace' e
