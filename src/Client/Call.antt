-- ===== src/Client/Call.antt =====
-- `rpc_client_call` of rpc_client.c: the transparent call.
pub mod Outcome
pub mod Unreachable
pub mod Abandoned
use dtn_rpc.Common.{ℕ, ◌||◌, Option, List, [], ◌∷◌, if◌then◌else◌, Bytes}
use dtn_rpc.Common.Int.{ℤ, pos, ◌==ℤ◌, minus_one}
use dtn_rpc.Serval.{Words, Sid, Sids, is_sid_t_broadcast, is_sid_t_any}
use dtn_rpc.System.{System, Exec, pure, ◌>>=◌, ◌>>◌}
use dtn_rpc.Client.{ClientState}
use dtn_rpc.Client.Mdp.{MdpRun, rpc_client_call_mdp}
use dtn_rpc.Client.Rhizome.{RhizomeRun, rpc_client_call_rhizome}
use dtn_rpc.Client.Msp.{MspRun, rpc_client_call_msp}

-- What the calls meet: the direct one, and up to three through the store.
pub record CallRun : Type 0 where
  pub mdp : MdpRun
  pub msp : MspRun
  pub if_unreachable : RhizomeRun
  pub if_lost : RhizomeRun
  pub if_late : RhizomeRun

abbrev pub Attempt : Type 0
Attempt = ClientState → Exec (ℤ × ClientState)

-- `return -1` where the call through the store ends with one of the failures, otherwise the next test.
pub end_if :
    List ℤ → (ℤ × ClientState → Exec (ℤ × ClientState)) → ℤ × ClientState → Exec (ℤ × ClientState)
end_if [] next (code, state) = next (code, state)
end_if (failure ∷ failures) next (code, state) =
    if code ==ℤ failure then pure (minus_one, state) else end_if failures next (code, state)

-- The last test: an ACK came, but no result.
pub after_late : Attempt → ℤ × ClientState → Exec (ℤ × ClientState)
unfolding end_if
after_late rhizome (code, state) =
    if code ==ℤ pos 1
    then (do again ← rhizome state; end_if (minus_one ∷ pos 0 ∷ pos 1 ∷ []) pure again)
    else pure (code, state)

-- The test before it: the call was sent, and nothing came.
pub after_lost : Attempt → Attempt → ℤ × ClientState → Exec (ℤ × ClientState)
unfolding end_if after_late
after_lost rhizome late (code, state) =
    if code ==ℤ pos 0
    then (do again ← rhizome state; end_if (minus_one ∷ pos 0 ∷ []) (after_late late) again)
    else after_late late (code, state)

-- The first test: the call could not be sent.
pub after_direct : Attempt → Attempt → Attempt → ℤ × ClientState → Exec (ℤ × ClientState)
unfolding end_if after_lost
after_direct rhizome lost late (code, state) =
    if code ==ℤ minus_one
    then (do again ← rhizome state; end_if (minus_one ∷ []) (after_lost lost late) again)
    else after_lost lost late (code, state)

module _ (W : Words) (S : Sids) (system : System) (net : CallRun) where
  -- The two branches differ in the direct call alone.
  unfoldable pub rpc_client_call :
      Sid → Bytes → ℕ → List (Option Bytes) → ℕ → ClientState → Exec (ℤ × ClientState)
  unfolding after_direct
  rpc_client_call server_sid rpc_name paramc params requirements state = do
    let fresh_state : ClientState = record state { received = pos 0 }
    let rhizome : RhizomeRun → Attempt =
        λ run. rpc_client_call_rhizome W S system server_sid rpc_name run paramc params requirements
    direct ←
        if is_sid_t_broadcast S server_sid || is_sid_t_any S server_sid
        then rpc_client_call_mdp W S system server_sid rpc_name net.mdp paramc params requirements
            fresh_state
        else rpc_client_call_msp W S system net.msp server_sid rpc_name paramc params requirements
            fresh_state
    after_direct (rhizome net.if_unreachable) (rhizome net.if_lost) (rhizome net.if_late) direct
