-- ===== src/Client/Rhizome/Unanswered.antt =====
-- A call through the Rhizome store that no server answers.
use dtn_rpc.Common.{
  ℕ, ◌<◌, ◌≡◌, refl, ap, ◌∙◌, inl, inr, true, none, some, List, [], ◌∷◌, ◌++◌, arith, ltb,
  Bool-cases, Bytes, All,
}
use dtn_rpc.Common.Int.{pos, minus_one}
use dtn_rpc.System.{System, Effect}
use dtn_rpc.Result.{ok}
use dtn_rpc.Serval.{Words, Sid, Sids, is_sid_t_broadcast}
use dtn_rpc.Client.{ClientState, no_results}
use dtn_rpc.Client.Table.{rpc_client_result_get_insert_index-padded}
use dtn_rpc.Client.Mdp.{is_positive}
use dtn_rpc.Client.Rhizome.{StoreTick, RhizomeRun, timed_out, listen_loop}
use dtn_rpc.Client.Rhizome.Listing.{listening}
use dtn_rpc.Client.Rhizome.Looks.{IsVain, listen_loop-vain}
use dtn_rpc.Client.Rhizome.Posted.{
  IsFirst, listen_loop-first, post_call, called, IsReady, rpc_client_call_rhizome-listens,
}

module _ (W : Words) (S : Sids) (system : System) (sid : Sid) (rpc_name : Bytes) where
  module _ (net : RhizomeRun) (first : Bytes) (others : List Bytes) (requirements : ℕ)
      (state : ClientState) (trace : List Effect) where
    -- The rounds of a call that no bundle answers, up to one behind the twenty seconds.
    pub record IsUnanswered : Type 0 where
      pub look : StoreTick
      pub vain : List StoreTick
      pub last : StoreTick
      pub rounds : net.ticks ≡ look ∷ (vain ++ last ∷ [])
      pub is_first : IsFirst W S system sid rpc_name look
      pub all_vain : All (IsVain W S system sid rpc_name 20) vain
      pub late : 20 < last.elapsed

    listen_loop-late :
        (last : StoreTick) (token : Bytes) (trace' : List Effect)
        → 20 < last.elapsed
        → listen_loop W S system sid rpc_name
            (last ∷ [])
            (listening minus_one 20 (some token))
            trace'
          ≡ ok (listening minus_one 20 (some token), trace')
    unfolding listen_loop timed_out is_positive
    listen_loop-late last token trace' late =
        let over : ltb 20 last.elapsed ≡ true = ground arith in
        let none_yet = rpc_client_result_get_insert_index-padded S [] tt (omega arith) in
        rw (over, none_yet)
          (elim (Bool-cases (is_sid_t_broadcast S sid)) [
            | inl everyone ↦ rw everyone refl
            | inr single ↦ rw single refl
          ])

    -- A call through the Rhizome store, of one server or of all, with parameters of which the first is
    -- no path: where the looks at the store find bundles for others alone, for twenty seconds, the
    -- packet of the call is posted once, and the call ends with -1 and an empty table. A bundle whose
    -- recipient is not this host is one for others, also where it is for all.
    pub rpc_client_call_rhizome_unanswered :
        IsReady W S system sid rpc_name net first others requirements state trace
        → IsUnanswered
        → called W S system sid rpc_name net first others requirements state trace
          ≡ ok (
            (minus_one, record { received = pos 0; rpc_result = no_results }),
            trace
                ++ post_call W S system sid rpc_name net first others requirements state trace ∷ [],
          )
    rpc_client_call_rhizome_unanswered r u =
        let acted =
          trace
          ++ post_call W S system sid rpc_name net first others requirements state trace ∷ [] in
        let (token, passed) =
          listen_loop-vain W S system sid rpc_name u.vain (u.last ∷ []) minus_one 20
            u.is_first.is_other.token acted u.all_vain in
        rpc_client_call_rhizome-listens W S system sid rpc_name net first others requirements state
          trace (listening minus_one 20 (some token)) acted r
          (ap
              (λ ticks.
                listen_loop W S system sid rpc_name ticks (listening minus_one 20 none) acted)
              u.rounds
            ∙ listen_loop-first W S system sid rpc_name u.look (u.vain ++ u.last ∷ []) acted
                u.is_first
            ∙ passed
            ∙ listen_loop-late u.last token acted u.late)
