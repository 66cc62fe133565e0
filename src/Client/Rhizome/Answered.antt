-- ===== src/Client/Rhizome/Answered.antt =====
-- A call through the Rhizome store that its server answers.
use dtn_rpc.Common.{
  ℕ, ◌≤◌, ◌≡◌, ap, ◌∙◌, false, Option, none, List, [], ◌∷◌, ◌++◌, Bytes, length, All,
}
use dtn_rpc.Common.Int.{pos, minus_one}
use dtn_rpc.System.{System, Effect}
use dtn_rpc.Result.{ok}
use dtn_rpc.CString.{c_string}
use dtn_rpc.Serval.{Words, Sid, Sids, is_sid_t_broadcast}
use dtn_rpc.Wire.{rpc_pkt_call_ack, rpc_pkt_call_response, rpc_pkt_size}
use dtn_rpc.Filehash.{rpc_str_is_filehash}
use dtn_rpc.Client.{ClientState}
use dtn_rpc.Client.Answers.Direct.{answered_table}
use dtn_rpc.Client.Rhizome.{StoreTick, RhizomeRun, listen_loop}
use dtn_rpc.Client.Rhizome.Listing.{listening}
use dtn_rpc.Client.Rhizome.Looks.{IsVain, listen_loop-vain}
use dtn_rpc.Client.Rhizome.Found.{IsFound, listen_loop-ack, listen_loop-result}
use dtn_rpc.Client.Rhizome.Posted.{
  IsFirst, listen_loop-first, post_call, called, IsReady, rpc_client_call_rhizome-listens,
}

module _ (W : Words) (S : Sids) (system : System) (sid : Sid) (rpc_name : Bytes) where
  -- The rounds of a call with two answers of `remote`, one within twenty seconds, and the other within
  -- two minutes.
  pub record IsAnswered (net : RhizomeRun) (remote : Sid) (early late : Bytes) : Type 0 where
    pub first : StoreTick
    pub vain : List StoreTick
    pub ack : StoreTick
    pub idle : List StoreTick
    pub result : StoreTick
    pub later : List StoreTick
    pub rounds : net.ticks ≡ first ∷ (vain ++ ack ∷ (idle ++ result ∷ later))
    pub is_first : IsFirst W S system sid rpc_name first
    pub all_vain : All (IsVain W S system sid rpc_name 20) vain
    pub finds_ack : IsFound W S system sid rpc_name 20 remote early ack
    pub all_idle : All (IsVain W S system sid rpc_name 120) idle
    pub finds_result : IsFound W S system sid rpc_name 120 remote late result

  listen_loop-answered :
      (net : RhizomeRun) (remote : Sid) (rest body text : Bytes) (trace : List Effect)
      → is_sid_t_broadcast S sid ≡ false
      → length body ≤ rpc_pkt_size
      → c_string body ≡ ok text
      → rpc_str_is_filehash text ≡ false
      → IsAnswered net remote (rpc_pkt_call_ack ∷ rest) (rpc_pkt_call_response ∷ body)
      → (token : Option Bytes) × (listen_loop W S system sid rpc_name net.ticks
            (listening minus_one 20 none)
            trace
          ≡ ok (
            record {
              return_code = pos 2;
              token = token;
              wait_time = 120;
              received = pos 1;
              rpc_result = answered_table remote body;
            },
            trace,
          ))
  listen_loop-answered net remote rest body text trace direct fits reads no_file a =
      let tail = a.idle ++ a.result ∷ a.later in
      let start = a.is_first.is_other.token in
      let (t₁, e₁) =
        listen_loop-vain W S system sid rpc_name a.vain (a.ack ∷ tail) minus_one 20 start trace
          a.all_vain in
      let (t₂, e₂) =
        listen_loop-ack W S system sid rpc_name a.ack tail minus_one t₁ remote rest trace direct
          a.finds_ack in
      let (t₃, e₃) =
        listen_loop-vain W S system sid rpc_name a.idle (a.result ∷ a.later) (pos 1) 120 t₂ trace
          a.all_idle in
      let (t₄, e₄) =
        listen_loop-result W S system sid rpc_name a.result a.later (pos 1) 120 t₃ remote body text
          trace direct fits reads no_file a.finds_result in
      (
        t₄,
        ap (λ ticks. listen_loop W S system sid rpc_name ticks (listening minus_one 20 none) trace)
              a.rounds
            ∙ listen_loop-first W S system sid rpc_name a.first (a.vain ++ a.ack ∷ tail) trace
                a.is_first
            ∙ e₁
            ∙ e₂
            ∙ e₃
            ∙ e₄,
      )

  module _ (net : RhizomeRun) (first : Bytes) (others : List Bytes) (requirements : ℕ)
      (state : ClientState) (trace : List Effect) where
    -- A call of one server through the Rhizome store, with parameters of which the first is no path:
    -- the packet of the call is posted once. If the looks at the store find an ACK of a server within
    -- twenty seconds and its result within two minutes, and only bundles for others besides, the call
    -- ends with 2, and the first entry of the table has the server and the bytes of the result, whose
    -- text is no file hash.
    pub rpc_client_call_rhizome_answered :
        (remote : Sid) (rest body text : Bytes)
        → IsReady W S system sid rpc_name net first others requirements state trace
        → is_sid_t_broadcast S sid ≡ false
        → length body ≤ rpc_pkt_size
        → c_string body ≡ ok text
        → rpc_str_is_filehash text ≡ false
        → IsAnswered net remote (rpc_pkt_call_ack ∷ rest) (rpc_pkt_call_response ∷ body)
        → called W S system sid rpc_name net first others requirements state trace
          ≡ ok (
            (pos 2, record { received = pos 1; rpc_result = answered_table remote body }),
            trace
                ++ post_call W S system sid rpc_name net first others requirements state trace ∷ [],
          )
    rpc_client_call_rhizome_answered remote rest body text r direct fits reads no_file a =
        let (token, ends) =
          listen_loop-answered net remote rest body text
            (trace
              ++ post_call W S system sid rpc_name net first others requirements state trace ∷ [])
            direct fits reads no_file a in
        rpc_client_call_rhizome-listens W S system sid rpc_name net first others requirements state
          trace _ _ r ends
