-- ===== src/Client/Mdp/Abandoned.antt =====
-- A direct call over MDP that a server accepts and never answers.
use dtn_rpc.Common.{
  ℕ, ◌+◌, ◌≤◌, ◌<◌, ◌≡◌, refl, ap, ◌∙◌, true, false, List, [], ◌∷◌, ◌++◌, append_assoc, arith, ltb,
  Bytes, length, replicate, All,
}
use dtn_rpc.Common.{append-replicate-snoc}
use dtn_rpc.Common.Int.{pos}
use dtn_rpc.System.{System, Effect, mdp_send}
use dtn_rpc.Result.{ok}
use dtn_rpc.Serval.{Words, Sid, Sids, is_sid_t_broadcast}
use dtn_rpc.Wire.{rpc_pkt_call_ack}
use dtn_rpc.Client.{RpcResult, ClientState}
use dtn_rpc.Client.Mdp.{Tick, MdpRun, call_loop, timed_out, is_waiting}
use dtn_rpc.Client.Mdp.Unanswered.{
  IsQuiet, waiting, destination, call_loop-quiet, sent_packet, called, IsReady,
  rpc_client_call_mdp_starts,
}
use dtn_rpc.Client.Mdp.Answered.{IsIdle, Arrives, acked, call_loop-ack, call_loop-idle}

module _ (W : Words) (S : Sids) (system : System) (server_sid : Sid) (rpc_name : Bytes) where
  -- The rounds of a call that is accepted and not answered: quiet ones, one in which an ACK comes, idle
  -- ones, and one behind the thirty seconds.
  pub record IsAbandoned (net : MdpRun) (remote : Sid) : Type 0 where
    pub quiet : List Tick
    pub ack : Tick
    pub idle : List Tick
    pub last : Tick
    pub later : List Tick
    pub rounds : net.ticks ≡ quiet ++ ack ∷ idle ++ last ∷ later
    pub all_quiet : All IsQuiet quiet
    pub ack_arrives : Arrives W S system server_sid rpc_name 10 remote (rpc_pkt_call_ack ∷ []) ack
    pub all_idle : All (IsIdle W S system server_sid rpc_name) idle
    pub is_late : 30 < last.elapsed

  abbrev acked_state : ClientState
  acked_state = acked W S system server_sid rpc_name

  call_loop-acked_late :
      (last : Tick) (later : List Tick) (payload : Bytes) (trace : List Effect)
      → is_sid_t_broadcast S server_sid ≡ false
      → 30 < last.elapsed
      → call_loop W S system server_sid rpc_name (last ∷ later) payload 30 acked_state trace
        ≡ ok ((pos 1, acked_state), trace)
  unfolding call_loop is_waiting timed_out
  call_loop-acked_late last later payload trace direct late =
      let over : ltb 30 last.elapsed ≡ true = ground arith in rw (over, direct) refl

  -- A call of one server that can be reached, or of any, with parameters of which the first is no
  -- path: where an ACK comes within ten seconds and nothing else within thirty, the first round behind
  -- them ends the call with 1. The packet is sent in every round up to the one with the ACK and no
  -- more, and the table is empty.
  pub rpc_client_call_mdp_abandoned :
      (net : MdpRun) (first : Bytes) (others : List Bytes) (requirements : ℕ)
      (table : List RpcResult) (trace : List Effect) (remote : Sid)
      → IsReady W S system server_sid rpc_name net first others requirements table trace
      → is_sid_t_broadcast S server_sid ≡ false
      → 1 ≤ length system.uninit
      → (a : IsAbandoned net remote)
      → called W S system server_sid rpc_name net first others requirements table trace
        ≡ ok (
          (pos 1, acked_state),
          trace
              ++ replicate (length a.quiet + 1) (
                  mdp_send (destination W S system server_sid rpc_name) (
                    sent_packet W S system server_sid rpc_name net first others requirements table
                      trace)),
        )
  rpc_client_call_mdp_abandoned net first others requirements table trace remote ready direct room
        a =
      let packet =
        sent_packet W S system server_sid rpc_name net first others requirements table trace in
      let dest = destination W S system server_sid rpc_name in
      let sends = trace ++ replicate (length a.quiet) (mdp_send dest packet) in
      rpc_client_call_mdp_starts W S system server_sid rpc_name net first others requirements table
        trace ready
      ∙ ap (λ rounds. call_loop W S system server_sid rpc_name rounds packet 10 waiting trace)
          a.rounds
      ∙ ap (λ rounds. call_loop W S system server_sid rpc_name rounds packet 10 waiting trace)
          (append_assoc a.quiet (a.ack ∷ a.idle) (a.last ∷ a.later))
      ∙ call_loop-quiet W S system server_sid rpc_name a.quiet (a.ack ∷ a.idle ++ a.last ∷ a.later)
          packet trace a.all_quiet
      ∙ call_loop-ack W S system server_sid rpc_name a.ack (a.idle ++ a.last ∷ a.later) remote
          packet sends direct room a.ack_arrives
      ∙ call_loop-idle W S system server_sid rpc_name a.idle (a.last ∷ a.later) packet
          (sends ++ mdp_send dest packet ∷ []) a.all_idle
      ∙ call_loop-acked_late a.last a.later packet (sends ++ mdp_send dest packet ∷ []) direct
          a.is_late
      ∙ ap (λ effects. ok ((pos 1, acked_state), effects))
          (append-replicate-snoc trace (length a.quiet) (mdp_send dest packet))
