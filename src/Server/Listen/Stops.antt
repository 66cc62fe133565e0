-- ===== src/Server/Listen/Stops.antt =====
-- What ends a listening loop, and what it keeps over its rounds.
use dtn_rpc.Common.{ℕ, ◌==◌, ◌≡◌, refl, ◌∙◌, false, ◌||◌, List, [], ◌∷◌, ltb, if◌then◌else◌, Bytes}
use dtn_rpc.Common.Int.{ℤ, pos, ◌==ℤ◌, minus_one}
use dtn_rpc.Serval.{Words, Sid, Sids}
use dtn_rpc.Result.{ok}
use dtn_rpc.System.{System, Bundle, Effect, Exec, pure}
use dtn_rpc.System.Ensures.{Ensures, ensures-pure, ensures-if, ensures-bind, ensures-then, bind_ok}
use dtn_rpc.Server.{ServerMode, mode_msp, mode_mdp, mode_rhizome, mode_all}
use dtn_rpc.Server.Offering.{rpc_server_offering}
use dtn_rpc.Server.Mdp.{rpc_server_mdp_process}
use dtn_rpc.Server.Rhizome.{rpc_server_rhizome_done, rpc_server_rhizome_process}
use dtn_rpc.Server.Rhizome.AtMostOnce.{
  IsOnce, Grows, same, Grows-trans, IsOnce-Grows, rpc_server_rhizome_process-Grows,
}
use dtn_rpc.Server.Rhizome.OnlyCall.{IsOnlyCall}
use dtn_rpc.Server.Rhizome.CallBundle.{IsCallBundle, call_of}
use dtn_rpc.Server.Rhizome.Unoffered.{rpc_server_rhizome_process_unoffered}
use dtn_rpc.Server.Sockets.{
  Sockets, rpc_server_mdp_setup, rpc_server_mdp_cleanup, rpc_server_msp_setup,
  rpc_server_msp_cleanup,
}
use dtn_rpc.Server.Listen.{
  ServerTick, ServerRun, rpc_server_msp_process, serve_round, serve, serve_until, rpc_server_listen,
  rpc_server_listen_rhizome,
}

module _ (W : Words) (S : Sids) (system : System) where
  serve_round-Grows :
      (mode : ServerMode) (tick : ServerTick) (done_calls : List Bytes)
      → Ensures
          (serve_round W S system mode tick done_calls)
          (λ (running, after). Grows done_calls after)
  unfolding serve_round
  serve_round-Grows mode_msp tick done_calls =
      ensures-then _ (rpc_server_msp_process W S system mode_msp tick.msp) _
        (λ served. ensures-pure _ (if tick.is_signalled then 1 else 0, done_calls) same)
  serve_round-Grows mode_mdp tick done_calls =
      ensures-then _ (rpc_server_mdp_process W S system mode_mdp tick.mdp) _
        (λ served. ensures-pure _ (if tick.is_signalled then 1 else 0, done_calls) same)
  serve_round-Grows mode_rhizome tick done_calls =
      ensures-bind _ _ (rpc_server_rhizome_process W S system tick.store done_calls) _
        (rpc_server_rhizome_process-Grows W S system tick.store done_calls)
        (λ (code, done') grown.
          ensures-pure _ (if (code ==ℤ minus_one) || tick.is_signalled then 1 else 0, done') grown)
  serve_round-Grows mode_all tick done_calls =
      ensures-then _ (rpc_server_msp_process W S system mode_all tick.msp) _ (λ served.
        ensures-then _ (rpc_server_mdp_process W S system mode_all tick.mdp) _ (λ handled.
          ensures-bind _ _ (rpc_server_rhizome_process W S system tick.store done_calls) _
            (rpc_server_rhizome_process-Grows W S system tick.store done_calls)
            (λ (code, done') grown.
              ensures-pure _ (if (code ==ℤ minus_one) || tick.is_signalled then 1 else 0, done')
                grown)))

  serve_until-Grows :
      (mode : ServerMode) (cleanup : Sockets → Sockets) (sockets : Sockets)
      (ticks : List ServerTick) (server_running : ℕ) (done_calls : List Bytes)
      → Ensures
          (serve_until W S system mode cleanup sockets ticks server_running done_calls)
          (λ (end, left). Grows done_calls end.1)
  unfolding serve_until
  serve_until-Grows mode cleanup sockets [] server_running done_calls =
      ensures-if _ (ltb 1 server_running) _ _
        (λ over. ensures-pure _ ((pos 0, done_calls), sockets) same)
        (λ below.
          ensures-if _ (server_running == 1) _ _
            (λ stopped. ensures-pure _ ((pos 0, done_calls), cleanup sockets) same)
            (λ waits trace end trace' e. absurd cc))
  serve_until-Grows mode cleanup sockets (tick ∷ ticks) server_running done_calls =
      ensures-if _ (ltb 1 server_running) _ _
        (λ over. ensures-pure _ ((pos 0, done_calls), sockets) same)
        (λ below.
          ensures-if _ (server_running == 1) _ _
            (λ stopped. ensures-pure _ ((pos 0, done_calls), cleanup sockets) same)
            (λ goes_on.
              ensures-bind _ _ (serve_round W S system mode tick done_calls) _
                (serve_round-Grows mode tick done_calls)
                (λ (running, done') grown trace end trace' e.
                  Grows-trans grown (
                    serve_until-Grows mode cleanup sockets ticks running done' trace end trace'
                      e))))

  -- A whole run of the server that ends without a fault leaves the list of the calls that are done free
  -- of repetitions, if it was before.
  pub rpc_server_listen-IsOnce :
      (net : ServerRun) (sockets left : Sockets) (server_running : ℕ)
      (done_calls after : List Bytes) (trace trace' : List Effect) (code : ℤ)
      → IsOnce done_calls
      → rpc_server_listen W S system net sockets server_running done_calls trace
        ≡ ok (((code, after), left), trace')
      → IsOnce after
  unfolding rpc_server_listen
  rpc_server_listen-IsOnce net sockets left server_running done_calls after trace trace' code once
        e =
      let msp = rpc_server_msp_setup net.calls sockets in
      let mdp = rpc_server_mdp_setup net.calls msp.1 in
      let cleanup : Sockets → Sockets = λ open_ones.
        rpc_server_mdp_cleanup net.calls (rpc_server_msp_cleanup net.calls open_ones) in
      let grown : Grows done_calls after =
        ensures-if (λ (end, left). Grows done_calls end.1) (msp.0 ==ℤ minus_one) _ _
          (λ no_msp. ensures-pure _ ((minus_one, done_calls), msp.1) same)
          (λ with_msp.
            ensures-if (λ (end, left). Grows done_calls end.1) (mdp.0 ==ℤ minus_one) _ _
              (λ no_mdp. ensures-pure _ ((minus_one, done_calls), mdp.1) same)
              (λ with_mdp.
                serve_until-Grows mode_all cleanup mdp.1 net.ticks server_running done_calls))
          trace ((code, after), left) trace' e in
      IsOnce-Grows grown once

  -- A loop whose variable is set ends with 0, whatever rounds there still could be.
  serve_stopped :
      (ticks : List ServerTick) (done_calls : List Bytes) (trace : List Effect)
      → serve W S system ticks 1 done_calls trace ≡ ok ((pos 0, done_calls), trace)
  unfolding serve
  serve_stopped [] done_calls trace = refl
  serve_stopped (tick ∷ ticks) done_calls trace = refl

  -- A call in the store of a procedure that is not offered, where it is the only bundle for this server,
  -- ends the server that listens to the store alone: it does nothing, and the loop is left, whatever
  -- would come in later rounds.
  pub rpc_server_listen_rhizome_unoffered :
      (requirements : ℕ) (name : Bytes) (ps : List Bytes) (net : ServerRun) (tick : ServerTick)
      (later : List ServerTick) (file : Bundle) (caller : Sid) (done_calls : List Bytes)
      (trace : List Effect)
      → net.ticks ≡ tick ∷ later
      → IsCallBundle W S system requirements name ps tick.store file caller
      → IsOnlyCall W S system tick.store file
      → rpc_server_rhizome_done done_calls file.id ≡ false
      → rpc_server_offering system.conf_file (call_of W S system requirements name ps caller) ≡ ok 0
      → rpc_server_listen_rhizome W S system net 0 done_calls trace
        ≡ ok ((pos 0, done_calls), trace)
  unfolding rpc_server_listen_rhizome serve serve_round
  rpc_server_listen_rhizome_unoffered requirements name ps net tick later file caller done_calls
        trace first b only new unoffered =
      let looked =
        rpc_server_rhizome_process_unoffered W S system requirements name ps tick.store file caller
          done_calls trace b only new unoffered in
      let finish : ℤ × List Bytes → Exec (ℕ × List Bytes) =
        λ (code, done'). pure (if (code ==ℤ minus_one) || tick.is_signalled then 1 else 0, done') in
      let served : serve_round W S system mode_rhizome tick done_calls trace
          ≡ ok ((1, done_calls), trace) =
        bind_ok (rpc_server_rhizome_process W S system tick.store done_calls) finish {trace = trace}
          looked in
      let next : ℕ × List Bytes → Exec (ℤ × List Bytes) =
        λ (running, done'). serve W S system later running done' in
      rw first (
        bind_ok (serve_round W S system mode_rhizome tick done_calls) next {trace = trace} served
        ∙ serve_stopped later done_calls trace)
