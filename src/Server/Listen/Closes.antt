-- ===== src/Server/Listen/Closes.antt =====
-- What a run of the server leaves open.
use dtn_rpc.Common.{
  ℕ, ◌≤◌, ◌≡◌, refl, sym, ap, ◌∙◌, ◌≢◌, Bool, true, false, ◌||◌, some, List, [], ◌∷◌, arith, ltb,
  ◌==◌, if◌then◌else◌, Bytes,
}
use dtn_rpc.Common.Int.{ℤ, pos, ◌==ℤ◌, minus_one}
use dtn_rpc.System.{System, Effect, Exec}
use dtn_rpc.Result.{ok}
use dtn_rpc.Serval.{Words, Sids}
use dtn_rpc.System.Ensures.{Ensures, ensures-pure, ensures-if, ensures-bind, ensures-then}
use dtn_rpc.Server.{ServerMode, mode_msp, mode_mdp, mode_rhizome, mode_all}
use dtn_rpc.Server.Mdp.{rpc_server_mdp_process}
use dtn_rpc.Server.Rhizome.{rpc_server_rhizome_process}
use dtn_rpc.Server.Sockets.{
  Sockets, rpc_server_mdp_setup, rpc_server_mdp_cleanup, rpc_server_msp_setup,
  rpc_server_msp_cleanup,
}
use dtn_rpc.Server.Listen.{
  ServerTick, ServerRun, rpc_server_msp_process, serve_round, serve_until, rpc_server_listen,
}

module _ (W : Words) (S : Sids) (system : System) where
  -- The new value of `server_running` behind a look at the store, or behind the other parts alone.
  running_below_two : (stops : Bool) → (if stops then 1 else 0) ≤ 1
  running_below_two true = omega arith
  running_below_two false = omega arith

  -- No round sets `server_running` to 2 or more, whatever its parts return.
  serve_round-below_two :
      (mode : ServerMode) (tick : ServerTick) (done_calls : List Bytes)
      → Ensures (serve_round W S system mode tick done_calls) (λ (running, after). running ≤ 1)
  unfolding serve_round
  serve_round-below_two mode_msp tick done_calls =
      ensures-then _ (rpc_server_msp_process W S system mode_msp tick.msp) _ (λ served.
        ensures-pure _ (if tick.is_signalled then 1 else 0, done_calls)
          (running_below_two tick.is_signalled))
  serve_round-below_two mode_mdp tick done_calls =
      ensures-then _ (rpc_server_mdp_process W S system mode_mdp tick.mdp) _ (λ served.
        ensures-pure _ (if tick.is_signalled then 1 else 0, done_calls)
          (running_below_two tick.is_signalled))
  serve_round-below_two mode_rhizome tick done_calls =
      ensures-then _ (rpc_server_rhizome_process W S system tick.store done_calls) _
        (λ (code, done').
          ensures-pure _ (if (code ==ℤ minus_one) || tick.is_signalled then 1 else 0, done')
            (running_below_two ((code ==ℤ minus_one) || tick.is_signalled)))
  serve_round-below_two mode_all tick done_calls =
      ensures-then _ (rpc_server_msp_process W S system mode_all tick.msp) _ (λ served.
        ensures-then _ (rpc_server_mdp_process W S system mode_all tick.mdp) _ (λ handled.
          ensures-then _ (rpc_server_rhizome_process W S system tick.store done_calls) _
            (λ (code, done').
              ensures-pure _ (if (code ==ℤ minus_one) || tick.is_signalled then 1 else 0, done')
                (running_below_two ((code ==ℤ minus_one) || tick.is_signalled)))))

  -- A loop that is entered with a variable below 2 leaves what the cleanup makes of the sockets.
  serve_until-closes :
      (mode : ServerMode) (cleanup : Sockets → Sockets) (sockets : Sockets)
      (IsLeft : Sockets → Type 0)
      → IsLeft (cleanup sockets)
      → (ticks : List ServerTick) (server_running : ℕ) (done_calls : List Bytes)
      → server_running ≤ 1
      → Ensures
          (serve_until W S system mode cleanup sockets ticks server_running done_calls)
          (λ (end, left). IsLeft left)
  unfolding serve_until
  serve_until-closes mode cleanup sockets IsLeft cleaned [] server_running done_calls low =
      let below : ltb 1 server_running ≡ false = ground arith in
      rw below (
        ensures-if _ (server_running == 1) _ _
          (λ stopped. ensures-pure _ ((pos 0, done_calls), cleanup sockets) cleaned)
          (λ waits trace end trace' e. absurd cc))
  serve_until-closes mode cleanup sockets IsLeft cleaned (tick ∷ ticks) server_running done_calls
        low =
      let below : ltb 1 server_running ≡ false = ground arith in
      rw below (
        ensures-if _ (server_running == 1) _ _
          (λ stopped. ensures-pure _ ((pos 0, done_calls), cleanup sockets) cleaned)
          (λ goes_on.
            ensures-bind _ _ (serve_round W S system mode tick done_calls) _
              (serve_round-below_two mode tick done_calls)
              (λ (running, done') still.
                serve_until-closes mode cleanup sockets IsLeft cleaned ticks running done' still)))

module _ (W : Words) (S : Sids) (system : System) (net : ServerRun) (sockets : Sockets) where
  -- The two calls of `mdp_socket` give two descriptors.
  pub record IsCreated : Type 0 where
    pub msp_fd : ℕ
    pub mdp_fd : ℕ
    pub has_msp : net.calls.msp_socket ≡ some msp_fd
    pub has_mdp : net.calls.mdp_socket ≡ some mdp_fd
    pub distinct : mdp_fd ≢ msp_fd

  -- With both parts set up.
  abbrev with_both : IsCreated → Sockets
  with_both c = record sockets {
    opened = c.mdp_fd ∷ c.msp_fd ∷ sockets.opened;
    mdp_sock = some c.mdp_fd;
    mdp_poll_fd = some c.mdp_fd;
    mdp_fd_msp = some c.msp_fd;
    sock_msp = true;
  }

  abbrev cleanup : Sockets → Sockets
  cleanup open_ones = rpc_server_mdp_cleanup net.calls (rpc_server_msp_cleanup net.calls open_ones)

  rpc_server_listen_up :
      (server_running : ℕ) (done_calls : List Bytes)
      → (c : IsCreated) → net.calls.mdp_binds ≡ true
      → rpc_server_listen W S system net sockets server_running done_calls
        ≡ serve_until W S system mode_all cleanup (with_both c) net.ticks server_running done_calls
  unfolding rpc_server_listen rpc_server_msp_setup rpc_server_mdp_setup
  rpc_server_listen_up server_running done_calls c binds = rw (c.has_msp, c.has_mdp, binds) refl

  cleanup_both :
      (c : IsCreated)
      → ((cleanup (with_both c)).opened ≡ sockets.opened)
        × ((cleanup (with_both c)).sock_msp ≡ false)
  unfolding rpc_server_mdp_cleanup rpc_server_msp_cleanup
  cleanup_both c = (
    rw
        (
          net.calls.mdp_close-other c.msp_fd c.mdp_fd (c.msp_fd ∷ sockets.opened) c.distinct,
          net.calls.mdp_close-same c.msp_fd sockets.opened,
        )
        (net.calls.mdp_close-same c.mdp_fd sockets.opened),
    refl,
  )

  -- A run of the server for all ways that starts with `server_running` at 0, sets up both of its parts
  -- and ends without a fault has closed the descriptors that it opened, and no others, and the MSP part
  -- does not listen any more. That holds whether the signal ends it or a look at the store that fails.
  pub rpc_server_listen_closes :
      (done_calls after : List Bytes) (code : ℤ) (left : Sockets) (trace trace' : List Effect)
      → (c : IsCreated) → net.calls.mdp_binds ≡ true
      → rpc_server_listen W S system net sockets 0 done_calls trace
        ≡ ok (((code, after), left), trace')
      → (left.opened ≡ sockets.opened) × (left.sock_msp ≡ false)
  unfolding serve_until
  rpc_server_listen_closes done_calls after code left trace trace' c binds e =
      let closes : Ensures
          (serve_until W S system mode_all cleanup (with_both c) net.ticks 0 done_calls)
          (λ (end, left). (left.opened ≡ sockets.opened) × (left.sock_msp ≡ false)) =
        serve_until-closes W S system mode_all cleanup (with_both c)
          (λ left. (left.opened ≡ sockets.opened) × (left.sock_msp ≡ false)) (cleanup_both c)
          net.ticks 0 done_calls (omega arith) in
      closes trace ((code, after), left) trace'
        (sym (
            ap (λ (m : Exec ((ℤ × List Bytes) × Sockets)). m trace)
              (rpc_server_listen_up 0 done_calls c binds))
          ∙ e)

  -- A run of the server for all ways that cannot bind the socket for MDP ends with -1 at once, and leaves
  -- both descriptors open, and the MSP part listening.
  pub rpc_server_listen_leaks :
      (server_running : ℕ) (done_calls : List Bytes) (trace : List Effect)
      → (c : IsCreated) → net.calls.mdp_binds ≡ false
      → (left : Sockets) × ((rpc_server_listen W S system net sockets server_running done_calls
              trace
            ≡ ok (((minus_one, done_calls), left), trace))
          × ((left.opened ≡ c.mdp_fd ∷ c.msp_fd ∷ sockets.opened) × (left.sock_msp ≡ true)))
  unfolding rpc_server_listen rpc_server_msp_setup rpc_server_mdp_setup
  rpc_server_listen_leaks server_running done_calls trace c fails = (
    record sockets {
      opened = c.mdp_fd ∷ c.msp_fd ∷ sockets.opened;
      mdp_sock = some c.mdp_fd;
      mdp_fd_msp = some c.msp_fd;
      sock_msp = true;
    },
    (rw (c.has_msp, c.has_mdp, fails) refl, (refl, refl)),
  )
