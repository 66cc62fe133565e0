-- ===== src/Server/Listen.antt =====
-- The listening loops of rpc_server.c, and `_rpc_server_msp_process` of rpc_server_msp.c that they
-- call.
pub mod Stops
pub mod Once
pub mod Closes
use dtn_rpc.Common.{ℕ, ◌==◌, Bool, not, ◌||◌, Option, List, [], ◌∷◌, ltb, if◌then◌else◌, Bytes}
use dtn_rpc.Common.Int.{ℤ, pos, ◌==ℤ◌, minus_one}
use dtn_rpc.Serval.{Words, Sids}
use dtn_rpc.Result.{err, out_of_fuel}
use dtn_rpc.System.{System, Poll, Exec, pure, lift, ◌>>=◌, ◌>>◌}
use dtn_rpc.Server.{ServerMode, mode_msp, mode_mdp, mode_rhizome, mode_all}
use dtn_rpc.Server.Msp.{MspSocket, rpc_server_msp_handler}
use dtn_rpc.Server.Mdp.{MdpPacket, rpc_server_mdp_process}
use dtn_rpc.Server.Rhizome.{rpc_server_rhizome_process}
use dtn_rpc.Server.Sockets.{
  SocketCalls, Sockets, rpc_server_mdp_setup, rpc_server_mdp_cleanup, rpc_server_msp_setup,
  rpc_server_msp_cleanup,
}

-- A call of the handler by Serval.
pub record MspCall : Type 0 where
  pub sock : MspSocket
  pub state : ℕ
  pub payload : Option Bytes
  pub len : ℕ

-- One round of a loop: what the three parts find, and whether the signal to stop comes in it.
pub record ServerTick : Type 0 where
  pub msp : List MspCall
  pub mdp : Option (Option MdpPacket)
  pub store : Poll
  pub is_signalled : Bool

pub record ServerRun : Type 0 where
  pub calls : SocketCalls
  pub ticks : List ServerTick

module _ (W : Words) (S : Sids) (system : System) where
  -- `msp_recv` calls the handler for what has arrived.
  pub rpc_server_msp_process : ServerMode → List MspCall → Exec (Unit {0})
  rpc_server_msp_process mode [] = pure tt
  rpc_server_msp_process mode (call ∷ calls) = do
    rpc_server_msp_handler W S system mode call.sock call.state call.payload call.len
    rpc_server_msp_process mode calls

  -- The parts that a mode processes: the new value of `server_running`, and the calls that are done.
  pub serve_round : ServerMode → ServerTick → List Bytes → Exec (ℕ × List Bytes)
  unfolding rpc_server_msp_process
  serve_round mode_msp tick done_calls = do
    rpc_server_msp_process mode_msp tick.msp
    pure (if tick.is_signalled then 1 else 0, done_calls)
  serve_round mode_mdp tick done_calls = do
    rpc_server_mdp_process W S system mode_mdp tick.mdp
    pure (if tick.is_signalled then 1 else 0, done_calls)
  serve_round mode_rhizome tick done_calls = do
    (code, done') ← rpc_server_rhizome_process W S system tick.store done_calls
    pure (if (code ==ℤ minus_one) || tick.is_signalled then 1 else 0, done')
  serve_round mode_all tick done_calls = do
    rpc_server_msp_process mode_all tick.msp
    rpc_server_mdp_process W S system mode_all tick.mdp
    (code, done') ← rpc_server_rhizome_process W S system tick.store done_calls
    pure (if (code ==ℤ minus_one) || tick.is_signalled then 1 else 0, done')

  -- `while (server_running < 1)`, the loop of the server that listens to the store alone.
  pub serve : List ServerTick → ℕ → List Bytes → Exec (ℤ × List Bytes)
  unfolding serve_round
  serve [] server_running done_calls =
      if ltb 0 server_running then pure (pos 0, done_calls) else lift (err out_of_fuel)
  serve (tick ∷ ticks) server_running done_calls =
      if ltb 0 server_running then pure (pos 0, done_calls) else (do
        (running, done') ← serve_round mode_rhizome tick done_calls
        serve ticks running done')

  -- `while (server_running < 2)`: a variable of 1 at the start of a round is the cleanup and `break`, and
  -- one of 2 or more ends the loop without a cleanup.
  pub serve_until :
      ServerMode
      → (Sockets → Sockets)
      → Sockets
      → List ServerTick
      → ℕ
      → List Bytes
      → Exec ((ℤ × List Bytes) × Sockets)
  unfolding serve_round
  serve_until mode cleanup sockets [] server_running done_calls =
      if ltb 1 server_running
      then pure ((pos 0, done_calls), sockets)
      else if server_running == 1
      then pure ((pos 0, done_calls), cleanup sockets)
      else lift (err out_of_fuel)
  serve_until mode cleanup sockets (tick ∷ ticks) server_running done_calls =
      if ltb 1 server_running
      then pure ((pos 0, done_calls), sockets)
      else if server_running == 1
      then pure ((pos 0, done_calls), cleanup sockets)
      else (do
        (running, done') ← serve_round mode tick done_calls
        serve_until mode cleanup sockets ticks running done')

  -- What is returned, the calls that are done, and the sockets.
  unfoldable pub rpc_server_listen :
      ServerRun → Sockets → ℕ → List Bytes → Exec ((ℤ × List Bytes) × Sockets)
  unfolding serve_until
  rpc_server_listen net sockets server_running done_calls =
      let (msp_code, with_msp) = rpc_server_msp_setup net.calls sockets in
      let (mdp_code, with_both) = rpc_server_mdp_setup net.calls with_msp in
      let cleanup : Sockets → Sockets = λ open_ones.
        rpc_server_mdp_cleanup net.calls (rpc_server_msp_cleanup net.calls open_ones) in
      if msp_code ==ℤ minus_one
      then pure ((minus_one, done_calls), with_msp)
      else if mdp_code ==ℤ minus_one
      then pure ((minus_one, done_calls), with_both)
      else serve_until mode_all cleanup with_both net.ticks server_running done_calls

  unfoldable pub rpc_server_listen_msp :
      ServerRun → Sockets → ℕ → List Bytes → Exec ((ℤ × List Bytes) × Sockets)
  unfolding serve_until
  rpc_server_listen_msp net sockets server_running done_calls =
      let (msp_code, with_msp) = rpc_server_msp_setup net.calls sockets in
      if msp_code ==ℤ minus_one
      then pure ((minus_one, done_calls), with_msp)
      else serve_until mode_msp (rpc_server_msp_cleanup net.calls) with_msp net.ticks server_running
          done_calls

  -- No socket is opened.
  unfoldable pub rpc_server_listen_rhizome : ServerRun → ℕ → List Bytes → Exec (ℤ × List Bytes)
  unfolding serve
  rpc_server_listen_rhizome net server_running done_calls =
      serve net.ticks server_running done_calls

  unfoldable pub rpc_server_listen_mdp_broadcast :
      ServerRun → Sockets → ℕ → List Bytes → Exec ((ℤ × List Bytes) × Sockets)
  unfolding serve_until
  rpc_server_listen_mdp_broadcast net sockets server_running done_calls =
      let (mdp_code, with_mdp) = rpc_server_mdp_setup net.calls sockets in
      if mdp_code ==ℤ minus_one
      then pure ((minus_one, done_calls), with_mdp)
      else serve_until mode_mdp (rpc_server_mdp_cleanup net.calls) with_mdp net.ticks server_running
          done_calls
