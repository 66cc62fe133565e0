-- ===== src/CommandLine/Main.antt =====
-- `main` of main.c, over the servers and the calls.
use dtn_rpc.Common.{Bool, List, [], ◌∷◌, if◌then◌else◌, Bytes, codes, take}
use dtn_rpc.Common.Int.{ℤ, pos, negsuc, ◌==ℤ◌, minus_one}
use dtn_rpc.System.{System, Exec, pure, lift, ◌>>=◌}
use dtn_rpc.Serval.{Words, Sids}
use dtn_rpc.Server.Sockets.{Sockets, no_sockets}
use dtn_rpc.Server.Listen.{
  ServerRun, rpc_server_listen, rpc_server_listen_msp, rpc_server_listen_rhizome,
  rpc_server_listen_mdp_broadcast,
}
use dtn_rpc.Client.{RpcResult, no_results, ClientState, rpc_client_result_get_insert_index}
use dtn_rpc.Client.Mdp.{rpc_client_call_mdp}
use dtn_rpc.Client.Msp.{rpc_client_call_msp}
use dtn_rpc.Client.Rhizome.{RhizomeRun, rpc_client_call_rhizome}
use dtn_rpc.Client.Call.{CallRun, rpc_client_call}
use dtn_rpc.CommandLine.{
  check_cli, ServerCommand, listen_msp, listen_mdp, listen_rhizome, listen_all, bad_option,
  too_many, server_command,
}
use dtn_rpc.CommandLine.Call.{
  Call, Way, way_msp, way_rhizome, way_mdp, way_transparent, ClientCommand, bad_sid, no_broadcast,
  bad_way, make, client_command,
}

-- What a run of the program meets.
pub record MainRun : Type 0 where
  pub server_pid : Bool
  -- the memory of the array for the requirements
  pub values : List ℤ
  pub listen : ServerRun
  pub call : CallRun
  -- a call over the Rhizome store alone
  pub store : RhizomeRun

-- The exit status, and the results that are printed.
abbrev pub Exit : Type 0
Exit = ℤ × List RpcResult

-- The global variables at the start.
abbrev pub initial : ClientState
initial = record { received = pos 0; rpc_result = no_results }

-- `for (i = 0; i < num_answers; i++)`: the results that are printed.
abbrev pub printed_results : ℤ → List RpcResult → List RpcResult
printed_results (pos num_answers) table = take num_answers table
printed_results (negsuc n) table = []

module _ (W : Words) (S : Sids) (system : System) (net : MainRun) where
  serve_exit : ℤ × List Bytes → Exec Exit
  serve_exit (code, done_calls) = pure (code, [])

  -- Where sockets were open, too.
  close_exit : (ℤ × List Bytes) × Sockets → Exec Exit
  unfolding serve_exit
  close_exit (end, left) = serve_exit end

  -- The return value of the server is the exit status.
  unfoldable pub run_server : ServerCommand → Exec Exit
  unfolding serve_exit close_exit
  run_server listen_msp = rpc_server_listen_msp W S system net.listen no_sockets 0 [] >>= close_exit
  run_server listen_mdp =
      rpc_server_listen_mdp_broadcast W S system net.listen no_sockets 0 [] >>= close_exit
  run_server listen_rhizome = rpc_server_listen_rhizome W S system net.listen 0 [] >>= serve_exit
  run_server listen_all = rpc_server_listen W S system net.listen no_sockets 0 [] >>= close_exit
  run_server bad_option = pure (minus_one, [])
  run_server too_many = pure (pos 0, [])

  unfoldable pub run_way : Way → Call → Exec (ℤ × ClientState)
  run_way way_msp call =
      rpc_client_call_msp W S system net.call.msp call.sid call.name call.nfields call.params
        call.requirements initial
  run_way way_rhizome call =
      rpc_client_call_rhizome W S system call.sid call.name net.store call.nfields call.params
        call.requirements initial
  run_way way_mdp call =
      rpc_client_call_mdp W S system call.sid call.name net.call.mdp call.nfields call.params
        call.requirements initial
  run_way way_transparent call =
      rpc_client_call W S system net.call call.sid call.name call.nfields call.params
        call.requirements initial

  unfoldable pub call_exit : ℤ × ClientState → Exec Exit
  call_exit (ret_code, state) =
      if ret_code ==ℤ pos 2
      then pure (
        pos 0,
        printed_results (rpc_client_result_get_insert_index S state.rpc_result) state.rpc_result,
      )
      else pure (minus_one, [])

  unfoldable pub run_client : ClientCommand → Exec Exit
  unfolding run_way call_exit
  run_client (make way call) = run_way way call >>= call_exit
  run_client bad_sid = pure (minus_one, [])
  run_client no_broadcast = pure (minus_one, [])
  run_client bad_way = pure (minus_one, [])

  -- A word that is neither for a server nor for a client ends the program with 0.
  unfoldable pub run_arguments : List Bytes → Exec Exit
  unfolding run_server run_client
  run_arguments [] = pure (minus_one, [])
  run_arguments (program ∷ []) = pure (minus_one, [])
  run_arguments (program ∷ word ∷ rest) =
      if check_cli word (codes "listen") (codes "l")
      then run_server (server_command rest)
      else if check_cli word (codes "call") (codes "c")
      then (lift (client_command S net.values (program ∷ word ∷ rest)) >>= run_client)
      else pure (pos 0, [])

  unfoldable pub main : List Bytes → Exec Exit
  unfolding run_arguments
  main argv = if net.server_pid then run_arguments argv else pure (minus_one, [])
