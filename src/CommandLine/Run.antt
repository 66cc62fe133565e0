-- ===== src/CommandLine/Run.antt =====
-- `main` with the arguments of a call.
use dtn_rpc.Common.{◌≡◌, refl, true, false, List, [], ◌∷◌, arith, Bytes, codes, replicate}
use dtn_rpc.Common.Int.{pos}
use dtn_rpc.System.{System, Effect, ◌>>=◌}
use dtn_rpc.Result.{ok}
use dtn_rpc.CString.{strn_eq}
use dtn_rpc.Serval.{Words, Sids, is_sid_t_any}
use dtn_rpc.Client.{RpcResult, no_result}
use dtn_rpc.Client.Table.{rpc_client_result_get_insert_index-padded}
use dtn_rpc.CommandLine.{check_cli}
use dtn_rpc.CommandLine.Call.{Call, Way, make, client_command}
use dtn_rpc.CommandLine.Main.{MainRun, run_way, call_exit, run_client, run_arguments, main}

module _ (W : Words) (S : Sids) (system : System) (net : MainRun) where
  -- The arguments are read, and the call is made in their way.
  pub main-call :
      (program : Bytes) (rest : List Bytes) (way : Way) (call : Call) (trace : List Effect)
      → net.server_pid ≡ true
      → client_command S net.values (program ∷ codes "-c" ∷ rest) ≡ ok (make way call)
      → main W S system net (program ∷ codes "-c" ∷ rest) trace
        ≡ (run_way W S system net way call >>= call_exit W S system net) trace
  unfolding main run_arguments run_client check_cli strn_eq
  main-call program rest way call trace running asked = rw (running, asked) refl

  -- A call that ends with 2 and one entry in the table ends the program with 0, and the entry is
  -- printed.
  pub call_exit-first :
      (result : RpcResult) (trace : List Effect)
      → is_sid_t_any S result.server_sid ≡ false
      → call_exit W S system net
          (pos 2, record { received = pos 2; rpc_result = result ∷ replicate 4 no_result })
          trace
        ≡ ok ((pos 0, result ∷ []), trace)
  unfolding call_exit
  call_exit-first result trace entry =
      rw (rpc_client_result_get_insert_index-padded S (result ∷ []) (entry, tt) (omega arith)) refl
