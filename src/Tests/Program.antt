-- ===== src/Tests/Program.antt =====
-- The program of main.c from its arguments to its exit status, at concrete inputs.
use dtn_rpc.Common.{◌≡◌, refl, true, some, [], ◌∷◌, ◌++◌, map, Bytes, codes, replicate}
use dtn_rpc.Common.Int.{pos}
use dtn_rpc.System.{mdp_send}
use dtn_rpc.Result.{ok}
use dtn_rpc.CString.{strn_eq}
use dtn_rpc.Serval.{is_sid_t_any}
use dtn_rpc.Serval.Sample.{sample_words, sample_sids}
use dtn_rpc.System.Sample.{sample_system}
use dtn_rpc.Server.{mode_mdp}
use dtn_rpc.Server.Execute.{line_of}
use dtn_rpc.CommandLine.Values.{eight_zeros}
use dtn_rpc.CommandLine.Call.{call_sid}
use dtn_rpc.CommandLine.Main.{MainRun, main}
use dtn_rpc.RemoteCall.Program.{main-remote_call}
use dtn_rpc.Tests.Descriptors.{both_sockets}
use dtn_rpc.Tests.Client.{net, no_store}
use dtn_rpc.Tests.Mdp.{server_1, add_packet, call_ready}
use dtn_rpc.Tests.RemoteCall.{
  client_5, server_host, hosts_work, server_effects, server_handles, conversation, client_hears,
}

abbrev run_of_main : MainRun
run_of_main = record {
  server_pid = true;
  values = map pos (replicate 8 5);
  listen = record { calls = both_sockets; ticks = [] };
  call = record net { mdp = conversation };
  store = no_store;
}

-- The identifier of the server as it is typed.
abbrev typed_sid : Bytes
typed_sid = replicate 32 2

typed_server : call_sid sample_sids typed_sid ≡ some server_1
unfolding call_sid strn_eq
typed_server = refl

main-remote_call_example :
    main sample_words sample_sids sample_system run_of_main
      (codes "dtnrpc"
        ∷ codes "-c"
        ∷ codes "-d"
        ∷ codes "--"
        ∷ typed_sid
        ∷ codes "add"
        ∷ codes "1"
        ∷ codes "2"
        ∷ codes "0,0,0,0,0,0,0,0"
        ∷ [])
      []
    ≡ ok (
      (pos 0, record { server_sid = server_1; content = codes "3\n" ++ replicate 958 0 } ∷ []),
      mdp_send server_1 add_packet ∷ mdp_send server_1 add_packet ∷ [],
    )
unfolding is_sid_t_any line_of
main-remote_call_example =
    main-remote_call sample_words sample_sids sample_sids sample_system server_host mode_mdp
      client_5 server_1 (codes "add") (codes "1") (codes "2" ∷ []) (replicate 8 0) b'3' (codes "\n")
      run_of_main (codes "dtnrpc") typed_sid server_effects (pos 0) refl refl refl eight_zeros
      typed_server refl hosts_work (call_ready conversation refl refl) server_handles client_hears
