-- ===== src/Tests/Stored.antt =====
-- A call from end to end through the Rhizome store at concrete inputs.
use dtn_rpc.Common.{
  ℕ, ◌≡◌, refl, false, some, List, [], ◌∷◌, ◌++◌, arith, codes, replicate, length-replicate,
}
use dtn_rpc.Common.Int.{pos}
use dtn_rpc.System.{Effect, run, insert_bytes}
use dtn_rpc.Result.{ok}
use dtn_rpc.CString.{str_eq}
use dtn_rpc.Memory.{memcpy}
use dtn_rpc.Serval.Sample.{sample_words, sample_sids, sample_sid}
use dtn_rpc.System.Sample.{sample_system}
use dtn_rpc.Client.{no_result}
use dtn_rpc.Client.Rhizome.{rpc_client_call_rhizome}
use dtn_rpc.Server.Execute.{line_of}
use dtn_rpc.Server.Execute.Payload.{printed_payload}
use dtn_rpc.Server.Answer.{ack_payload}
use dtn_rpc.Server.SendResult.{result_manifest}
use dtn_rpc.Server.SendResult.Whole.{posted}
use dtn_rpc.Server.Rhizome.{
  rpc_server_rhizome_done, rpc_server_rhizome_finished, rpc_server_rhizome_process,
}
use dtn_rpc.Server.Rhizome.Session.{rpc_server_rhizome_process_serves}
use dtn_rpc.RemoteCall.Transparent.{remote_call_transparent}
use dtn_rpc.Common.{◌||◌}
use dtn_rpc.Common.Int.{truth}
use dtn_rpc.Serval.{is_sid_t_broadcast, is_sid_t_any}
use dtn_rpc.Reachable.{rpc_sid_is_reachable, scan}
use dtn_rpc.Client.Call.{CallRun, rpc_client_call}
use dtn_rpc.Tests.Client.{net}
use dtn_rpc.RemoteCall.Delayed.{IsWorking, postings, remote_call_delayed}
use dtn_rpc.Tests.Listen.{bundle, poll, only_bundle, add_IsCallBundle}
use dtn_rpc.Tests.Sessions.{two, call_served}
use dtn_rpc.Tests.Mdp.{add_packet}
use dtn_rpc.Tests.Delayed.{
  client_5, client_sids, ack_bytes, result_bytes, state, manifest, ready, answered_run, answers,
  one_server, three_no_file,
}

hosts_work :
    IsWorking sample_words client_sids sample_sids sample_system sample_system client_5 sample_sid
      (codes "add")
      (codes "1")
      (codes "2" ∷ [])
      0
      b'3'
      (codes "\n")
unfolding line_of
hosts_work = record {
  direct = one_server;
  served = call_served;
  behind = omega (arith, length-replicate {A = ℕ} 1000 9);
  clean = omega arith;
  short = omega arith;
  no_file = three_no_file;
}

abbrev server_effects : List Effect
server_effects =
    posted sample_sids sample_system client_5 (codes "add") ack_payload
    ∷ run (codes "/etc/serval/rpc_bin/add 1 2")
    ∷ posted sample_sids sample_system client_5 (codes "add") (printed_payload (codes "3\n")).bytes
    ∷ []

server_serves :
    rpc_server_rhizome_process sample_words sample_sids sample_system (poll (codes "add")) [] []
    ≡ ok ((pos 0, codes "A1" ∷ []), server_effects)
unfolding rpc_server_rhizome_finished rpc_server_rhizome_done
server_serves =
    rpc_server_rhizome_process_serves sample_words sample_sids sample_system 0 (codes "add") two
      client_5 (codes "1") (codes "2" ∷ []) (codes "3\n") (poll (codes "add")) bundle [] []
      (only_bundle (codes "add")) add_IsCallBundle refl call_served hosts_work.behind

two_postings :
    postings (result_manifest sample_sids sample_system client_5 (codes "add")) server_effects
    ≡ ack_bytes ∷ result_bytes ∷ []
unfolding str_eq result_manifest ack_payload memcpy printed_payload
two_postings = refl

not_done : rpc_server_rhizome_done [] bundle.id ≡ false
unfolding rpc_server_rhizome_done
not_done = refl

remote_call_delayed_example :
    rpc_client_call_rhizome sample_words client_sids sample_system sample_sid
      (codes "add")
      answered_run
      2
      (some (codes "1") ∷ some (codes "2") ∷ [])
      0
      state
      []
    ≡ ok (
      (
        pos 2,
        record {
          received = pos 1;
          rpc_result =
              record { server_sid = sample_sid; content = codes "3\n" ++ replicate 958 0 }
              ∷ replicate 4 no_result;
        },
      ),
      insert_bytes manifest add_packet ∷ [],
    )
unfolding line_of
remote_call_delayed_example =
    remote_call_delayed sample_words client_sids sample_sids sample_system sample_system client_5
      sample_sid (codes "add") (codes "1") (codes "2" ∷ []) 0 b'3' (codes "\n") answered_run state
      [] (poll (codes "add")) bundle [] (codes "A1" ∷ []) (pos 0) server_effects ack_bytes
      result_bytes hosts_work (ready answered_run.ticks) (only_bundle (codes "add"))
      add_IsCallBundle not_done server_serves two_postings answers

abbrev store_net : CallRun
store_net = record net { if_unreachable = answered_run }

sample_sid_single :
    (is_sid_t_broadcast client_sids sample_sid || is_sid_t_any client_sids sample_sid) ≡ false
unfolding is_sid_t_broadcast is_sid_t_any
sample_sid_single = refl

sample_sid_away : truth (rpc_sid_is_reachable client_sids sample_system sample_sid) ≡ false
unfolding rpc_sid_is_reachable scan str_eq
sample_sid_away = refl

remote_call_transparent_example :
    rpc_client_call sample_words client_sids sample_system store_net sample_sid
      (codes "add")
      2
      (some (codes "1") ∷ some (codes "2") ∷ [])
      0
      state
      []
    ≡ ok (
      (
        pos 2,
        record {
          received = pos 1;
          rpc_result =
              record { server_sid = sample_sid; content = codes "3\n" ++ replicate 958 0 }
              ∷ replicate 4 no_result;
        },
      ),
      insert_bytes manifest add_packet ∷ [],
    )
unfolding line_of
remote_call_transparent_example =
    remote_call_transparent sample_words client_sids sample_sids sample_system sample_system
      client_5 sample_sid (codes "add") (codes "1") (codes "2" ∷ []) 0 b'3' (codes "\n") store_net
      state [] (poll (codes "add")) bundle [] (codes "A1" ∷ []) (pos 0) server_effects ack_bytes
      result_bytes sample_sid_single sample_sid_away hosts_work (ready answered_run.ticks)
      (only_bundle (codes "add")) add_IsCallBundle not_done server_serves two_postings answers
