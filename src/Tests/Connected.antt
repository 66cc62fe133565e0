-- ===== src/Tests/Connected.antt =====
-- A call over MSP between two hosts at concrete inputs.
use dtn_rpc.Common.{
  ◌≡◌, refl, true, false, some, List, [], ◌∷◌, ◌++◌, arith, Bytes, codes, replicate,
}
use dtn_rpc.Common.Int.{pos}
use dtn_rpc.System.{Effect, msp_send, run}
use dtn_rpc.Result.{ok}
use dtn_rpc.Filehash.{rpc_str_is_filehash}
use dtn_rpc.Serval.Sample.{sample_words, sample_sids}
use dtn_rpc.System.Sample.{sample_system}
use dtn_rpc.Client.{no_result, no_results}
use dtn_rpc.Client.Msp.{MspTick, MspRun, rpc_client_call_msp}
use dtn_rpc.Client.Msp.Answered.{IsAnswered, IsReady}
use dtn_rpc.Server.{mode_msp}
use dtn_rpc.Server.Execute.{line_of}
use dtn_rpc.Server.Execute.Payload.{printed_payload}
use dtn_rpc.Server.Answer.{ack_payload}
use dtn_rpc.Server.Msp.{rpc_server_msp_handler}
use dtn_rpc.Server.Msp.Session.{rpc_server_msp_handler_serves}
use dtn_rpc.RemoteCall.Connected.{IsWorking, remote_call_connected}
use dtn_rpc.Tests.Decide.{is_token}
use dtn_rpc.Tests.Client.{no_store}
use dtn_rpc.Tests.Sessions.{two, two-AreTokens, socket, call_served}
use dtn_rpc.Tests.Mdp.{server_1, add_packet, started, one_no_path, server_reachable}

hosts_work :
    IsWorking sample_words sample_sids sample_sids sample_system sample_system mode_msp socket
      server_1
      (codes "add")
      (codes "1")
      (codes "2" ∷ [])
      0
      b'3'
      (codes "\n")
unfolding rpc_str_is_filehash line_of
hosts_work = record {
  is_token = is_token b'|' b'a' (codes "dd") refl refl;
  are_tokens = two-AreTokens;
  few = omega arith;
  client_size = refl;
  served = call_served;
  open_socket = refl;
  takes_data = refl;
  clean = omega arith;
  no_file = refl;
}

abbrev server_effects : List Effect
server_effects =
    msp_send ack_payload
    ∷ run (codes "/etc/serval/rpc_bin/add 1 2")
    ∷ msp_send (printed_payload (codes "3\n")).bytes
    ∷ []

server_handles :
    rpc_server_msp_handler sample_words sample_sids sample_system mode_msp socket 4
      (some add_packet)
      14
      []
    ≡ ok (14, server_effects)
server_handles =
    rpc_server_msp_handler_serves sample_words sample_sids sample_system mode_msp socket 0
      (codes "add") two (codes "1") (codes "2" ∷ []) (codes "3\n") [] 4 refl
      (is_token b'|' b'a' (codes "dd") refl refl) two-AreTokens (omega arith) refl call_served refl
      refl

abbrev heard : Bytes → MspTick
heard bytes = record {
  is_null = false;
  is_data = true;
  events = record { state = 4; payload = some bytes; remote = server_1 } ∷ [];
}

abbrev silent : MspTick
silent = record { is_null = false; is_data = true; events = [] }

abbrev conversation : MspRun
conversation = record {
  ticks = silent ∷ heard ack_payload ∷ silent ∷ heard (printed_payload (codes "3\n")).bytes ∷ [];
  listener = no_store;
  stray_sid = [];
  stray_name = [];
}

ready :
    IsReady sample_words sample_sids sample_system server_1
      (codes "add")
      conversation
      (codes "1")
      (codes "2" ∷ [])
      0
      no_results
      []
ready = record { reached = server_reachable; plain = one_no_path; fits = omega arith }

client_hears :
    IsAnswered sample_words sample_sids sample_system
      (codes "add")
      (sample_sids.alloca_tohex_sid_t server_1)
      conversation
      server_1
      ack_payload
      (printed_payload (codes "3\n")).bytes
client_hears = record {
  quiet = silent ∷ [];
  ack = heard ack_payload;
  idle = silent ∷ [];
  result = heard (printed_payload (codes "3\n")).bytes;
  later = [];
  rounds = refl;
  all_quiet = (record { open_socket = refl; nothing = refl }, tt);
  ack_arrives = record {
    event = record { state = 4; payload = some ack_payload; remote = server_1 };
    open_socket = refl;
    one = refl;
    unbroken = refl;
    unshut = refl;
    holds = refl;
    from = refl;
  };
  all_idle = (record { open_socket = refl; nothing = refl }, tt);
  result_arrives = record {
    event = record {
      state = 4;
      payload = some (printed_payload (codes "3\n")).bytes;
      remote = server_1;
    };
    open_socket = refl;
    one = refl;
    unbroken = refl;
    unshut = refl;
    holds = refl;
    from = refl;
  };
}

remote_call_connected_example :
    rpc_client_call_msp sample_words sample_sids sample_system conversation server_1
      (codes "add")
      2
      (some (codes "1") ∷ some (codes "2") ∷ [])
      0
      started
      []
    ≡ ok (
      (
        pos 2,
        record {
          received = pos 2;
          rpc_result =
              record { server_sid = server_1; content = codes "3\n" ++ replicate 958 0 }
              ∷ replicate 4 no_result;
        },
      ),
      msp_send add_packet ∷ [],
    )
unfolding line_of
remote_call_connected_example =
    remote_call_connected sample_words sample_sids sample_sids sample_system sample_system mode_msp
      socket server_1 (codes "add") (codes "1") (codes "2" ∷ []) 0 b'3' (codes "\n") conversation
      no_results [] server_effects 4 14 ack_payload (printed_payload (codes "3\n")).bytes hosts_work
      ready refl server_handles refl client_hears
