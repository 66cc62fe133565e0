-- ===== src/Tests/RemoteCall.antt =====
-- A call between two hosts at concrete inputs.
use dtn_rpc.Common.{
  ℕ, ◌≡◌, refl, ◌∙◌, true, some, List, [], ◌∷◌, ◌++◌, arith, Bytes, codes, replicate,
}
use dtn_rpc.Common.Int.{pos, truth}
use dtn_rpc.System.{System, Effect, mdp_send, run}
use dtn_rpc.Result.{ok}
use dtn_rpc.CString.{str_eq}
use dtn_rpc.Serval.{Sid, is_sid_t_broadcast, is_sid_t_any}
use dtn_rpc.Filehash.{rpc_str_is_filehash}
use dtn_rpc.Serval.Sample.{sample_words, sample_sids}
use dtn_rpc.System.Sample.{sample_system}
use dtn_rpc.Reachable.{rpc_sid_is_reachable, scan}
use dtn_rpc.Server.{mode_mdp}
use dtn_rpc.Server.Answer.{ack_payload}
use dtn_rpc.Server.Answer.Served.{IsServed}
use dtn_rpc.Server.Execute.{line_of}
use dtn_rpc.Server.Execute.Payload.{printed_payload}
use dtn_rpc.Server.Mdp.{rpc_server_mdp_handle}
use dtn_rpc.Server.Mdp.Session.{rpc_server_mdp_handle_serves}
use dtn_rpc.Client.{no_result, no_results}
use dtn_rpc.Client.Mdp.{MdpRun, Tick, rpc_client_call_mdp}
use dtn_rpc.RemoteCall.{IsWorking, Hears, call_at_server, remote_call}
use dtn_rpc.RemoteCall.Packets.{packets_to}
use dtn_rpc.Tests.Decide.{is_token}
use dtn_rpc.Tests.Mdp.{server_1, quiet_tick, quiet_net, started, add_packet, call_ready}
use dtn_rpc.Tests.Sessions.{two, call_served, call_offered, three_read, three_no_file}

abbrev pub client_5 : Sid
client_5 = replicate 32 5

-- The server's host, from which the client can be reached.
abbrev pub server_host : System
server_host = record sample_system { routes = some (some (client_5 ++ 0 ∷ 2 ∷ []) ∷ []) }

served_there :
    IsServed sample_words sample_sids server_host
      (call_at_server sample_words sample_sids sample_sids sample_system server_host mode_mdp
        client_5 server_1
        (codes "add")
        (codes "1")
        (codes "2" ∷ [])
        0
        b'3'
        (codes "\n"))
      (codes "1")
      (codes "2" ∷ [])
      (codes "3\n")
served_there = record {
  offered = 2;
  path = codes "3\n";
  offers = call_offered;
  chosen = omega arith;
  runnable = record {
    has_params = refl;
    has_count = refl;
    has_binary = call_served.runnable.has_binary;
    no_file = call_served.runnable.no_file;
  };
  prints = refl;
  reads = three_read;
  plain = three_no_file;
}

client_reachable : truth (rpc_sid_is_reachable sample_sids server_host client_5) ≡ true
unfolding rpc_sid_is_reachable scan str_eq
client_reachable = refl

pub hosts_work :
    IsWorking sample_words sample_sids sample_sids sample_system server_host mode_mdp client_5
      server_1
      (codes "add")
      (codes "1")
      (codes "2" ∷ [])
      0
      b'3'
      (codes "\n")
unfolding is_sid_t_broadcast rpc_str_is_filehash line_of
hosts_work = record {
  is_token = is_token b'|' b'a' (codes "dd") refl refl;
  are_tokens = (is_token b'|' b'1' [] refl refl, (is_token b'|' b'2' [] refl refl, tt));
  few = omega arith;
  client_size = refl;
  direct = refl;
  served = served_there;
  reaches_client = client_reachable;
  packet_fits = omega arith;
  room = omega arith;
  clean = omega arith;
  no_file = refl;
}

abbrev pub server_effects : List Effect
server_effects =
    mdp_send client_5 ack_payload
    ∷ run (codes "/etc/serval/rpc_bin/add 1 2")
    ∷ mdp_send client_5 (printed_payload (codes "3\n")).bytes
    ∷ []

pub server_handles :
    rpc_server_mdp_handle sample_words sample_sids server_host mode_mdp
      (some (record { remote = client_5; received = add_packet }))
      []
    ≡ ok (pos 0, server_effects)
server_handles =
    rpc_server_mdp_handle_serves sample_words sample_sids server_host mode_mdp client_5 0
      (codes "add") two (codes "1") (codes "2" ∷ []) (codes "3\n") []
      (is_token b'|' b'a' (codes "dd") refl refl) hosts_work.are_tokens (omega arith) refl
      (omega arith) served_there
    ∙ rw client_reachable refl

abbrev packet_tick : ℕ → Bytes → Tick
packet_tick seconds bytes = record {
  elapsed = seconds;
  sends = true;
  arrival = some (some (record { remote = server_1; received = bytes }));
}

-- What the server sends arrives, behind a quiet round and around an idle one.
abbrev pub conversation : MdpRun
conversation = record quiet_net {
  ticks =
      quiet_tick 0
      ∷ packet_tick 1 ack_payload
      ∷ quiet_tick 20
      ∷ packet_tick 21 (printed_payload (codes "3\n")).bytes
      ∷ [];
}

pub two_packets :
    packets_to client_5 server_effects ≡ ack_payload ∷ (printed_payload (codes "3\n")).bytes ∷ []
unfolding str_eq
two_packets = refl

abbrev pub client_hears :
    Hears sample_words sample_sids sample_sids sample_system server_host mode_mdp client_5 server_1
      (codes "add")
      (codes "1")
      (codes "2" ∷ [])
      0
      b'3'
      (codes "\n")
      conversation
      (packets_to client_5 server_effects)
client_hears = record {
  early = ack_payload;
  late = (printed_payload (codes "3\n")).bytes;
  both = two_packets;
  quiet = quiet_tick 0 ∷ [];
  ack = packet_tick 1 ack_payload;
  idle = quiet_tick 20 ∷ [];
  result = packet_tick 21 (printed_payload (codes "3\n")).bytes;
  later = [];
  rounds = refl;
  all_quiet = (record { in_time = omega arith; is_sent = refl; nothing = refl }, tt);
  ack_arrives = record { in_time = omega arith; is_sent = refl; arrives = refl };
  all_idle = (record { in_time = omega arith; nothing = refl }, tt);
  result_arrives = record { in_time = omega arith; is_sent = refl; arrives = refl };
}

remote_call_example :
    rpc_client_call_mdp sample_words sample_sids sample_system server_1
      (codes "add")
      conversation
      2
      (some (codes "1") ∷ some (codes "2") ∷ [])
      0
      started
      []
    ≡ ok (
      (
        pos 2,
        record {
          received = pos 2;
          rpc_result =
              record { server_sid = server_1; content = codes "3\n" ++ replicate 958 0 }
              ∷ replicate 4 no_result;
        },
      ),
      mdp_send server_1 add_packet ∷ mdp_send server_1 add_packet ∷ [],
    )
unfolding is_sid_t_any line_of
remote_call_example =
    remote_call sample_words sample_sids sample_sids sample_system server_host mode_mdp client_5
      server_1 (codes "add") (codes "1") (codes "2" ∷ []) 0 b'3' (codes "\n") conversation
      no_results [] server_effects (pos 0) hosts_work (call_ready conversation refl refl)
      server_handles client_hears
