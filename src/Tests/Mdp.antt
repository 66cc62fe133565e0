-- ===== src/Tests/Mdp.antt =====
-- Direct calls over MDP: the code of rpc_client_mdp.c at concrete inputs.
use dtn_rpc.Common.{
  ℕ, ◌≡◌, refl, inl, true, false, none, some, [], ◌∷◌, ◌++◌, arith, Bytes, codes, replicate,
}
use dtn_rpc.Common.Int.{truth, pos}
use dtn_rpc.Serval.{Sid, is_sid_t_any}
use dtn_rpc.Result.{ok}
use dtn_rpc.CString.{str_eq, c_string}
use dtn_rpc.Filehash.{rpc_str_is_filehash}
use dtn_rpc.Serval.Sample.{sample_words, sample_sids}
use dtn_rpc.System.{mdp_send}
use dtn_rpc.System.Sample.{sample_system}
use dtn_rpc.Reachable.{rpc_sid_is_reachable, scan}
use dtn_rpc.Client.{ClientState, no_results}
use dtn_rpc.Client.Mdp.Answered.{IsAnswered}
use dtn_rpc.Client.Mdp.Packets.{IsResult}
use dtn_rpc.Client.Mdp.{Tick, MdpRun, rpc_client_call_mdp}
use dtn_rpc.Client.Mdp.Unanswered.{IsReady, rpc_client_call_mdp_unanswered}

abbrev pub server_1 : Sid
server_1 = replicate 32 1

abbrev pub quiet_tick : ℕ → Tick
quiet_tick seconds = record { elapsed = seconds; sends = true; arrival = none }

abbrev pub quiet_net : MdpRun
quiet_net = record {
  has_socket = true;
  binds = true;
  ticks = quiet_tick 0 ∷ quiet_tick 5 ∷ quiet_tick 11 ∷ [];
}

abbrev pub started : ClientState
started = record { received = pos 0; rpc_result = no_results }

abbrev pub add_packet : Bytes
add_packet = 0 ∷ 0 ∷ 0 ∷ 0 ∷ 0 ∷ 2 ∷ codes "add|1|2" ++ 0 ∷ []

pub one_no_path : sample_system.exists (codes "1") ≡ false
unfolding str_eq
one_no_path = refl

pub server_reachable : truth (rpc_sid_is_reachable sample_sids sample_system server_1) ≡ true
unfolding rpc_sid_is_reachable scan str_eq
server_reachable = refl

-- Two parameters, of which the first is no path, to a server that can be reached.
pub call_ready :
    (net : MdpRun)
    → net.has_socket ≡ true
    → net.binds ≡ true
    → IsReady sample_words sample_sids sample_system server_1
        (codes "add")
        net
        (codes "1")
        (codes "2" ∷ [])
        0
        no_results
        []
call_ready net has_socket binds = record {
  reached = inl server_reachable;
  has_socket = has_socket;
  binds = binds;
  plain = one_no_path;
  fits = omega arith;
}

rpc_client_call_mdp_unanswered_example :
    rpc_client_call_mdp sample_words sample_sids sample_system server_1
      (codes "add")
      quiet_net
      2
      (some (codes "1") ∷ some (codes "2") ∷ [])
      0
      started
      []
    ≡ ok ((pos 0, started), mdp_send server_1 add_packet ∷ mdp_send server_1 add_packet ∷ [])
unfolding is_sid_t_any
rpc_client_call_mdp_unanswered_example =
    rpc_client_call_mdp_unanswered sample_words sample_sids sample_system server_1 (codes "add")
      quiet_net (codes "1") (codes "2" ∷ []) 0 no_results [] (quiet_tick 0 ∷ quiet_tick 5 ∷ [])
      (quiet_tick 11) (call_ready quiet_net refl refl) refl
      (
        record { in_time = omega arith; is_sent = refl; nothing = refl },
        (record { in_time = omega arith; is_sent = refl; nothing = refl }, tt),
      )
      (omega arith)

-- A quiet round, one with the ACK, an idle one, and one with the result "3".
abbrev pub answered_net : MdpRun
answered_net = record quiet_net {
  ticks =
      quiet_tick 0
      ∷ record {
        elapsed = 1;
        sends = true;
        arrival = some (some (record { remote = server_1; received = 1 ∷ [] }));
      }
      ∷ quiet_tick 20
      ∷ record {
        elapsed = 21;
        sends = true;
        arrival = some (some (record { remote = server_1; received = 2 ∷ (b'3' ∷ 0 ∷ []) }));
      }
      ∷ [];
}

pub net_answers :
    IsAnswered sample_words sample_sids sample_system server_1
      (codes "add")
      answered_net
      server_1
      (b'3' ∷ 0 ∷ [])
net_answers = record {
  quiet = quiet_tick 0 ∷ [];
  ack = _;
  idle = quiet_tick 20 ∷ [];
  result = _;
  later = [];
  rounds = refl;
  all_quiet = (record { in_time = omega arith; is_sent = refl; nothing = refl }, tt);
  ack_arrives = record { in_time = omega arith; is_sent = refl; arrives = refl };
  all_idle = (record { in_time = omega arith; nothing = refl }, tt);
  result_arrives = record { in_time = omega arith; is_sent = refl; arrives = refl };
}

pub three-IsResult :
    IsResult sample_words sample_sids sample_system server_1 (codes "add") (b'3' ∷ 0 ∷ [])
unfolding c_string rpc_str_is_filehash
three-IsResult = record {
  text = codes "3";
  fits = omega arith;
  room = omega arith;
  reads = refl;
  no_file = refl;
}
