-- ===== src/Tests/Abandoned.antt =====
-- A transparent call of any server that is accepted and not answered: the code of rpc_client.c at
-- concrete inputs.
use dtn_rpc.Common.{◌≡◌, refl, inr, true, false, some, [], ◌∷◌, arith, codes}
use dtn_rpc.Common.Int.{pos}
use dtn_rpc.Serval.{sid_any, sid_broadcast, is_sid_t_broadcast, is_sid_t_any}
use dtn_rpc.Serval.Sample.{sample_words, sample_sids}
use dtn_rpc.System.{mdp_send}
use dtn_rpc.System.Sample.{sample_system}
use dtn_rpc.Client.{no_results}
use dtn_rpc.Client.Mdp.{Tick, MdpRun}
use dtn_rpc.Client.Mdp.Unanswered.{IsReady}
use dtn_rpc.Client.Mdp.Abandoned.{IsAbandoned}
use dtn_rpc.Client.Rhizome.{rpc_client_call_rhizome}
use dtn_rpc.Client.Call.{CallRun, rpc_client_call}
use dtn_rpc.Client.Call.Abandoned.{rpc_client_call_abandoned}
use dtn_rpc.Tests.Client.{net, no_store}
use dtn_rpc.Tests.Mdp.{server_1, quiet_tick, quiet_net, started, add_packet, one_no_path}

abbrev ack_tick : Tick
ack_tick = record {
  elapsed = 1;
  sends = true;
  arrival = some (some (record { remote = server_1; received = 1 ∷ [] }));
}

-- A quiet round, one with the ACK of a server, an idle one, and one behind the thirty seconds.
abbrev silent : MdpRun
silent = record quiet_net { ticks = quiet_tick 0 ∷ ack_tick ∷ quiet_tick 20 ∷ quiet_tick 31 ∷ [] }

abbrev silent_net : CallRun
silent_net = record net { mdp = silent }

any_is_any : is_sid_t_any sample_sids sid_any ≡ true
unfolding is_sid_t_any
any_is_any = refl

any_is_one : is_sid_t_broadcast sample_sids sid_any ≡ false
unfolding is_sid_t_broadcast
any_is_one = refl

any_ready :
    IsReady sample_words sample_sids sample_system sid_any
      (codes "add")
      silent
      (codes "1")
      (codes "2" ∷ [])
      0
      no_results
      []
any_ready = record {
  reached = inr any_is_any;
  has_socket = refl;
  binds = refl;
  plain = one_no_path;
  fits = omega arith;
}

abbrev any_abandoned :
    IsAbandoned sample_words sample_sids sample_system sid_any (codes "add") silent server_1
any_abandoned = record {
  quiet = quiet_tick 0 ∷ [];
  ack = ack_tick;
  idle = quiet_tick 20 ∷ [];
  last = quiet_tick 31;
  later = [];
  rounds = refl;
  all_quiet = (record { in_time = omega arith; is_sent = refl; nothing = refl }, tt);
  ack_arrives = record { in_time = omega arith; is_sent = refl; arrives = refl };
  all_idle = (record { in_time = omega arith; nothing = refl }, tt);
  is_late = omega arith;
}

-- The packet is broadcast twice, and the store is asked then.
rpc_client_call_abandoned_example :
    rpc_client_call sample_words sample_sids sample_system silent_net sid_any
      (codes "add")
      2
      (some (codes "1") ∷ some (codes "2") ∷ [])
      0
      started
      []
    ≡ rpc_client_call_rhizome sample_words sample_sids sample_system sid_any
        (codes "add")
        no_store
        2
        (some (codes "1") ∷ some (codes "2") ∷ [])
        0
        (record { received = pos 1; rpc_result = no_results })
        (mdp_send sid_broadcast add_packet ∷ mdp_send sid_broadcast add_packet ∷ [])
rpc_client_call_abandoned_example =
    rpc_client_call_abandoned sample_words sample_sids sample_system silent_net sid_any
      (codes "add") (codes "1") (codes "2" ∷ []) 0 started [] server_1 any_ready any_is_any
      any_is_one (omega arith) any_abandoned
