-- ===== src/Tests/Client.antt =====
-- Calls of a client: the code of rpc_client.c and rpc_client_mdp.c at concrete inputs.
use dtn_rpc.Common.{
  ℕ, ◌≡◌, refl, ap, ◌≢◌, true, false, some, List, [], ◌∷◌, ◌++◌, arith, codes, replicate,
}
use dtn_rpc.Common.Int.{pos}
use dtn_rpc.Serval.{Sid, sid_any, sid_broadcast, is_sid_t_broadcast, is_sid_t_any}
use dtn_rpc.Result.{ok, err, out_of_bounds}
use dtn_rpc.CString.{str_eq, c_string}
use dtn_rpc.Memory.{memcpy}
use dtn_rpc.Wire.{rpc_flatten_params, read_uint8}
use dtn_rpc.Filehash.{rpc_str_is_filehash}
use dtn_rpc.Serval.Sample.{sample_words, sample_sids}
use dtn_rpc.System.{Effect}
use dtn_rpc.System.Sample.{sample_system}
use dtn_rpc.Client.{RpcResult, ClientState, no_result, rpc_client_replace_if_path}
use dtn_rpc.Client.Table.{padded, IsEntry, IsBroadcastTable, record_ack-padded, record_ack_full}
use dtn_rpc.Client.Answers.{record_ack, record_result, write_content, write_sid}
use dtn_rpc.Client.Mdp.{MdpRun, rpc_client_call_mdp}
use dtn_rpc.Client.Rhizome.{RhizomeRun}
use dtn_rpc.Client.Call.{CallRun, rpc_client_call}
use dtn_rpc.Client.Call.Outcome.{rpc_client_call-IsFinal}
use dtn_rpc.Client.Codes.{IsFinal}
use dtn_rpc.Tests.Mdp.{server_1, quiet_net, started}

abbrev entry : RpcResult
entry = record no_result { server_sid = server_1 }

entry_taken : IsEntry sample_sids entry
unfolding is_sid_t_any
entry_taken = refl

abbrev first_element : Sid → ℕ
first_element [] = 0
first_element (x ∷ s) = x

one_not_all : server_1 ≢ sid_broadcast
one_not_all e =
    let same : first_element server_1 ≡ first_element sid_broadcast = ap first_element e in
    omega arith

all_not_any : sid_broadcast ≢ sid_any
all_not_any e =
    let same : first_element sid_broadcast ≡ first_element sid_any = ap first_element e in
    omega arith

one_entry : IsBroadcastTable sample_sids sample_system sid_broadcast (entry ∷ []) server_1
unfolding is_sid_t_broadcast
one_entry = record {
  is_broadcast = refl;
  ne_any = all_not_any;
  taken = (entry_taken, tt);
  no_server = (one_not_all, tt);
}

-- The second ACK of the same server.
record_ack-padded_example :
    record_ack sample_sids sample_system sid_broadcast (padded (entry ∷ [])) server_1
    ≡ ok (padded (entry ∷ entry ∷ []))
record_ack-padded_example =
    record_ack-padded sample_sids sample_system sid_broadcast (entry ∷ []) server_1 one_entry
      (omega arith)

abbrev five : List RpcResult
five = replicate 5 entry

five_entries : IsBroadcastTable sample_sids sample_system sid_broadcast five server_1
unfolding is_sid_t_broadcast
five_entries = record {
  is_broadcast = refl;
  ne_any = all_not_any;
  taken = (entry_taken, (entry_taken, (entry_taken, (entry_taken, (entry_taken, tt)))));
  no_server = (one_not_all, (one_not_all, (one_not_all, (one_not_all, (one_not_all, tt)))));
}

record_ack_full_example :
    record_ack sample_sids sample_system sid_broadcast (padded five) server_1 ≡ err out_of_bounds
record_ack_full_example =
    record_ack_full sample_sids sample_system sid_broadcast five server_1 five_entries refl

-- An ACK, then the result "3".
abbrev answers : MdpRun
answers = record quiet_net {
  ticks =
      record {
        elapsed = 0;
        sends = true;
        arrival = some (some (record { remote = server_1; received = 1 ∷ [] }));
      }
      ∷ record {
        elapsed = 1;
        sends = true;
        arrival = some (some (record { remote = server_1; received = 2 ∷ codes "3\n" ++ 0 ∷ [] }));
      }
      ∷ [];
}

abbrev pub no_store : RhizomeRun
no_store = record { insert_handle = false; listen_handle = false; ticks = [] }

abbrev pub net : CallRun
net = record {
  mdp = answers;
  msp = record { ticks = []; listener = no_store; stray_sid = []; stray_name = [] };
  if_unreachable = no_store;
  if_lost = no_store;
  if_late = no_store;
}

any_answers :
    (state' : ClientState) × (trace' : List Effect) × (rpc_client_call sample_words sample_sids
        sample_system net sid_any
        (codes "add")
        2
        (some (codes "1") ∷ some (codes "2") ∷ [])
        0
        started
        []
      ≡ ok ((pos 2, state'), trace'))
unfolding rpc_client_call is_sid_t_broadcast is_sid_t_any rpc_client_call_mdp
    rpc_client_replace_if_path str_eq rpc_flatten_params read_uint8 memcpy record_ack record_result
    c_string rpc_str_is_filehash write_content write_sid
any_answers = (_, _, refl)

rpc_client_call-IsFinal_example : IsFinal (pos 2)
rpc_client_call-IsFinal_example =
    rpc_client_call-IsFinal sample_words sample_sids sample_system net sid_any (codes "add") 2
      (some (codes "1") ∷ some (codes "2") ∷ []) 0 started any_answers.0 [] any_answers.1 (pos 2)
      any_answers.2
