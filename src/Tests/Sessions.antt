-- ===== src/Tests/Sessions.antt =====
-- Calls that arrive at a server: the code of rpc_server_msp.c and rpc_server_rhizome.c at concrete
-- inputs.
use dtn_rpc.Common.{
  ◌≡◌, refl, true, false, none, some, List, [], ◌∷◌, ◌++◌, arith, Bytes, codes, drop, replicate,
}
use dtn_rpc.Common.Int.{pos}
use dtn_rpc.Result.{ok}
use dtn_rpc.CString.{print_u8, c_string, str_eq, strtok, strn_eq}
use dtn_rpc.Serval.Sample.{sample_words, sample_sids}
use dtn_rpc.Memory.{memcpy}
use dtn_rpc.Filehash.{rpc_str_is_filehash}
use dtn_rpc.System.{mdp_send, Effect, msp_send, run, Bundle, Poll}
use dtn_rpc.System.Sample.{sample_system}
use dtn_rpc.Server.{mode_all, RpcProcedure, mode_msp}
use dtn_rpc.Server.Parse.Slots.{AreTokens}
use dtn_rpc.Server.Offering.{rpc_server_offering}
use dtn_rpc.Server.Execute.{line_of}
use dtn_rpc.Server.Execute.Payload.{printed_payload, printed_payload_lem}
use dtn_rpc.Server.Execute.Runs.{IsRunnable}
use dtn_rpc.Server.Answer.{ack_payload}
use dtn_rpc.Server.Answer.Served.{IsServed}
use dtn_rpc.Server.Mdp.{rpc_server_mdp_handle}
use dtn_rpc.Server.Mdp.Session.{delivery, rpc_server_mdp_handle_serves}
use dtn_rpc.Server.Msp.{MspSocket, rpc_server_msp_handler}
use dtn_rpc.Server.Msp.Session.{
  caller_call, rpc_server_msp_handler_ignores, rpc_server_msp_handler_serves,
}
use dtn_rpc.Server.Rhizome.{
  rpc_server_rhizome_done, rpc_server_rhizome_finished, rpc_server_rhizome_process,
}
use dtn_rpc.Server.Rhizome.AtMostOnce.{IsOnce, rpc_server_rhizome_process-IsOnce}
use dtn_rpc.Rhizome.{is_for_me}
use dtn_rpc.Wire.{read_uint8, rpc_flatten_params}
use dtn_rpc.Server.Parse.{rpc_server_parse_call}
use dtn_rpc.Server.Answer.{is_served}
use dtn_rpc.Server.Offering.{rpc_server_accepts}
use dtn_rpc.Server.SendResult.{rpc_server_rhizome_send_result, payload_file}
use dtn_rpc.Server.Execute.{rpc_server_execute}
use dtn_rpc.Tests.Decide.{is_token}

abbrev pub two : List Bytes
two = codes "1" ∷ codes "2" ∷ []

abbrev pub socket : MspSocket
socket = record { is_null = false; is_data = true; remote = replicate 32 5 }

pub two-AreTokens : AreTokens two
two-AreTokens = (is_token b'|' b'1' [] refl refl, (is_token b'|' b'2' [] refl refl, tt))

abbrev add_packet : Bytes
add_packet = 0 ∷ 0 ∷ 0 ∷ 0 ∷ 0 ∷ 2 ∷ codes "add|1|2" ++ 0 ∷ []

abbrev sub_packet : Bytes
sub_packet = 0 ∷ 0 ∷ 0 ∷ 0 ∷ 0 ∷ 2 ∷ codes "sub|1|2" ++ 0 ∷ []

-- "sub" is not declared.
rpc_server_msp_handler_ignores_example :
    rpc_server_msp_handler sample_words sample_sids sample_system mode_msp socket 4
      (some sub_packet)
      14
      []
    ≡ ok (14, [])
unfolding rpc_server_offering strtok strn_eq print_u8
rpc_server_msp_handler_ignores_example =
    rpc_server_msp_handler_ignores sample_words sample_sids sample_system mode_msp socket 0
      (codes "sub") two 4 [] refl (is_token b'|' b's' (codes "ub") refl refl) two-AreTokens
      (omega arith) refl refl

abbrev pub call : RpcProcedure
call = caller_call sample_words sample_sids sample_system mode_msp socket 0 (codes "add") two

call_runs : IsRunnable sample_sids sample_system call (codes "1") (codes "2" ∷ [])
unfolding rpc_str_is_filehash str_eq
call_runs = record { has_params = refl; has_count = refl; has_binary = refl; no_file = refl }

pub call_offered : rpc_server_offering sample_system.conf_file call ≡ ok 2
unfolding rpc_server_offering strtok strn_eq print_u8
call_offered = refl

pub three_read : c_string (drop 1 (printed_payload (codes "3\n")).bytes) ≡ ok (codes "3\n")
unfolding c_string line_of
three_read = rw (printed_payload_lem b'3' (codes "\n")) refl

pub three_no_file : sample_system.exists (codes "3\n") ≡ false
unfolding str_eq
three_no_file = refl

pub call_served :
    IsServed sample_words sample_sids sample_system call (codes "1") (codes "2" ∷ []) (codes "3\n")
call_served = record {
  offered = 2;
  path = codes "3\n";
  offers = call_offered;
  chosen = omega arith;
  runnable = call_runs;
  prints = refl;
  reads = three_read;
  plain = three_no_file;
}

rpc_server_msp_handler_serves_example :
    rpc_server_msp_handler sample_words sample_sids sample_system mode_msp socket 4
      (some add_packet)
      14
      []
    ≡ ok (
      14,
      msp_send ack_payload
          ∷ run (codes "/etc/serval/rpc_bin/add 1 2")
          ∷ msp_send (printed_payload (codes "3\n")).bytes
          ∷ [],
    )
rpc_server_msp_handler_serves_example =
    rpc_server_msp_handler_serves sample_words sample_sids sample_system mode_msp socket 0
      (codes "add") two (codes "1") (codes "2" ∷ []) (codes "3\n") [] 4 refl
      (is_token b'|' b'a' (codes "dd") refl refl) two-AreTokens (omega arith) refl call_served refl
      refl

-- The sender of the calls over MDP cannot be reached.
rpc_server_mdp_handle_serves_example :
    rpc_server_mdp_handle sample_words sample_sids sample_system mode_all
      (some (record { remote = replicate 32 5; received = add_packet }))
      []
    ≡ ok (
      pos 0,
      mdp_send (replicate 32 5) ack_payload
          ∷ run (codes "/etc/serval/rpc_bin/add 1 2")
          ∷ delivery sample_words sample_sids sample_system mode_all
              (replicate 32 5)
              (codes "add")
              (printed_payload (codes "3\n")).bytes,
    )
rpc_server_mdp_handle_serves_example =
    rpc_server_mdp_handle_serves sample_words sample_sids sample_system mode_all (replicate 32 5) 0
      (codes "add") two (codes "1") (codes "2" ∷ []) (codes "3\n") []
      (is_token b'|' b'a' (codes "dd") refl refl) two-AreTokens (omega arith) refl (omega arith)
      call_served

-- A call of "add" in the store, of 14 bytes.
abbrev bundle : Bundle
bundle = record {
  token = none;
  service = some (codes "RPC");
  id = codes "A1";
  in_time = 5;
  inserttime = 5;
  filesize = 14;
  sender = some (replicate 32 6);
  recipient = none;
  name = some (codes "add");
}

abbrev poll : Poll
poll = record {
  handle = true;
  handle_again = true;
  bundles = some (bundle ∷ []);
  decrypted = λ id. some add_packet;
}

process_serves :
    (trace' : List Effect) × (rpc_server_rhizome_process sample_words sample_sids sample_system poll
        (codes "A0" ∷ [])
        []
      ≡ ok ((pos 0, codes "A0" ∷ codes "A1" ∷ []), trace'))
unfolding rpc_server_rhizome_process rpc_server_rhizome_done rpc_server_rhizome_finished str_eq
    strn_eq strtok c_string print_u8 is_for_me read_uint8 rpc_server_parse_call is_served
    rpc_server_offering rpc_server_accepts rpc_server_rhizome_send_result rpc_server_execute
    rpc_str_is_filehash rpc_flatten_params payload_file ack_payload memcpy
process_serves = (_, refl)

rpc_server_rhizome_process-IsOnce_example : IsOnce (codes "A0" ∷ codes "A1" ∷ [])
unfolding rpc_server_rhizome_done str_eq
rpc_server_rhizome_process-IsOnce_example =
    rpc_server_rhizome_process-IsOnce sample_words sample_sids sample_system poll (codes "A0" ∷ [])
      [] (pos 0) (codes "A0" ∷ codes "A1" ∷ []) process_serves.0 (refl, tt) process_serves.1
