-- ===== src/Tests/Listen.antt =====
-- Runs of a server, and responses of cURL: the code of rpc_server.c, rpc_server_rhizome.c and
-- rpc_curl_helpers.c at concrete inputs.
use dtn_rpc.Common.{
  ◌≡◌, refl, true, false, none, some, List, [], ◌∷◌, ◌++◌, arith, Bytes, codes, replicate,
}
use dtn_rpc.Common.Int.{pos}
use dtn_rpc.Memory.{memcpy}
use dtn_rpc.Result.{ok}
use dtn_rpc.CString.{c_string, str_eq, strtok, strn_eq, print_u8}
use dtn_rpc.Serval.Sample.{sample_words, sample_sids}
use dtn_rpc.Filehash.{rpc_str_is_filehash}
use dtn_rpc.Wire.{read_uint8, rpc_flatten_params}
use dtn_rpc.Rhizome.{is_for_me}
use dtn_rpc.System.{Effect, Bundle, Poll}
use dtn_rpc.System.Sample.{sample_system}
use dtn_rpc.Server.Parse.{rpc_server_parse_call}
use dtn_rpc.Server.Offering.{rpc_server_offering, rpc_server_accepts}
use dtn_rpc.Server.Execute.{rpc_server_execute}
use dtn_rpc.Server.SendResult.{rpc_server_rhizome_send_result, payload_file}
use dtn_rpc.Server.Answer.{ack_payload, is_served}
use dtn_rpc.Server.Mdp.{rpc_server_mdp_process}
use dtn_rpc.Server.Rhizome.{
  rpc_server_rhizome_done, rpc_server_rhizome_finished, rpc_server_rhizome_process,
}
use dtn_rpc.Server.Rhizome.AtMostOnce.{IsOnce}
use dtn_rpc.Server.Rhizome.OnlyCall.{IsOnlyCall}
use dtn_rpc.Server.Listen.Once.{rpc_server_listen_rhizome_serves_once}
use dtn_rpc.Server.SendResult.Whole.{posted}
use dtn_rpc.Server.Answer.{ack_payload}
use dtn_rpc.Server.Execute.Payload.{printed_payload}
use dtn_rpc.Tests.Sessions.{call_served}
use dtn_rpc.Common.{length-replicate, ℕ}
use dtn_rpc.System.{run}
use dtn_rpc.Server.Rhizome.CallBundle.{IsCallBundle, call_of}
use dtn_rpc.Server.Sockets.{
  Sockets, no_sockets, rpc_server_msp_setup, rpc_server_mdp_setup, rpc_server_msp_cleanup,
  rpc_server_mdp_cleanup,
}
use dtn_rpc.Tests.Descriptors.{both_sockets}
use dtn_rpc.Server.Listen.{ServerTick, ServerRun, rpc_server_listen, rpc_server_listen_rhizome}
use dtn_rpc.Server.Listen.Stops.{rpc_server_listen-IsOnce, rpc_server_listen_rhizome_unoffered}
use dtn_rpc.Curl.{rpc_curl_init_memory}
use dtn_rpc.Curl.Chunks.{responded, holding, rpc_curl_write_response-chunks}
use dtn_rpc.Tests.Decide.{is_token}

abbrev pub call_packet_of : Bytes → Bytes
call_packet_of name = 0 ∷ 0 ∷ 0 ∷ 0 ∷ 0 ∷ 2 ∷ (name ++ codes "|1|2") ++ 0 ∷ []

-- A call in the store, of 14 bytes.
abbrev pub bundle : Bundle
bundle = record {
  token = none;
  service = some (codes "RPC");
  id = codes "A1";
  in_time = 5;
  inserttime = 5;
  filesize = 14;
  sender = some (replicate 32 6);
  recipient = none;
  name = some (codes "add");
}

-- One that is for another host.
abbrev pub foreign : Bundle
foreign = record bundle { id = codes "A0"; recipient = some (replicate 32 9) }

abbrev pub poll : Bytes → Poll
poll name = record {
  handle = true;
  handle_again = true;
  bundles = some (foreign ∷ bundle ∷ []);
  decrypted = λ id. some (call_packet_of name);
}

abbrev tick : Bytes → ServerTick
tick name = record { msp = []; mdp = none; store = poll name; is_signalled = false }

-- Descriptors 0 to 2 are open.
abbrev pub standard : Sockets
standard = record no_sockets { opened = 0 ∷ 1 ∷ 2 ∷ [] }

-- What is left of the sockets at the end.
abbrev pub left_closed : Sockets
left_closed = record standard { mdp_sock = some 4; mdp_poll_fd = some 4; mdp_fd_msp = some 3 }

-- The second round finds the call done; the signal comes in it.
abbrev pub add_run : ServerRun
add_run = record {
  calls = both_sockets;
  ticks = tick (codes "add") ∷ record (tick (codes "add")) { is_signalled = true } ∷ [];
}

pub add_served :
    (trace' : List Effect) × (rpc_server_listen sample_words sample_sids sample_system add_run
        standard 0 [] []
      ≡ ok (((pos 0, codes "A1" ∷ []), left_closed), trace'))
unfolding rpc_server_listen rpc_server_msp_setup rpc_server_mdp_setup rpc_server_msp_cleanup
    rpc_server_mdp_cleanup rpc_server_mdp_process rpc_server_rhizome_process rpc_server_rhizome_done
    rpc_server_rhizome_finished str_eq strn_eq strtok c_string print_u8 is_for_me read_uint8
    rpc_server_parse_call is_served rpc_server_offering rpc_server_accepts
    rpc_server_rhizome_send_result rpc_server_execute rpc_str_is_filehash rpc_flatten_params
    payload_file ack_payload memcpy
add_served = (_, refl)

rpc_server_listen-IsOnce_example : IsOnce (codes "A1" ∷ [])
rpc_server_listen-IsOnce_example =
    rpc_server_listen-IsOnce sample_words sample_sids sample_system add_run standard left_closed 0
      [] (codes "A1" ∷ []) [] add_served.0 (pos 0) tt add_served.1

-- "sub" is not declared.
abbrev sub_run : ServerRun
sub_run = record { calls = both_sockets; ticks = tick (codes "sub") ∷ tick (codes "add") ∷ [] }

sub_IsCallBundle :
    IsCallBundle sample_words sample_sids sample_system 0
      (codes "sub")
      (codes "1" ∷ codes "2" ∷ [])
      (poll (codes "sub"))
      bundle
      (replicate 32 5)
unfolding strn_eq is_for_me
sub_IsCallBundle = record {
  service = codes "RPC";
  sender = replicate 32 6;
  has_service = refl;
  is_rpc = refl;
  for_me = refl;
  has_size = refl;
  fits = omega arith;
  has_content = refl;
  has_sender = refl;
  has_sid = refl;
  is_token = is_token b'|' b's' (codes "ub") refl refl;
  are_tokens = (is_token b'|' b'1' [] refl refl, (is_token b'|' b'2' [] refl refl, tt));
  few = omega arith;
}

sub_unoffered :
    rpc_server_offering sample_system.conf_file (
      call_of sample_words sample_sids sample_system 0
        (codes "sub")
        (codes "1" ∷ codes "2" ∷ [])
        (replicate 32 5))
    ≡ ok 0
unfolding rpc_server_offering strtok strn_eq
sub_unoffered = refl

pub only_bundle :
    (name : Bytes) → IsOnlyCall sample_words sample_sids sample_system (poll name) bundle
unfolding is_for_me str_eq
only_bundle name = record {
  before = foreign ∷ [];
  after = [];
  handle = refl;
  bundles = refl;
  foreign_before = (record { service = codes "RPC"; has_service = refl; not_for_me = refl }, tt);
  foreign_after = tt;
}

rpc_server_listen_rhizome_unoffered_example :
    rpc_server_listen_rhizome sample_words sample_sids sample_system sub_run 0 [] []
    ≡ ok ((pos 0, []), [])
unfolding rpc_server_rhizome_done
rpc_server_listen_rhizome_unoffered_example =
    rpc_server_listen_rhizome_unoffered sample_words sample_sids sample_system 0 (codes "sub")
      (codes "1" ∷ codes "2" ∷ []) sub_run (tick (codes "sub")) (tick (codes "add") ∷ []) bundle
      (replicate 32 5) [] [] refl sub_IsCallBundle (only_bundle (codes "sub")) refl sub_unoffered

-- "add" is declared and installed.
pub add_IsCallBundle :
    IsCallBundle sample_words sample_sids sample_system 0
      (codes "add")
      (codes "1" ∷ codes "2" ∷ [])
      (poll (codes "add"))
      bundle
      (replicate 32 5)
unfolding strn_eq is_for_me
add_IsCallBundle = record {
  service = codes "RPC";
  sender = replicate 32 6;
  has_service = refl;
  is_rpc = refl;
  for_me = refl;
  has_size = refl;
  fits = omega arith;
  has_content = refl;
  has_sender = refl;
  has_sid = refl;
  is_token = is_token b'|' b'a' (codes "dd") refl refl;
  are_tokens = (is_token b'|' b'1' [] refl refl, (is_token b'|' b'2' [] refl refl, tt));
  few = omega arith;
}

-- Four looks at the store; the signal comes in the last one.
abbrev add_looks : ServerRun
add_looks = record add_run {
  ticks =
      tick (codes "add")
      ∷ tick (codes "add")
      ∷ tick (codes "add")
      ∷ record (tick (codes "add")) { is_signalled = true }
      ∷ [];
}

rpc_server_listen_rhizome_serves_once_example :
    rpc_server_listen_rhizome sample_words sample_sids sample_system add_looks 0 [] []
    ≡ ok (
      (pos 0, codes "A1" ∷ []),
      posted sample_sids sample_system (replicate 32 5) (codes "add") ack_payload
          ∷ run (codes "/etc/serval/rpc_bin/add 1 2")
          ∷ posted sample_sids sample_system
              (replicate 32 5)
              (codes "add")
              (printed_payload (codes "3\n")).bytes
          ∷ [],
    )
unfolding rpc_server_rhizome_finished rpc_server_rhizome_done
rpc_server_listen_rhizome_serves_once_example =
    rpc_server_listen_rhizome_serves_once sample_words sample_sids sample_system
      (poll (codes "add")) 0 (codes "add") (codes "1" ∷ codes "2" ∷ []) (replicate 32 5) (codes "1")
      (codes "2" ∷ []) (codes "3\n") add_looks (tick (codes "add"))
      (tick (codes "add") ∷ tick (codes "add") ∷ [])
      (record (tick (codes "add")) { is_signalled = true }) bundle [] [] refl
      (record { finds = refl; signal = refl })
      (record { finds = refl; signal = refl }, (record { finds = refl; signal = refl }, tt))
      (record { finds = refl; signal = refl }) (only_bundle (codes "add")) add_IsCallBundle refl
      call_served (omega (arith, length-replicate {A = ℕ} 1000 9))

rpc_curl_write_response-chunks_example :
    responded ((9 ∷ [], codes "[1") ∷ ([], codes ",2]") ∷ []) rpc_curl_init_memory
    ≡ holding (codes "[1,2]")
rpc_curl_write_response-chunks_example =
    rpc_curl_write_response-chunks ((9 ∷ [], codes "[1") ∷ ([], codes ",2]") ∷ [])
