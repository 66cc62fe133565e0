-- ===== src/Tests/Lost.antt =====
-- A call over MDP whose client cannot be reached at its end, at concrete inputs.
use dtn_rpc.Common.{◌≡◌, refl, ◌∙◌, ◌≢◌, false, some, List, [], ◌∷◌, arith, codes, take, replicate}
use dtn_rpc.Common.Int.{pos, truth}
use dtn_rpc.System.{Effect, mdp_send, run, insert_bytes}
use dtn_rpc.Result.{ok}
use dtn_rpc.CString.{str_eq}
use dtn_rpc.Serval.{Sid, sid_broadcast}
use dtn_rpc.Serval.Sample.{sample_words, sample_sids}
use dtn_rpc.System.Sample.{sample_system}
use dtn_rpc.Reachable.{rpc_sid_is_reachable, scan}
use dtn_rpc.Server.{mode_all}
use dtn_rpc.Server.Execute.Payload.{printed_payload}
use dtn_rpc.Server.Answer.{ack_payload}
use dtn_rpc.Server.SendResult.{result_manifest}
use dtn_rpc.Server.Mdp.{rpc_server_mdp_handle}
use dtn_rpc.Server.Mdp.Session.{rpc_server_mdp_handle_serves}
use dtn_rpc.RemoteCall.Packets.{packets_to}
use dtn_rpc.RemoteCall.Delayed.{postings}
use dtn_rpc.RemoteCall.Lost.{mdp_result_lost}
use dtn_rpc.Tests.Decide.{is_token}
use dtn_rpc.Tests.Sessions.{two, two-AreTokens, call_served}
use dtn_rpc.Tests.Mdp.{add_packet}

abbrev client_5 : Sid
client_5 = replicate 32 5

abbrev lost_effects : List Effect
lost_effects =
    mdp_send client_5 ack_payload
    ∷ run (codes "/etc/serval/rpc_bin/add 1 2")
    ∷ insert_bytes (result_manifest sample_sids sample_system sid_broadcast (codes "add"))
        (take 959 (printed_payload (codes "3\n")).bytes)
    ∷ []

client_away : truth (rpc_sid_is_reachable sample_sids sample_system client_5) ≡ false
unfolding rpc_sid_is_reachable scan str_eq
client_away = refl

server_handles :
    rpc_server_mdp_handle sample_words sample_sids sample_system mode_all
      (some (record { remote = client_5; received = add_packet }))
      []
    ≡ ok (pos 0, lost_effects)
server_handles =
    rpc_server_mdp_handle_serves sample_words sample_sids sample_system mode_all client_5 0
      (codes "add") two (codes "1") (codes "2" ∷ []) (codes "3\n") []
      (is_token b'|' b'a' (codes "dd") refl refl) two-AreTokens (omega arith) refl (omega arith)
      call_served
    ∙ rw client_away refl

not_broadcast : client_5 ≢ sid_broadcast
not_broadcast e = absurd cc

mdp_result_lost_example :
    (packets_to client_5 lost_effects ≡ ack_payload ∷ [])
    × ((postings (result_manifest sample_sids sample_system client_5 (codes "add")) lost_effects
          ≡ [])
        × (postings
              (result_manifest sample_sids sample_system sid_broadcast (codes "add"))
              lost_effects
            ≡ take 959 (printed_payload (codes "3\n")).bytes ∷ []))
mdp_result_lost_example =
    mdp_result_lost sample_words sample_sids sample_system client_5 0 (codes "add") (codes "1")
      (codes "2" ∷ []) (codes "3\n") (pos 0) lost_effects
      (is_token b'|' b'a' (codes "dd") refl refl) two-AreTokens (omega arith) refl not_broadcast
      (omega arith) call_served client_away server_handles
