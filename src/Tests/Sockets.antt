-- ===== src/Tests/Sockets.antt =====
-- The sockets of the server at concrete inputs.
use dtn_rpc.Common.{ℕ, ◌≡◌, refl, ◌≢◌, true, false, [], ◌∷◌, codes}
use dtn_rpc.Common.Int.{pos, minus_one}
use dtn_rpc.Result.{ok}
use dtn_rpc.Serval.Sample.{sample_words, sample_sids}
use dtn_rpc.System.Sample.{sample_system}
use dtn_rpc.Server.Sockets.{Sockets}
use dtn_rpc.Server.Listen.{ServerRun, rpc_server_listen}
use dtn_rpc.Server.Listen.Closes.{IsCreated, rpc_server_listen_closes, rpc_server_listen_leaks}
use dtn_rpc.Tests.Descriptors.{both_sockets}
use dtn_rpc.Tests.Listen.{standard, left_closed, add_run, add_served}

four_and_three : ◌≢◌ {A = ℕ} 4 3
four_and_three e = absurd cc

abbrev both_created : IsCreated sample_words sample_sids sample_system add_run standard
both_created = record {
  msp_fd = 3;
  mdp_fd = 4;
  has_msp = refl;
  has_mdp = refl;
  distinct = four_and_three;
}

rpc_server_listen_closes_example :
    (left_closed.opened ≡ 0 ∷ 1 ∷ 2 ∷ []) × (left_closed.sock_msp ≡ false)
rpc_server_listen_closes_example =
    rpc_server_listen_closes sample_words sample_sids sample_system add_run standard []
      (codes "A1" ∷ []) (pos 0) left_closed [] add_served.0 both_created refl add_served.1

-- The socket for MDP is there, and cannot be bound.
abbrev unbound_run : ServerRun
unbound_run = record add_run { calls = record both_sockets { mdp_binds = false } }

rpc_server_listen_leaks_example :
    (left : Sockets) × ((rpc_server_listen sample_words sample_sids sample_system unbound_run
          standard 0 [] []
        ≡ ok (((minus_one, []), left), []))
      × ((left.opened ≡ 4 ∷ 3 ∷ 0 ∷ 1 ∷ 2 ∷ []) × (left.sock_msp ≡ true)))
rpc_server_listen_leaks_example =
    rpc_server_listen_leaks sample_words sample_sids sample_system unbound_run standard 0 [] []
      (record { msp_fd = 3; mdp_fd = 4; has_msp = refl; has_mdp = refl; distinct = four_and_three })
      refl
