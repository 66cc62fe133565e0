-- ===== src/Server/Rhizome/Unoffered.antt =====
-- A look at a store with a call of a procedure that is not offered.
use dtn_rpc.Common.{ℕ, ◌≡◌, refl, false, List, Bytes}
use dtn_rpc.Common.Int.{pos, minus_one}
use dtn_rpc.Serval.{Words, Sid, Sids}
use dtn_rpc.Result.{ok}
use dtn_rpc.System.{System, Bundle, Poll, Effect}
use dtn_rpc.Server.Offering.{rpc_server_offering}
use dtn_rpc.Server.Answer.{is_served}
use dtn_rpc.Server.Rhizome.{rpc_server_rhizome_done, rpc_server_rhizome_process}
use dtn_rpc.Server.Rhizome.OnlyCall.{IsOnlyCall, rpc_server_rhizome_process_one}
use dtn_rpc.Server.Rhizome.CallBundle.{packet, IsCallBundle, call_of, round_call}

module _ (W : Words) (S : Sids) (system : System) (requirements : ℕ) (name : Bytes)
    (ps : List Bytes) (store : Poll) (file : Bundle) (caller : Sid) (done_calls : List Bytes)
    (trace : List Effect) where
  is_served_unoffered :
      rpc_server_offering system.conf_file (call_of W S system requirements name ps caller) ≡ ok 0
      → is_served W system
          (call_of W S system requirements name ps caller)
          (packet W S system requirements name ps)
        ≡ ok false
  unfolding is_served
  is_served_unoffered unoffered = rw unoffered refl

  -- A look at a store in which such a bundle is the only one for this server has no effect, and returns -1.
  pub rpc_server_rhizome_process_unoffered :
      IsCallBundle W S system requirements name ps store file caller
      → IsOnlyCall W S system store file
      → rpc_server_rhizome_done done_calls file.id ≡ false
      → rpc_server_offering system.conf_file (call_of W S system requirements name ps caller) ≡ ok 0
      → rpc_server_rhizome_process W S system store done_calls trace
        ≡ ok ((minus_one, done_calls), trace)
  rpc_server_rhizome_process_unoffered b only new unoffered =
      rpc_server_rhizome_process_one W S system store file minus_one done_calls done_calls trace
        trace only
        (round_call W S system requirements name ps store file caller done_calls trace (pos 0) false
          b new (is_served_unoffered unoffered))
