-- ===== src/Server/Answer/Served.antt =====
-- A call that a server offers and whose program runs with success: the premises that the theorems on
-- the handlers share.
use dtn_rpc.Common.{
  ℕ, ◌≡◌, refl, ◌≢◌, true, false, some, List, [], ◌∷◌, ◌++◌, arith, ◌==◌, Bytes, drop,
}
use dtn_rpc.System.{System, Effect, run}
use dtn_rpc.Result.{ok}
use dtn_rpc.CString.{c_string}
use dtn_rpc.Serval.{Words, Sids}
use dtn_rpc.Server.{RpcProcedure}
use dtn_rpc.Server.Offering.{rpc_server_offering, rpc_server_accepts}
use dtn_rpc.Server.Execute.{rpc_server_execute}
use dtn_rpc.Server.Execute.Payload.{printed_payload}
use dtn_rpc.Server.Execute.Runs.{command, IsRunnable, rpc_server_execute_runs}
use dtn_rpc.Server.Answer.{zero_payload, is_served}

module _ (W : Words) (S : Sids) (system : System) (rp : RpcProcedure) (first : Bytes)
    (others : List Bytes) (out : Bytes) where
  -- The configuration offers the call, the binary is there, its run prints `out` and ends with 0, and
  -- the first line of that is not the path of a file.
  pub record IsServed : Type 0 where
    pub offered : ℕ
    pub path : Bytes
    pub offers : rpc_server_offering system.conf_file rp ≡ ok offered
    pub chosen : offered ≢ 0
    pub runnable : IsRunnable S system rp first others
    pub prints : system.popen (command S system rp (first ∷ others)) ≡ some (out, 0)
    pub reads : c_string (drop 1 (printed_payload out).bytes) ≡ ok path
    pub plain : system.exists path ≡ false

  -- The run of the program.
  abbrev pub program_run : Effect
  program_run = run (command S system rp (first ∷ others))

  pub is_served_offered : (payload : Bytes) → IsServed → is_served W system rp payload ≡ ok true
  unfolding is_served rpc_server_accepts
  is_served_offered payload s =
      let called : (s.offered == 0) ≡ false = ground (arith, s.chosen) in rw (s.offers, called) refl

  pub rpc_server_execute_served :
      (trace : List Effect)
      → IsServed
      → rpc_server_execute S system zero_payload rp trace
        ≡ ok ((1, printed_payload out), trace ++ program_run ∷ [])
  rpc_server_execute_served trace s =
      rpc_server_execute_runs S system rp first others out s.path 0 trace s.runnable s.prints
        s.reads s.plain
