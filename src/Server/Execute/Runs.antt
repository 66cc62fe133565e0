-- ===== src/Server/Execute/Runs.antt =====
-- How an execution goes: the command that is run, and what comes back.
use dtn_rpc.Common.{
  ℕ, ◌<◌, ◌≡◌, refl, true, false, Option, none, some, List, [], ◌∷◌, ◌++◌, map, ◌==◌, if◌then◌else◌,
  Bytes, codes, length, drop, All,
}
use dtn_rpc.Memory.{Buffer}
use dtn_rpc.Serval.{Sids}
use dtn_rpc.Filehash.{rpc_str_is_filehash}
use dtn_rpc.Result.{ok, err, null_pointer}
use dtn_rpc.CString.{c_string}
use dtn_rpc.CString.Tokens.{join}
use dtn_rpc.Wire.Params.{rpc_flatten_params_lem, rpc_flatten_params_null}
use dtn_rpc.System.{System, Effect, run}
use dtn_rpc.Server.{RpcProcedure}
use dtn_rpc.Server.Execute.{fetch_first, store_result, finish_run, rpc_server_execute}
use dtn_rpc.Server.Execute.Payload.{printed_payload}
use dtn_rpc.Server.Answer.{zero_payload}

module _ (S : Sids) (system : System) (rp : RpcProcedure) where
  abbrev pub binary : Bytes
  binary = system.sysconfdir ++ (codes "/serval/rpc_bin/" ++ rp.name)

  abbrev pub command : List Bytes → Bytes
  command ps = binary ++ join b' ' ps

  -- The parameters that a run of the procedure needs: as many as the count, none null, and the first
  -- one no file hash.
  pub record IsRunnable (first : Bytes) (others : List Bytes) : Type 0 where
    pub has_params : rp.params ≡ map some (first ∷ others)
    pub has_count : rp.paramc_n ≡ length (first ∷ others)
    pub has_binary : system.exists binary ≡ true
    pub no_file : rpc_str_is_filehash first ≡ false

  -- With as many parameters as the count, none null, and no file hash at the front, the binary is
  -- run once on the parameters behind blanks. Unless the first line that it prints is the path of a
  -- file, that line is the result; the exit status decides between 1 and 0.
  pub rpc_server_execute_runs :
      (first : Bytes) (others : List Bytes) (out path : Bytes) (status : ℕ) (trace : List Effect)
      → IsRunnable first others
      → system.popen (command (first ∷ others)) ≡ some (out, status)
      → c_string (drop 1 (printed_payload out).bytes) ≡ ok path
      → system.exists path ≡ false
      → rpc_server_execute S system zero_payload rp trace
        ≡ ok (
          (if status == 0 then 1 else 0, printed_payload out),
          trace ++ run (command (first ∷ others)) ∷ [],
        )
  unfolding rpc_server_execute printed_payload fetch_first store_result finish_run
  rpc_server_execute_runs first others out path status trace r popen read plain =
      rw
        (
          r.has_binary,
          r.has_params,
          r.has_count,
          r.no_file,
          rpc_flatten_params_lem b' ' (first ∷ others),
          popen,
          read,
          plain,
        )
        refl

  -- With a null parameter among those that the count announces, behind parameters that are no file
  -- hashes, an execution of a binary that exists reads through the null pointer.
  pub rpc_server_execute_null :
      (payload : Buffer) (given : List Bytes) (rest : List (Option Bytes)) (trace : List Effect)
      → system.exists binary ≡ true
      → All (λ p. rpc_str_is_filehash p ≡ false) given
      → rp.params ≡ map some given ++ none ∷ rest
      → length given < rp.paramc_n
      → rpc_server_execute S system payload rp trace ≡ err null_pointer
  unfolding rpc_server_execute fetch_first
  rpc_server_execute_null payload [] rest trace has plain params few = rw (has, params) refl
  rpc_server_execute_null payload (p ∷ given) rest trace has (hp, _) params few =
      rw (has, params, hp, rpc_flatten_params_null rp.paramc_n (p ∷ given) rest (b' ' ∷ []) few)
        refl
