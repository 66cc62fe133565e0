-- ===== src/Client.antt =====
-- rpc_client.c: the table of results, and the flattened parameters of a call.
pub mod Table
pub mod Codes
pub mod Params
pub mod Answers
pub mod Mdp
pub mod Rhizome
pub mod Msp
pub mod Call
use dtn_rpc.Common.{
  ℕ, ◌+◌, Bool, false, Option, none, some, List, [], ◌∷◌, ◌++◌, leb, ◌==◌, if◌then◌else◌, Bytes,
  length, get_elem?, drop, replicate,
}
use dtn_rpc.Common.Int.{ℤ, pos, ◌==ℤ◌, minus_one}
use dtn_rpc.Serval.{Sid, sid_any, sid_broadcast, Sids, is_sid_t_any}
use dtn_rpc.Result.{Result, ok, err, out_of_bounds, elem}
use dtn_rpc.CString.{c_string}
use dtn_rpc.Wire.{rpc_pkt_size, rpc_flatten_params}
use dtn_rpc.System.{System, Exec, lift, ◌>>=◌, ◌>>◌}
use dtn_rpc.Rhizome.Insert.{rpc_add_file_to_store}

pub record RpcResult : Type 0 where
  pub server_sid : Sid
  pub content : Bytes

abbrev pub no_result : RpcResult
no_result = record { server_sid = sid_any; content = replicate rpc_pkt_size 0 }

-- `rpc_result` behind its `memset`.
abbrev pub no_results : List RpcResult
no_results = replicate 5 no_result

-- What the calls keep in global variables: `received` and `rpc_result`.
pub record ClientState : Type 0 where
  pub received : ℤ
  pub rpc_result : List RpcResult

module _ (S : Sids) where
  -- The loop from index `i` on; behind it `i` is 5 for the array that the program has.
  pub insert_loop : List RpcResult → ℕ → ℤ
  insert_loop [] i = if i == 5 then pos i else minus_one
  insert_loop (result ∷ results) i =
      if is_sid_t_any S result.server_sid then pos i else insert_loop results (i + 1)

  unfoldable pub rpc_client_result_get_insert_index : List RpcResult → ℤ
  unfolding insert_loop
  rpc_client_result_get_insert_index rpc_result = insert_loop rpc_result 0

  pub sid_loop : List RpcResult → Sid → ℕ → ℤ
  sid_loop [] sid i = minus_one
  sid_loop (result ∷ results) sid i =
      if S.cmp_sid_t sid result.server_sid ==ℤ pos 0 then pos i else sid_loop results sid (i + 1)

  unfoldable pub rpc_client_result_get_sid_index : List RpcResult → Sid → ℤ
  unfolding sid_loop
  rpc_client_result_get_sid_index rpc_result sid = sid_loop rpc_result sid 0

-- `strcpy(flat_params, flat)` into the callers' 512 bytes.
pub copy_flat_params : Bytes → Result Bytes
copy_flat_params flat = if leb 512 (length flat) then err out_of_bounds else ok flat

-- `!access(params[0], F_OK)`; `access` rejects `NULL`.
pub is_path : System → Option Bytes → Bool
is_path system none = false
is_path system (some path) = system.exists path

-- The string in `flat_params` afterwards.
unfoldable pub rpc_client_replace_if_path :
    Sids → System → Bytes → List (Option Bytes) → ℕ → Exec Bytes
unfolding copy_flat_params is_path
rpc_client_replace_if_path S system rpc_name params paramc = do
  first ← lift (elem (get_elem? params 0))
  if is_path system first
      then (do
        hash ←
            rpc_add_file_to_store S system sid_broadcast rpc_name
              (elim first [ none ↦ [] | some p ↦ p ])
        filehash ← lift (c_string (hash ++ 0 ∷ []))
        new_params ←
            lift (if paramc == 0 then err out_of_bounds else ok (some filehash ∷ drop 1 params))
        (flat, _) ← lift (rpc_flatten_params paramc new_params (b'|' ∷ []))
        lift (copy_flat_params flat))
      else (do
        (flat, _) ← lift (rpc_flatten_params paramc params (b'|' ∷ []))
        lift (copy_flat_params flat))
