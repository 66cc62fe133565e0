-- ===== src/Client/Params.antt =====
-- The parameter string and the packet of a call whose first parameter is no path.
use dtn_rpc.Common.{
  ℕ, ◌≤◌, ◌<◌, ◌≡◌, refl, false, some, List, ◌∷◌, ◌++◌, map, arith, leb, Bytes, length, take,
  replicate, length-append, length-replicate,
}
use dtn_rpc.Serval.{Words, Sids}
use dtn_rpc.Result.{ok}
use dtn_rpc.CString.Tokens.{join}
use dtn_rpc.Memory.{length-take, fresh}
use dtn_rpc.Wire.{rpc_client_prepare_call_payload}
use dtn_rpc.Wire.Params.{rpc_flatten_params_lem}
use dtn_rpc.Wire.Call.{call_packet, rpc_client_prepare_call_payload_lem}
use dtn_rpc.System.{System, Effect}
use dtn_rpc.Client.{copy_flat_params, is_path, rpc_client_replace_if_path}
use dtn_rpc.Client.Mdp.{call_size, call_array}

module _ (S : Sids) (system : System) (rpc_name : Bytes) where
  -- Parameters of which the first is no path are flattened as they are, if they fit into the 512 bytes
  -- of the callers.
  pub rpc_client_replace_if_path-plain :
      (first : Bytes) (others : List Bytes) (trace : List Effect)
      → system.exists first ≡ false
      → length (join b'|' (first ∷ others)) < 512
      → rpc_client_replace_if_path S system rpc_name
          (map some (first ∷ others))
          (length (first ∷ others))
          trace
        ≡ ok (join b'|' (first ∷ others), trace)
  unfolding rpc_client_replace_if_path copy_flat_params is_path
  rpc_client_replace_if_path-plain first others trace plain fits =
      let short : leb 512 (length (join b'|' (first ∷ others))) ≡ false = ground arith in
      rw (plain, rpc_flatten_params_lem b'|' (first ∷ others), short) refl

  -- The array of a call has exactly the size of its packet.
  pub prepared_packet :
      (W : Words) (flat_params : Bytes) (paramc requirements : ℕ)
      → rpc_client_prepare_call_payload W
          (call_array system rpc_name flat_params)
          paramc
          rpc_name
          flat_params
          requirements
        ≡ fresh (call_packet W requirements paramc rpc_name flat_params)
  unfolding call_array
  prepared_packet W flat_params paramc requirements =
      let size : ℕ = call_size rpc_name flat_params in
      let old : Bytes = take size (system.uninit ++ replicate size 0) in
      let long : size ≤ length (system.uninit ++ replicate size 0) =
        omega (
          arith,
          length-append system.uninit (replicate size 0),
          length-replicate {A = ℕ} size 0,
        ) in
      rpc_client_prepare_call_payload_lem W old paramc rpc_name flat_params requirements
        (length-take size (system.uninit ++ replicate size 0) long)
