-- ===== src/Server/SendResult/Whole.antt =====
-- What `_rpc_server_rhizome_send_result` posts to the store.
use dtn_rpc.Common.{
  ◌-◌, ◌≤◌, ◌≡◌, refl, false, none, some, List, [], ◌∷◌, ◌++◌, arith, ltb, Bytes, length, take,
}
use dtn_rpc.Common.Int.{ℤ, pos, minus_one}
use dtn_rpc.System.{System, Effect}
use dtn_rpc.Result.{ok}
use dtn_rpc.Serval.{Sid, Sids}
use dtn_rpc.Wire.{rpc_pkt_size}
use dtn_rpc.Server.SendResult.{
  insert_bytes, ℤ, Bytes, Sid, System, Sids, payload_file, result_manifest,
  rpc_server_rhizome_send_result,
}

module _ (S : Sids) (system : System) (sid : Sid) (rpc_name payload : Bytes) where
  -- The bytes that are posted, and the return code.
  abbrev pub posted : Effect
  posted =
      insert_bytes (result_manifest S system sid rpc_name)
        (take (rpc_pkt_size - 1) (payload ++ system.behind))

  abbrev pub post_code : ℤ
  post_code = elim (system.insert (result_manifest S system sid rpc_name)) [
    | none ↦ minus_one
    | some _ ↦ pos 1
  ]

  pub rpc_server_rhizome_send_result_lem :
      (trace : List Effect)
      → rpc_pkt_size - 1 ≤ length (payload ++ system.behind)
      → rpc_server_rhizome_send_result S system sid rpc_name payload trace
        ≡ ok (post_code, trace ++ posted ∷ [])
  unfolding rpc_server_rhizome_send_result payload_file
  rpc_server_rhizome_send_result_lem trace long =
      let enough : ltb (length (payload ++ system.behind)) (rpc_pkt_size - 1) ≡ false =
        ground arith in
      rw enough refl
