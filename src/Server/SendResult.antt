-- ===== src/Server/SendResult.antt =====
-- `_rpc_server_rhizome_send_result` of rpc_server_rhizome.c.
pub mod Whole
use dtn_rpc.Common.{◌-◌, none, some, ◌++◌, ltb, if◌then◌else◌, Bytes, codes, length, take}
use dtn_rpc.Common.Int.{ℤ, pos, minus_one}
use dtn_rpc.Serval.{Sid, Sids}
use dtn_rpc.Result.{Result, ok, err, out_of_bounds}
use dtn_rpc.Wire.{rpc_pkt_size}
use dtn_rpc.System.{System, insert_bytes, Exec, pure, emit, lift, ◌>>=◌, ◌>>◌}
use dtn_rpc.Rhizome.{hex_mine}

-- The first RPC_PKT_SIZE - 1 bytes from the payload's address on; `behind` is what lies behind a
-- payload that is shorter.
unfoldable pub payload_file : Bytes → Bytes → Result Bytes
payload_file payload behind =
    let memory = payload ++ behind in
    if ltb (length memory) (rpc_pkt_size - 1)
    then err out_of_bounds
    else ok (take (rpc_pkt_size - 1) memory)

module _ (S : Sids) (system : System) where
  -- The manifest of a result. `manifest_str` has no byte for the terminator.
  unfoldable pub result_manifest : Sid → Bytes → Bytes
  result_manifest sid rpc_name =
      codes "service=RPC\nname="
      ++ (rpc_name
          ++ (codes "\nsender="
              ++ (hex_mine S
                  ++ (codes "\nrecipient=" ++ (S.alloca_tohex_sid_t sid ++ codes "\n")))))

  unfoldable pub rpc_server_rhizome_send_result : Sid → Bytes → Bytes → Exec ℤ
  rpc_server_rhizome_send_result sid rpc_name payload = do
    let manifest = result_manifest sid rpc_name
    contents ← lift (payload_file payload system.behind)
    emit (insert_bytes manifest contents)
    pure (elim (system.insert manifest) [ none ↦ minus_one | some _ ↦ pos 1 ])
