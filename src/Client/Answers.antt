-- ===== src/Client/Answers.antt =====
-- How an ACK and a result change the table of results: the code that rpc_client_mdp.c and
-- rpc_client_rhizome.c share.
pub mod Direct
use dtn_rpc.Common.{
  ℕ, ◌+◌, ◌-◌, Bool, true, false, ◌&&◌, ◌||◌, none, some, List, [], ◌∷◌, ◌++◌, ltb, leb, ◌==◌,
  if◌then◌else◌, Bytes, length, get_elem?, set, take, drop,
}
use dtn_rpc.Common.Int.{ℤ, pos, negsuc, ◌==ℤ◌, minus_one}
use dtn_rpc.Serval.{Sid, sid_broadcast, Sids, is_sid_t_broadcast}
use dtn_rpc.Filehash.{rpc_str_is_filehash}
use dtn_rpc.Result.{Result, ok, err, out_of_bounds}
use dtn_rpc.CString.{c_string}
use dtn_rpc.Memory.{fresh, memcpy}
use dtn_rpc.Wire.{rpc_pkt_size}
use dtn_rpc.System.{System, Exec, pure, lift, ◌>>=◌}
use dtn_rpc.Rhizome.{await_download}
use dtn_rpc.Client.{RpcResult, rpc_client_result_get_insert_index, rpc_client_result_get_sid_index}

-- `memcpy(&rpc_result[position].server_sid, …)`; the table has five entries.
unfoldable pub write_sid : List RpcResult → ℤ → Sid → Result (List RpcResult)
write_sid table (pos i) sid = elim (get_elem? table i) [
  | none ↦ err out_of_bounds
  | some old ↦ ok (set table i (record old { server_sid = sid }))
]
write_sid table (negsuc n) sid = err out_of_bounds

-- `memcpy(rpc_result[position].content, …)` of at most RPC_PKT_SIZE bytes.
unfoldable pub write_content : List RpcResult → ℕ → Bytes → Result (List RpcResult)
write_content table i bytes = elim (get_elem? table i) [
  | none ↦ err out_of_bounds
  | some old ↦
      if ltb rpc_pkt_size (length bytes)
      then err out_of_bounds
      else ok (set table i (record old { content = (memcpy (fresh old.content) 0 bytes).bytes }))
]

-- The array `fpath` of 128 + strlen(rpc_name) + 3 bytes, of which the path is written.
pub path_array : System → Bytes → Bytes → Result Bytes
path_array system rpc_name fpath =
    let size = 128 + length rpc_name + 3 in
    if leb size (length fpath) || ltb (length system.uninit) size
    then err out_of_bounds
    else ok (memcpy (fresh (take size system.uninit)) 0 (fpath ++ 0 ∷ [])).bytes

module _ (S : Sids) (system : System) (server_sid : Sid) where
  -- An ACK of `remote` on a call of `server_sid`.
  unfoldable pub record_ack : List RpcResult → Sid → Result (List RpcResult)
  record_ack table remote =
      if is_sid_t_broadcast S server_sid
        && (rpc_client_result_get_sid_index S table server_sid ==ℤ minus_one)
      then write_sid table (rpc_client_result_get_insert_index S table) remote
      else ok table

  -- The bytes that are stored for a result: the downloaded file's path, or what was received behind
  -- the packet type. `payload` is the array, of which `len` bytes were received.
  pub answer_bytes : Bytes → Bytes → ℕ → Exec Bytes
  unfolding path_array
  answer_bytes rpc_name payload len = do
    text ← lift (c_string (drop 1 payload))
    if rpc_str_is_filehash text
        then (do
          fpath ← lift (await_download S system.polls rpc_name (S.alloca_tohex_sid_t sid_broadcast))
          lift (path_array system rpc_name fpath))
        else lift (if len == 0 then err out_of_bounds else ok (take (len - 1) (drop 1 payload)))

  -- A result of `remote`: the table, and whether the call is complete. On a broadcast a server that
  -- has sent no ACK is passed over.
  unfoldable pub record_result :
      Bytes → List RpcResult → Sid → Bytes → ℕ → Exec (List RpcResult × Bool)
  unfolding answer_bytes
  record_result rpc_name table remote payload len =
      if is_sid_t_broadcast S server_sid
      then elim (rpc_client_result_get_sid_index S table remote) [
        | pos i ↦ (do
          bytes ← answer_bytes rpc_name payload len
          table' ← lift (write_content table i bytes)
          pure (table', i == 4))
        | negsuc n ↦ pure (table, false)
      ]
      else (do
        bytes ← answer_bytes rpc_name payload len
        filled ← lift (write_content table 0 bytes)
        table' ← lift (write_sid filled (pos 0) remote)
        pure (table', true))
