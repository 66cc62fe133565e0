-- ===== src/Server/Execute.antt =====
-- `_rpc_server_excecute` of rpc_server.c.
pub mod Payload
pub mod Runs
use dtn_rpc.Common.{
  ℕ, zero, suc, ◌-◌, not, Option, none, some, List, [], ◌∷◌, ◌++◌, ◌==◌, if◌then◌else◌, Bytes,
  codes, get_elem?, set, take, drop,
}
use dtn_rpc.Serval.{Sids}
use dtn_rpc.Memory.{Buffer, fresh, memcpy}
use dtn_rpc.Filehash.{rpc_str_is_filehash}
use dtn_rpc.Result.{deref, elem}
use dtn_rpc.CString.{c_string}
use dtn_rpc.Wire.{rpc_pkt_call_response, rpc_pkt_size, write_uint8, rpc_flatten_params}
use dtn_rpc.System.{System, run, Exec, pure, emit, lift, ◌>>=◌, ◌>>◌}
use dtn_rpc.Rhizome.{await_download}
use dtn_rpc.Rhizome.Insert.{rpc_add_file_to_store}
use dtn_rpc.Server.{RpcProcedure}

-- The characters that `fgets` takes: at most `n`, up to a newline and with it.
unfoldable pub line_of : ℕ → Bytes → Bytes
line_of zero out = []
line_of (suc n) [] = []
line_of (suc n) (c ∷ out) = if c == b'\n' then c ∷ [] else c ∷ line_of n out

-- `fgets(&payload[1], RPC_PKT_SIZE-1, pipe_fp)`; with no output the array stays as it is.
read_line : Buffer → Bytes → Buffer
unfolding line_of
read_line payload [] = payload
read_line payload (c ∷ out) = memcpy payload 1 (line_of (rpc_pkt_size - 2) (c ∷ out) ++ 0 ∷ [])

-- The array `filehash`, of which 129 bytes are written.
filehash_array : Bytes → Bytes → Bytes
filehash_array uninit hash = (memcpy (memcpy (fresh uninit) 0 hash) 128 (0 ∷ [])).bytes

module _ (S : Sids) (system : System) where
  -- A first parameter that is a file hash is replaced by the path of the downloaded file.
  fetch_first : RpcProcedure → Bytes → Exec (List (Option Bytes))
  fetch_first rp first =
      if rpc_str_is_filehash first
      then (do
        fpath ← lift (await_download S system.polls rp.name (S.alloca_tohex_sid_t rp.caller_sid))
        pure (set rp.params 0 (some fpath)))
      else pure rp.params

  -- A result that is the path of a file is replaced by the hash of that file in the store.
  store_result : Buffer → RpcProcedure → Bytes → Exec Buffer
  unfolding filehash_array
  store_result payload rp path =
      if system.exists path
      then (do
        hash ← rpc_add_file_to_store S system rp.caller_sid rp.name path
        let copied = memcpy payload 1 (take (rpc_pkt_size - 1) (filehash_array system.uninit hash))
        pure (memcpy copied rpc_pkt_size (0 ∷ [])))
      else pure payload

  -- The body behind `popen`.
  finish_run : Buffer → RpcProcedure → Option (Bytes × ℕ) → Exec (ℕ × Buffer)
  unfolding read_line
  finish_run payload rp none = pure (0, payload)
  finish_run payload rp (some (out, status)) = do
    let typed = write_uint8 payload 0 rpc_pkt_call_response
    let filled = memcpy (read_line typed out) rpc_pkt_size (0 ∷ [])
    path ← lift (c_string (drop 1 filled.bytes))
    result ← store_result filled rp path
    pure (if status == 0 then 1 else 0, result)

  -- The return value and the array `result_payload`. The arrays `bin` and `cmd` have no byte for the
  -- terminator.
  unfoldable pub rpc_server_execute : Buffer → RpcProcedure → Exec (ℕ × Buffer)
  unfolding fetch_first store_result finish_run
  rpc_server_execute payload rp =
      let bin = system.sysconfdir ++ (codes "/serval/rpc_bin/" ++ rp.name) in
      if not (system.exists bin) then pure (0, payload) else (do
        first ← lift (elem (get_elem? rp.params 0))
        hash ← lift (deref first)
        params ← fetch_first rp hash
        (flat_params, _) ← lift (rpc_flatten_params rp.paramc_n params (b' ' ∷ []))
        emit (run (bin ++ flat_params))
        finish_run payload rp (system.popen (bin ++ flat_params)))
