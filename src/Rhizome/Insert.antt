-- ===== src/Rhizome/Insert.antt =====
-- `_rpc_add_file_to_store` of rpc_helpers.c.
use dtn_rpc.Common.{Option, none, some, [], ◌∷◌, ltb, ◌==◌, if◌then◌else◌, Bytes, length, take}
use dtn_rpc.Serval.{Sid, Sids}
use dtn_rpc.Result.{Result, ok, err, null_pointer, out_of_bounds, uninitialised}
use dtn_rpc.System.{System, insert_file, Exec, emit, lift, ◌>>◌}
use dtn_rpc.Rhizome.{file_manifest}

-- `&strrchr(s, '=')[1]`
behind_last_equals : Bytes → Option Bytes
behind_last_equals [] = none
behind_last_equals (c ∷ s) =
    let later = behind_last_equals s in
    elim later [ some found ↦ some found | none ↦ if c == b'=' then some s else none ]

-- The 128 characters that are copied from the response.
hash_of_response : Option Bytes → Result Bytes
hash_of_response none = err null_pointer
hash_of_response (some s) = if ltb (length s) 128 then err out_of_bounds else ok (take 128 s)

-- The return code is dropped by both callers: after a failure they read an array that nothing has
-- written.
unfoldable pub rpc_add_file_to_store : Sids → System → Sid → Bytes → Bytes → Exec Bytes
unfolding file_manifest behind_last_equals hash_of_response
rpc_add_file_to_store S system sid rpc_name filepath = do
  let manifest = file_manifest S sid rpc_name
  emit (insert_file manifest filepath)
  lift (elim (system.insert manifest) [
    | none ↦ err uninitialised
    | some response ↦ hash_of_response (behind_last_equals response)
  ])
