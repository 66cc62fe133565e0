-- ===== src/Client/Answers/Direct.antt =====
-- The result of a direct call in the table.
use dtn_rpc.Common.{
  ℕ, ◌+◌, ◌-◌, ◌≤◌, ◌≡◌, refl, ◌∙◌, Bool, true, false, List, ◌∷◌, ◌++◌, arith, ltb, ◌==◌, Bytes,
  length, drop, replicate, length-replicate,
}
use dtn_rpc.Common.Int.{pos}
use dtn_rpc.System.{System, Effect, Exec, pure, lift, ◌>>=◌}
use dtn_rpc.Result.{ok}
use dtn_rpc.CString.{c_string}
use dtn_rpc.Serval.{Sid, Sids, is_sid_t_broadcast}
use dtn_rpc.Wire.{rpc_pkt_call_response, rpc_pkt_size}
use dtn_rpc.Filehash.{rpc_str_is_filehash}
use dtn_rpc.Memory.{memcpy_front, take-append_length}
use dtn_rpc.System.Ensures.{bind_ok}
use dtn_rpc.Client.{RpcResult, no_result, no_results}
use dtn_rpc.Client.Answers.{record_result, answer_bytes, write_content, write_sid}

-- What a packet of a result leaves in an entry: its bytes behind the type, and zeros.
abbrev pub stored : Bytes → Bytes
stored body = body ++ drop (length body) (replicate rpc_pkt_size 0)

-- The table of a direct call that has its result.
abbrev pub answered_table : Sid → Bytes → List RpcResult
answered_table remote body =
    record { server_sid = remote; content = stored body } ∷ replicate 4 no_result

pub write_content-first :
    (body : Bytes)
    → length body ≤ rpc_pkt_size
    → write_content no_results 0 body
      ≡ ok (record no_result { content = stored body } ∷ replicate 4 no_result)
unfolding write_content
write_content-first body fits =
    let small : ltb rpc_pkt_size (length body) ≡ false = ground arith in
    rw
      (
        small,
        memcpy_front (replicate rpc_pkt_size 0) body
            (omega (arith, length-replicate {A = ℕ} rpc_pkt_size 0)),
      )
      refl

module _ (S : Sids) (system : System) (server_sid : Sid) (rpc_name : Bytes) where
  pub answer_bytes-text :
      (body behind text : Bytes) (trace : List Effect)
      → c_string (body ++ behind) ≡ ok text
      → rpc_str_is_filehash text ≡ false
      → answer_bytes S system server_sid rpc_name
          (rpc_pkt_call_response ∷ body ++ behind)
          (length body + 1)
          trace
        ≡ ok (body, trace)
  unfolding answer_bytes
  answer_bytes-text body behind text trace reads no_file =
      let one : (length body + 1 == 0) ≡ false = ground arith in
      let count : length body + 1 - 1 ≡ length body = omega arith in
      rw reads (rw no_file (rw (one, count, take-append_length body behind) refl))

  -- The bytes of a result packet, whose text is no file hash, fill the first entry.
  pub record_result-direct :
      (remote : Sid) (body behind text : Bytes) (trace : List Effect)
      → is_sid_t_broadcast S server_sid ≡ false
      → length body ≤ rpc_pkt_size
      → c_string (body ++ behind) ≡ ok text
      → rpc_str_is_filehash text ≡ false
      → record_result S system server_sid rpc_name no_results remote
          (rpc_pkt_call_response ∷ body ++ behind)
          (length body + 1)
          trace
        ≡ ok ((answered_table remote body, true), trace)
  unfolding record_result write_sid
  record_result-direct remote body behind text trace direct fits reads no_file =
      let payload = rpc_pkt_call_response ∷ body ++ behind in
      let store : Bytes → Exec (List RpcResult × Bool) = λ bytes.
        (lift (write_content no_results 0 bytes) >>= λ filled.
        (lift (write_sid filled (pos 0) remote) >>= λ table'. pure (table', true))) in
      rw direct (
        bind_ok (answer_bytes S system server_sid rpc_name payload (length body + 1)) store
          {trace = trace} (answer_bytes-text body behind text trace reads no_file)
        ∙ rw (write_content-first body fits) refl)
