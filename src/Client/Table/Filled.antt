-- ===== src/Client/Table/Filled.antt =====
-- The results of a broadcast call in the table: the code that rpc_client_mdp.c and
-- rpc_client_rhizome.c have for them.
use dtn_rpc.Common.{
  ℕ, ◌+◌, ◌≤◌, ◌≡◌, refl, sym, ap, ◌∙◌, ◌≢◌, Bool, true, false, List, [], ◌∷◌, ◌++◌, arith, ltb,
  ◌==◌, Bytes, length, drop, get_elem?-append_length, set-append_length, All,
}
use dtn_rpc.Common.Int.{pos, ◌==ℤ◌, ==ℤ_iff}
use dtn_rpc.System.{System, Effect, Exec, pure, lift, ◌>>=◌}
use dtn_rpc.Result.{ok}
use dtn_rpc.CString.{c_string}
use dtn_rpc.Serval.{Sid, Sids, is_sid_t_broadcast}
use dtn_rpc.Wire.{rpc_pkt_call_response, rpc_pkt_size}
use dtn_rpc.Filehash.{rpc_str_is_filehash}
use dtn_rpc.Memory.{memcpy_front}
use dtn_rpc.System.Ensures.{bind_ok}
use dtn_rpc.Client.{RpcResult, sid_loop, rpc_client_result_get_sid_index}
use dtn_rpc.Client.Answers.{record_result, answer_bytes, write_content}
use dtn_rpc.Client.Answers.Direct.{answer_bytes-text}
use dtn_rpc.Client.Table.{other_sid}

-- An entry with these bytes at the front of its content.
abbrev pub filled_with : Bytes → RpcResult → RpcResult
filled_with body entry = record entry { content = body ++ drop (length body) entry.content }

write_content-append :
    (before : List RpcResult) (entry : RpcResult) (after : List RpcResult) (body : Bytes)
    → length body ≤ rpc_pkt_size
    → length entry.content ≡ rpc_pkt_size
    → write_content (before ++ entry ∷ after) (length before) body
      ≡ ok (before ++ filled_with body entry ∷ after)
unfolding write_content
write_content-append before entry after body fits size =
    let small : ltb rpc_pkt_size (length body) ≡ false = ground arith in
    rw (get_elem?-append_length before entry after, write_content)
      (rw (small, memcpy_front entry.content body (omega arith))
        (ap ok (set-append_length before entry (filled_with body entry) after)))

module _ (S : Sids) where
  same_sid : (a : Sid) → (S.cmp_sid_t a a ==ℤ pos 0) ≡ true
  same_sid a = (==ℤ_iff (S.cmp_sid_t a a) (pos 0)).1 ((S.cmp_sid_t_iff a a).1 refl)

  sid_loop-append :
      (before after : List RpcResult) (entry : RpcResult) (i : ℕ)
      → All (λ r. r.server_sid ≢ entry.server_sid) before
      → sid_loop S (before ++ entry ∷ after) entry.server_sid i ≡ pos (i + length before)
  unfolding sid_loop
  sid_loop-append [] after entry i h = rw (same_sid entry.server_sid) (ap pos (omega arith))
  sid_loop-append (r ∷ before) after entry i (h, hs) =
      rw (other_sid S entry.server_sid r.server_sid (λ e. h (sym e)))
        (sid_loop-append before after entry (i + 1) hs ∙ ap pos (omega arith))

  module _ (system : System) (server_sid : Sid) (rpc_name : Bytes) where
    -- A result on a broadcast call, whose text is no file hash, of a server with an entry: its bytes go
    -- to the front of the first entry of the server, what stood behind them stays, and so do the other
    -- places. The call is complete exactly if the entry is the fifth.
    pub record_result-filled :
        (before : List RpcResult) (entry : RpcResult) (after : List RpcResult)
        (body behind text : Bytes) (trace : List Effect)
        → is_sid_t_broadcast S server_sid ≡ true
        → All (λ r. r.server_sid ≢ entry.server_sid) before
        → length entry.content ≡ rpc_pkt_size
        → length body ≤ rpc_pkt_size
        → c_string (body ++ behind) ≡ ok text
        → rpc_str_is_filehash text ≡ false
        → record_result S system server_sid rpc_name
            (before ++ entry ∷ after)
            entry.server_sid
            (rpc_pkt_call_response ∷ body ++ behind)
            (length body + 1)
            trace
          ≡ ok ((before ++ filled_with body entry ∷ after, length before == 4), trace)
    unfolding record_result rpc_client_result_get_sid_index
    record_result-filled before entry after body behind text trace everyone first size fits reads
          no_file =
        let i = length before in
        let table = before ++ entry ∷ after in
        let store : Bytes → Exec (List RpcResult × Bool) =
          λ bytes. (lift (write_content table i bytes) >>= λ table'. pure (table', i == 4)) in
        let place : sid_loop S table entry.server_sid 0 ≡ pos i =
          sid_loop-append before after entry 0 first ∙ ap pos (omega arith) in
        rw (everyone, place)
          (bind_ok
              (answer_bytes S system server_sid rpc_name (rpc_pkt_call_response ∷ body ++ behind)
                (length body + 1))
              store {trace = trace}
              (answer_bytes-text S system server_sid rpc_name body behind text trace reads no_file)
            ∙ rw (write_content-append before entry after body fits size) refl)
