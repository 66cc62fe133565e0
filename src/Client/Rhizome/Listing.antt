-- ===== src/Client/Rhizome/Listing.antt =====
-- The bundles that the listener of rpc_client_rhizome.c finds: those for others, and those that hold
-- an answer for the client.
use dtn_rpc.Common.{
  ℕ, ◌+◌, ◌≤◌, ◌<◌, ◌≡◌, refl, sym, ap, ◌∙◌, inl, inr, Bool, true, false, Option, none, some, List,
  [], ◌∷◌, ◌++◌, append-nil, arith, ltb, if◌then◌else◌, Bool-cases, Bytes, codes, length, take,
}
use dtn_rpc.Common.Int.{ℤ, pos}
use dtn_rpc.System.{Bundle, Poll, System, Effect, Exec, pure}
use dtn_rpc.Result.{ok}
use dtn_rpc.CString.{c_string, str_eq, strn_eq}
use dtn_rpc.Serval.{Words, Sid, Sids, is_sid_t_broadcast}
use dtn_rpc.Wire.{rpc_pkt_call_ack, rpc_pkt_call_response, rpc_pkt_size, read_uint8}
use dtn_rpc.Filehash.{rpc_str_is_filehash}
use dtn_rpc.Rhizome.{hex_mine}
use dtn_rpc.Memory.{take-append_length}
use dtn_rpc.System.Ensures.{bind_ok}
use dtn_rpc.Client.{RpcResult, no_results}
use dtn_rpc.Client.Answers.{record_ack, record_result}
use dtn_rpc.Client.Answers.Direct.{answered_table, record_result-direct}
use dtn_rpc.Client.Rhizome.{
  Listener, Step, next_file, complete, received_file, sender_sid, is_answer, handle_payload,
  fetch_answer, handle_file,
}

-- A listener that has seen a bundle, and has no result.
abbrev pub listening : ℤ → ℕ → Option Bytes → Listener
listening code wait token = record {
  return_code = code;
  token = token;
  wait_time = wait;
  received = pos 0;
  rpc_result = no_results;
}

module _ (W : Words) (S : Sids) (system : System) (sid : Sid) (rpc_name : Bytes) where
  -- Whether a bundle is for this host: the test of the client wants a recipient.
  abbrev pub is_mine : Option Bytes → Bool
  is_mine recipient = elim recipient [ none ↦ false | some r ↦ str_eq r (hex_mine S) ]

  -- A bundle that is for another host, or for all.
  pub record IsOther (file : Bundle) : Type 0 where
    pub service : Bytes
    pub name : Bytes
    pub token : Bytes
    pub has_service : file.service ≡ some service
    pub has_name : file.name ≡ some name
    pub has_token : file.token ≡ some token
    pub not_mine : is_mine file.recipient ≡ false

  -- A bundle that holds `bytes`, of `remote` for this host, as an answer on the call.
  pub record IsAnswerOf (store : Poll) (now : ℕ) (remote : Sid) (bytes : Bytes) (file : Bundle)
      : Type 0 where
    pub service : Bytes
    pub name : Bytes
    pub token : Bytes
    pub sender : Bytes
    pub has_service : file.service ≡ some service
    pub is_rpc : strn_eq service (codes "RPC") 3 ≡ true
    pub has_name : file.name ≡ some name
    pub is_name : strn_eq name rpc_name (length rpc_name) ≡ true
    pub has_token : file.token ≡ some token
    pub mine : is_mine file.recipient ≡ true
    pub recent : now < file.inserttime + 600000
    pub has_sender : file.sender ≡ some sender
    pub has_sid : S.str_to_sid_t sender ≡ some remote
    pub has_size : file.filesize ≡ length bytes
    pub has_content : store.decrypted file.id ≡ some bytes

  pub handle_file-other :
      (store : Poll) (now : ℕ) (file : Bundle) (l : Listener) (trace : List Effect)
      → (o : IsOther file)
      → handle_file W S system sid rpc_name store now file l trace
        ≡ ok (next_file (record l { token = some o.token }), trace)
  unfolding handle_file is_answer
  handle_file-other store now file l trace o =
      rw (o.has_token, o.has_service, o.has_name, o.not_mine)
        (elim (Bool-cases (strn_eq o.service (codes "RPC") 3)) [
          | inl rpc ↦ rw rpc refl
          | inr other ↦ rw other refl
        ])

  -- The bundle is read whole.
  received_file-whole : (bytes : Bytes) → received_file (length bytes) bytes ≡ ok bytes
  unfolding received_file
  received_file-whole bytes =
      let whole : take (length bytes) (bytes ++ 0 ∷ []) ≡ bytes =
        take-append_length bytes (0 ∷ []) in
      let short : ltb (length bytes + 1) (length bytes) ≡ false = ground arith in
      rw (short, whole) refl

  sender_sid-read :
      (sender : Bytes) (remote : Sid)
      → S.str_to_sid_t sender ≡ some remote
      → sender_sid S system (some sender) ≡ ok remote
  unfolding sender_sid
  sender_sid-read sender remote e = rw (e, sender_sid) refl

  fetch_answer-whole :
      (store : Poll) (now : ℕ) (remote : Sid) (bytes : Bytes) (file : Bundle) (l : Listener)
      (trace : List Effect)
      → IsAnswerOf store now remote bytes file
      → fetch_answer W S system sid rpc_name store file l trace
        ≡ handle_payload W S system sid rpc_name bytes (length bytes) remote l trace
  unfolding fetch_answer
  fetch_answer-whole store now remote bytes file l trace a =
      rw (a.has_sender, a.has_content, a.has_size)
        (rw (sender_sid-read a.sender remote a.has_sid, received_file-whole bytes) refl)

  pub handle_file-answer :
      (store : Poll) (now : ℕ) (remote : Sid) (bytes : Bytes) (file : Bundle) (l : Listener)
      (trace : List Effect)
      → (a : IsAnswerOf store now remote bytes file)
      → handle_file W S system sid rpc_name store now file l trace
        ≡ handle_payload W S system sid rpc_name bytes
            (length bytes)
            remote
            (record l { token = some a.token })
            trace
  unfolding handle_file is_answer
  handle_file-answer store now remote bytes file l trace a =
      let new : ltb now (file.inserttime + 600000) ≡ true = ground (arith, a.recent) in
      rw (a.has_service, a.has_name, a.is_rpc, a.mine, a.is_name, new)
        (fetch_answer-whole store now remote bytes file (record l { token = file.token }) trace a
          ∙ rw a.has_token refl)

  -- An ACK makes the listener wait for longer.
  pub handle_payload-ack :
      (rest : Bytes) (remote : Sid) (token : Option Bytes) (code : ℤ) (trace : List Effect)
      → is_sid_t_broadcast S sid ≡ false
      → handle_payload W S system sid rpc_name
          (rpc_pkt_call_ack ∷ rest)
          (length (rpc_pkt_call_ack ∷ rest))
          remote
          (listening code 20 token)
          trace
        ≡ ok (next_file (listening (pos 1) 120 token), trace)
  unfolding handle_payload read_uint8 record_ack
  handle_payload-ack rest remote token code trace direct = rw direct refl

  -- A result completes the call.
  pub handle_payload-result :
      (body text : Bytes) (remote : Sid) (token : Option Bytes) (code : ℤ) (wait : ℕ)
      (trace : List Effect)
      → is_sid_t_broadcast S sid ≡ false
      → length body ≤ rpc_pkt_size
      → c_string body ≡ ok text
      → rpc_str_is_filehash text ≡ false
      → handle_payload W S system sid rpc_name
          (rpc_pkt_call_response ∷ body)
          (length (rpc_pkt_call_response ∷ body))
          remote
          (listening code wait token)
          trace
        ≡ ok (
          complete (record {
            return_code = pos 2;
            token = token;
            wait_time = wait;
            received = pos 1;
            rpc_result = answered_table remote body;
          }),
          trace,
        )
  unfolding handle_payload read_uint8
  handle_payload-result body text remote token code wait trace direct fits reads no_file =
      let l = listening code wait token in
      let finish : List RpcResult × Bool → Exec Step = λ (table, done). pure (
        if done
        then complete (record l { return_code = pos 2; received = pos 1; rpc_result = table })
        else next_file (record l { rpc_result = table })) in
      let size : length (rpc_pkt_call_response ∷ body) ≡ length body + 1 = omega arith in
      bind_ok
        (record_result S system sid rpc_name no_results remote (rpc_pkt_call_response ∷ body)
          (length (rpc_pkt_call_response ∷ body)))
        finish {trace = trace}
        (ap
            (λ b.
              record_result S system sid rpc_name no_results remote (rpc_pkt_call_response ∷ b)
                (length (rpc_pkt_call_response ∷ body)) trace)
            (sym (append-nil body))
          ∙ ap
              (λ n.
                record_result S system sid rpc_name no_results remote
                  (rpc_pkt_call_response ∷ body ++ []) n trace)
              size
          ∙ record_result-direct S system sid rpc_name remote body [] text trace direct fits
              (rw append-nil reads) no_file)
