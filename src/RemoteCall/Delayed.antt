-- ===== src/RemoteCall/Delayed.antt =====
-- A call from end to end through the Rhizome store: rpc_client_rhizome.c on one host and
-- rpc_server_rhizome.c on another, with what the one posts as what the other finds.
use dtn_rpc.Common.{
  ℕ, suc, ◌+◌, ◌-◌, ◌≤◌, ◌<◌, ◌≡◌, refl, sym, ap, ◌∙◌, false, List, [], ◌∷◌, ◌++◌, append_assoc,
  arith, if◌then◌else◌, Bytes, length, take, drop, replicate, length-append, length-replicate,
  Lacks,
}
use dtn_rpc.Common.Int.{ℤ, pos}
use dtn_rpc.System.{Bundle, Poll, System, Effect, insert_bytes}
use dtn_rpc.Result.{ok}
use dtn_rpc.CString.{c_string, str_eq}
use dtn_rpc.CString.Tokens.{c_string-append}
use dtn_rpc.CString.Compare.{str_eq_refl}
use dtn_rpc.Memory.{memcpy}
use dtn_rpc.Serval.{Words, Sid, Sids, is_sid_t_broadcast}
use dtn_rpc.Wire.{rpc_pkt_call_ack, rpc_pkt_call_response}
use dtn_rpc.Filehash.{rpc_str_is_filehash}
use dtn_rpc.Common.{subst, append-replicate-snoc}
use dtn_rpc.Memory.{take-append_length}
use dtn_rpc.Server.{RpcProcedure}
use dtn_rpc.Server.Execute.{line_of}
use dtn_rpc.Server.Execute.Payload.{printed_payload_lem, length-line_of}
use dtn_rpc.Server.Answer.{ack_payload}
use dtn_rpc.Server.Answer.Served.{IsServed}
use dtn_rpc.Server.SendResult.{result_manifest}
use dtn_rpc.Server.Rhizome.{rpc_server_rhizome_done, rpc_server_rhizome_process}
use dtn_rpc.Server.Rhizome.OnlyCall.{IsOnlyCall}
use dtn_rpc.Server.Rhizome.CallBundle.{IsCallBundle, call_of}
use dtn_rpc.Server.Rhizome.Session.{served_effects, rpc_server_rhizome_process_serves}
use dtn_rpc.Client.{no_result, ClientState}
use dtn_rpc.Client.Answers.Direct.{stored}
use dtn_rpc.Client.Rhizome.{RhizomeRun}
use dtn_rpc.Client.Rhizome.Answered.{IsAnswered, rpc_client_call_rhizome_answered}
use dtn_rpc.Client.Rhizome.Posted.{called, post_call, IsReady}
use dtn_rpc.RemoteCall.Packets.{zeros, result_body}

-- What is posted to the store with this manifest, in its order.
abbrev pub postings : Bytes → List Effect → List Bytes
postings manifest [] = []
postings manifest (insert_bytes m payload ∷ effects) =
    let later = postings manifest effects in if str_eq m manifest then payload ∷ later else later
postings manifest (_ ∷ effects) = postings manifest effects

-- The bytes of a posted result behind its type: the last of the array is not posted.
abbrev pub posted_body : Bytes → Bytes
posted_body out = let line = line_of 958 out in line ++ zeros (958 - length line)

length-posted_body : (out : Bytes) → length (posted_body out) ≡ 958
length-posted_body out =
    let line = line_of 958 out in
    omega (
      arith,
      length-line_of 958 out,
      length-append line (zeros (958 - length line)),
      length-replicate {A = ℕ} (958 - length line) 0,
    )

result_body-posted : (out : Bytes) → result_body out ≡ posted_body out ++ 0 ∷ []
result_body-posted out =
    let line = line_of 958 out in
    let count : 958 - length line + 1 ≡ 959 - length line = omega (arith, length-line_of 958 out) in
    sym (append-replicate-snoc line (958 - length line) 0 ∙ ap (λ n. line ++ zeros n) count)

take-result_body : (out behind : Bytes) → take 958 (result_body out ++ behind) ≡ posted_body out
take-result_body out behind =
    ap (λ b. take 958 (b ++ behind)) (result_body-posted out)
    ∙ ap (take 958) (append_assoc (posted_body out) (0 ∷ []) behind)
    ∙ ap (λ n. take n (posted_body out ++ 0 ∷ behind)) (sym (length-posted_body out))
    ∙ take-append_length (posted_body out) (0 ∷ behind)

stored-posted_body :
    (out : Bytes)
    → let line = line_of 958 out in stored (posted_body out) ≡ line ++ zeros (960 - length line)
stored-posted_body out =
    let line = line_of 958 out in
    let count : 958 - length line + 1 + 1 ≡ 960 - length line =
      omega (arith, length-line_of 958 out) in
    ap (λ n. posted_body out ++ drop n (zeros 960)) (length-posted_body out)
    ∙ sym (append_assoc (posted_body out) (0 ∷ []) (0 ∷ []))
    ∙ ap (λ b. b ++ 0 ∷ []) (append-replicate-snoc line (958 - length line) 0)
    ∙ append-replicate-snoc line (958 - length line + 1) 0
    ∙ ap (λ n. line ++ zeros n) count

c_string-posted_body :
    (out : Bytes)
    → Lacks 0 (line_of 958 out)
    → length (line_of 958 out) < 958
    → c_string (posted_body out) ≡ ok (line_of 958 out)
c_string-posted_body out clean short =
    let line = line_of 958 out in
    let count : 958 - length line ≡ suc (957 - length line) = omega arith in
    ap (λ n. c_string (line ++ zeros n)) count
    ∙ c_string-append line (zeros (957 - length line)) clean

module _ (W : Words) (client server : Sids) (at_client at_server : System)
    (client_sid server_sid : Sid) (name first : Bytes) (others : List Bytes) (requirements : ℕ)
    (c : ℕ) (out : Bytes) where
  abbrev params : List Bytes
  params = first ∷ others

  abbrev pub line : Bytes
  line = line_of 958 (c ∷ out)

  abbrev pub call_at_server : RpcProcedure
  call_at_server = call_of W server at_server requirements name params client_sid

  abbrev pub answer_manifest : Bytes
  answer_manifest = result_manifest server at_server client_sid name

  -- What makes a call work on both hosts: it goes to one server, the server has the procedure, and its
  -- program prints a line of fewer than 958 bytes that is no file hash.
  pub record IsWorking : Type 0 where
    pub direct : is_sid_t_broadcast client server_sid ≡ false
    pub served : IsServed W server at_server call_at_server first others (c ∷ out)
    pub behind : 958 ≤ length at_server.behind
    pub clean : Lacks 0 line
    pub short : length line < 958
    pub no_file : rpc_str_is_filehash line ≡ false

  abbrev effects_of_call : List Effect
  effects_of_call =
      served_effects W server at_server requirements name params client_sid first others (c ∷ out)
        []

  -- The server posts an ACK and the line for the client.
  answer_postings :
      postings answer_manifest effects_of_call
      ≡ (rpc_pkt_call_ack ∷ take 958 at_server.behind)
        ∷ (rpc_pkt_call_response ∷ posted_body (c ∷ out))
        ∷ []
  unfolding ack_payload memcpy
  answer_postings =
      rw (str_eq_refl answer_manifest, printed_payload_lem c out)
        (ap (λ b. (rpc_pkt_call_ack ∷ take 958 at_server.behind) ∷ (rpc_pkt_call_response ∷ b) ∷ [])
          (take-result_body (c ∷ out) at_server.behind))

  -- A client calls a server through the Rhizome store. The call works, in the sense of `IsWorking`, and
  -- the client comes to its listener. The server looks at a store in which the only bundle for it is
  -- the call, which is not done. If the two bundles that the server then posts for the client are what
  -- the client finds, besides bundles for others, the first within twenty seconds and the second within
  -- two minutes, the call ends with 2: the first entry of the table has the server and the first line
  -- that the program on the server prints, with zeros behind it. The client posts the call once.
  pub remote_call_delayed :
      (net : RhizomeRun) (state : ClientState) (trace : List Effect) (store : Poll) (file : Bundle)
      (done_calls done' : List Bytes) (code : ℤ) (effects : List Effect) (early late : Bytes)
      → IsWorking
      → IsReady W client at_client server_sid name net first others requirements state trace
      → IsOnlyCall W server at_server store file
      → IsCallBundle W server at_server requirements name params store file client_sid
      → rpc_server_rhizome_done done_calls file.id ≡ false
      → rpc_server_rhizome_process W server at_server store done_calls []
        ≡ ok ((code, done'), effects)
      → postings answer_manifest effects ≡ early ∷ late ∷ []
      → IsAnswered W client at_client server_sid name net server_sid early late
      → called W client at_client server_sid name net first others requirements state trace
        ≡ ok (
          (
            pos 2,
            record {
              received = pos 1;
              rpc_result =
                  record { server_sid = server_sid; content = line ++ zeros (960 - length line) }
                  ∷ replicate 4 no_result;
            },
          ),
          trace
              ++ post_call W client at_client server_sid name net first others requirements state
                  trace
                ∷ [],
        )
  remote_call_delayed net state trace store file done_calls done' code effects early late w ready
        only b new handled both heard =
      let done =
        rpc_server_rhizome_process_serves W server at_server requirements name params client_sid
          first others (c ∷ out) store file done_calls [] only b new w.served w.behind in
      let same : effects ≡ effects_of_call = cc (sym handled ∙ done) in
      let two = sym both ∙ ap (postings answer_manifest) same ∙ answer_postings in
      let is_ack : early ≡ rpc_pkt_call_ack ∷ take 958 at_server.behind = cc two in
      let is_result : late ≡ rpc_pkt_call_response ∷ posted_body (c ∷ out) = cc two in
      let answered =
        subst
          (λ late'.
            IsAnswered W client at_client server_sid name net server_sid
              (rpc_pkt_call_ack ∷ take 958 at_server.behind) late')
          is_result
          (subst
            (λ early'. IsAnswered W client at_client server_sid name net server_sid early' late)
            is_ack heard) in
      rpc_client_call_rhizome_answered W client at_client server_sid name net first others
        requirements state trace server_sid (take 958 at_server.behind) (posted_body (c ∷ out)) line
        ready w.direct (omega (arith, length-posted_body (c ∷ out)))
        (c_string-posted_body (c ∷ out) w.clean w.short) w.no_file answered
      ∙ rw (stored-posted_body (c ∷ out)) refl
