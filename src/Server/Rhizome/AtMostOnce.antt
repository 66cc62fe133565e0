-- ===== src/Server/Rhizome/AtMostOnce.antt =====
-- The list of the calls that are done, in rpc_server_rhizome.c.
use dtn_rpc.Common.{
  ℕ, ◌≡◌, refl, sym, ◌≢◌, true, false, Option, none, some, List, [], ◌∷◌, ◌++◌, arith, ◌==◌, Bytes,
}
use dtn_rpc.Common.Int.{ℤ, pos, minus_one}
use dtn_rpc.Serval.{Words, Sids}
use dtn_rpc.Result.{ok, deref}
use dtn_rpc.CString.Compare.{str_eq_iff}
use dtn_rpc.Wire.{rpc_pkt_call, read_uint8}
use dtn_rpc.Server.Parse.{rpc_server_parse_call}
use dtn_rpc.Server.Execute.{rpc_server_execute}
use dtn_rpc.Server.SendResult.{rpc_server_rhizome_send_result}
use dtn_rpc.Server.Answer.{ack_payload, zero_payload, is_served}
use dtn_rpc.System.{Bundle, Poll, System, Effect, Exec, pure, lift}
use dtn_rpc.System.Ensures.{
  ensures-option, Ensures, ensures-pure, ensures-if, ensures-bind, ensures-then,
}
use dtn_rpc.Server.{RpcProcedure}
use dtn_rpc.Server.Rhizome.{
  received, rpc_pkt_call, str_eq, rpc_server_rhizome_done, rpc_server_rhizome_finished, Round,
  continue, leave, is_interesting, answer, handle_call, fetch, round, process_files, list_files,
  rpc_server_rhizome_process,
}

-- No identifier occurs twice.
abbrev pub IsOnce : List Bytes → Type 0
IsOnce [] = Unit {0}
IsOnce (call ∷ done_calls) = (rpc_server_rhizome_done done_calls call ≡ false) × IsOnce done_calls

done-append :
    (done_calls : List Bytes) (id call : Bytes)
    → rpc_server_rhizome_done done_calls call ≡ false
    → call ≢ id
    → rpc_server_rhizome_done (done_calls ++ id ∷ []) call ≡ false
unfolding rpc_server_rhizome_done
done-append [] id call h ne =
    let other : str_eq id call ≢ true = λ e. ne (sym ((str_eq_iff id call).0 e)) in ground arith
done-append (c ∷ done_calls) id call h ne =
    ground (arith, done-append done_calls id call (ground arith) ne)

-- A call that is not done yet can be entered.
IsOnce-finished :
    (done_calls : List Bytes) (id : Bytes)
    → IsOnce done_calls
    → rpc_server_rhizome_done done_calls id ≡ false
    → IsOnce (rpc_server_rhizome_finished done_calls id)
unfolding rpc_server_rhizome_done rpc_server_rhizome_finished
IsOnce-finished [] id once new = (refl, tt)
IsOnce-finished (c ∷ done_calls) id (once, rest) new = (
  done-append done_calls id c once
      (λ e. let same : str_eq c id ≡ true = (str_eq_iff c id).1 e in ground arith),
  IsOnce-finished done_calls id rest (ground arith),
)

-- What looks at the store do to the list: calls that were not in it are appended.
pub data Grows : List Bytes → List Bytes → Type 0 where
  same : {done_calls : List Bytes} → Grows done_calls done_calls
  more :
      {done_calls : List Bytes} (id : Bytes) {later : List Bytes}
      → rpc_server_rhizome_done done_calls id ≡ false
      → Grows (rpc_server_rhizome_finished done_calls id) later
      → Grows done_calls later

pub Grows-trans : {a b c : List Bytes} → Grows a b → Grows b c → Grows a c
Grows-trans same h = h
Grows-trans (more id new g) h = more id new (Grows-trans g h)

pub IsOnce-Grows : {a b : List Bytes} → Grows a b → IsOnce a → IsOnce b
IsOnce-Grows same once = once
IsOnce-Grows {a} (more id new g) once = IsOnce-Grows g (IsOnce-finished a id once new)

abbrev calls_after : Round → List Bytes
calls_after (continue code done_calls) = done_calls
calls_after (leave done_calls) = done_calls

module _ (W : Words) (S : Sids) (system : System) where
  answer-Grows :
      (rp : RpcProcedure) (code : ℤ) (done_calls : List Bytes) (id : Bytes)
      → rpc_server_rhizome_done done_calls id ≡ false
      → Ensures
          (answer W S system rp code done_calls id)
          (λ end. Grows done_calls (calls_after end))
  unfolding answer
  answer-Grows rp code done_calls id new =
      let send : Bytes → Exec ℤ =
        λ payload. rpc_server_rhizome_send_result S system rp.caller_sid rp.name payload in
      ensures-then _ (send ack_payload) _ (λ sent.
        ensures-then _ (rpc_server_execute S system zero_payload rp) _ (λ (status, result_payload).
          ensures-if _ (status == 0) _ _ (λ failed. ensures-pure _ (continue code done_calls) same)
            (λ succeeded. ensures-then _ (send result_payload.bytes) _ (λ sent.
              ensures-pure _ (continue code (rpc_server_rhizome_finished done_calls id))
                (more id new same)))))

  handle_call-Grows :
      (payload : Bytes) (len : ℕ) (file : Bundle) (code : ℤ) (done_calls : List Bytes)
      → rpc_server_rhizome_done done_calls file.id ≡ false
      → Ensures
          (handle_call W S system payload len file code done_calls)
          (λ end. Grows done_calls (calls_after end))
  unfolding handle_call
  handle_call-Grows payload len file code done_calls new =
      ensures-then _ (lift (rpc_server_parse_call payload len)) _ (λ parsed.
        ensures-then _ (lift (deref file.sender)) _ (λ sender.
          ensures-option _ (S.str_to_sid_t sender) _ _ (ensures-pure _ (leave done_calls) same)
            (λ caller.
              ensures-then _
                (lift (is_served W system (record parsed { caller_sid = caller }) payload)) _
                (λ served.
                  ensures-if _ served _ _
                    (λ offered.
                      answer-Grows (record parsed { caller_sid = caller }) code done_calls file.id
                        new)
                    (λ refused. ensures-pure _ (continue minus_one done_calls) same)))))

  fetch-Grows :
      (poll : Poll) (file : Bundle) (code : ℤ) (done_calls : List Bytes)
      → rpc_server_rhizome_done done_calls file.id ≡ false
      → Ensures
          (fetch W S system poll file code done_calls)
          (λ end. Grows done_calls (calls_after end))
  unfolding fetch
  fetch-Grows poll file code done_calls new =
      ensures-option _ (poll.decrypted file.id) _ _ (ensures-pure _ (leave done_calls) same)
        (λ content. ensures-then _ (lift (received file.filesize content)) _ (λ recv_payload.
          ensures-then _ (lift (read_uint8 recv_payload 0)) _ (λ pkt_type.
            ensures-if _ (pkt_type == rpc_pkt_call) _ _
              (λ call. handle_call-Grows recv_payload file.filesize file code done_calls new)
              (λ other. ensures-pure _ (continue code done_calls) same))))

  interesting_new :
      (done_calls : List Bytes) (file : Bundle) (service : Bytes)
      → is_interesting W S system done_calls file service ≡ true
      → rpc_server_rhizome_done done_calls file.id ≡ false
  unfolding is_interesting
  interesting_new done_calls file service h = ground arith

  round-Grows :
      (poll : Poll) (file : Bundle) (code : ℤ) (done_calls : List Bytes)
      → Ensures
          (round W S system poll file code done_calls)
          (λ end. Grows done_calls (calls_after end))
  unfolding round is_interesting
  round-Grows poll file code done_calls = ensures-then _ (lift (deref file.service)) _ (λ service.
      ensures-if _ (is_interesting W S system done_calls file service) _ _
        (λ interesting.
          fetch-Grows poll file code done_calls
            (interesting_new done_calls file service interesting))
        (λ other. ensures-pure _ (continue code done_calls) same))

  files_left_grow :
      (poll : Poll) (files : List Bundle) (done_calls : List Bytes)
      → ((code : ℤ) (next : List Bytes)
          → Ensures
              (process_files W S system poll files code next)
              (λ (_, after). Grows next after))
      → (end : Round) → Grows done_calls (calls_after end)
      → Ensures
          (elim end [
            | continue code' done' ↦ process_files W S system poll files code' done'
            | leave done' ↦ pure (minus_one, done')
          ])
          (λ (_, after). Grows done_calls after)
  files_left_grow poll files done_calls again (continue code' done') grown trace (c, after) trace'
        e =
      Grows-trans grown (again code' done' trace (c, after) trace' e)
  files_left_grow poll files done_calls again (leave done') grown trace (c, after) trace' e =
      ensures-pure (λ (_, after). Grows done_calls after) (minus_one, done') grown trace (c, after)
        trace' e

  process_files-Grows :
      (poll : Poll) (files : List Bundle) (code : ℤ) (done_calls : List Bytes)
      → Ensures
          (process_files W S system poll files code done_calls)
          (λ (_, after). Grows done_calls after)
  unfolding process_files
  process_files-Grows poll [] code done_calls = ensures-pure _ (code, done_calls) same
  process_files-Grows poll (file ∷ files) code done_calls =
      ensures-bind _ _ (round W S system poll file code done_calls) _
        (round-Grows poll file code done_calls)
        (λ end grown.
          files_left_grow poll files done_calls (process_files-Grows poll files) end grown)

  list_files-Grows :
      (poll : Poll) (files : Option (List Bundle)) (done_calls : List Bytes)
      → Ensures (list_files W S system poll files done_calls) (λ (_, after). Grows done_calls after)
  unfolding list_files
  list_files-Grows poll none done_calls = ensures-pure _ (minus_one, done_calls) same
  list_files-Grows poll (some []) done_calls = ensures-pure _ (pos 1, done_calls) same
  list_files-Grows poll (some (file ∷ files)) done_calls =
      process_files-Grows poll (file ∷ files) (pos 0) done_calls

  -- A look at the store only appends calls to the list that were not in it.
  pub rpc_server_rhizome_process-Grows :
      (poll : Poll) (done_calls : List Bytes)
      → Ensures
          (rpc_server_rhizome_process W S system poll done_calls)
          (λ (_, after). Grows done_calls after)
  unfolding rpc_server_rhizome_process
  rpc_server_rhizome_process-Grows poll done_calls =
      ensures-if _ poll.handle _ _ (λ handle. list_files-Grows poll poll.bundles done_calls)
        (λ none_left. ensures-pure _ (minus_one, done_calls) same)

  -- A look at the store that does not fault keeps the list of the calls that are done free of
  -- repetitions.
  pub rpc_server_rhizome_process-IsOnce :
      (poll : Poll) (done_calls : List Bytes) (trace : List Effect) (code : ℤ) (after : List Bytes)
      (trace' : List Effect)
      → IsOnce done_calls
      → rpc_server_rhizome_process W S system poll done_calls trace ≡ ok ((code, after), trace')
      → IsOnce after
  rpc_server_rhizome_process-IsOnce poll done_calls trace code after trace' once e =
      IsOnce-Grows (rpc_server_rhizome_process-Grows poll done_calls trace (code, after) trace' e)
        once

  not_interesting :
      (done_calls : List Bytes) (file : Bundle) (service : Bytes)
      → rpc_server_rhizome_done done_calls file.id ≡ true
      → is_interesting W S system done_calls file service ≡ false
  unfolding is_interesting
  not_interesting done_calls file service h = ground arith

  -- A bundle whose identifier is in the list is passed over: nothing is done.
  pub round_passes_over :
      (poll : Poll) (file : Bundle) (service : Bytes) (code : ℤ) (done_calls : List Bytes)
      (trace : List Effect)
      → file.service ≡ some service
      → rpc_server_rhizome_done done_calls file.id ≡ true
      → round W S system poll file code done_calls trace ≡ ok (continue code done_calls, trace)
  unfolding round is_interesting
  round_passes_over poll file service code done_calls trace has done =
      rw (has, not_interesting done_calls file service done) refl
