-- ===== src/Client/Rhizome/Outcome.antt =====
-- The results of `_rpc_client_rhizome_listen` of rpc_client_rhizome.c.
use dtn_rpc.Common.{
  ℕ, zero, suc, ◌≡◌, refl, ◌∙◌, inl, inr, Bool, true, false, not, ◌&&◌, Option, none, some, List,
  [], ◌∷◌, ltb, ◌==◌, if◌then◌else◌, Bool-cases, Bytes, length,
}
use dtn_rpc.Common.Int.{pos, minus_one, truth}
use dtn_rpc.Serval.{Words, Sid, Sids, is_sid_t_broadcast}
use dtn_rpc.Result.{deref}
use dtn_rpc.Wire.{
  rpc_client_prepare_call_payload, rpc_pkt_call_ack, rpc_pkt_call_response, read_uint8,
}
use dtn_rpc.System.{System, insert_bytes, Bundle, Poll, pure, emit, lift}
use dtn_rpc.System.Ensures.{
  Ensures, ensures-pure, ensures-if, ensures-option, ensures-bind, ensures-then,
}
use dtn_rpc.Client.{
  RpcResult, ClientState, no_results, rpc_client_result_get_insert_index,
  rpc_client_replace_if_path,
}
use dtn_rpc.Client.Mdp.{is_positive, call_array}
use dtn_rpc.Client.Codes.{IsFinal, failed, answered}
use dtn_rpc.Client.Answers.{record_ack, record_result}
use dtn_rpc.Client.Rhizome.{
  StoreTick, RhizomeRun, Listener, Step, next_file, complete, abort, received_file, sender_sid,
  is_answer, handle_payload, fetch_answer, handle_file, handle_files, timed_out, listen_loop,
  rpc_client_rhizome_listen, call_manifest, rpc_client_call_rhizome,
}

-- A bundle that does not end the loop leaves `received` as it is; the others settle the return code.
data IsStep (l : Listener) : Step → Type 0 where
  goes_on : {l' : Listener} → l'.received ≡ l.received → IsStep l (next_file l')
  has_answer : {l' : Listener} → l'.return_code ≡ pos 2 → IsStep l (complete l')
  has_error : {l' : Listener} → l'.return_code ≡ minus_one → IsStep l (abort l')

answer-IsStep :
    (l : Listener) (table : List RpcResult) (done : Bool)
    → IsStep l (
        if done
        then complete (record l { return_code = pos 2; received = pos 1; rpc_result = table })
        else next_file (record l { rpc_result = table }))
answer-IsStep l table true = has_answer refl
answer-IsStep l table false = goes_on refl

-- The listener's variables at its start.
abbrev first_listener : ClientState → Listener
first_listener state = record {
  return_code = minus_one;
  token = none;
  wait_time = 20;
  received = state.received;
  rpc_result = state.rpc_result;
}

module _ (W : Words) (S : Sids) (system : System) (sid : Sid) (rpc_name : Bytes) where
  handle_payload-IsStep :
      (recv_payload : Bytes) (filesize : ℕ) (server_sid : Sid) (l : Listener)
      → Ensures
          (handle_payload W S system sid rpc_name recv_payload filesize server_sid l)
          (IsStep l)
  unfolding handle_payload
  handle_payload-IsStep recv_payload filesize server_sid l =
      ensures-then _ (lift (read_uint8 recv_payload 0)) _ (λ pkt_type.
        ensures-if _ (pkt_type == rpc_pkt_call_ack) _ _
          (λ ack.
            ensures-then _ (lift (record_ack S system sid l.rpc_result server_sid)) _
              (λ table. ensures-pure _ _ (goes_on refl)))
          (λ no_ack.
            ensures-if _ (pkt_type == rpc_pkt_call_response) _ _
              (λ response.
                ensures-then _
                  (record_result S system sid rpc_name l.rpc_result server_sid recv_payload
                    filesize)
                  _ (λ (table, done). ensures-pure _ _ (answer-IsStep l table done)))
              (λ other. ensures-pure _ (next_file l) (goes_on refl))))

  fetch_answer-IsStep :
      (store : Poll) (file : Bundle) (l : Listener)
      → Ensures (fetch_answer W S system sid rpc_name store file l) (IsStep l)
  unfolding fetch_answer
  fetch_answer-IsStep store file l =
      ensures-then _ (lift (sender_sid S system file.sender)) _ (λ server_sid.
        ensures-option _ (store.decrypted file.id) _ _
          (ensures-pure _ (abort (record l { return_code = minus_one })) (has_error refl))
          (λ content.
            ensures-then _ (lift (received_file file.filesize content)) _
              (λ recv_payload. handle_payload-IsStep recv_payload file.filesize server_sid l)))

  IsStep-later :
      {l l' : Listener} {step : Step} → l'.received ≡ l.received → IsStep l' step → IsStep l step
  IsStep-later same (goes_on h) = goes_on (h ∙ same)
  IsStep-later same (has_answer h) = has_answer h
  IsStep-later same (has_error h) = has_error h

  handle_file-IsStep :
      (store : Poll) (now : ℕ) (file : Bundle) (l : Listener)
      → Ensures (handle_file W S system sid rpc_name store now file l) (IsStep l)
  unfolding handle_file
  handle_file-IsStep store now file l =
      let l' : Listener = record l { token = file.token } in
      ensures-then _ (lift (deref file.service)) _ (λ service.
        ensures-then _ (lift (deref file.name)) _ (λ name.
          ensures-if _ (is_answer W S system sid rpc_name file now service name) _ _
            (λ wanted trace step trace' e.
              IsStep-later refl (fetch_answer-IsStep store file l' trace step trace' e))
            (λ unwanted. ensures-pure _ (next_file l') (goes_on refl))))

  -- What is left of the bundles behind a step.
  files_left-IsStep :
      (store : Poll) (now n : ℕ) (files : List Bundle) (l : Listener)
      → ((l' : Listener)
          → Ensures (handle_files W S system sid rpc_name store now n files l') (IsStep l'))
      → (step : Step) → IsStep l step
      → Ensures
          (elim step [
            | next_file l' ↦ handle_files W S system sid rpc_name store now n files l'
            | complete l' ↦ pure (complete l')
            | abort l' ↦ pure (abort l')
          ])
          (IsStep l)
  files_left-IsStep store now n files l again (next_file l') (goes_on h) trace step trace' e =
      IsStep-later h (again l' trace step trace' e)
  files_left-IsStep store now n files l again (complete l') (has_answer h) trace step trace' e =
      ensures-pure (IsStep l) (complete l') (has_answer h) trace step trace' e
  files_left-IsStep store now n files l again (abort l') (has_error h) trace step trace' e =
      ensures-pure (IsStep l) (abort l') (has_error h) trace step trace' e

  handle_files-IsStep :
      (store : Poll) (now n : ℕ) (files : List Bundle) (l : Listener)
      → Ensures (handle_files W S system sid rpc_name store now n files l) (IsStep l)
  unfolding handle_files
  handle_files-IsStep store now zero files l = ensures-pure _ (next_file l) (goes_on refl)
  handle_files-IsStep store now (suc n) [] l = λ trace step trace' e. absurd cc
  handle_files-IsStep store now (suc n) (file ∷ files) l =
      ensures-bind _ _ (handle_file W S system sid rpc_name store now file l) _
        (handle_file-IsStep store now file l)
        (λ step h.
          files_left-IsStep store now n files l (handle_files-IsStep store now n files) step h)

  timed_out-IsFinal : (l : Listener) → IsFinal (timed_out W S system sid rpc_name l).return_code
  unfolding timed_out
  timed_out-IsFinal l =
      elim (Bool-cases (
        is_sid_t_broadcast S sid
        && is_positive (rpc_client_result_get_insert_index S l.rpc_result))) [
          | inl counted ↦ rw counted answered
          | inr empty ↦ rw empty failed
        ]

  listen_left-IsFinal :
      (ticks : List StoreTick) (l : Listener)
      → truth l.received ≡ false
      → ((l' : Listener)
          → (truth l'.received ≡ true → IsFinal l'.return_code)
          → Ensures (listen_loop W S system sid rpc_name ticks l') (λ end. IsFinal end.return_code))
      → (step : Step) → IsStep l step
      → Ensures
          (elim step [
            | next_file l' ↦ listen_loop W S system sid rpc_name ticks l'
            | complete l' ↦ listen_loop W S system sid rpc_name ticks l'
            | abort l' ↦ pure l'
          ])
          (λ end. IsFinal end.return_code)
  listen_left-IsFinal ticks l waits again (next_file l') (goes_on h) =
      again l' (λ ends. let no : truth l'.received ≡ false = rw h waits in absurd cc)
  listen_left-IsFinal ticks l waits again (complete l') (has_answer h) =
      again l' (λ ends. rw h answered)
  listen_left-IsFinal ticks l waits again (abort l') (has_error h) = λ trace end trace' e.
      ensures-pure (λ end. IsFinal end.return_code) l' (rw h failed) trace end trace' e

  listen_loop-IsFinal :
      (ticks : List StoreTick) (l : Listener)
      → (truth l.received ≡ true → IsFinal l.return_code)
      → Ensures (listen_loop W S system sid rpc_name ticks l) (λ end. IsFinal end.return_code)
  unfolding listen_loop
  listen_loop-IsFinal [] l h =
      ensures-if _ (truth l.received) _ _ (λ ends. ensures-pure _ l (h ends))
        (λ waits trace end trace' e. absurd cc)
  listen_loop-IsFinal (tick ∷ ticks) l h =
      ensures-if _ (truth l.received) _ _ (λ ends. ensures-pure _ l (h ends))
        (λ waits.
          ensures-if _ (ltb l.wait_time tick.elapsed) _ _
            (λ over. ensures-pure _ (timed_out W S system sid rpc_name l) (timed_out-IsFinal l))
            (λ in_time.
              ensures-option _ tick.store.bundles _ _
                (ensures-pure _ (record l { return_code = minus_one }) failed)
                (λ rows.
                  let num_files : ℕ = elim l.token [ none ↦ 1 | some token ↦ length rows ] in
                  ensures-bind _ _
                    (handle_files W S system sid rpc_name tick.store tick.now num_files rows l) _
                    (handle_files-IsStep tick.store tick.now num_files rows l)
                    (λ step g.
                      listen_left-IsFinal ticks l waits (listen_loop-IsFinal ticks) step g))))

  -- A listener that starts to wait ends with -1 or 2, if it does not fault. An ACK alone never ends it.
  pub rpc_client_rhizome_listen-IsFinal :
      (net : RhizomeRun) (state : ClientState)
      → Ensures
          (rpc_client_rhizome_listen W S system sid rpc_name net state)
          (λ (code, state'). IsFinal code)
  unfolding rpc_client_rhizome_listen
  rpc_client_rhizome_listen-IsFinal net state =
      ensures-if _ (not net.listen_handle) _ _
        (λ no_handle. ensures-pure _ (minus_one, state) failed)
        (λ handle.
          ensures-bind _ _ (listen_loop W S system sid rpc_name net.ticks (first_listener state)) _
            (listen_loop-IsFinal net.ticks (first_listener state) (λ ends. failed))
            (λ l h.
              ensures-pure _
                (l.return_code, record { received = l.received; rpc_result = l.rpc_result }) h))

  pub rpc_client_call_rhizome-IsFinal :
      (net : RhizomeRun) (paramc : ℕ) (params : List (Option Bytes)) (requirements : ℕ)
      (state : ClientState)
      → Ensures
          (rpc_client_call_rhizome W S system sid rpc_name net paramc params requirements state)
          (λ (code, state'). IsFinal code)
  unfolding rpc_client_call_rhizome
  rpc_client_call_rhizome-IsFinal net paramc params requirements state =
      let emptied : ClientState = record { received = pos 0; rpc_result = no_results } in
      ensures-then _ (rpc_client_replace_if_path S system rpc_name params paramc) _ (λ flat_params.
        ensures-if _ (not net.insert_handle) _ _
          (λ no_handle. ensures-pure _ (minus_one, emptied) failed)
          (λ handle.
            let payload =
              rpc_client_prepare_call_payload W (call_array system rpc_name flat_params) paramc
                rpc_name flat_params requirements in
            let manifest = call_manifest W S system sid rpc_name in
            ensures-then _ (emit (insert_bytes manifest payload.bytes)) _ (λ sent.
              ensures-option _ (system.insert manifest) _ _
                (ensures-pure _ (minus_one, emptied) failed)
                (λ response. rpc_client_rhizome_listen-IsFinal net emptied))))
