-- ===== src/Server/Rhizome/Session.antt =====
-- A call in the store that is served, and the later looks at the same store.
use dtn_rpc.Common.{
  ℕ, ◌≤◌, ◌≡◌, refl, ◌∙◌, true, false, List, [], ◌∷◌, ◌++◌, arith, ◌==◌, if◌then◌else◌, Bytes,
  length, length-append,
}
use dtn_rpc.Common.Int.{ℤ, pos}
use dtn_rpc.System.{Bundle, Poll, System, Effect, Exec, pure, ◌>>=◌}
use dtn_rpc.Result.{ok}
use dtn_rpc.CString.Compare.{str_eq_refl}
use dtn_rpc.Memory.{Buffer}
use dtn_rpc.Serval.{Words, Sid, Sids}
use dtn_rpc.System.Ensures.{bind_ok}
use dtn_rpc.Server.{RpcProcedure}
use dtn_rpc.Server.Execute.{rpc_server_execute}
use dtn_rpc.Server.Execute.Payload.{printed_payload, length-printed_payload}
use dtn_rpc.Server.Answer.{ack_payload, length-ack_payload, zero_payload}
use dtn_rpc.Server.Answer.Served.{
  IsServed, program_run, is_served_offered, rpc_server_execute_served,
}
use dtn_rpc.Server.SendResult.{rpc_server_rhizome_send_result}
use dtn_rpc.Server.SendResult.Whole.{posted, rpc_server_rhizome_send_result_lem}
use dtn_rpc.Server.Rhizome.{
  rpc_server_rhizome_done, rpc_server_rhizome_finished, Round, continue, answer,
  rpc_server_rhizome_process,
}
use dtn_rpc.Server.Rhizome.AtMostOnce.{round_passes_over}
use dtn_rpc.Server.Rhizome.OnlyCall.{IsOnlyCall, rpc_server_rhizome_process_one}
use dtn_rpc.Server.Rhizome.CallBundle.{packet, IsCallBundle, call_of, round_call}

module _ (W : Words) (S : Sids) (system : System) (requirements : ℕ) (name : Bytes)
    (ps : List Bytes) (caller : Sid) (first : Bytes) (others : List Bytes) (out : Bytes) where
  abbrev call : RpcProcedure
  call = call_of W S system requirements name ps caller

  -- What a call that is served does: the ACK and the result are posted for the caller.
  abbrev pub served_effects : List Effect → List Effect
  served_effects trace =
      ((trace ++ posted S system caller name ack_payload ∷ [])
        ++ program_run W S system call first others out ∷ [])
      ++ posted S system caller name (printed_payload out).bytes ∷ []

  answer_serves :
      (code : ℤ) (done_calls : List Bytes) (id : Bytes) (trace : List Effect)
      → IsServed W S system call first others out
      → 958 ≤ length system.behind
      → answer W S system call code done_calls id trace
        ≡ ok (continue code (rpc_server_rhizome_finished done_calls id), served_effects trace)
  unfolding answer
  answer_serves code done_calls id trace s long =
      let result = (printed_payload out).bytes in
      let acked = trace ++ posted S system caller name ack_payload ∷ [] in
      let ran = acked ++ program_run W S system call first others out ∷ [] in
      let finish : ℤ → Exec Round =
        λ sent. pure (continue code (rpc_server_rhizome_finished done_calls id)) in
      let send : (r : ℕ × Buffer) → Exec Round = λ (status, payload).
        if status == 0
        then pure (continue code done_calls)
        else (rpc_server_rhizome_send_result S system caller name payload.bytes >>= finish) in
      let execute : ℤ → Exec Round =
        λ sent. (rpc_server_execute S system zero_payload call >>= send) in
      bind_ok (rpc_server_rhizome_send_result S system caller name ack_payload) execute
        {trace = trace}
        (rpc_server_rhizome_send_result_lem S system caller name ack_payload trace
          (omega (arith, length-append ack_payload system.behind, length-ack_payload)))
      ∙ bind_ok (rpc_server_execute S system zero_payload call) send {trace = acked}
          (rpc_server_execute_served W S system call first others out acked s)
      ∙ bind_ok (rpc_server_rhizome_send_result S system caller name result) finish {trace = ran} (
          rpc_server_rhizome_send_result_lem S system caller name result ran
            (omega (arith, length-append result system.behind, length-printed_payload out)))

  module _ (store : Poll) (file : Bundle) (done_calls : List Bytes) (trace : List Effect)
      (only : IsOnlyCall W S system store file)
      (b : IsCallBundle W S system requirements name ps store file caller) where
    -- A look at a store in which the only bundle for this server is a call of an offered procedure that
    -- is not done and whose program runs with success: the ACK is posted, the program is run once, the
    -- first line that it prints is posted as the result, and the call is entered as done.
    pub rpc_server_rhizome_process_serves :
        rpc_server_rhizome_done done_calls file.id ≡ false
        → IsServed W S system call first others out
        → 958 ≤ length system.behind
        → rpc_server_rhizome_process W S system store done_calls trace
          ≡ ok ((pos 0, rpc_server_rhizome_finished done_calls file.id), served_effects trace)
    rpc_server_rhizome_process_serves new s long =
        rpc_server_rhizome_process_one W S system store file (pos 0) done_calls
          (rpc_server_rhizome_finished done_calls file.id) trace (served_effects trace) only
          (round_call W S system requirements name ps store file caller done_calls trace (pos 0)
              true b new
              (is_served_offered W S system call first others out
                (packet W S system requirements name ps) s)
            ∙ answer_serves (pos 0) done_calls file.id trace s long)

    -- A look at a store in which the only bundle for this server is a call that is done has no effect.
    pub rpc_server_rhizome_process_done :
        rpc_server_rhizome_done done_calls file.id ≡ true
        → rpc_server_rhizome_process W S system store done_calls trace
          ≡ ok ((pos 0, done_calls), trace)
    rpc_server_rhizome_process_done done =
        rpc_server_rhizome_process_one W S system store file (pos 0) done_calls done_calls trace
          trace only
          (round_passes_over W S system store file b.service (pos 0) done_calls trace b.has_service
            done)

-- What was entered as done is found.
pub done-finished :
    (done_calls : List Bytes) (id : Bytes)
    → rpc_server_rhizome_done (rpc_server_rhizome_finished done_calls id) id ≡ true
unfolding rpc_server_rhizome_done rpc_server_rhizome_finished
done-finished [] id = rw (str_eq_refl id) refl
done-finished (c ∷ done_calls) id = ground (arith, done-finished done_calls id)
