-- ===== src/Client/Rhizome/Found.antt =====
-- The looks of the listener of rpc_client_rhizome.c that find an answer.
use dtn_rpc.Common.{
  ℕ, ◌≤◌, ◌≡◌, refl, sym, ap, ◌∙◌, true, false, Option, some, List, [], ◌∷◌, ◌++◌, append-nil,
  Bytes, length, All,
}
use dtn_rpc.Common.Int.{ℤ, pos, truth}
use dtn_rpc.System.{Bundle, System, Effect}
use dtn_rpc.Result.{ok}
use dtn_rpc.CString.{c_string}
use dtn_rpc.Serval.{Words, Sid, Sids, is_sid_t_broadcast}
use dtn_rpc.Wire.{rpc_pkt_call_ack, rpc_pkt_call_response, rpc_pkt_size}
use dtn_rpc.Filehash.{rpc_str_is_filehash}
use dtn_rpc.System.Ensures.{bind_ok}
use dtn_rpc.Client.Answers.Direct.{answered_table}
use dtn_rpc.Client.Rhizome.{
  StoreTick, Listener, next_file, complete, handle_file, handle_files, listen_loop,
}
use dtn_rpc.Client.Rhizome.Listing.{
  listening, IsOther, IsAnswerOf, handle_file-answer, handle_payload-ack, handle_payload-result,
}
use dtn_rpc.Client.Rhizome.Looks.{left, after_look, handle_files-other, listen_loop-look}

module _ (W : Words) (S : Sids) (system : System) (sid : Sid) (rpc_name : Bytes) where
  -- A look at bundles of which one is an answer of `remote` with these bytes, and the others are for
  -- others.
  pub record IsFound (limit : ℕ) (remote : Sid) (bytes : Bytes) (tick : StoreTick) : Type 0 where
    pub before : List Bundle
    pub file : Bundle
    pub after : List Bundle
    pub in_time : tick.elapsed ≤ limit
    pub finds : tick.store.bundles ≡ some (before ++ file ∷ after)
    pub other_before : All (IsOther W S system sid rpc_name) before
    pub is_answer : IsAnswerOf W S system sid rpc_name tick.store tick.now remote bytes file
    pub other_after : All (IsOther W S system sid rpc_name) after

  -- A look that finds an ACK.
  pub listen_loop-ack :
      (tick : StoreTick) (later : List StoreTick) (code : ℤ) (token : Bytes) (remote : Sid)
      (rest : Bytes) (trace : List Effect)
      → is_sid_t_broadcast S sid ≡ false
      → IsFound 20 remote (rpc_pkt_call_ack ∷ rest) tick
      → (token' : Bytes) × (listen_loop W S system sid rpc_name
            (tick ∷ later)
            (listening code 20 (some token))
            trace
          ≡ listen_loop W S system sid rpc_name later (listening (pos 1) 120 (some token')) trace)
  unfolding after_look handle_files
  listen_loop-ack tick later code token remote rest trace direct f =
      let store = tick.store in
      let (token₁, passed) =
        handle_files-other W S system sid rpc_name store tick.now f.before (f.file ∷ f.after) code
          20 token trace f.other_before in
      let a = f.is_answer in
      let (token', rest_passed) =
        handle_files-other W S system sid rpc_name store tick.now f.after [] (pos 1) 120 a.token
          trace f.other_after in
      let taken =
        bind_ok
          (handle_file W S system sid rpc_name store tick.now f.file
            (listening code 20 (some token₁)))
          (left W S system sid rpc_name store tick.now (length f.after) f.after) {trace = trace}
          (handle_file-answer W S system sid rpc_name store tick.now remote
              (rpc_pkt_call_ack ∷ rest) f.file (listening code 20 (some token₁)) trace a
            ∙ handle_payload-ack W S system sid rpc_name rest remote (some a.token) code trace
                direct) in
      (
        token',
        listen_loop-look W S system sid rpc_name tick later (f.before ++ f.file ∷ f.after) code 20
            token trace (next_file (listening (pos 1) 120 (some token'))) f.in_time f.finds
            (passed
              ∙ taken
              ∙ ap
                  (λ files.
                    handle_files W S system sid rpc_name store tick.now (length files) files
                      (listening (pos 1) 120 (some a.token)) trace)
                  (sym (append-nil f.after))
              ∙ rest_passed),
      )

  listen_loop-done :
      (ticks : List StoreTick) (l : Listener) (trace : List Effect)
      → truth l.received ≡ true
      → listen_loop W S system sid rpc_name ticks l trace ≡ ok (l, trace)
  unfolding listen_loop
  listen_loop-done [] l trace done = rw done refl
  listen_loop-done (tick ∷ ticks) l trace done = rw done refl

  -- A look that finds a result.
  pub listen_loop-result :
      (tick : StoreTick) (later : List StoreTick) (code : ℤ) (wait : ℕ) (token : Bytes)
      (remote : Sid) (body text : Bytes) (trace : List Effect)
      → is_sid_t_broadcast S sid ≡ false
      → length body ≤ rpc_pkt_size
      → c_string body ≡ ok text
      → rpc_str_is_filehash text ≡ false
      → IsFound wait remote (rpc_pkt_call_response ∷ body) tick
      → (token' : Option Bytes) × (listen_loop W S system sid rpc_name
            (tick ∷ later)
            (listening code wait (some token))
            trace
          ≡ ok (
            record {
              return_code = pos 2;
              token = token';
              wait_time = wait;
              received = pos 1;
              rpc_result = answered_table remote body;
            },
            trace,
          ))
  unfolding after_look handle_files
  listen_loop-result tick later code wait token remote body text trace direct fits reads no_file f =
      let store = tick.store in
      let (token₁, passed) =
        handle_files-other W S system sid rpc_name store tick.now f.before (f.file ∷ f.after) code
          wait token trace f.other_before in
      let a = f.is_answer in
      let done : Listener = record {
        return_code = pos 2;
        token = some a.token;
        wait_time = wait;
        received = pos 1;
        rpc_result = answered_table remote body;
      } in
      let taken =
        bind_ok
          (handle_file W S system sid rpc_name store tick.now f.file
            (listening code wait (some token₁)))
          (left W S system sid rpc_name store tick.now (length f.after) f.after) {trace = trace}
          (handle_file-answer W S system sid rpc_name store tick.now remote
              (rpc_pkt_call_response ∷ body) f.file (listening code wait (some token₁)) trace a
            ∙ handle_payload-result W S system sid rpc_name body text remote (some a.token) code
                wait trace direct fits reads no_file) in
      (
        some a.token,
        listen_loop-look W S system sid rpc_name tick later (f.before ++ f.file ∷ f.after) code wait
              token trace (complete done) f.in_time f.finds (passed ∙ taken)
            ∙ listen_loop-done later done trace refl,
      )
