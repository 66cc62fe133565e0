-- ===== src/Server/Rhizome/CallBundle.antt =====
-- A bundle in the store that holds a call which a client built: what a round of
-- `_rpc_server_rhizome_process` does with it, up to the test whether the call is served.
use dtn_rpc.Common.{
  ℕ, ◌+◌, ◌≤◌, ◌<◌, ◌≡◌, refl, ◌∙◌, Bool, true, false, some, List, [], ◌∷◌, ◌++◌, arith, ltb, leb,
  if◌then◌else◌, Bytes, codes, length, take,
}
use dtn_rpc.Common.Int.{ℤ, minus_one}
use dtn_rpc.System.{Bundle, Poll, System, Effect, Exec, pure, lift}
use dtn_rpc.Result.{ok, deref}
use dtn_rpc.CString.{strn_eq}
use dtn_rpc.CString.Tokens.{join, IsToken}
use dtn_rpc.Serval.{Words, Sid, Sids}
use dtn_rpc.Wire.{read_uint8}
use dtn_rpc.Common.{
  ℕ, ◌+◌, ◌≤◌, ◌<◌, ◌≡◌, refl, ◌∙◌, true, false, some, List, [], ◌∷◌, ◌++◌, arith, ltb, leb,
  if◌then◌else◌, Bytes, codes, length, take,
}
use dtn_rpc.Common.Int.{ℤ, minus_one}
use dtn_rpc.Serval.{Words, Sid, Sids}
use dtn_rpc.Memory.{take-append_length}
use dtn_rpc.Result.{ok, deref}
use dtn_rpc.CString.{strn_eq}
use dtn_rpc.CString.Tokens.{join, IsToken}
use dtn_rpc.Wire.{mdp_mtu, read_uint8}
use dtn_rpc.Wire.Call.{call_packet}
use dtn_rpc.Rhizome.{is_for_me}
use dtn_rpc.System.{System, Bundle, Poll, Effect, Exec, pure, lift}
use dtn_rpc.System.Ensures.{bind_ok}
use dtn_rpc.Server.{RpcProcedure}
use dtn_rpc.Server.Parse.Slots.{AreTokens}
use dtn_rpc.Server.Parse.RoundTrip.{parsed_call, rpc_server_parse_call-exact}
use dtn_rpc.Server.Answer.{is_served}
use dtn_rpc.Server.Rhizome.{
  answer, Round, continue, rpc_server_rhizome_done, received, is_interesting, handle_call, fetch,
  round,
}

module _ (W : Words) (S : Sids) (system : System) (requirements : ℕ) (name : Bytes)
    (ps : List Bytes) where
  abbrev pub packet : Bytes
  packet = call_packet W requirements (length ps) name (join b'|' ps)

  -- A bundle that holds the call, for this server, of a sender with a readable identifier.
  pub record IsCallBundle (store : Poll) (file : Bundle) (caller : Sid) : Type 0 where
    pub service : Bytes
    pub sender : Bytes
    pub has_service : file.service ≡ some service
    pub is_rpc : strn_eq service (codes "RPC") 3 ≡ true
    pub for_me : is_for_me S file.recipient ≡ true
    pub has_size : file.filesize ≡ length packet
    pub fits : length packet ≤ mdp_mtu
    pub has_content : store.decrypted file.id ≡ some packet
    pub has_sender : file.sender ≡ some sender
    pub has_sid : S.str_to_sid_t sender ≡ some caller
    pub is_token : IsToken b'|' name
    pub are_tokens : AreTokens ps
    pub few : length ps < 256

  abbrev pub call_of : Sid → RpcProcedure
  call_of caller = record (parsed_call name ps) { caller_sid = caller }

  module _ (store : Poll) (file : Bundle) (caller : Sid) (done_calls : List Bytes)
      (trace : List Effect) where
    -- What is left of the round: the test, and the answer.
    abbrev pub served_round : ℤ → Bool → Exec Round
    served_round code served =
        if served
        then answer W S system (call_of caller) code done_calls file.id
        else pure (continue minus_one done_calls)

    fetch_call :
        (code : ℤ) (served : Bool)
        → IsCallBundle store file caller
        → is_served W system (call_of caller) packet ≡ ok served
        → fetch W S system store file code done_calls trace ≡ served_round code served trace
    unfolding fetch handle_call received read_uint8
    fetch_call code served b test =
        let parsed =
          rpc_server_parse_call-exact W requirements name ps b.is_token b.are_tokens b.few in
        let whole : take (length packet) (packet ++ 0 ∷ []) ≡ packet =
          take-append_length packet (0 ∷ []) in
        let short : ltb (length packet + 1) (length packet) ≡ false = ground arith in
        rw (b.has_content, fetch)
          (rw (b.has_size, short, whole, parsed, b.has_sender, b.has_sid, whole, test) refl)

    interested :
        (b : IsCallBundle store file caller)
        → rpc_server_rhizome_done done_calls file.id ≡ false
        → is_interesting W S system done_calls file b.service ≡ true
    unfolding is_interesting
    interested b new =
        let not_big : leb (length packet) mdp_mtu ≡ true = ground (arith, b.fits) in
        let not_empty : ltb 0 (length packet) ≡ true = ground arith in
        rw (b.is_rpc, b.for_me, new, b.has_size, not_big, not_empty) refl

    pub round_call :
        (code : ℤ) (served : Bool)
        → IsCallBundle store file caller
        → rpc_server_rhizome_done done_calls file.id ≡ false
        → is_served W system (call_of caller) packet ≡ ok served
        → round W S system store file code done_calls trace ≡ served_round code served trace
    unfolding round
    round_call code served b new test =
        let serves : Bytes → Exec Round = λ service.
          if is_interesting W S system done_calls file service
          then fetch W S system store file code done_calls
          else pure (continue code done_calls) in
        let read : lift (deref file.service) trace ≡ ok (b.service, trace) =
          rw b.has_service refl in
        bind_ok (lift (deref file.service)) serves {trace = trace} read
        ∙ rw (interested b new) (fetch_call code served b test)
