-- ===== src/Client/Rhizome/Posted.antt =====
-- A call through the Rhizome store up to its listener.
use dtn_rpc.Common.{
  ℕ, ◌≤◌, ◌<◌, ◌≡◌, ◌∙◌, true, false, none, some, List, [], ◌∷◌, ◌++◌, map, arith, ltb, Bytes,
  length,
}
use dtn_rpc.Common.Int.{ℤ, pos, minus_one}
use dtn_rpc.System.{Bundle, System, Effect, Exec, pure, emit, ◌>>◌, insert_bytes}
use dtn_rpc.Result.{Result, ok}
use dtn_rpc.CString.Tokens.{join}
use dtn_rpc.Serval.{Words, Sid, Sids}
use dtn_rpc.Wire.{rpc_client_prepare_call_payload}
use dtn_rpc.System.Ensures.{bind_ok}
use dtn_rpc.Wire.Call.{call_packet}
use dtn_rpc.Client.{ClientState, no_results, rpc_client_replace_if_path}
use dtn_rpc.Client.Params.{rpc_client_replace_if_path-plain, prepared_packet}
use dtn_rpc.Client.Mdp.{call_array}
use dtn_rpc.Client.Rhizome.{
  StoreTick, RhizomeRun, Listener, next_file, handle_file, handle_files, listen_loop,
  rpc_client_rhizome_listen, call_manifest, rpc_client_call_rhizome,
}
use dtn_rpc.Client.Rhizome.Listing.{listening, IsOther, handle_file-other}
use dtn_rpc.Client.Rhizome.Looks.{left, after_look}

module _ (W : Words) (S : Sids) (system : System) (sid : Sid) (rpc_name : Bytes) where
  -- The first look, which takes one bundle alone: the store has one, for others.
  pub record IsFirst (tick : StoreTick) : Type 0 where
    pub file : Bundle
    pub others : List Bundle
    pub in_time : tick.elapsed ≤ 20
    pub finds : tick.store.bundles ≡ some (file ∷ others)
    pub is_other : IsOther W S system sid rpc_name file

  pub listen_loop-first :
      (tick : StoreTick) (ticks : List StoreTick) (trace : List Effect)
      → (f : IsFirst tick)
      → listen_loop W S system sid rpc_name (tick ∷ ticks) (listening minus_one 20 none) trace
        ≡ listen_loop W S system sid rpc_name ticks
            (listening minus_one 20 (some f.is_other.token))
            trace
  unfolding listen_loop handle_files after_look
  listen_loop-first tick ticks trace f =
      let early : ltb 20 tick.elapsed ≡ false = ground (arith, f.in_time) in
      let start = listening minus_one 20 none in
      let one : handle_files W S system sid rpc_name tick.store tick.now 1 (f.file ∷ f.others) start
            trace
          ≡ ok (next_file (listening minus_one 20 (some f.is_other.token)), trace) =
        bind_ok (handle_file W S system sid rpc_name tick.store tick.now f.file start)
          (left W S system sid rpc_name tick.store tick.now 0 f.others) {trace = trace}
          (handle_file-other W S system sid rpc_name tick.store tick.now f.file start trace
            f.is_other) in
      rw (early, f.finds)
        (bind_ok
          (handle_files W S system sid rpc_name tick.store tick.now 1 (f.file ∷ f.others) start)
          (after_look W S system sid rpc_name ticks) {trace = trace} one)

  module _ (net : RhizomeRun) (first : Bytes) (others : List Bytes) (requirements : ℕ)
      (state : ClientState) (trace : List Effect) where
    abbrev emptied : ClientState
    emptied = record { received = pos 0; rpc_result = no_results }

    -- The packet that is posted.
    abbrev pub posted_packet : Bytes
    posted_packet =
        call_packet W requirements (length (first ∷ others)) rpc_name (join b'|' (first ∷ others))

    abbrev pub post_call : Effect
    post_call = insert_bytes (call_manifest W S system sid rpc_name) posted_packet

    -- The run of a call with these parameters.
    abbrev pub called : Result ((ℤ × ClientState) × List Effect)
    called =
        rpc_client_call_rhizome W S system sid rpc_name net (length (first ∷ others))
          (map some (first ∷ others)) requirements state trace

    -- What lets a call come to the listener: the handles are there, the insertion succeeds, the first
    -- parameter is no path, and the parameters fit into the 512 bytes for them.
    pub record IsReady : Type 0 where
      pub response : Bytes
      pub insert_handle : net.insert_handle ≡ true
      pub listen_handle : net.listen_handle ≡ true
      pub inserts : system.insert (call_manifest W S system sid rpc_name) ≡ some response
      pub plain : system.exists first ≡ false
      pub fits : length (join b'|' (first ∷ others)) < 512

    rpc_client_rhizome_listen-ends :
        (l : Listener) (trace₁ trace' : List Effect)
        → net.listen_handle ≡ true
        → listen_loop W S system sid rpc_name net.ticks (listening minus_one 20 none) trace₁
          ≡ ok (l, trace')
        → rpc_client_rhizome_listen W S system sid rpc_name net emptied trace₁
          ≡ ok
              ((l.return_code, record { received = l.received; rpc_result = l.rpc_result }), trace')
    unfolding rpc_client_rhizome_listen
    rpc_client_rhizome_listen-ends l trace₁ trace' handle ends =
        let finish : Listener → Exec (ℤ × ClientState) = λ end.
          pure (end.return_code, record { received = end.received; rpc_result = end.rpc_result }) in
        rw handle (
          bind_ok (listen_loop W S system sid rpc_name net.ticks (listening minus_one 20 none))
            finish {trace = trace₁} ends)

    -- The call is posted, and the listener runs.
    pub rpc_client_call_rhizome-listens :
        (l : Listener) (trace' : List Effect)
        → IsReady
        → listen_loop W S system sid rpc_name net.ticks
            (listening minus_one 20 none)
            (trace ++ post_call ∷ [])
          ≡ ok (l, trace')
        → called
          ≡ ok
              ((l.return_code, record { received = l.received; rpc_result = l.rpc_result }), trace')
    unfolding rpc_client_call_rhizome
    rpc_client_call_rhizome-listens l trace' r ends =
        let params = join b'|' (first ∷ others) in
        let n = length (first ∷ others) in
        let after : Bytes → Exec (ℤ × ClientState) = λ flat_params.
          emit (
            insert_bytes (call_manifest W S system sid rpc_name)
              (rpc_client_prepare_call_payload W (call_array system rpc_name flat_params) n rpc_name
                flat_params requirements).bytes)
          >> rpc_client_rhizome_listen W S system sid rpc_name net emptied in
        rw (r.insert_handle, r.inserts)
          (bind_ok (rpc_client_replace_if_path S system rpc_name (map some (first ∷ others)) n)
              after {trace = trace}
              (rpc_client_replace_if_path-plain S system rpc_name first others trace r.plain r.fits)
            ∙ rw (prepared_packet S system rpc_name W params n requirements) (
                rpc_client_rhizome_listen-ends l (trace ++ post_call ∷ []) trace' r.listen_handle
                  ends))
