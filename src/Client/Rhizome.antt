-- ===== src/Client/Rhizome.antt =====
-- rpc_client_rhizome.c: a call through the Rhizome store.
pub mod Outcome
pub mod Listing
pub mod Looks
pub mod Found
pub mod Posted
pub mod Answered
pub mod Unanswered
use dtn_rpc.Common.{
  ℕ, zero, suc, ◌+◌, Bool, false, not, ◌&&◌, ◌||◌, Option, none, some, List, [], ◌∷◌, ◌++◌, ltb,
  ◌==◌, if◌then◌else◌, Bytes, codes, length, take,
}
use dtn_rpc.Common.Int.{ℤ, pos, minus_one, truth}
use dtn_rpc.Serval.{Words, Sid, Sids, is_sid_t_broadcast, is_sid_t_any}
use dtn_rpc.Result.{Result, ok, err, out_of_fuel, null_pointer, out_of_bounds, deref}
use dtn_rpc.CString.{str_eq, strn_eq}
use dtn_rpc.Wire.{
  rpc_pkt_call_ack, rpc_pkt_call_response, read_uint8, rpc_client_prepare_call_payload,
}
use dtn_rpc.System.{System, Bundle, Poll, insert_bytes, Exec, pure, emit, lift, ◌>>=◌, ◌>>◌}
use dtn_rpc.Rhizome.{hex_mine}
use dtn_rpc.Client.{
  RpcResult, ClientState, no_results, rpc_client_result_get_insert_index,
  rpc_client_replace_if_path,
}
use dtn_rpc.Client.Answers.{record_ack, record_result}
use dtn_rpc.Client.Mdp.{call_array, is_positive}

-- One round of the listener's loop: the clock at its start and while it looks at the bundles, and the
-- store. `store.bundles` is what the URL of this round gives, all bundles or those since the token.
pub record StoreTick : Type 0 where
  pub elapsed : ℕ  -- time(NULL) - start_time
  pub now : ℕ  -- time(NULL)
  pub store : Poll

pub record RhizomeRun : Type 0 where
  pub insert_handle : Bool  -- `curl_easy_init` gives a handle for the insertion
  pub listen_handle : Bool  -- and one for the listener
  pub ticks : List StoreTick

-- The variables of the listener.
pub record Listener : Type 0 where
  pub return_code : ℤ
  pub token : Option Bytes
  pub wait_time : ℕ
  pub received : ℤ
  pub rpc_result : List RpcResult

-- How a bundle leaves the loop over the bundles: to the next one, by `break`, or by `goto` with -1.
pub data Step : Type 0 where
  next_file : Listener → Step
  complete : Listener → Step
  abort : Listener → Step

-- `memcpy(recv_payload, curl_result_memory.memory, filesize)`
pub received_file : ℕ → Bytes → Result Bytes
received_file filesize content =
    if ltb (length content + 1) filesize
    then err out_of_bounds
    else ok (take filesize (content ++ 0 ∷ []))

-- The value of a sender that is no SID leaves `server_sid` as it is: unwritten memory.
pub sender_sid : Sids → System → Option Bytes → Result Sid
sender_sid S system none = err null_pointer
sender_sid S system (some sender) = elim (S.str_to_sid_t sender) [
  | some sid ↦ ok sid
  | none ↦ ok (take 32 system.uninit)
]

module _ (W : Words) (S : Sids) (system : System) (sid : Sid) (rpc_name : Bytes) where
  -- The four tests; `service` and `name` are read before them.
  pub is_answer : Bundle → ℕ → Bytes → Bytes → Bool
  is_answer file now service name =
      let not_my_file : Bool = elim file.recipient [
        | none ↦ false
        | some recipient ↦ str_eq recipient (hex_mine S)
      ] in
      let name_is_rpc = strn_eq name rpc_name (length rpc_name) in
      let not_to_old = ltb now (file.inserttime + 600000) in
      strn_eq service (codes "RPC") 3 && (not_my_file && (name_is_rpc && not_to_old))

  pub handle_payload : Bytes → ℕ → Sid → Listener → Exec Step
  handle_payload recv_payload filesize server_sid l = do
    pkt_type ← lift (read_uint8 recv_payload 0)
    if pkt_type == rpc_pkt_call_ack
        then (do
          table ← lift (record_ack S system sid l.rpc_result server_sid)
          let wait = if l.wait_time == 20 then 120 else l.wait_time
          pure (next_file (record l { return_code = pos 1; wait_time = wait; rpc_result = table })))
        else if pkt_type == rpc_pkt_call_response
        then (do
          (table, done) ←
              record_result S system sid rpc_name l.rpc_result server_sid recv_payload filesize
          pure (
              if done
              then complete (record l { return_code = pos 2; received = pos 1; rpc_result = table })
              else next_file (record l { rpc_result = table })))
        else pure (next_file l)

  pub fetch_answer : Poll → Bundle → Listener → Exec Step
  unfolding handle_payload sender_sid received_file
  fetch_answer store file l = do
    server_sid ← lift (sender_sid S system file.sender)
    elim (store.decrypted file.id) [
      | none ↦ pure (abort (record l { return_code = minus_one }))
      | some content ↦ (do
        recv_payload ← lift (received_file file.filesize content)
        handle_payload recv_payload file.filesize server_sid l)
    ]

  pub handle_file : Poll → ℕ → Bundle → Listener → Exec Step
  unfolding is_answer fetch_answer
  handle_file store now file l = do
    let l' = record l { token = file.token }
    service ← lift (deref file.service)
    name ← lift (deref file.name)
    if is_answer file now service name then fetch_answer store file l' else pure (next_file l')

  -- `for (i = 0; i < num_files; i++)`
  pub handle_files : Poll → ℕ → ℕ → List Bundle → Listener → Exec Step
  unfolding handle_file
  handle_files store now zero files l = pure (next_file l)
  handle_files store now (suc n) [] l = lift (err null_pointer)
  handle_files store now (suc n) (file ∷ files) l = do
    step ← handle_file store now file l
    elim step [
      | next_file l' ↦ handle_files store now n files l'
      | complete l' ↦ pure (complete l')
      | abort l' ↦ pure (abort l')
    ]

  -- The end of the wait: a broadcast with an answer in the table is a success.
  pub timed_out : Listener → Listener
  unfolding is_positive
  timed_out l =
      if is_sid_t_broadcast S sid && is_positive (rpc_client_result_get_insert_index S l.rpc_result)
      then record l { return_code = pos 2; received = pos 1 }
      else record l { return_code = minus_one }

  -- `while (!received)`
  pub listen_loop : List StoreTick → Listener → Exec Listener
  unfolding handle_files timed_out
  listen_loop [] l = if truth l.received then pure l else lift (err out_of_fuel)
  listen_loop (tick ∷ ticks) l =
      if truth l.received
      then pure l
      else if ltb l.wait_time tick.elapsed
      then pure (timed_out l)
      else elim tick.store.bundles [
        | none ↦ pure (record l { return_code = minus_one })
        | some rows ↦ (do
          let num_files : ℕ = elim l.token [ none ↦ 1 | some token ↦ length rows ]
          step ← handle_files tick.store tick.now num_files rows l
          elim step [
            | next_file l' ↦ listen_loop ticks l'
            | complete l' ↦ listen_loop ticks l'
            | abort l' ↦ pure l'
          ])
      ]

  -- The return code and the state.
  unfoldable pub rpc_client_rhizome_listen : RhizomeRun → ClientState → Exec (ℤ × ClientState)
  unfolding listen_loop
  rpc_client_rhizome_listen net state =
      if not net.listen_handle then pure (minus_one, state) else (do
        l ← listen_loop net.ticks (record {
          return_code = minus_one;
          token = none;
          wait_time = 20;
          received = state.received;
          rpc_result = state.rpc_result;
        })
        pure (l.return_code, record { received = l.received; rpc_result = l.rpc_result }))

  -- The manifest of a call; a broadcast has no recipient. `manifest_str` has no byte for the terminator.
  pub call_manifest : Bytes
  call_manifest =
      let head = codes "service=RPC\nname=" ++ (rpc_name ++ (codes "\nsender=" ++ hex_mine S)) in
      if is_sid_t_broadcast S sid || is_sid_t_any S sid
      then head ++ codes "\n"
      else head ++ (codes "\nrecipient=" ++ (S.alloca_tohex_sid_t sid ++ codes "\n"))

  unfoldable pub rpc_client_call_rhizome :
      RhizomeRun → ℕ → List (Option Bytes) → ℕ → ClientState → Exec (ℤ × ClientState)
  unfolding rpc_client_rhizome_listen call_manifest
  rpc_client_call_rhizome net paramc params requirements state = do
    let emptied : ClientState = record { received = pos 0; rpc_result = no_results }
    flat_params ← rpc_client_replace_if_path S system rpc_name params paramc
    let array = call_array system rpc_name flat_params
    let payload = rpc_client_prepare_call_payload W array paramc rpc_name flat_params requirements
    if not net.insert_handle then pure (minus_one, emptied) else (do
      emit (insert_bytes call_manifest payload.bytes)
      elim (system.insert call_manifest) [
        | none ↦ pure (minus_one, emptied)
        | some response ↦ rpc_client_rhizome_listen net emptied
      ])
