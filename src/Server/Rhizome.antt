-- ===== src/Server/Rhizome.antt =====
-- `_rpc_server_rhizome_done`, `_rpc_server_rhizome_finished` and `_rpc_server_rhizome_process` of
-- rpc_server_rhizome.c.
pub mod AtMostOnce
pub mod CallBundle
pub mod OnlyCall
pub mod Unoffered
pub mod Session
use dtn_rpc.Common.{
  ℕ, ◌+◌, Bool, false, not, ◌&&◌, ◌||◌, Option, none, some, List, [], ◌∷◌, ◌++◌, ltb, leb, ◌==◌,
  if◌then◌else◌, Bytes, codes, length, take,
}
use dtn_rpc.Common.Int.{ℤ, pos, minus_one}
use dtn_rpc.Serval.{Words, Sids}
use dtn_rpc.Result.{Result, ok, err, out_of_bounds, deref}
use dtn_rpc.CString.{str_eq, strn_eq}
use dtn_rpc.Wire.{rpc_pkt_call, mdp_mtu, read_uint8}
use dtn_rpc.System.{Bundle, Poll, System, Exec, pure, lift, ◌>>=◌, ◌>>◌}
use dtn_rpc.Rhizome.{is_for_me}
use dtn_rpc.Server.{RpcProcedure}
use dtn_rpc.Server.Parse.{rpc_server_parse_call}
use dtn_rpc.Server.Execute.{rpc_server_execute}
use dtn_rpc.Server.SendResult.{rpc_server_rhizome_send_result}
use dtn_rpc.Server.Answer.{ack_payload, zero_payload, is_served}

-- `done_calls`, the first one first.
unfoldable pub rpc_server_rhizome_done : List Bytes → Bytes → Bool
rpc_server_rhizome_done [] id = false
rpc_server_rhizome_done (call ∷ done_calls) id =
    str_eq call id || rpc_server_rhizome_done done_calls id

unfoldable pub rpc_server_rhizome_finished : List Bytes → Bytes → List Bytes
rpc_server_rhizome_finished done_calls id = done_calls ++ id ∷ []

-- How a round of the loop ends: `goto` leaves it with -1. The values are `return_code` and the calls
-- that are done.
pub data Round : Type 0 where
  continue : ℤ → List Bytes → Round
  leave : List Bytes → Round

-- `memcpy(recv_payload, curl_result_memory.memory, filesize)`: cURL's memory is the content and a 0.
pub received : ℕ → Bytes → Result Bytes
received filesize content =
    if ltb (length content + 1) filesize
    then err out_of_bounds
    else ok (take filesize (content ++ 0 ∷ []))

module _ (W : Words) (S : Sids) (system : System) where
  -- The five tests of a round; `service` is read before them.
  pub is_interesting : List Bytes → Bundle → Bytes → Bool
  is_interesting done_calls file service =
      let not_too_big = ltb 0 file.filesize && leb file.filesize mdp_mtu in
      let not_done = not (rpc_server_rhizome_done done_calls file.id) in
      let service_is_rpc = strn_eq service (codes "RPC") 3 in
      service_is_rpc && is_for_me S file.recipient && not_done && not_too_big

  -- A call that is served: only a successful execution is entered as done.
  pub answer : RpcProcedure → ℤ → List Bytes → Bytes → Exec Round
  answer rp code done_calls id = do
    rpc_server_rhizome_send_result S system rp.caller_sid rp.name ack_payload
    (status, result_payload) ← rpc_server_execute S system zero_payload rp
    if status == 0 then pure (continue code done_calls) else (do
      rpc_server_rhizome_send_result S system rp.caller_sid rp.name result_payload.bytes
      pure (continue code (rpc_server_rhizome_finished done_calls id)))

  pub handle_call : Bytes → ℕ → Bundle → ℤ → List Bytes → Exec Round
  unfolding answer
  handle_call payload len file code done_calls = do
    parsed ← lift (rpc_server_parse_call payload len)
    sender ← lift (deref file.sender)
    elim (S.str_to_sid_t sender) [
      | none ↦ pure (leave done_calls)
      | some caller ↦ (do
        let rp = record parsed { caller_sid = caller }
        served ← lift (is_served W system rp payload)
        if served then answer rp code done_calls file.id else pure (continue minus_one done_calls))
    ]

  pub fetch : Poll → Bundle → ℤ → List Bytes → Exec Round
  unfolding handle_call received
  fetch poll file code done_calls = elim (poll.decrypted file.id) [
    | none ↦ pure (leave done_calls)
    | some content ↦ (do
      recv_payload ← lift (received file.filesize content)
      pkt_type ← lift (read_uint8 recv_payload 0)
      if pkt_type == rpc_pkt_call
          then handle_call recv_payload file.filesize file code done_calls
          else pure (continue code done_calls))
  ]

  pub round : Poll → Bundle → ℤ → List Bytes → Exec Round
  unfolding is_interesting fetch
  round poll file code done_calls = do
    service ← lift (deref file.service)
    if is_interesting done_calls file service
        then fetch poll file code done_calls
        else pure (continue code done_calls)

  pub process_files : Poll → List Bundle → ℤ → List Bytes → Exec (ℤ × List Bytes)
  process_files poll [] code done_calls = pure (code, done_calls)
  process_files poll (file ∷ files) code done_calls = do
    end ← round poll file code done_calls
    elim end [
      | continue code' done' ↦ process_files poll files code' done'
      | leave done' ↦ pure (minus_one, done')
    ]

  pub list_files : Poll → Option (List Bundle) → List Bytes → Exec (ℤ × List Bytes)
  unfolding process_files
  list_files poll none done_calls = pure (minus_one, done_calls)
  list_files poll (some []) done_calls = pure (pos 1, done_calls)
  list_files poll (some (file ∷ files)) done_calls =
      process_files poll (file ∷ files) (pos 0) done_calls

  -- The return code, and the calls that are done afterwards.
  unfoldable pub rpc_server_rhizome_process : Poll → List Bytes → Exec (ℤ × List Bytes)
  unfolding round list_files
  rpc_server_rhizome_process poll done_calls =
      if poll.handle then list_files poll poll.bundles done_calls else pure (minus_one, done_calls)
