-- ===== src/RemoteCall/Transparent.antt =====
-- A transparent call from end to end: rpc_client.c and rpc_client_rhizome.c on one host and
-- rpc_server_rhizome.c on another that no route leads to.
use dtn_rpc.Common.{
  ℕ, ◌-◌, ◌≡◌, ◌∙◌, false, ◌||◌, some, List, [], ◌∷◌, ◌++◌, Bytes, length, map, replicate,
}
use dtn_rpc.Common.Int.{ℤ, pos, truth}
use dtn_rpc.System.{Bundle, Poll, System, Effect}
use dtn_rpc.Result.{ok}
use dtn_rpc.Serval.{Words, Sid, Sids, is_sid_t_broadcast, is_sid_t_any}
use dtn_rpc.Reachable.{rpc_sid_is_reachable}
use dtn_rpc.Server.Rhizome.{rpc_server_rhizome_done, rpc_server_rhizome_process}
use dtn_rpc.Server.Rhizome.OnlyCall.{IsOnlyCall}
use dtn_rpc.Server.Rhizome.CallBundle.{IsCallBundle}
use dtn_rpc.Client.{no_result, ClientState}
use dtn_rpc.Client.Call.{CallRun, rpc_client_call}
use dtn_rpc.Client.Call.Unreachable.{rpc_client_call_unreachable}
use dtn_rpc.Client.Rhizome.Answered.{IsAnswered}
use dtn_rpc.Client.Rhizome.Posted.{post_call, IsReady}
use dtn_rpc.RemoteCall.Packets.{zeros}
use dtn_rpc.RemoteCall.Delayed.{postings, line, answer_manifest, IsWorking, remote_call_delayed}

module _ (W : Words) (client server : Sids) (at_client at_server : System)
    (client_sid server_sid : Sid) (name first : Bytes) (others : List Bytes) (requirements : ℕ)
    (c : ℕ) (out : Bytes) (net : CallRun) (state : ClientState) (trace : List Effect) where
  abbrev store_state : ClientState
  store_state = record state { received = pos 0 }

  -- A transparent call of one server that no route leads to. The call works, in the sense of
  -- `IsWorking`, and the way through the store comes to its listener. The server looks at a store in
  -- which the only bundle for it is the call, which is not done. If the two bundles that the server
  -- then posts for the client are what the client finds, besides bundles for others, the first within
  -- twenty seconds and the second within two minutes, the transparent call ends with 2: the first entry
  -- of the table has the server and the first line that the program on the server prints, with zeros
  -- behind it. The client posts the call once and sends nothing.
  pub remote_call_transparent :
      (store : Poll) (file : Bundle) (done_calls done' : List Bytes) (code : ℤ)
      (effects : List Effect) (early late : Bytes)
      → (is_sid_t_broadcast client server_sid || is_sid_t_any client server_sid) ≡ false
      → truth (rpc_sid_is_reachable client at_client server_sid) ≡ false
      → IsWorking W client server at_client at_server client_sid server_sid name first others
          requirements c out
      → IsReady W client at_client server_sid name net.if_unreachable first others requirements
          store_state trace
      → IsOnlyCall W server at_server store file
      → IsCallBundle W server at_server requirements name (first ∷ others) store file client_sid
      → rpc_server_rhizome_done done_calls file.id ≡ false
      → rpc_server_rhizome_process W server at_server store done_calls []
        ≡ ok ((code, done'), effects)
      → postings
          (answer_manifest W client server at_client at_server client_sid server_sid name first
            others requirements c out)
          effects
        ≡ early ∷ late ∷ []
      → IsAnswered W client at_client server_sid name net.if_unreachable server_sid early late
      → let first_line =
          line W client server at_client at_server client_sid server_sid name first others
            requirements c out in
        rpc_client_call W client at_client net server_sid name
          (length (first ∷ others))
          (map some (first ∷ others))
          requirements
          state
          trace
        ≡ ok (
          (
            pos 2,
            record {
              received = pos 1;
              rpc_result =
                  record {
                    server_sid = server_sid;
                    content = first_line ++ zeros (960 - length first_line);
                  }
                  ∷ replicate 4 no_result;
            },
          ),
          trace
              ++ post_call W client at_client server_sid name net.if_unreachable first others
                  requirements store_state trace
                ∷ [],
        )
  remote_call_transparent store file done_calls done' code effects early late single away w ready
        only b new handled both heard =
      rpc_client_call_unreachable W client at_client net server_sid name (length (first ∷ others))
        (map some (first ∷ others)) requirements state trace single away
      ∙ remote_call_delayed W client server at_client at_server client_sid server_sid name first
          others requirements c out net.if_unreachable store_state trace store file done_calls done'
          code effects early late w ready only b new handled both heard
