-- ===== src/RemoteCall/Program.antt =====
-- The program of main.c on the client's host, from its arguments to its exit status.
use dtn_rpc.Common.{
  ℕ, ◌+◌, ◌-◌, ◌≡◌, ◌∙◌, true, false, some, List, [], ◌∷◌, ◌++◌, map, arith, Bytes, length,
  replicate, All,
}
use dtn_rpc.Common.Int.{ℤ, pos}
use dtn_rpc.System.{System, Effect, mdp_send}
use dtn_rpc.Result.{ok}
use dtn_rpc.CString.Tokens.{join, join_rest}
use dtn_rpc.Serval.{Words, Sid, Sids, is_sid_t_any}
use dtn_rpc.System.Ensures.{bind_ok}
use dtn_rpc.Server.{ServerMode}
use dtn_rpc.Server.Mdp.{rpc_server_mdp_handle}
use dtn_rpc.Wire.Call.{call_packet}
use dtn_rpc.Client.{RpcResult, no_results}
use dtn_rpc.Client.Mdp.Unanswered.{IsReady}
use dtn_rpc.Requirements.Pack.{hex_value}
use dtn_rpc.CommandLine.Call.{way_mdp, call_sid}
use dtn_rpc.CommandLine.Main.{MainRun, run_way, call_exit, main}
use dtn_rpc.CommandLine.Values.{IsDigit, digit_text}
use dtn_rpc.CommandLine.Arguments.{command_line, parsed_arguments, client_command-digits}
use dtn_rpc.CommandLine.Run.{main-call, call_exit-first}
use dtn_rpc.RemoteCall.{line, IsWorking, Hears, remote_call}
use dtn_rpc.RemoteCall.Packets.{packets_to, zeros}

module _ (W : Words) (client server : Sids) (at_client at_server : System) (mode : ServerMode)
    (client_sid server_sid : Sid) (name first : Bytes) (others : List Bytes) (vs : List ℕ) (c : ℕ)
    (out : Bytes) where
  abbrev requirements : ℕ
  requirements = hex_value 0 vs

  -- The entry that is printed: the server, and the first line that its program prints.
  abbrev pub printed : RpcResult
  printed =
      let text =
        line W client server at_client at_server mode client_sid server_sid name first others
          requirements c out in
      record { server_sid = server_sid; content = text ++ zeros (960 - length text) }

  abbrev pub packet : Bytes
  packet = call_packet W requirements (length (first ∷ others)) name (join b'|' (first ∷ others))

  -- The program is started on the client's host with `-c -d -- SERVER NAME PARAMETERS... DIGITS`, while
  -- the daemon runs; SERVER is the identifier of one server, and DIGITS are eight digits with commas
  -- between them. The call works, in the sense of `IsWorking`, with the digits as requirements, the
  -- client's loop is reached, and the server receives the packet of the call. If the packets that the
  -- server sends to the client are what the client hears, the first within ten seconds and the second
  -- within thirty, the program ends with exit status 0 and prints one entry, which has the server and
  -- the first line that the program on the server prints, up to 958 bytes, and zeros behind it. The
  -- packet is sent in every round up to the first answer, and nothing else is done.
  pub main-remote_call :
      (net : MainRun) (program sidhex : Bytes) (effects : List Effect) (code : ℤ)
      → net.server_pid ≡ true
      → length net.values ≡ 8
      → length vs ≡ 8
      → All IsDigit vs
      → call_sid client sidhex ≡ some server_sid
      → is_sid_t_any client server_sid ≡ false
      → IsWorking W client server at_client at_server mode client_sid server_sid name first others
          requirements c out
      → IsReady W client at_client server_sid name net.call.mdp first others requirements no_results
          []
      → rpc_server_mdp_handle W server at_server mode
          (some (record { remote = client_sid; received = packet }))
          []
        ≡ ok (code, effects)
      → (h : Hears W client server at_client at_server mode client_sid server_sid name first others
          requirements c out net.call.mdp
          (packets_to client_sid effects))
      → main W client at_client net
          (command_line program way_mdp sidhex name
            (first ∷ others)
            (join_rest b',' (map digit_text vs) ∷ []))
          []
        ≡ ok ((pos 0, printed ∷ []), replicate (length h.quiet + 1) (mdp_send server_sid packet))
  unfolding run_way
  main-remote_call net program sidhex effects code running room len digits known single w ready
        handled h =
      let asked =
        client_command-digits client net.values program sidhex name first others way_mdp server_sid
          known tt room vs len digits (omega (arith, w.few)) in
      main-call W client at_client net program _ way_mdp
        (parsed_arguments server_sid name (first ∷ others) requirements) [] running asked
      ∙ bind_ok
          (run_way W client at_client net way_mdp
            (parsed_arguments server_sid name (first ∷ others) requirements))
          (call_exit W client at_client net) {trace = []}
          (remote_call W client server at_client at_server mode client_sid server_sid name first
            others requirements c out net.call.mdp no_results [] effects code w ready handled h)
      ∙ rw single (call_exit-first W client at_client net printed _ single)
