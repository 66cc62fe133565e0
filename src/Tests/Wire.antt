-- ===== src/Tests/Wire.antt =====
-- Packets: the code of rpc_helpers.c, rpc_client.c and rpc_server.c at concrete inputs.
use dtn_rpc.Common.{
  ℕ, zero, suc, map, All, Lacks, ◌≡◌, refl, ◌≢◌, none, some, List, [], ◌∷◌, ◌++◌, arith, Bytes,
  codes, length, replicate,
}
use dtn_rpc.Result.{out_of_bounds, out_of_fuel, ok, err}
use dtn_rpc.CString.Tokens.{join, IsToken}
use dtn_rpc.Memory.{fresh}
use dtn_rpc.Serval.Sample.{sample_words}
use dtn_rpc.Wire.{rpc_client_prepare_call_payload}
use dtn_rpc.Wire.Call.{call_packet, rpc_client_prepare_call_payload_lem}
use dtn_rpc.Server.Parse.{rpc_server_parse_call}
use dtn_rpc.Server.Parse.RoundTrip.{parsed_call, rpc_server_parse_call-packet}
use dtn_rpc.Server.Parse.Fields.{rpc_server_parse_call_shifts, rpc_server_parse_call_overflow}
use dtn_rpc.Server.Parse.Total.{rpc_server_parse_call-fuel}
use dtn_rpc.Tests.Decide.{lacking-Lacks, is_token}
use dtn_rpc.CString.{str_eq}
use dtn_rpc.Serval.Sample.{sample_sids}
use dtn_rpc.System.Sample.{sample_system}
use dtn_rpc.Client.{rpc_client_replace_if_path}
use dtn_rpc.Client.Params.{rpc_client_replace_if_path-plain}
use dtn_rpc.Server.Parse.Slots.{AreTokens}

abbrev two : List Bytes
two = codes "7" ∷ codes "42" ∷ []

rpc_client_prepare_call_payload_lem_example :
    rpc_client_prepare_call_payload sample_words
      (fresh (replicate 15 0))
      2
      (codes "add")
      (codes "|7|42")
      1
    ≡ fresh (0 ∷ 0 ∷ 0 ∷ 0 ∷ 1 ∷ 2 ∷ codes "add|7|42" ++ 0 ∷ [])
rpc_client_prepare_call_payload_lem_example =
    rpc_client_prepare_call_payload_lem sample_words (replicate 15 0) 2 (codes "add")
      (codes "|7|42") 1 refl

add_IsToken : IsToken b'|' (codes "add")
add_IsToken = is_token b'|' b'a' (codes "dd") refl refl

two-AreTokens : AreTokens two
two-AreTokens = (is_token b'|' b'7' [] refl refl, (is_token b'|' b'4' (codes "2") refl refl, tt))

-- Bytes of an earlier packet lie behind the call.
rpc_server_parse_call-packet_example :
    rpc_server_parse_call (0 ∷ 0 ∷ 0 ∷ 0 ∷ 1 ∷ 2 ∷ codes "add|7|42" ++ (0 ∷ codes "|9")) 15
    ≡ ok (parsed_call (codes "add") two)
rpc_server_parse_call-packet_example =
    rpc_server_parse_call-packet sample_words 1 (codes "add") two (codes "|9") add_IsToken
      two-AreTokens (omega arith)

rpc_server_parse_call_shifts_example :
    rpc_server_parse_call (0 ∷ 0 ∷ 0 ∷ 0 ∷ 1 ∷ 2 ∷ codes "add||42" ++ (0 ∷ codes "|9")) 14
    ≡ ok (record (parsed_call (codes "add") two) { params = some (codes "42") ∷ none ∷ [] })
rpc_server_parse_call_shifts_example =
    rpc_server_parse_call_shifts sample_words 1 (codes "add") ([] ∷ codes "42" ∷ []) (codes "|9")
      add_IsToken (tt, (lacking-Lacks b'|' (codes "42") refl, tt))
      (tt, (lacking-Lacks 0 (codes "42") refl, tt)) (omega arith)

-- One parameter that is not empty, and 255 that are.
abbrev sparse : List Bytes
sparse = codes "1" ∷ replicate 255 []

-- The client passes these parameters on.
sparse_sent :
    rpc_client_replace_if_path sample_sids sample_system (codes "add") (map some sparse) 256 []
    ≡ ok (join b'|' sparse, [])
sparse_sent =
    rpc_client_replace_if_path-plain sample_sids sample_system (codes "add") (codes "1")
      (replicate 255 []) [] (unfold str_eq in refl) (omega arith)

empty_Lacks : (b n : ℕ) → All (Lacks b) (replicate n [])
empty_Lacks b zero = tt
empty_Lacks b (suc n) = (tt, empty_Lacks b n)

rpc_server_parse_call_overflow_example :
    rpc_server_parse_call
      (call_packet sample_words 0 256 (codes "add") (join b'|' sparse) ++ [])
      (length (call_packet sample_words 0 256 (codes "add") (join b'|' sparse)))
    ≡ err out_of_bounds
rpc_server_parse_call_overflow_example =
    rpc_server_parse_call_overflow sample_words 0 (codes "add") sparse [] add_IsToken
      (lacking-Lacks b'|' (codes "1") refl, empty_Lacks b'|' 255)
      (lacking-Lacks 0 (codes "1") refl, empty_Lacks 0 255) (omega arith)

rpc_server_parse_call-fuel_example :
    rpc_server_parse_call (0 ∷ codes "||||||||||") 11 ≢ err out_of_fuel
rpc_server_parse_call-fuel_example = rpc_server_parse_call-fuel (0 ∷ codes "||||||||||") 11
