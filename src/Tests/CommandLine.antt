-- ===== src/Tests/CommandLine.antt =====
-- The command line: the code of main.c at concrete inputs.
use dtn_rpc.Common.{ℕ, ◌≡◌, refl, ◌||◌, List, [], ◌∷◌, map, arith, codes, replicate, All}
use dtn_rpc.Common.Int.{ℤ, pos}
use dtn_rpc.CString.{print_u8}
use dtn_rpc.CommandLine.{call_values}
use dtn_rpc.CommandLine.Values.{IsDigit, call_values-digits, call_values-long}
use dtn_rpc.Serval.{Sid, sid_any, is_sid_t_broadcast, is_sid_t_any}
use dtn_rpc.Serval.Sample.{sample_sids}
use dtn_rpc.CString.{strn_eq}
use dtn_rpc.Result.{ok, err, out_of_bounds}
use dtn_rpc.CommandLine.{has_requirements}
use dtn_rpc.CommandLine.Call.{make, way_msp, way_mdp, call_sid, client_command}
use dtn_rpc.CommandLine.Arguments.{client_command-digits, client_command-none}
use dtn_rpc.Common.{some, false, Bytes}

abbrev zeros : List ℤ
zeros = map pos (replicate 8 0)

abbrev digits : List ℕ
digits = 1 ∷ 2 ∷ 3 ∷ 4 ∷ 5 ∷ 6 ∷ 7 ∷ 9 ∷ []

are_digits : All IsDigit digits
are_digits = (
  omega arith,
  (
    omega arith,
    (omega arith, (omega arith, (omega arith, (omega arith, (omega arith, (omega arith, tt)))))),
  ),
)

call_values-digits_example : call_values zeros (codes "1,2,3,4,5,6,7,9") ≡ map pos digits
call_values-digits_example = call_values-digits digits zeros refl refl are_digits

call_values-long_example : call_values (map pos digits) (codes "1,2,15,4,5,6,7,8") ≡ zeros
unfolding print_u8
call_values-long_example =
    call_values-long (1 ∷ 2 ∷ []) (4 ∷ 5 ∷ 6 ∷ 7 ∷ 8 ∷ []) 15 (map pos digits) (omega arith) refl
      refl

abbrev server_1 : Sid
server_1 = replicate 32 1

abbrev typed_sid : Bytes
typed_sid = replicate 32 2

typed_server : call_sid sample_sids typed_sid ≡ some server_1
unfolding call_sid strn_eq
typed_server = refl

typed_any : call_sid sample_sids (codes "any") ≡ some sid_any
unfolding call_sid strn_eq
typed_any = refl

one_server : (is_sid_t_broadcast sample_sids server_1 || is_sid_t_any sample_sids server_1) ≡ false
unfolding is_sid_t_broadcast is_sid_t_any
one_server = refl

b_plain : has_requirements (codes "b") ≡ false
unfolding has_requirements
b_plain = refl

echo_plain : has_requirements (codes "echo") ≡ false
unfolding has_requirements
echo_plain = refl

client_command-digits_example :
    client_command sample_sids zeros (
      codes "dtnrpc"
      ∷ codes "-c"
      ∷ codes "-s"
      ∷ codes "--"
      ∷ typed_sid
      ∷ codes "echo"
      ∷ codes "a"
      ∷ codes "b"
      ∷ codes "1,2,3,4,5,6,7,9"
      ∷ [])
    ≡ ok (
        make way_msp (record {
          sid = server_1;
          name = codes "echo";
          nfields = 2;
          params = some (codes "a") ∷ some (codes "b") ∷ [];
          requirements = 0x12345679;
        }))
client_command-digits_example =
    client_command-digits sample_sids zeros (codes "dtnrpc") typed_sid (codes "echo") (codes "a")
      (codes "b" ∷ []) way_msp server_1 typed_server one_server refl digits refl are_digits
      (omega arith)

client_command-none_example :
    client_command sample_sids zeros
      (codes "dtnrpc" ∷ codes "-c" ∷ codes "-d" ∷ codes "--" ∷ typed_sid ∷ codes "echo" ∷ [])
    ≡ err out_of_bounds
client_command-none_example =
    client_command-none sample_sids zeros (codes "dtnrpc") typed_sid (codes "echo") way_mdp server_1
      typed_server echo_plain
