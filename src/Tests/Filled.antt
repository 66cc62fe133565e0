-- ===== src/Tests/Filled.antt =====
-- A result on a broadcast call: the code of rpc_client_mdp.c at concrete inputs.
use dtn_rpc.Common.{
  ℕ, ◌≡◌, refl, ap, ◌≢◌, true, false, [], ◌∷◌, arith, codes, replicate, length-replicate,
}
use dtn_rpc.Serval.{Sid, sid_broadcast, is_sid_t_broadcast}
use dtn_rpc.Result.{ok}
use dtn_rpc.CString.{c_string}
use dtn_rpc.Filehash.{rpc_str_is_filehash}
use dtn_rpc.Serval.Sample.{sample_sids}
use dtn_rpc.System.Sample.{sample_system}
use dtn_rpc.Client.{RpcResult, no_result}
use dtn_rpc.Client.Answers.{record_result}
use dtn_rpc.Client.Table.Filled.{record_result-filled}
use dtn_rpc.Tests.Mdp.{server_1}

abbrev entry : RpcResult
entry = record no_result { server_sid = server_1 }

abbrev other : RpcResult
other = record no_result { server_sid = replicate 32 4 }

abbrev first_element : Sid → ℕ
first_element [] = 0
first_element (x ∷ s) = x

other_server : other.server_sid ≢ server_1
other_server e =
    let same : first_element (replicate 32 4) ≡ first_element server_1 = ap first_element e in
    omega arith

everyone : is_sid_t_broadcast sample_sids sid_broadcast ≡ true
unfolding is_sid_t_broadcast
everyone = refl

reads : c_string (b'3' ∷ 0 ∷ []) ≡ ok (codes "3")
unfolding c_string
reads = refl

no_file : rpc_str_is_filehash (codes "3") ≡ false
unfolding rpc_str_is_filehash
no_file = refl

-- The second of two servers answers.
record_result-filled_example :
    record_result sample_sids sample_system sid_broadcast
      (codes "add")
      (other ∷ entry ∷ replicate 3 no_result)
      server_1
      (2 ∷ b'3' ∷ 0 ∷ [])
      3
      []
    ≡ ok (
      (
        other
            ∷ record { server_sid = server_1; content = b'3' ∷ replicate 959 0 }
            ∷ replicate 3 no_result,
        false,
      ),
      [],
    )
record_result-filled_example =
    record_result-filled sample_sids sample_system sid_broadcast (codes "add") (other ∷ []) entry
      (replicate 3 no_result) (b'3' ∷ 0 ∷ []) [] (codes "3") [] everyone (other_server, tt)
      (length-replicate {A = ℕ} 960 0) (omega arith) reads no_file
