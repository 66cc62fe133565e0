-- ===== src/Tests/Server.antt =====
-- The procedures that a server offers, and their execution: the code of rpc_server.c at concrete
-- inputs.
use dtn_rpc.Common.{
  ◌-◌, ◌≡◌, refl, ap, ◌↔◌, true, false, none, some, [], ◌∷◌, ◌++◌, arith, Bytes, codes, length,
  drop, replicate, All,
}
use dtn_rpc.Result.{null_pointer, ok, err}
use dtn_rpc.CString.{c_string, str_eq, strtok}
use dtn_rpc.Serval.Sample.{sample_sids}
use dtn_rpc.Filehash.{char_at, rpc_str_is_filehash}
use dtn_rpc.System.{run}
use dtn_rpc.System.Sample.{sample_system}
use dtn_rpc.Server.{RpcProcedure, unset_sid}
use dtn_rpc.Server.Offering.{getlines, rpc_server_offering}
use dtn_rpc.Server.Offering.Declared.{
  IsDeclaration, SomeOffers, rpc_server_offering-eq-two, rpc_server_offering_last_line,
}
use dtn_rpc.Server.Execute.{line_of, rpc_server_execute}
use dtn_rpc.Server.Execute.Payload.{printed_payload, printed_payload_lem}
use dtn_rpc.Server.Execute.Runs.{
  binary, IsRunnable, rpc_server_execute_runs, rpc_server_execute_null,
}
use dtn_rpc.Server.Answer.{zero_payload}

abbrev add_call : RpcProcedure
add_call = record {
  name = codes "add";
  paramc_n = 2;
  paramc_s = codes "2";
  params = some (codes "1") ∷ some (codes "2") ∷ [];
  caller_sid = unset_sid;
}

-- "add" with a count of three.
abbrev wrong_count : RpcProcedure
wrong_count = record add_call { paramc_n = 3; paramc_s = codes "3" }

abbrev add_line : Bytes
add_line = codes "add 2 int int\n"

abbrev add_declared : IsDeclaration add_line
unfolding strtok
add_declared = record {
  name = codes "add";
  behind_name = codes "2 int int\n";
  paramc = codes "2";
  behind_paramc = codes "int int\n";
  name_read = refl;
  paramc_read = refl;
}

add_lines : getlines add_line ≡ add_line ∷ []
unfolding getlines
add_lines = refl

all_declared : All IsDeclaration (getlines add_line)
unfolding getlines
all_declared = (add_declared, tt)

rpc_server_offering-eq-two_example :
    (rpc_server_offering (some add_line) add_call ≡ ok 2)
    ↔ SomeOffers add_call (getlines add_line) all_declared
rpc_server_offering-eq-two_example = rpc_server_offering-eq-two add_call add_line all_declared

rpc_server_offering_last_line_example : rpc_server_offering (some add_line) wrong_count ≡ ok 1
unfolding add_declared
rpc_server_offering_last_line_example =
    rpc_server_offering_last_line wrong_count add_line [] tt add_line add_declared add_lines
      (λ h. h) ([], refl)
      (λ (named, (rest, e)). let first : b'3' ≡ b'2' = ap (λ s. char_at s 0) e in omega arith)

printed_payload_lem_example : printed_payload (codes "3\n") ≡ (
    let line = line_of 958 (codes "3\n") in
    record { bytes = 2 ∷ (line ++ replicate (959 - length line) 0); overrun = true })
printed_payload_lem_example = printed_payload_lem b'3' (codes "\n")

add_there : sample_system.exists (binary sample_sids sample_system add_call) ≡ true
unfolding str_eq
add_there = refl

add_runs : IsRunnable sample_sids sample_system add_call (codes "1") (codes "2" ∷ [])
unfolding rpc_str_is_filehash
add_runs = record { has_params = refl; has_count = refl; has_binary = add_there; no_file = refl }

three_read : c_string (drop 1 (printed_payload (codes "3\n")).bytes) ≡ ok (codes "3\n")
unfolding c_string line_of
three_read = rw (printed_payload_lem b'3' (codes "\n")) refl

three_no_file : sample_system.exists (codes "3\n") ≡ false
unfolding str_eq
three_no_file = refl

rpc_server_execute_runs_example :
    rpc_server_execute sample_sids sample_system zero_payload add_call []
    ≡ ok ((1, printed_payload (codes "3\n")), run (codes "/etc/serval/rpc_bin/add 1 2") ∷ [])
rpc_server_execute_runs_example =
    rpc_server_execute_runs sample_sids sample_system add_call (codes "1") (codes "2" ∷ [])
      (codes "3\n") (codes "3\n") 0 [] add_runs refl three_read three_no_file

rpc_server_execute_null_example :
    rpc_server_execute sample_sids sample_system zero_payload
      (record add_call { params = some (codes "1") ∷ none ∷ [] })
      []
    ≡ err null_pointer
rpc_server_execute_null_example =
    rpc_server_execute_null sample_sids sample_system
      (record add_call { params = some (codes "1") ∷ none ∷ [] }) zero_payload (codes "1" ∷ []) []
      [] add_there (unfold rpc_str_is_filehash in refl, tt) refl (omega arith)
