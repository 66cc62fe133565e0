-- ===== src/Server/Offering.antt =====
-- `_rpc_server_offering` and `_rpc_server_accepts` of rpc_server.c.
pub mod Declared
use dtn_rpc.Common.{ℕ, Option, none, some, List, [], ◌∷◌, ◌==◌, if◌then◌else◌, Bytes, length}
use dtn_rpc.Common.Int.{ℤ, pos}
use dtn_rpc.Result.{Result, ok, ◌>>=◌, deref}
use dtn_rpc.CString.{strn_eq, strtok}
use dtn_rpc.Requirements.{rpc_server_parse_requirements}
use dtn_rpc.Server.{RpcProcedure}

add_to_line : ℕ → List Bytes → List Bytes
add_to_line c [] = (c ∷ []) ∷ []
add_to_line c (line ∷ lines) = (c ∷ line) ∷ lines

-- What `getline` returns, call by call: each line with its newline.
unfoldable pub getlines : Bytes → List Bytes
unfolding add_to_line
getlines [] = []
getlines (c ∷ cs) =
    let rest = getlines cs in if c == b'\n' then (c ∷ []) ∷ rest else add_to_line c rest

-- The second half of a round, where the name has matched.
named_line : RpcProcedure → Bytes → Result ℕ
named_line rp rest = do
  (paramc, _) ← deref (strtok b' ' rest)
  ok (if strn_eq paramc rp.paramc_s (length paramc) then 2 else 1)

-- One round of the loop: the value of `ret` at its end.
pub offering_line : RpcProcedure → Bytes → Result ℕ
unfolding named_line
offering_line rp line = do
  (name, rest) ← deref (strtok b' ' line)
  if strn_eq name rp.name (length name) then named_line rp rest else ok 0

-- The loop over the lines, left at the first 2.
pub offering_loop : RpcProcedure → List Bytes → ℕ → Result ℕ
offering_loop rp [] ret = ok ret
offering_loop rp (line ∷ lines) ret = do
  ret' ← offering_line rp line
  let next = offering_loop rp lines ret'
  if ret' == 2 then ok ret' else next

-- `conf_file` is the text of rpc.conf, with no terminator in it; `none` if there is no such file.
unfoldable pub rpc_server_offering : Option Bytes → RpcProcedure → Result ℕ
unfolding getlines offering_line offering_loop
rpc_server_offering none rp = ok 0
rpc_server_offering (some conf_file) rp = offering_loop rp (getlines conf_file) 0

-- Reads the requirements, and accepts every call.
unfoldable pub rpc_server_accepts : RpcProcedure → ℕ → ℤ
rpc_server_accepts rp requirements_raw =
    let requirements = rpc_server_parse_requirements requirements_raw in pos 1
