-- ===== src/CommandLine/Call.antt =====
-- The branch of `main` for a client: from the arguments to the call that is made.
use dtn_rpc.Common.{
  ℕ, zero, suc, ◌+◌, ◌-◌, ◌%◌, ◌||◌, Option, none, some, List, [], ◌∷◌, ltb, ◌==◌, if◌then◌else◌,
  Bytes, codes, length,
}
use dtn_rpc.Common.Int.{ℤ}
use dtn_rpc.Result.{out_of_bounds, Result, ok, err, ◌>>=◌, deref}
use dtn_rpc.CString.{str_eq, strn_eq}
use dtn_rpc.Serval.{Sid, sid_any, Sids, is_sid_t_broadcast, is_sid_t_any}
use dtn_rpc.Requirements.{u32_mod, rpc_client_prepare_requirements}
use dtn_rpc.CommandLine.{check_cli, has_requirements, call_values}

-- `argv[n]`: behind the arguments there is a null pointer, and nothing else.
unfoldable pub argument : List Bytes → ℕ → Result (Option Bytes)
argument [] zero = ok none
argument [] (suc n) = err out_of_bounds
argument (arg ∷ argv) zero = ok (some arg)
argument (arg ∷ argv) (suc n) = argument argv n

-- A call: the identifier of the server, the name, the parameters with their number, and the
-- requirements.
pub record Call : Type 0 where
  pub sid : Sid
  pub name : Bytes
  pub nfields : ℕ
  pub params : List (Option Bytes)
  pub requirements : ℕ

pub data Way : Type 0 where
  way_msp way_rhizome way_mdp way_transparent : Way

-- What the arguments ask for.
pub data ClientCommand : Type 0 where
  bad_sid no_broadcast bad_way : ClientCommand
  make : Way → Call → ClientCommand

-- `a - b` of `int`s that is stored in an `unsigned int`.
abbrev unsigned_sub : ℕ → ℕ → ℕ
unsigned_sub a b = (a + u32_mod - b) % u32_mod

-- `for (i = 0; i < nfields - 1; i++)`: the parameters behind the first, by the rounds that are left.
-- `size` is the number of elements of `params`.
unfoldable pub more_params : ℕ → ℕ → ℕ → ℕ → List Bytes → Result (List (Option Bytes))
unfolding argument
more_params zero i size offset argv = ok []
more_params (suc rounds) i size offset argv = do
  param ← argument argv (offset + 3 + i)
  stored ← if ltb (i + 1) size then ok param else err out_of_bounds
  rest ← more_params rounds (i + 1) size offset argv
  ok (stored ∷ rest)

-- The array `params`: `params[0]`, and the loop. Its last element is never set and never read.
unfoldable pub call_params : ℕ → Option Bytes → ℕ → List Bytes → Result (List (Option Bytes))
unfolding more_params
call_params nfields param1 offset argv = do
  let size = (nfields + 1) % u32_mod
  first ← if size == 0 then err out_of_bounds else ok param1
  rest ← more_params (unsigned_sub nfields 1) 0 size offset argv
  ok (first ∷ rest)

module _ (S : Sids) where
  -- "all" is read as "broadcast", and "any" gives SID_ANY.
  unfoldable pub call_sid : Bytes → Option Sid
  call_sid sidhex =
      let named = if strn_eq sidhex (codes "all") 3 then codes "broadcast" else sidhex in
      if strn_eq named (codes "any") 3 then some sid_any else S.str_to_sid_t named

  -- The four ways, tested in this order.
  unfoldable pub call_way : Bytes → Call → ClientCommand
  call_way option call =
      if check_cli option (codes "msp") (codes "s")
      then (if is_sid_t_broadcast S call.sid || is_sid_t_any S call.sid
          then no_broadcast
          else make way_msp call)
      else if check_cli option (codes "rhizome") (codes "r")
      then make way_rhizome call
      else if check_cli option (codes "mdp") (codes "d")
      then make way_mdp call
      else if check_cli option (codes "-") (codes "-")
      then make way_transparent call
      else bad_way

  -- Behind the identifier: the parameters, the requirements, and the way. `values` is what was in
  -- the memory of the array for the requirements.
  unfoldable pub call_command :
      List ℤ → List Bytes → Bytes → ℕ → Sid → Bytes → Option Bytes → Bytes → Result ClientCommand
  unfolding call_params call_way
  call_command values argv option offset sid name param1 last_arg = do
    let behind = if has_requirements last_arg then offset + 3 else offset + 2
    let nfields = unsigned_sub (length argv) behind
    params ← call_params nfields param1 offset argv
    requirements ← rpc_client_prepare_requirements (call_values values last_arg)
    ok (
        call_way option (record {
          sid = sid;
          name = name;
          nfields = nfields;
          params = params;
          requirements = requirements;
        }))

  -- With the identifier that was read, if it is one.
  unfoldable pub sid_command :
      List ℤ
      → List Bytes
      → Bytes
      → ℕ
      → Option Bytes
      → Option Bytes
      → Option Sid
      → Result ClientCommand
  unfolding call_command
  sid_command values argv option offset name_argument param1 none = ok bad_sid
  sid_command values argv option offset name_argument param1 (some sid) = do
    name ← deref name_argument
    last ← argument argv (length argv - 1)
    last_arg ← deref last
    call_command values argv option offset sid name param1 last_arg

  unfoldable pub client_command : List ℤ → List Bytes → Result ClientCommand
  unfolding sid_command
  client_command values argv = do
    second ← argument argv 2
    option ← deref second
    let offset = if str_eq option (codes "--") then 3 else 4
    sid_argument ← argument argv offset
    name_argument ← argument argv (offset + 1)
    param1 ← argument argv (offset + 2)
    sidhex ← deref sid_argument
    sid_command values argv option offset name_argument param1 (call_sid sidhex)
