-- ===== src/Server.antt =====
-- rpc_server.c and the three rpc_server_*.c: what a server does with a call packet.
pub mod Parse
pub mod Offering
pub mod Execute
pub mod SendResult
pub mod Answer
pub mod Msp
pub mod Mdp
pub mod Rhizome
pub mod Sockets
pub mod Listen
use dtn_rpc.Common.{Bool, true, false, ℕ, Option, List, [], Bytes}
use dtn_rpc.Serval.{Sid}

-- `params` has `paramc_n` pointers, null until a parameter is stored.
pub record RpcProcedure : Type 0 where
  pub name : Bytes
  pub paramc_n : ℕ
  pub paramc_s : Bytes
  pub params : List (Option Bytes)
  pub caller_sid : Sid

-- `caller_sid` before its caller has set it.
abbrev pub unset_sid : Sid
unset_sid = []

-- RPC_SERVER_MODE_MSP, _MDP, _RHIZOME and _ALL
pub data ServerMode : Type 0 where
  mode_msp mode_mdp mode_rhizome mode_all : ServerMode

-- `server_mode == RPC_SERVER_MODE_ALL`
abbrev pub is_mode_all : ServerMode → Bool
is_mode_all mode_all = true
is_mode_all _ = false
