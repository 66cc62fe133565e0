-- ===== src/Server/Sockets.antt =====
-- The sockets of the server: the setup and the cleanup of rpc_server_mdp.c and rpc_server_msp.c. The
-- addresses that the sockets are bound to are constants of Serval.
use dtn_rpc.Common.{
  ◌≡◌, ◌≢◌, ℕ, Bool, true, false, Option, none, some, List, [], ◌∷◌, if◌then◌else◌,
}
use dtn_rpc.Common.Int.{ℤ, pos, minus_one}

-- Serval's functions on sockets: what they return, a descriptor or `none` for a number below 0, and
-- what closing does.
pub record SocketCalls : Type 0 where
  pub msp_socket : Option ℕ  -- `mdp_socket` for MSP
  pub mdp_socket : Option ℕ  -- `mdp_socket` for MDP
  pub mdp_binds : Bool  -- whether `mdp_bind` succeeds
  -- the descriptors that are open behind `mdp_close`: the one that is closed is taken out
  pub mdp_close : ℕ → List ℕ → List ℕ
  pub mdp_close-same : (fd : ℕ) (opened : List ℕ) → mdp_close fd (fd ∷ opened) ≡ opened
  pub mdp_close-other :
      (fd other : ℕ) (opened : List ℕ)
      → other ≢ fd
      → mdp_close fd (other ∷ opened) ≡ other ∷ mdp_close fd opened

-- The global variables of the two files, and the descriptors that are open. `none` is the value of a
-- variable that holds no descriptor.
pub record Sockets : Type 0 where
  pub opened : List ℕ
  pub mdp_sock : Option ℕ
  pub mdp_poll_fd : Option ℕ
  pub mdp_fd_msp : Option ℕ
  pub sock_msp : Bool  -- not MSP_SOCKET_NULL: it listens with the handler

-- The variables at the start of the program; MSP_SOCKET_NULL is the initial value of `sock_msp`.
abbrev pub no_sockets : Sockets
no_sockets = record {
  opened = [];
  mdp_sock = none;
  mdp_poll_fd = none;
  mdp_fd_msp = none;
  sock_msp = false;
}

unfoldable pub rpc_server_mdp_setup : SocketCalls → Sockets → ℤ × Sockets
rpc_server_mdp_setup calls sockets = elim calls.mdp_socket [
  | none ↦ (minus_one, record sockets { mdp_sock = none })
  | some fd ↦
      let created = record sockets { opened = fd ∷ sockets.opened; mdp_sock = some fd } in
      if calls.mdp_binds
      then (pos 0, record created { mdp_poll_fd = some fd })
      else (minus_one, created)
]

-- The open descriptors when the one in a variable is closed.
abbrev pub close_in : SocketCalls → Option ℕ → List ℕ → List ℕ
close_in calls none opened = opened
close_in calls (some fd) opened = calls.mdp_close fd opened

unfoldable pub rpc_server_mdp_cleanup : SocketCalls → Sockets → Sockets
rpc_server_mdp_cleanup calls sockets = record sockets {
  opened = close_in calls sockets.mdp_sock sockets.opened;
}

unfoldable pub rpc_server_msp_setup : SocketCalls → Sockets → ℤ × Sockets
rpc_server_msp_setup calls sockets = elim calls.msp_socket [
  | none ↦ (minus_one, record sockets { mdp_fd_msp = none })
  | some fd ↦ (
    pos 0,
    record sockets { opened = fd ∷ sockets.opened; mdp_fd_msp = some fd; sock_msp = true },
  )
]

unfoldable pub rpc_server_msp_cleanup : SocketCalls → Sockets → Sockets
rpc_server_msp_cleanup calls sockets = record sockets {
  opened = close_in calls sockets.mdp_fd_msp sockets.opened;
  sock_msp = false;
}
