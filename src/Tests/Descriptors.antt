-- ===== src/Tests/Descriptors.antt =====
-- Serval's functions on sockets, as concrete functions.
use dtn_rpc.Common.{ℕ, ◌≡◌, refl, ◌≢◌, true, false, some, List, [], ◌∷◌, arith, ◌==◌, if◌then◌else◌}
use dtn_rpc.Server.Sockets.{SocketCalls}

-- The first one that is the descriptor goes.
abbrev pub without : ℕ → List ℕ → List ℕ
without fd [] = []
without fd (other ∷ opened) = if other == fd then opened else other ∷ without fd opened

pub without-same : (fd : ℕ) (opened : List ℕ) → without fd (fd ∷ opened) ≡ opened
without-same fd opened = let same : (fd == fd) ≡ true = ground arith in rw same refl

pub without-other :
    (fd other : ℕ) (opened : List ℕ)
    → other ≢ fd
    → without fd (other ∷ opened) ≡ other ∷ without fd opened
without-other fd other opened ne =
    let differs : (other == fd) ≡ false = ground arith in rw differs refl

-- The sockets are descriptors 3 and 4.
abbrev pub both_sockets : SocketCalls
both_sockets = record {
  msp_socket = some 3;
  mdp_socket = some 4;
  mdp_binds = true;
  mdp_close = without;
  mdp_close-same = without-same;
  mdp_close-other = without-other;
}
