-- ===== src/Client/Codes.antt =====
-- The return codes of the calls.
use dtn_rpc.Common.Int.{ℤ, pos, minus_one}

-- A call that is over: it failed, or there is a result.
pub data IsFinal : ℤ → Type 0 where
  failed : IsFinal minus_one
  answered : IsFinal (pos 2)

-- What `received` and a direct call can be: also that nothing came, or only an ACK.
pub data IsCode : ℤ → Type 0 where
  final : {code : ℤ} → IsFinal code → IsCode code
  lost : IsCode (pos 0)
  late : IsCode (pos 1)
