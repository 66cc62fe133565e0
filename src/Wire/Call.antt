-- ===== src/Wire/Call.antt =====
-- The call packet that `_rpc_client_prepare_call_payload` writes.
use dtn_rpc.Common.{
  ℕ, ◌+◌, ◌%◌, ◌≡◌, refl, ◌∙◌, [], ◌∷◌, ◌++◌, arith, Bytes, length, append_assoc, bit_and,
  bit_and_byte,
}
use dtn_rpc.Memory.{Filled-full, Filled-memcpy, Filled-fresh, fresh}
use dtn_rpc.Serval.{Words}
use dtn_rpc.Wire.{rpc_pkt_call, rpc_client_prepare_call_payload}

module _ (W : Words) where
  -- Type, requirements, number of parameters, name, parameters, terminator.
  abbrev pub call_packet : ℕ → ℕ → Bytes → Bytes → Bytes
  call_packet requirements paramc rpc_name flat_params =
      rpc_pkt_call
      ∷ (W.write_uint32 requirements ++ (paramc % 256) ∷ (rpc_name ++ (flat_params ++ 0 ∷ [])))

  -- In an array of exactly the size that the callers allocate, the client writes the whole packet:
  -- type, requirements, count, name, parameters and terminator; and nothing outside the array.
  pub rpc_client_prepare_call_payload_lem :
      (old : Bytes) (paramc : ℕ) (rpc_name flat_params : Bytes) (requirements : ℕ)
      → length old ≡ 1 + 4 + 1 + length rpc_name + length flat_params + 1
      → rpc_client_prepare_call_payload W (fresh old) paramc rpc_name flat_params requirements
        ≡ fresh (call_packet requirements paramc rpc_name flat_params)
  unfolding rpc_client_prepare_call_payload
  rpc_client_prepare_call_payload_lem old paramc rpc_name flat_params requirements size =
      let w = W.write_uint32 requirements in
      let n = length rpc_name in
      let m = length flat_params in
      let four = W.length-write_uint32 requirements in
      let c = bit_and (paramc % 65536 % 256) 255 in
      let count : c ≡ paramc % 256 = omega (arith, bit_and_byte (paramc % 65536 % 256)) in
      let start = Filled-fresh old {n = 7 + n + m} (omega arith) in
      let typed = Filled-memcpy (0 ∷ []) 1 (6 + n + m) start (omega arith) (omega arith) in
      let required = Filled-memcpy w 5 (2 + n + m) typed (omega arith) (omega arith) in
      let counted = Filled-memcpy (c ∷ []) 6 (1 + n + m) required (omega arith) (omega arith) in
      let named = Filled-memcpy rpc_name (6 + n) (1 + m) counted refl (omega arith) in
      let filled = Filled-memcpy flat_params (6 + n + m) 1 named refl (omega arith) in
      let full = Filled-memcpy (0 ∷ []) (7 + n + m) 0 filled (omega arith) (omega arith) in
      Filled-full full ∙ rw count (simp append_assoc)
