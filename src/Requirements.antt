-- ===== src/Requirements.antt =====
-- The eight 4-bit requirements of a call: `rpc_client_prepare_requirements` (rpc_client.c) packs them
-- into a `uint32_t`, `_rpc_server_parse_requirements` (rpc_server.c) unpacks them.
pub mod Pack
pub mod Unpack
use dtn_rpc.Common.{
  ℕ, zero, suc, ◌+◌, ◌-◌, ◌*◌, ◌/◌, ◌%◌, ◌^◌, bit_and, bit_or, Bool, true, ◌||◌, none, some, List,
  [], ◌∷◌, ltb, ◌==◌, if◌then◌else◌, get_elem?, set,
}
use dtn_rpc.Common.Int.{ℤ, pos, negsuc}
use dtn_rpc.Result.{Result, ok, ◌>>=◌, elem}

abbrev pub u32_mod : ℕ
u32_mod = 2 ^ 32

-- `v < 0 || v > 15`
unfoldable pub out_of_range : ℤ → Bool
out_of_range (pos n) = ltb 15 n
out_of_range (negsuc n) = true

-- An `int` that is used as a `uint32_t`.
to_u32 : ℤ → ℕ
to_u32 (pos n) = n % u32_mod
to_u32 (negsuc n) = u32_mod - 1 - n % u32_mod

-- The assignments of one round of the loop.
pack_pair : ℕ → ℕ → ℤ → ℤ → ℕ
unfolding to_u32
pack_pair i requirements high low =
    let with_high = bit_or requirements (to_u32 high) in
    let shifted = with_high * 16 % u32_mod in
    let with_low = bit_or shifted (to_u32 low) in
    if i + 1 == 7 then with_low else with_low * 16 % u32_mod

-- `for (i = 0; i < 7; i += 2)`, by the rounds that are left; a bad value ends it with 0.
pack_loop : ℕ → ℕ → List ℤ → ℕ → Result ℕ
pack_loop zero i values requirements = ok requirements
pack_loop (suc rounds) i values requirements = do
  high ← elem (get_elem? values i)
  low ← elem (get_elem? values (i + 1))
  let next = pack_loop rounds (i + 2) values (pack_pair i requirements high low)
  if out_of_range high || out_of_range low then ok 0 else next

unfoldable pub rpc_client_prepare_requirements : List ℤ → Result ℕ
unfolding out_of_range pack_pair pack_loop
rpc_client_prepare_requirements values = pack_loop 4 0 values 0

-- `for (i = 0; i < 8; i++)`: the entries from the lowest digit upwards.
unpack_loop : ℕ → ℕ → List ℕ
unpack_loop zero raw_copy = []
unpack_loop (suc rounds) raw_copy = bit_and raw_copy 15 ∷ unpack_loop rounds (raw_copy / 16)

abbrev entry : List ℕ → ℕ → ℕ
entry result i = elim (get_elem? result i) [ none ↦ 0 | some v ↦ v ]

-- `for (; i < j; i++, j--)`: swaps the entries at `i` and `j`. The difference of the two falls.
swap_loop : ℕ → ℕ → ℕ → List ℕ → List ℕ
swap_loop zero i j result = result
swap_loop (suc fuel) i j result =
    let next =
      swap_loop fuel (i + 1) (j - 1) (set (set result i (entry result j)) j (entry result i)) in
    if ltb i j then next else result

-- Both variables of the second loop start at 0.
unfoldable pub rpc_server_parse_requirements : ℕ → List ℕ
unfolding unpack_loop swap_loop
rpc_server_parse_requirements raw = swap_loop 8 0 0 (unpack_loop 8 raw)
