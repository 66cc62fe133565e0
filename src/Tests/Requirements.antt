-- ===== src/Tests/Requirements.antt =====
-- Requirements and file hashes: the code of rpc_client.c, rpc_server.c and rpc_helpers.c at concrete
-- inputs.
use dtn_rpc.Common.{
  ℕ, ◌≡◌, refl, ◌↔◌, true, List, [], ◌∷◌, map, arith, Bytes, length, replicate, All,
}
use dtn_rpc.Result.{ok}
use dtn_rpc.Filehash.{rpc_str_is_filehash, IsHex, rpc_str_is_filehash_iff}
use dtn_rpc.Common.Int.{pos}
use dtn_rpc.Requirements.{rpc_client_prepare_requirements, rpc_server_parse_requirements}
use dtn_rpc.Requirements.Pack.{IsNibble}
use dtn_rpc.Requirements.Unpack.{parse_requirements-prepare_requirements}
use dtn_rpc.Tests.Decide.{lacking-Lacks}

abbrev values : List ℕ
values = 1 ∷ 2 ∷ 3 ∷ 4 ∷ 5 ∷ 6 ∷ 7 ∷ 15 ∷ []

nibbles : All IsNibble values
nibbles = (
  omega arith,
  (
    omega arith,
    (omega arith, (omega arith, (omega arith, (omega arith, (omega arith, (omega arith, tt)))))),
  ),
)

parse_requirements-prepare_requirements_example :
    (r : ℕ) × (rpc_client_prepare_requirements (map pos values) ≡ ok r)
    × (rpc_server_parse_requirements r ≡ 15 ∷ 7 ∷ 6 ∷ 5 ∷ 4 ∷ 3 ∷ 2 ∷ 1 ∷ [])
parse_requirements-prepare_requirements_example =
    parse_requirements-prepare_requirements values refl nibbles

abbrev digits : Bytes
digits = replicate 128 b'F'

rpc_str_is_filehash_iff_example :
    (rpc_str_is_filehash digits ≡ true) ↔ ((length digits ≡ 128) × IsHex digits)
rpc_str_is_filehash_iff_example = rpc_str_is_filehash_iff digits (lacking-Lacks 0 digits refl)
