-- ===== src/Reachable.antt =====
-- `_rpc_sid_is_reachable` of rpc_helpers.c: the search for a server in the routing table.
pub mod Found
use dtn_rpc.Common.{
  ℕ, zero, suc, bit_and, Bool, true, false, not, ◌&&◌, ◌||◌, Option, none, some, List, [], ◌∷◌,
  ◌==◌, if◌then◌else◌, Bytes, length,
}
use dtn_rpc.Common.Int.{ℤ, pos, negsuc, ◌==ℤ◌, minus_one}
use dtn_rpc.Serval.{Sid, Sids}
use dtn_rpc.System.{Overlay, Overlays, System}

-- REACHABLE_INDIRECT, REACHABLE_UNICAST, REACHABLE_BROADCAST or REACHABLE_SELF.
unfoldable pub is_route : ℤ → Bool
is_route (negsuc n) = false
is_route (pos n) = n == 8 || (n == 4 || (n == 2 || n == 1))

-- `id_flags & 1`
has_signing_key : ℤ → Bool
has_signing_key (pos n) = not (bit_and n 1 == 0)
has_signing_key (negsuc n) = true

is_negative : ℤ → Bool
is_negative (pos n) = false
is_negative (negsuc n) = true

module _ (S : Sids) (O : Overlays) (sid : Sid) where
  -- The end of a round: the byte behind the identity. `none` leaves the loop.
  read_route : Sid → Overlay → Option (Bool × Overlay)
  unfolding is_route is_negative
  read_route local_sid buff =
      let (reachable, left) = O.ob_get buff in
      if is_negative reachable
      then none
      else some (is_route reachable && (S.cmp_sid_t local_sid sid ==ℤ pos 0), left)

  -- Behind the key, if there is one.
  skip_key : ℤ → Overlay → Overlay
  unfolding has_signing_key
  skip_key id_flags buff = if has_signing_key id_flags then O.ob_skip O.identity_size buff else buff

  -- The part of a round behind the identifier.
  read_flags : Sid → Overlay → Option (Bool × Overlay)
  unfolding read_route skip_key is_negative
  read_flags local_sid buff =
      let (id_flags, behind_flags) = O.ob_get buff in
      if is_negative id_flags
      then none
      else if (skip_key id_flags behind_flags).overrun
      then none
      else read_route local_sid (skip_key id_flags behind_flags)

  -- A round of `while (ob_remaining(buff) > 0)`.
  read_entry : Overlay → Option (Bool × Overlay)
  unfolding read_flags
  read_entry buff = elim (O.ob_get_bytes_ptr 32 buff).0 [
    | none ↦ none
    | some local_sid ↦ read_flags local_sid (O.ob_get_bytes_ptr 32 buff).1
  ]

  -- The rounds on one packet, at most as many as the first argument says.
  unfoldable pub scan : ℕ → Overlay → Bool
  unfolding read_entry
  scan zero buff = false
  scan (suc rounds) buff =
      if length buff.rest == 0
      then false
      else elim (read_entry buff) [ none ↦ false | some (found, left) ↦ found || scan rounds left ]

  -- The packets of the routing table, until nothing comes; `none`: receiving failed.
  receive_routes : List (Option Bytes) → ℤ
  unfolding scan
  receive_routes [] = pos 0
  receive_routes (none ∷ packets) = pos 0
  receive_routes (some [] ∷ packets) = pos 0
  receive_routes (some (byte ∷ bytes) ∷ packets) =
      if scan (length (byte ∷ bytes)) (record { rest = byte ∷ bytes; overrun = false })
      then pos 1
      else receive_routes packets

unfoldable pub rpc_sid_is_reachable : Sids → System → Sid → ℤ
unfolding receive_routes
rpc_sid_is_reachable S system sid = elim system.routes [
  | none ↦ minus_one
  | some packets ↦ receive_routes S system.overlays sid packets
]
