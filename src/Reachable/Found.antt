-- ===== src/Reachable/Found.antt =====
-- The scan of a packet of the routing table.
use dtn_rpc.Common.{
  ℕ, zero, suc, ◌+◌, ◌≤◌, ◌≡◌, refl, sym, inl, inr, Bool, true, false, some, arith, ◌==◌,
  Bool-cases, Option-cases, length,
}
use dtn_rpc.Common.Int.{ℤ, pos, negsuc}
use dtn_rpc.Serval.{Sid, Sids}
use dtn_rpc.System.{Overlay, Overlays}
use dtn_rpc.Reachable.{
  skip_key, read_flags, is_negative, has_signing_key, read_route, read_entry, scan,
}

module _ (S : Sids) (O : Overlays) (sid : Sid) where
  not_negative : (n : ℤ) → is_negative n ≡ false → (k : ℕ) × (n ≡ pos k)
  unfolding is_negative
  not_negative (pos k) h = (k, refl)
  not_negative (negsuc k) h = cc

  read_route_shorter :
      (local_sid : Sid) (buff left : Overlay) (found : Bool)
      → read_route S O sid local_sid buff ≡ some (found, left)
      → length left.rest + 1 ≤ length buff.rest
  unfolding read_route
  read_route_shorter local_sid buff left found h =
      elim (Bool-cases (is_negative (O.ob_get buff).0)) [
        | inl negative ↦ ground arith
        | inr positive ↦
            let (k, is_pos) = not_negative (O.ob_get buff).0 positive in
            let shorter = O.length-ob_get buff k is_pos in ground (arith, shorter)
      ]

  length-skip_key :
      (id_flags : ℤ) (buff : Overlay)
      → length (skip_key S O sid id_flags buff).rest ≤ length buff.rest
  unfolding skip_key
  length-skip_key id_flags buff = elim (Bool-cases (has_signing_key id_flags)) [
    | inl key ↦ rw key (O.length-ob_skip O.identity_size buff)
    | inr plain ↦ rw plain (omega arith)
  ]

  read_flags_shorter :
      (local_sid : Sid) (buff left : Overlay) (found : Bool)
      → read_flags S O sid local_sid buff ≡ some (found, left)
      → length left.rest + 1 ≤ length buff.rest
  unfolding read_flags
  read_flags_shorter local_sid buff left found h =
      elim (Bool-cases (is_negative (O.ob_get buff).0)) [
        | inl negative ↦ ground arith
        | inr positive ↦
            let (k, is_pos) = not_negative (O.ob_get buff).0 positive in
            let shorter = O.length-ob_get buff k is_pos in
            let skipped = length-skip_key (O.ob_get buff).0 (O.ob_get buff).1 in
            let read =
              read_route_shorter local_sid (skip_key S O sid (O.ob_get buff).0 (O.ob_get buff).1)
                left found in
            elim (Bool-cases (skip_key S O sid (O.ob_get buff).0 (O.ob_get buff).1).overrun) [
              | inl over ↦ ground arith
              | inr inside ↦ ground (arith, shorter, skipped, read)
            ]
      ]

  read_entry_shorter :
      (buff left : Overlay) (found : Bool)
      → read_entry S O sid buff ≡ some (found, left)
      → length left.rest + 1 ≤ length buff.rest
  unfolding read_entry
  read_entry_shorter buff left found h = elim (Option-cases (O.ob_get_bytes_ptr 32 buff).0) [
    | inl nothing ↦ ground arith
    | inr (local_sid, e) ↦
        let shorter = O.length-ob_get_bytes_ptr 32 buff in
        let read = read_flags_shorter local_sid (O.ob_get_bytes_ptr 32 buff).1 left found in
        ground (arith, shorter, read)
  ]

  scan_empty :
      (rounds : ℕ) (buff : Overlay) → length buff.rest ≡ 0 → scan S O sid rounds buff ≡ false
  unfolding scan
  scan_empty zero buff e = refl
  scan_empty (suc rounds) buff e =
      let empty : (length buff.rest == 0) ≡ true = ground arith in rw empty refl

  -- With as many rounds as the buffer has bytes, or more, the scan of a packet gives the same answer,
  -- whatever it holds: the bound on the rounds never cuts the loop short.
  pub scan_rounds :
      (rounds more : ℕ) (buff : Overlay)
      → length buff.rest ≤ rounds
      → length buff.rest ≤ more
      → scan S O sid rounds buff ≡ scan S O sid more buff
  unfolding scan
  scan_rounds zero more buff enough also = sym (scan_empty more buff (omega arith))
  scan_rounds (suc rounds) zero buff enough also = scan_empty (suc rounds) buff (omega arith)
  scan_rounds (suc rounds) (suc more) buff enough also =
      elim (Option-cases (read_entry S O sid buff)) [
        | inl e ↦ rw e refl
        | inr ((found, left), e) ↦
            let shorter = read_entry_shorter buff left found e in
            rw (e, scan_rounds rounds more left (omega (arith, shorter)) (omega (arith, shorter)))
              refl
      ]
