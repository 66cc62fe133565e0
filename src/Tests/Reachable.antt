-- ===== src/Tests/Reachable.antt =====
-- The routing table: the code of rpc_helpers.c at a concrete input.
use dtn_rpc.Common.{◌≡◌, false, [], ◌∷◌, ◌++◌, arith, replicate}
use dtn_rpc.Serval.Sample.{sample_sids}
use dtn_rpc.System.{Overlay}
use dtn_rpc.System.Sample.{sample_overlays}
use dtn_rpc.Reachable.{scan}
use dtn_rpc.Reachable.Found.{scan_rounds}

-- An entry with a key, and one that is cut off.
abbrev entries : Overlay
entries = record {
  rest = replicate 32 1 ++ (1 ∷ (replicate 32 9 ++ (2 ∷ 1 ∷ 1 ∷ [])));
  overrun = false;
}

scan_rounds_example :
    scan sample_sids sample_overlays (replicate 32 3) 68 entries
    ≡ scan sample_sids sample_overlays (replicate 32 3) 100 entries
scan_rounds_example =
    scan_rounds sample_sids sample_overlays (replicate 32 3) 68 100 entries (omega arith)
      (omega arith)
