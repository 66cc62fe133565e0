-- ===== src/Tests/Decide.antt =====
-- Decisions for the hypotheses of the tests.
use dtn_rpc.Common.{ℕ, ◌≡◌, Bool, true, not, ◌&&◌, [], ◌∷◌, arith, ◌==◌, Bytes, Lacks}
use dtn_rpc.CString.Tokens.{IsToken}

abbrev pub lacking : ℕ → Bytes → Bool
lacking b [] = true
lacking b (c ∷ s) = not (c == b) && lacking b s

pub lacking-Lacks : (b : ℕ) (s : Bytes) → lacking b s ≡ true → Lacks b s
lacking-Lacks b [] h = tt
lacking-Lacks b (c ∷ s) h = (ground arith, lacking-Lacks b s (ground arith))

pub is_token :
    (d c : ℕ) (t : Bytes) → lacking d (c ∷ t) ≡ true → lacking 0 (c ∷ t) ≡ true → IsToken d (c ∷ t)
is_token d c t h k = record {
  ne_nil = cc;
  no_delimiter = lacking-Lacks d (c ∷ t) h;
  no_terminator = lacking-Lacks 0 (c ∷ t) k;
}
