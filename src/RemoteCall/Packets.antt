-- ===== src/RemoteCall/Packets.antt =====
-- The packets of a call between two hosts, and the text of its result.
use dtn_rpc.Common.{
  ℕ, suc, ◌+◌, ◌-◌, ◌≡◌, ap, ◌∙◌, List, [], ◌∷◌, ◌++◌, append_assoc, arith, if◌then◌else◌, Bytes,
  length, drop, replicate, length-append, length-replicate, Lacks,
}
use dtn_rpc.System.{Effect, mdp_send}
use dtn_rpc.Result.{ok}
use dtn_rpc.CString.{c_string, str_eq}
use dtn_rpc.CString.Tokens.{c_string-append}
use dtn_rpc.Serval.{Sid}
use dtn_rpc.Common.{append-replicate-snoc}
use dtn_rpc.Server.Execute.{line_of}
use dtn_rpc.Server.Execute.Payload.{length-line_of}
use dtn_rpc.Client.Answers.Direct.{stored}

-- The packets that a host sends to one other over MDP, in their order.
abbrev pub packets_to : Sid → List Effect → List Bytes
packets_to sid [] = []
packets_to sid (mdp_send to payload ∷ effects) =
    let later = packets_to sid effects in if str_eq to sid then payload ∷ later else later
packets_to sid (_ ∷ effects) = packets_to sid effects

abbrev pub zeros : ℕ → Bytes
zeros n = replicate n 0

-- The bytes of a result packet behind its type.
abbrev pub result_body : Bytes → Bytes
result_body out = let line = line_of 958 out in line ++ zeros (959 - length line)

pub length-result_body : (out : Bytes) → length (result_body out) ≡ 959
length-result_body out =
    let line = line_of 958 out in
    omega (
      arith,
      length-line_of 958 out,
      length-append line (zeros (959 - length line)),
      length-replicate {A = ℕ} (959 - length line) 0,
    )

-- In the table the line stands in front of zeros.
pub stored-result_body :
    (out : Bytes)
    → let line = line_of 958 out in stored (result_body out) ≡ line ++ zeros (960 - length line)
stored-result_body out =
    let line = line_of 958 out in
    let size = length-result_body out in
    let count : 959 - length line + 1 ≡ 960 - length line = omega (arith, length-line_of 958 out) in
    ap (λ n. result_body out ++ drop n (zeros 960)) size
    ∙ append-replicate-snoc line (959 - length line) 0
    ∙ ap (λ n. line ++ zeros n) count

-- The client reads the line as a string.
pub c_string-result_body :
    (out rest : Bytes)
    → Lacks 0 (line_of 958 out)
    → c_string (result_body out ++ rest) ≡ ok (line_of 958 out)
c_string-result_body out rest clean =
    let line = line_of 958 out in
    let count : 959 - length line ≡ suc (958 - length line) =
      omega (arith, length-line_of 958 out) in
    ap (λ n. c_string ((line ++ zeros n) ++ rest)) count
    ∙ ap c_string (append_assoc line (zeros (suc (958 - length line))) rest)
    ∙ c_string-append line (zeros (958 - length line) ++ rest) clean
