-- ===== src/RemoteCall/Lost.antt =====
-- A call over MDP whose client cannot be reached when the result is there: the code of
-- rpc_server_mdp.c, and what rpc_client_rhizome.c would take from the store.
use dtn_rpc.Common.{
  ℕ, ◌≤◌, ◌<◌, ◌≡◌, refl, sym, ap, ◌∙◌, ◌≢◌, inl, inr, false, some, List, [], ◌∷◌, ◌++◌, arith,
  Bool-cases, Bytes, codes, length, take, length-append,
}
use dtn_rpc.Common.Int.{ℤ, truth}
use dtn_rpc.System.{System, Effect}
use dtn_rpc.Result.{ok}
use dtn_rpc.CString.{str_eq}
use dtn_rpc.CString.Tokens.{join, IsToken}
use dtn_rpc.CString.Compare.{str_eq_iff, str_eq_refl}
use dtn_rpc.Serval.{Words, Sid, sid_broadcast, Sids}
use dtn_rpc.Rhizome.{hex_mine}
use dtn_rpc.Wire.Call.{call_packet}
use dtn_rpc.Reachable.{rpc_sid_is_reachable}
use dtn_rpc.Server.{mode_all}
use dtn_rpc.Server.Parse.Slots.{AreTokens}
use dtn_rpc.Server.Execute.Payload.{printed_payload}
use dtn_rpc.Server.Answer.{ack_payload}
use dtn_rpc.Server.Answer.Served.{IsServed}
use dtn_rpc.Server.SendResult.{result_manifest}
use dtn_rpc.Server.Mdp.{rpc_server_mdp_handle}
use dtn_rpc.Server.Mdp.Session.{caller_call, served_effects, rpc_server_mdp_handle_serves}
use dtn_rpc.RemoteCall.Packets.{packets_to}
use dtn_rpc.RemoteCall.Delayed.{postings}

append-cancel : (xs ys zs : Bytes) → xs ++ ys ≡ xs ++ zs → ys ≡ zs
append-cancel [] ys zs e = e
append-cancel (x ∷ xs) ys zs e = append-cancel xs ys zs cc

snoc-cancel : (x : ℕ) (xs ys : Bytes) → xs ++ x ∷ [] ≡ ys ++ x ∷ [] → xs ≡ ys
snoc-cancel x [] [] e = refl
snoc-cancel x [] (y ∷ ys) e = absurd (omega (arith, ap length e, length-append ys (x ∷ [])))
snoc-cancel x (y ∷ xs) [] e = absurd (omega (arith, ap length e, length-append xs (x ∷ [])))
snoc-cancel x (y ∷ xs) (z ∷ ys) e =
    let same : xs ≡ ys = snoc-cancel x xs ys cc in let head : y ≡ z = cc in cc

module _ (S : Sids) where
  tohex-injective :
      (a b : Sid)
      → length a ≡ 32
      → length b ≡ 32
      → S.alloca_tohex_sid_t a ≡ S.alloca_tohex_sid_t b
      → a ≡ b
  tohex-injective a b ha hb e =
      let ea = S.str_to_sid_t-tohex a ha in
      let eb = S.str_to_sid_t-tohex b hb in
      let same : some a ≡ some b = sym ea ∙ ap S.str_to_sid_t e ∙ eb in cc

  -- The manifests of results for two hosts are different.
  result_manifest-injective :
      (system : System) (a b : Sid) (name : Bytes)
      → length a ≡ 32
      → length b ≡ 32
      → result_manifest S system a name ≡ result_manifest S system b name
      → a ≡ b
  unfolding result_manifest
  result_manifest-injective system a b name ha hb e =
      let hex_a = S.alloca_tohex_sid_t a in
      let hex_b = S.alloca_tohex_sid_t b in
      let named = append-cancel (codes "service=RPC\nname=") _ _ e in
      let sent = append-cancel name _ _ named in
      let mine = append-cancel (codes "\nsender=") _ _ sent in
      let received = append-cancel (hex_mine S) _ _ mine in
      let hex = append-cancel (codes "\nrecipient=") _ _ received in
      tohex-injective a b ha hb (snoc-cancel 10 hex_a hex_b hex)

module _ (W : Words) (S : Sids) (system : System) (client_sid : Sid) (requirements : ℕ)
    (name first : Bytes) (others : List Bytes) (out : Bytes) where
  abbrev params : List Bytes
  params = first ∷ others

  abbrev pub packet : Bytes
  packet = call_packet W requirements (length params) name (join b'|' params)

  -- A call over MDP of an offered procedure whose first parameter is no file hash, and whose program runs
  -- with success and prints a first line that is not the path of a file, by a client that cannot be
  -- reached any more, on a server that serves all ways: the program is run, and the client is sent an
  -- ACK. The result is posted, but nothing is posted with the manifest that a result for the client
  -- has, since its recipient is SID_BROADCAST. The client is not SID_BROADCAST itself.
  pub mdp_result_lost :
      (code : ℤ) (effects : List Effect)
      → IsToken b'|' name
      → AreTokens params
      → length params < 256
      → length client_sid ≡ 32
      → client_sid ≢ sid_broadcast
      → length packet ≤ length system.uninit
      → (s : IsServed W S system
          (caller_call W S system mode_all client_sid requirements name params)
          first
          others
          out)
      → truth (rpc_sid_is_reachable S system client_sid) ≡ false
      → rpc_server_mdp_handle W S system mode_all
          (some (record { remote = client_sid; received = packet }))
          []
        ≡ ok (code, effects)
      → (packets_to client_sid effects ≡ ack_payload ∷ [])
        × ((postings (result_manifest S system client_sid name) effects ≡ [])
            × (postings (result_manifest S system sid_broadcast name) effects
                ≡ take 959 (printed_payload out).bytes ∷ []))
  mdp_result_lost code effects t ts few size other fits s away handled =
      let done =
        rpc_server_mdp_handle_serves W S system mode_all client_sid requirements name params first
          others out [] t ts few size fits s in
      let same : effects
          ≡ served_effects W S system mode_all client_sid requirements name params first others out
              [] =
        cc (sym handled ∙ done) in
      let broadcast = result_manifest S system sid_broadcast name in
      let own = result_manifest S system client_sid name in
      let differs : str_eq broadcast own ≡ false = elim (Bool-cases (str_eq broadcast own)) [
        | inl equal ↦ absurd (
            other (
              sym (
                result_manifest-injective S system sid_broadcast client_sid name refl size
                  ((str_eq_iff broadcast own).0 equal))))
        | inr distinct ↦ distinct
      ] in
      rw (same, away)
        (rw (str_eq_refl client_sid) refl, (rw differs refl, rw (str_eq_refl broadcast) refl))
