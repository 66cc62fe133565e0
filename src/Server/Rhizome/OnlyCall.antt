-- ===== src/Server/Rhizome/OnlyCall.antt =====
-- A store in which one bundle is for this server: a look of `_rpc_server_rhizome_process` at it.
use dtn_rpc.Common.{
  append-nil, sym, All, ◌≡◌, refl, ap, ◌∙◌, true, false, Option, some, List, [], ◌∷◌, ◌++◌, arith,
  if◌then◌else◌, Bytes,
}
use dtn_rpc.Common.Int.{ℤ, pos, minus_one}
use dtn_rpc.System.{Bundle, Poll, System, Effect, Exec, pure, lift}
use dtn_rpc.Result.{ok, deref}
use dtn_rpc.Serval.{Words, Sids}
use dtn_rpc.Common.{
  ◌≡◌, refl, ap, ◌∙◌, true, false, Option, some, List, [], ◌∷◌, ◌++◌, arith, if◌then◌else◌, Bytes,
}
use dtn_rpc.Common.Int.{ℤ, pos, minus_one}
use dtn_rpc.Serval.{Words, Sids}
use dtn_rpc.Result.{ok, deref}
use dtn_rpc.Rhizome.{is_for_me}
use dtn_rpc.System.{System, Bundle, Poll, Effect, Exec, pure, lift}
use dtn_rpc.System.Ensures.{bind_ok}
use dtn_rpc.Server.Rhizome.{
  leave, Round, continue, is_interesting, fetch, round, process_files, list_files,
  rpc_server_rhizome_process,
}

module _ (W : Words) (S : Sids) (system : System) (store : Poll) where
  -- A bundle that another server or a client is meant to have.
  pub record IsForeign (file : Bundle) : Type 0 where
    pub service : Bytes
    pub has_service : file.service ≡ some service
    pub not_for_me : is_for_me S file.recipient ≡ false

  not_interested :
      (file : Bundle) (done_calls : List Bytes)
      → (b : IsForeign file) → is_interesting W S system done_calls file b.service ≡ false
  unfolding is_interesting
  not_interested file done_calls b = let other = b.not_for_me in ground arith

  round_foreign :
      (file : Bundle) (code : ℤ) (done_calls : List Bytes) (trace : List Effect)
      → IsForeign file
      → round W S system store file code done_calls trace ≡ ok (continue code done_calls, trace)
  unfolding round
  round_foreign file code done_calls trace b =
      let serves : Bytes → Exec Round = λ service.
        if is_interesting W S system done_calls file service
        then fetch W S system store file code done_calls
        else pure (continue code done_calls) in
      let read : lift (deref file.service) trace ≡ ok (b.service, trace) = rw b.has_service refl in
      bind_ok (lift (deref file.service)) serves {trace = trace} read
      ∙ rw (not_interested file done_calls b) refl

  abbrev files_left : List Bundle → Round → Exec (ℤ × List Bytes)
  files_left files end = elim end [
    | continue code' done' ↦ process_files W S system store files code' done'
    | leave done' ↦ pure (minus_one, done')
  ]

  process_files-foreign :
      (others files : List Bundle) (code : ℤ) (done_calls : List Bytes) (trace : List Effect)
      → All IsForeign others
      → process_files W S system store (others ++ files) code done_calls trace
        ≡ process_files W S system store files code done_calls trace
  unfolding process_files
  process_files-foreign [] files code done_calls trace all = refl
  process_files-foreign (other ∷ others) files code done_calls trace (b, all) =
      bind_ok (round W S system store other code done_calls) (files_left (others ++ files))
        {trace = trace} (round_foreign other code done_calls trace b)
      ∙ process_files-foreign others files code done_calls trace all

  list_files-append :
      (before after : List Bundle) (file : Bundle) (done_calls : List Bytes)
      → list_files W S system store (some (before ++ file ∷ after)) done_calls
        ≡ process_files W S system store (before ++ file ∷ after) (pos 0) done_calls
  unfolding list_files
  list_files-append [] after file done_calls = refl
  list_files-append (other ∷ before) after file done_calls = refl

  -- The store holds the bundle, and others that are not for this server.
  pub record IsOnlyCall (file : Bundle) : Type 0 where
    pub before : List Bundle
    pub after : List Bundle
    pub handle : store.handle ≡ true
    pub bundles : store.bundles ≡ some (before ++ file ∷ after)
    pub foreign_before : All IsForeign before
    pub foreign_after : All IsForeign after

  -- A look at such a store is the round for the bundle.
  pub rpc_server_rhizome_process_one :
      (file : Bundle) (code : ℤ) (done_calls done' : List Bytes) (trace trace' : List Effect)
      → IsOnlyCall file
      → round W S system store file (pos 0) done_calls trace ≡ ok (continue code done', trace')
      → rpc_server_rhizome_process W S system store done_calls trace ≡ ok ((code, done'), trace')
  unfolding rpc_server_rhizome_process process_files
  rpc_server_rhizome_process_one file code done_calls done' trace trace' o ends =
      let listed : Option (List Bundle) → Exec (ℤ × List Bytes) =
        λ bundles. list_files W S system store bundles done_calls in
      ap
        (λ open_handle.
          (if open_handle then listed store.bundles else pure (minus_one, done_calls)) trace)
        o.handle
      ∙ ap (λ bundles. listed bundles trace) o.bundles
      ∙ ap (λ (m : Exec (ℤ × List Bytes)). m trace)
          (list_files-append o.before o.after file done_calls)
      ∙ process_files-foreign o.before (file ∷ o.after) (pos 0) done_calls trace o.foreign_before
      ∙ bind_ok (round W S system store file (pos 0) done_calls) (files_left o.after)
          {trace = trace} ends
      ∙ (sym (
            ap (λ files. process_files W S system store files code done' trace')
              (append-nil o.after))
          ∙ process_files-foreign o.after [] code done' trace' o.foreign_after)
