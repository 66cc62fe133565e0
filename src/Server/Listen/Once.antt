-- ===== src/Server/Listen/Once.antt =====
-- A server that listens to a store which holds a call for as long as it looks.
use dtn_rpc.Common.{
  ℕ, ◌≤◌, ◌≡◌, ap, ◌∙◌, Bool, true, false, ◌||◌, List, [], ◌∷◌, ◌++◌, if◌then◌else◌, Bytes, length,
  All,
}
use dtn_rpc.Common.Int.{ℤ, pos, ◌==ℤ◌, minus_one}
use dtn_rpc.System.{Bundle, Poll, System, Effect, Exec, pure}
use dtn_rpc.Result.{ok}
use dtn_rpc.Serval.{Words, Sid, Sids}
use dtn_rpc.System.Ensures.{bind_ok}
use dtn_rpc.Server.{mode_rhizome}
use dtn_rpc.Server.Answer.Served.{IsServed}
use dtn_rpc.Server.Rhizome.{
  rpc_server_rhizome_done, rpc_server_rhizome_finished, rpc_server_rhizome_process,
}
use dtn_rpc.Server.Rhizome.CallBundle.{IsCallBundle, call_of}
use dtn_rpc.Server.Rhizome.OnlyCall.{IsOnlyCall}
use dtn_rpc.Server.Rhizome.Session.{
  served_effects, rpc_server_rhizome_process_serves, rpc_server_rhizome_process_done, done-finished,
}
use dtn_rpc.Server.Listen.{ServerTick, ServerRun, serve_round, serve, rpc_server_listen_rhizome}

module _ (W : Words) (S : Sids) (system : System) (store : Poll) where
  -- A round that finds the store, with or without the signal to stop.
  pub record IsLook (signalled : Bool) (tick : ServerTick) : Type 0 where
    pub finds : tick.store ≡ store
    pub signal : tick.is_signalled ≡ signalled

  serve_round_look :
      (signalled : Bool) (tick : ServerTick) (done_calls done' : List Bytes)
      (trace trace' : List Effect)
      → IsLook signalled tick
      → rpc_server_rhizome_process W S system store done_calls trace ≡ ok ((pos 0, done'), trace')
      → serve_round W S system mode_rhizome tick done_calls trace
        ≡ ok ((if signalled then 1 else 0, done'), trace')
  unfolding serve_round
  serve_round_look signalled tick done_calls done' trace trace' look e =
      let finish : ℤ × List Bytes → Exec (ℕ × List Bytes) =
        λ (code, after). pure (if (code ==ℤ minus_one) || tick.is_signalled then 1 else 0, after) in
      bind_ok (rpc_server_rhizome_process W S system tick.store done_calls) finish {trace = trace}
        (ap (λ st. rpc_server_rhizome_process W S system st done_calls trace) look.finds ∙ e)
      ∙ ap (λ signal. ok ((if signal then 1 else 0, done'), trace')) look.signal

  -- The loop goes on behind a round.
  serve_next :
      (signalled : Bool) (tick : ServerTick) (ticks : List ServerTick)
      (done_calls done' : List Bytes) (trace trace' : List Effect)
      → IsLook signalled tick
      → rpc_server_rhizome_process W S system store done_calls trace ≡ ok ((pos 0, done'), trace')
      → serve W S system (tick ∷ ticks) 0 done_calls trace
        ≡ serve W S system ticks (if signalled then 1 else 0) done' trace'
  unfolding serve
  serve_next signalled tick ticks done_calls done' trace trace' look e =
      let next : ℕ × List Bytes → Exec (ℤ × List Bytes) =
        λ (running, after). serve W S system ticks running after in
      bind_ok (serve_round W S system mode_rhizome tick done_calls) next {trace = trace}
        (serve_round_look signalled tick done_calls done' trace trace' look e)

  -- Looks that change nothing, up to the signal.
  serve_idle :
      (ticks : List ServerTick) (last : ServerTick) (done_calls : List Bytes) (trace : List Effect)
      → All (IsLook false) ticks
      → IsLook true last
      → rpc_server_rhizome_process W S system store done_calls trace
        ≡ ok ((pos 0, done_calls), trace)
      → serve W S system (ticks ++ last ∷ []) 0 done_calls trace ≡ ok ((pos 0, done_calls), trace)
  unfolding serve
  serve_idle [] last done_calls trace looks signal idle =
      serve_next true last [] done_calls done_calls trace trace signal idle
  serve_idle (tick ∷ ticks) last done_calls trace (look, looks) signal idle =
      serve_next false tick (ticks ++ last ∷ []) done_calls done_calls trace trace look idle
      ∙ serve_idle ticks last done_calls trace looks signal idle

  -- A server listens to the store alone, in which the only bundle for it is a call of an offered
  -- procedure that is not done, whose first parameter is no file hash, and whose program runs with
  -- success and prints a first line that is not the path of a file: however often it looks at the
  -- store until the signal to stop comes, the call is served once, by the first look. The run ends
  -- with 0, and the call is entered as done.
  pub rpc_server_listen_rhizome_serves_once :
      (requirements : ℕ) (name : Bytes) (ps : List Bytes) (caller : Sid) (first : Bytes)
      (others : List Bytes) (out : Bytes) (net : ServerRun) (tick : ServerTick)
      (ticks : List ServerTick) (last : ServerTick) (file : Bundle) (done_calls : List Bytes)
      (trace : List Effect)
      → net.ticks ≡ tick ∷ ticks ++ last ∷ []
      → IsLook false tick
      → All (IsLook false) ticks
      → IsLook true last
      → IsOnlyCall W S system store file
      → IsCallBundle W S system requirements name ps store file caller
      → rpc_server_rhizome_done done_calls file.id ≡ false
      → IsServed W S system (call_of W S system requirements name ps caller) first others out
      → 958 ≤ length system.behind
      → rpc_server_listen_rhizome W S system net 0 done_calls trace
        ≡ ok (
          (pos 0, rpc_server_rhizome_finished done_calls file.id),
          served_effects W S system requirements name ps caller first others out trace,
        )
  unfolding rpc_server_listen_rhizome
  rpc_server_listen_rhizome_serves_once requirements name ps caller first others out net tick ticks
        last file done_calls trace rounds look looks signal only b new s long =
      let done' = rpc_server_rhizome_finished done_calls file.id in
      let trace' = served_effects W S system requirements name ps caller first others out trace in
      ap (λ rounds. serve W S system rounds 0 done_calls trace) rounds
      ∙ serve_next false tick (ticks ++ last ∷ []) done_calls done' trace trace' look (
          rpc_server_rhizome_process_serves W S system requirements name ps caller first others out
            store file done_calls trace only b new s long)
      ∙ serve_idle ticks last done' trace' looks signal (
          rpc_server_rhizome_process_done W S system requirements name ps caller first others out
            store file done' trace' only b (done-finished done_calls file.id))
