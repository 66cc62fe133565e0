-- ===== src/Client/Rhizome/Looks.antt =====
-- The looks of the listener of rpc_client_rhizome.c at the store.
use dtn_rpc.Common.{
  ℕ, ◌≤◌, ◌≡◌, refl, sym, ap, ◌∙◌, false, some, List, [], ◌∷◌, ◌++◌, append-nil, arith, ltb, Bytes,
  length, All,
}
use dtn_rpc.Common.Int.{ℤ}
use dtn_rpc.System.{Bundle, Poll, System, Effect, Exec, pure}
use dtn_rpc.Result.{ok}
use dtn_rpc.Serval.{Words, Sid, Sids}
use dtn_rpc.System.Ensures.{bind_ok}
use dtn_rpc.Client.Rhizome.{
  StoreTick, Listener, Step, next_file, complete, abort, handle_file, handle_files, listen_loop,
}
use dtn_rpc.Client.Rhizome.Listing.{listening, IsOther, handle_file-other}

module _ (W : Words) (S : Sids) (system : System) (sid : Sid) (rpc_name : Bytes) where
  -- A look at bundles that are for others.
  pub record IsVain (limit : ℕ) (tick : StoreTick) : Type 0 where
    pub rows : List Bundle
    pub in_time : tick.elapsed ≤ limit
    pub finds : tick.store.bundles ≡ some rows
    pub all_other : All (IsOther W S system sid rpc_name) rows

  abbrev pub left : Poll → ℕ → ℕ → List Bundle → Step → Exec Step
  left store now n files step = elim step [
    | next_file l' ↦ handle_files W S system sid rpc_name store now n files l'
    | complete l' ↦ pure (complete l')
    | abort l' ↦ pure (abort l')
  ]

  -- Bundles for others leave their last token behind.
  pub handle_files-other :
      (store : Poll) (now : ℕ) (others files : List Bundle) (code : ℤ) (wait : ℕ) (token : Bytes)
      (trace : List Effect)
      → All (IsOther W S system sid rpc_name) others
      → (token' : Bytes) × (handle_files W S system sid rpc_name store now
            (length (others ++ files))
            (others ++ files)
            (listening code wait (some token))
            trace
          ≡ handle_files W S system sid rpc_name store now
              (length files)
              files
              (listening code wait (some token'))
              trace)
  unfolding handle_files
  handle_files-other store now [] files code wait token trace all = (token, refl)
  handle_files-other store now (other ∷ others) files code wait token trace (o, all) =
      let l = listening code wait (some token) in
      let (token', again) = handle_files-other store now others files code wait o.token trace all in
      (
        token',
        bind_ok (handle_file W S system sid rpc_name store now other l)
              (left store now (length (others ++ files)) (others ++ files)) {trace = trace}
              (handle_file-other W S system sid rpc_name store now other l trace o)
            ∙ again,
      )

  unfoldable pub after_look : List StoreTick → Step → Exec Listener
  after_look ticks step = elim step [
    | next_file l' ↦ listen_loop W S system sid rpc_name ticks l'
    | complete l' ↦ listen_loop W S system sid rpc_name ticks l'
    | abort l' ↦ pure l'
  ]

  -- A look in time.
  pub listen_loop-look :
      (tick : StoreTick) (ticks : List StoreTick) (rows : List Bundle) (code : ℤ) (wait : ℕ)
      (token : Bytes) (trace : List Effect) (step : Step)
      → tick.elapsed ≤ wait
      → tick.store.bundles ≡ some rows
      → handle_files W S system sid rpc_name tick.store tick.now
          (length rows)
          rows
          (listening code wait (some token))
          trace
        ≡ ok (step, trace)
      → listen_loop W S system sid rpc_name (tick ∷ ticks) (listening code wait (some token)) trace
        ≡ after_look ticks step trace
  unfolding listen_loop after_look
  listen_loop-look tick ticks rows code wait token trace step in_time finds ends =
      let early : ltb wait tick.elapsed ≡ false = ground arith in
      rw (early, finds)
        (bind_ok
          (handle_files W S system sid rpc_name tick.store tick.now (length rows) rows
            (listening code wait (some token)))
          (after_look ticks) {trace = trace} ends)

  -- Looks in vain.
  pub listen_loop-vain :
      (ticks later : List StoreTick) (code : ℤ) (wait : ℕ) (token : Bytes) (trace : List Effect)
      → All (IsVain wait) ticks
      → (token' : Bytes) × (listen_loop W S system sid rpc_name
            (ticks ++ later)
            (listening code wait (some token))
            trace
          ≡ listen_loop W S system sid rpc_name later (listening code wait (some token')) trace)
  unfolding after_look handle_files
  listen_loop-vain [] later code wait token trace all = (token, refl)
  listen_loop-vain (tick ∷ ticks) later code wait token trace (v, all) =
      let (token₁, passed) =
        handle_files-other tick.store tick.now v.rows [] code wait token trace v.all_other in
      let (token', again) = listen_loop-vain ticks later code wait token₁ trace all in
      (
        token',
        listen_loop-look tick (ticks ++ later) v.rows code wait token trace
              (next_file (listening code wait (some token₁))) v.in_time v.finds
              (ap
                  (λ rows.
                    handle_files W S system sid rpc_name tick.store tick.now (length rows) rows
                      (listening code wait (some token)) trace)
                  (sym (append-nil v.rows))
                ∙ passed)
            ∙ again,
      )
