-- ===== src/Service/Release.antt =====
-- What Sync leaves of the lease that it has taken, in service.go.
use xg_mangement.Base.{
  ℕ, zero, suc, ◌≡◌, ◌⊎◌, refl, ap, true, false, String, Option, none, some, inl, inr, arith,
  Option-cases,
}
use xg_mangement.Errors.{GoError}
use xg_mangement.Sync.{SyncRequest, MirrorBatch, validate_request}
use xg_mangement.Bulk.{Parser}
use xg_mangement.Service.{
  Result, ok, failed, panicked, SyncRepository, IsLeasing, World, sync_failure,
}
use xg_mangement.Service.Calls.{State, context_error, beat, beats, call}
use xg_mangement.Service.Actions.{Settings, Action, proceed, ◌>>=◌, lift_error}
use xg_mangement.Service.Sync.{
  store_batch, batch_of, synchronize, outcome, record_outcome, initial, run_leased, with_mode,
  leased, after_start, sync,
}

-- An action that ends well leaves the lease of a request free.
module _ {D : Type 0} (repo : SyncRepository D) (laws : IsLeasing repo) (r : SyncRequest) where
  abbrev Releases : {A : Type 0} → Action D A → Type 0
  Releases {A = A} m = (s : State D) (a : A) → (m s).0 ≡ ok a → laws.held r (m s).1.db ≡ false

  proceed-Releases :
      {A B : Type 0} (f : A → Action D B) (x : Result A) (s : State D) (b : B)
      → ((a : A) → Releases (f a))
      → (proceed f x s).0 ≡ ok b
      → laws.held r (proceed f x s).1.db ≡ false
  proceed-Releases f (ok a) s b h e = h a s b e
  proceed-Releases f (failed x) s b h e = cc
  proceed-Releases f panicked s b h e = cc

  then-Releases :
      {A B : Type 0} (m : Action D A) (f : A → Action D B)
      → ((a : A) → Releases (f a))
      → Releases (m >>= f)
  unfolding ◌>>=◌
  then-Releases m f h s b e = proceed-Releases f (m s).0 (m s).1 b h e

  -- ticks of the heartbeat give no lease back
  beat-held : (s : State D) → laws.held r s.db ≡ false → laws.held r (beat repo r s).db ≡ false
  unfolding beat
  beat-held s h = ground (arith, laws.heartbeat-held (context_error s) r s.db h)

  beats-held :
      (n : ℕ) (s : State D) → laws.held r s.db ≡ false → laws.held r (beats repo r n s).db ≡ false
  unfolding beats
  beats-held zero s h = h
  beats-held (suc n) s h = beats-held n (beat repo r s) (beat-held s h)

module _ {D : Type 0} (repo : SyncRepository D) (laws : IsLeasing repo) (world : World D)
    (p : Parser) (c : Settings) where
  -- the replacement of the mirror is the last call: when it succeeds, no run is running
  replaced-held :
      (r : SyncRequest) (canceled : Option GoError) (b : MirrorBatch) (d : D) (a : Unit {0})
      → lift_error (repo.replace_mirror canceled r b d).0 ≡ ok a
      → laws.held r (repo.replace_mirror canceled r b d).1 ≡ false
  replaced-held r canceled b d a e = elim (Option-cases (repo.replace_mirror canceled r b d).0) [
    | inl none_left ↦ laws.replace_mirror-held canceled r b d none_left
    | inr (x, left) ↦ cc (ap lift_error left, e)
  ]

  store_batch-Releases :
      (r : SyncRequest) (b : MirrorBatch) → Releases repo laws r (store_batch repo world p c r b)
  unfolding call
  store_batch-Releases r b = then-Releases repo laws r _ _ (λ _ s a e.
      replaced-held r (context_error (beats repo r (c.ticks s.calls) s)) b
        (beats repo r (c.ticks s.calls) s).db a e)

  synchronize-Releases : (r : SyncRequest) → Releases repo laws r (synchronize repo world p c r)
  unfolding synchronize
  synchronize-Releases r = then-Releases repo laws r _ _ (λ target.
      then-Releases repo laws r _ _ (λ token. then-Releases repo laws r _ _ (λ products.
        then-Releases repo laws r _ _ (λ collections. then-Releases repo laws r _ _ (λ themes.
          store_batch-Releases r (batch_of repo world p c r products collections themes))))))

  -- What Sync returns with the state that it leaves: without an error the lease of the request is
  -- free; with one the last act was to record the failure, which has freed the lease unless
  -- FailSyncRun itself has failed.
  abbrev pub Released : SyncRequest → Option GoError × D → Type 0
  Released r (none, d) = laws.held r d ≡ false
  Released r (some e, d) =
      (before : D) × (d ≡ (repo.fail_sync_run r (sync_failure e).0 (sync_failure e).1 before).1)
      × ((laws.held r d ≡ false)
          ⊎ ((x : GoError) × ((repo.fail_sync_run r (sync_failure e).0 (sync_failure e).1 before).0
                ≡ some x)))

  record_outcome-Released :
      (r : SyncRequest) (returned : Option GoError) (d : D)
      → (returned ≡ none → laws.held r d ≡ false)
      → Released r (record_outcome repo world p c r returned d)
  record_outcome-Released r none d free = free refl
  record_outcome-Released r (some e) d free = (
    d,
    refl,
    elim (Option-cases (repo.fail_sync_run r (sync_failure e).0 (sync_failure e).1 d).0) [
      | inl fine ↦ inl (laws.fail_sync_run-held r (sync_failure e).0 (sync_failure e).1 d fine)
      | inr refused ↦ inr refused
    ],
  )

  outcome-ok :
      (r : SyncRequest) (result : Result (Unit {0})) (lost : Option GoError)
      → outcome repo world p c r result lost ≡ none
      → result ≡ ok tt
  outcome-ok r (ok tt) lost e = refl
  outcome-ok r (failed x) none e = cc
  outcome-ok r (failed x) (some l) e = cc
  outcome-ok r panicked lost e = cc

  run_leased-Released : (r : SyncRequest) (d : D) → Released r (run_leased repo world p c r d)
  unfolding run_leased
  run_leased-Released r d =
      let body : Result (Unit {0}) × State D =
        synchronize repo world p c r (initial repo world p c r d) in
      let stopped : State D = beats repo r (c.ticks body.1.calls) body.1 in
      record_outcome-Released r (outcome repo world p c r body.0 stopped.lost) stopped.db (λ e.
        beats-held repo laws r (c.ticks body.1.calls) body.1 (
          synchronize-Releases r (initial repo world p c r d) tt
            (outcome-ok r body.0 stopped.lost e)))

  sync-started :
      (r : SyncRequest) (d held : D) (owner : String)
      → validate_request r ≡ none
      → repo.start_sync_run (with_mode repo world p c r) d ≡ (inr owner, held)
      → sync repo world p c true r d
        ≡ run_leased repo world p c (leased repo world p c r owner) held
  unfolding sync
  sync-started r d held owner valid started =
      rw (valid, sync) (ap (after_start repo world p c r) started)

  -- what Sync leaves, for any repository with these laws
  pub sync-Released :
      (r : SyncRequest) (d held : D) (owner : String)
      → validate_request r ≡ none
      → repo.start_sync_run (with_mode repo world p c r) d ≡ (inr owner, held)
      → Released (leased repo world p c r owner) (sync repo world p c true r d)
  sync-Released r d held owner valid started =
      rw (sync-started r d held owner valid started)
        (run_leased-Released (leased repo world p c r owner) held)
