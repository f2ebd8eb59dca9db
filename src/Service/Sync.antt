-- ===== src/Service/Sync.antt =====
-- Service.Sync, with syncProducts, syncCollections, waitForBulk and listThemes.
use xg_mangement.Base.{
  ℕ, zero, suc, ◌+◌, ◌-◌, String, Bool, true, not, Option, none, some, List, ◌⊎◌, inl, inr,
  if◌then◌else◌, ◌=ₛ◌, ltb,
}
use xg_mangement.Errors.{
  GoError, plain, deadline_exceeded, canceled, is_canceled, is_already_completed,
  is_already_running,
}
use xg_mangement.Sync.{
  SyncRequest, validate_request, mode_full, Product, Variant, Collection, Theme, MirrorBatch,
}
use xg_mangement.Store.{coalesce}
use xg_mangement.Bulk.{Body, Parser, bulk_error, decode_products_jsonl, decode_collections_jsonl}
use xg_mangement.Service.{
  Result, ok, failed, panicked, SyncTarget, BulkOperation, SyncRepository, World, sync_failure,
  themes_of, poll_of,
}
use xg_mangement.Service.Calls.{State, context_error, beats, call}
use xg_mangement.Service.Actions.{
  Settings, Sleeper, lift_error, products_bulk_query, collections_bulk_query, lift_sum, in_target,
  lifted, or_default, default_poll_interval, default_sync_timeout, Action, ◌>>=◌, pure, settled,
}

module _ {D : Type 0} (repo : SyncRepository D) (world : World D) (p : Parser) (c : Settings)
    (r : SyncRequest) where
  abbrev perform : {A : Type 0} → (Option GoError → ℕ → D → A × D) → State D → A × State D
  perform f = call repo r c.ticks world.elapsed f

  -- the error of a context that ends during a sleep
  abbrev end_error : Option ℕ → GoError
  end_error none = deadline_exceeded
  end_error (some _) = canceled

  -- sleepContext: the timer, or the end of the context
  abbrev pub sleep_context : ℕ → Action D (Unit {0})
  sleep_context interval before = elim (context_error before) [
    | some e ↦ (failed e, record before { calls = suc before.calls })
    | none ↦
        let stop : ℕ = coalesce before.canceled_at 0 in
        if ltb (interval + stop) before.left
        then (ok tt, record before { calls = suc before.calls; left = before.left - interval })
        else (
          failed (end_error before.canceled_at),
          record before { calls = suc before.calls; left = stop },
        )
  ]

  -- a call of the Sleeper
  abbrev pub sleep_with : Sleeper → ℕ → Action D (Unit {0})
  sleep_with sleeper interval before =
      let slept : Option GoError × ℕ = sleeper.sleep (context_error before) before.calls interval in
      (lift_error slept.0, record before { calls = suc before.calls; left = before.left - slept.1 })

  -- the sleep of waitForBulk
  unfoldable pub sleep : ℕ → Action D (Unit {0})
  sleep interval s =
      let before : State D = beats repo r (c.ticks s.calls) s in
      elim c.sleeper [
        | none ↦ sleep_context interval before
        | some sleeper ↦ sleep_with sleeper interval before
      ]

  -- waitForBulk; the first number bounds the polls
  unfoldable pub wait_for_bulk : ℕ → SyncTarget → String → BulkOperation → Action D BulkOperation
  wait_for_bulk zero target token op s =
      settled (poll_of op) (λ s1. (failed deadline_exceeded, s1)) s
  wait_for_bulk (suc more) target token op s =
      settled (poll_of op)
        (sleep (or_default c.poll_interval default_poll_interval) >>= (λ _.
          perform (λ e n. world.get_bulk_operation e n target token op.id)
          >>= (λ polled. wait_for_bulk more target token polled)))
        s

  -- sleepContext needs no more polls than time is left
  abbrev pub rounds : State D → ℕ
  rounds s = elim c.sleeper [ none ↦ suc s.left | some sleeper ↦ sleeper.rounds ]

  abbrev pub wait_until_done : SyncTarget → String → BulkOperation → Action D BulkOperation
  wait_until_done target token op s = wait_for_bulk (rounds s) target token op s

  -- StartBulkQuery, waitForBulk and DownloadJSONL, as in syncProducts and in syncCollections
  unfoldable pub bulk_body : SyncTarget → String → String → Action D Body
  bulk_body target token query = do
    started ← perform (λ e n. world.start_bulk_query e n target token query)
    op ← wait_until_done target token started
    perform (λ e n. world.download_jsonl e n op.url)

  -- syncProducts
  unfoldable pub sync_products : SyncTarget → String → Action D (List Product × List Variant)
  sync_products target token = do
    body ← bulk_body target token products_bulk_query
    pure (lift_sum (decode_products_jsonl p body))

  -- syncCollections
  unfoldable pub sync_collections : SyncTarget → String → Action D (List Collection)
  sync_collections target token = do
    body ← bulk_body target token collections_bulk_query
    pure (lift_sum (decode_collections_jsonl p body))

  -- listThemes
  unfoldable pub list_themes : SyncTarget → String → Action D (List Theme)
  list_themes target token = do
    nodes ← perform (λ e n. world.list_theme_nodes e n target token)
    pure (ok (themes_of nodes))

  abbrev pub batch_of : List Product × List Variant → List Collection → List Theme → MirrorBatch
  batch_of (products, variants) collections themes = record {
    products = products;
    variants = variants;
    collections = collections;
    themes = themes;
    synced_at = c.synced_at;
  }

  -- the last two calls under the lease
  abbrev pub store_batch : MirrorBatch → Action D (Unit {0})
  store_batch batch = do
    _ ← perform (λ e n d. lifted (repo.heartbeat_sync_run e r d))
    perform (λ e n d. lifted (repo.replace_mirror e r batch d))

  -- Sync between the start of the heartbeat and its end
  unfoldable pub synchronize : Action D (Unit {0})
  synchronize = do
    target ← perform (λ e n d. in_target (world.resolve_sync_target e n r d))
    token ← perform (λ e n. world.access_token e n r)
    products ← sync_products target token
    collections ← sync_collections target token
    themes ← list_themes target token
    store_batch (batch_of products collections themes)

  -- stopHeartbeat in the body and in its deferred call, then the recovery of a panic
  abbrev pub outcome : Result (Unit {0}) → Option GoError → Option GoError
  outcome (ok tt) lost = lost
  outcome (failed e) none = some e
  outcome (failed e) (some l) = some (if is_canceled e then l else e)
  outcome panicked lost = some (bulk_error "sync_panic" "Shopify synchronization panicked" true)

  -- the deferred call that records a failure
  abbrev pub record_outcome : Option GoError → D → Option GoError × D
  record_outcome none d = (none, d)
  record_outcome (some e) d =
      (some e, (repo.fail_sync_run r (sync_failure e).0 (sync_failure e).1 d).1)

  abbrev pub initial : D → State D
  initial d = record {
    db = d;
    lost = none;
    calls = 0;
    left = or_default c.timeout default_sync_timeout;
    canceled_at = c.canceled_at;
  }

  -- Sync after StartSyncRun has given the lease
  unfoldable pub run_leased : D → Option GoError × D
  run_leased d =
      let body : Result (Unit {0}) × State D = synchronize (initial d) in
      let stopped : State D = beats repo r (c.ticks body.1.calls) body.1 in
      record_outcome (outcome body.0 stopped.lost) stopped.db

module _ {D : Type 0} (repo : SyncRepository D) (world : World D) (p : Parser) (c : Settings) where
  -- an error of StartSyncRun
  abbrev pub start_outcome : GoError → Option GoError
  start_outcome e =
      if is_already_completed e
      then none
      else if is_already_running e
      then some
          (bulk_error "sync_already_running" "Shopify synchronization is already running" true)
      else some e

  -- the default mode
  abbrev pub with_mode : SyncRequest → SyncRequest
  with_mode r = if r.mode =ₛ "" then record r { mode = mode_full } else r

  abbrev pub leased : SyncRequest → String → SyncRequest
  leased r owner = record (with_mode r) { lease_owner = owner }

  abbrev pub after_start : SyncRequest → (GoError ⊎ String) × D → Option GoError × D
  after_start r (inl e, d) = (start_outcome e, d)
  after_start r (inr owner, d) = run_leased repo world p c (leased r owner) d

  -- Service.Sync; `configured` says that no collaborator is nil
  unfoldable pub sync : Bool → SyncRequest → D → Option GoError × D
  sync configured r d = elim (validate_request r) [
    | some e ↦ (some e, d)
    | none ↦
        if not configured
        then (some (plain "Shopify sync service is not configured"), d)
        else after_start r (repo.start_sync_run (with_mode r) d)
  ]
