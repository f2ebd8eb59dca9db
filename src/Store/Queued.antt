-- ===== src/Store/Queued.antt =====
-- What enqueueSyncRunTx leaves behind: a run that will be worked on.
use xg_mangement.Base.{
  ℕ, String, ◌≡◌, refl, sym, ◌∙◌, Bool, true, false, ◌||◌, none, some, List, [], ◌∷◌, arith,
  if◌then◌else◌, ◌=ₛ◌, any, eq_refl, Bool-cases, Option-cases, inl, inr, ◌⊎◌,
}
use xg_mangement.Errors.{GoError, not_connected}
use xg_mangement.Jobs.{Codec}
use xg_mangement.Sync.{SyncRequest}
use xg_mangement.Store.Tables.{Run, count}
use xg_mangement.Store.Database.{Db}
use xg_mangement.Store.Runs.{active_in, holds, insert_run}
use xg_mangement.Store.Enqueue.{
  Fresh, enqueue_sync_run, queued_run, outbox_row, insert_outbox, is_connected,
}

-- No run has the fresh id or the job's id.
abbrev pub IsFree : Fresh → String → List Run → Type 0
IsFree fresh job_id runs =
    any
      (λ run.
        run.id =ₛ fresh.run_id || run.job_id =ₛ (if job_id =ₛ "" then fresh.job_id else job_id))
      runs
    ≡ false

-- All but the runs and the outbox is as it was.
pub record SameRest (before after : Db) : Type 0 where
  pub stores : after.stores ≡ before.stores
  pub events : after.events ≡ before.events
  pub accounts : after.accounts ≡ before.accounts
  pub mirrors : after.mirrors ≡ before.mirrors

count-any : {A : Type 0} (p : A → Bool) (xs : List A) → any p xs ≡ false → count p xs ≡ 0
count-any p [] h = refl
count-any p (x ∷ xs) h = ground (arith, count-any p xs)

module _ (codec : Codec) (now : ℕ) (fresh : Fresh) (o s job_id mode prefix : String) where
  -- the run that is queued
  abbrev new_run : Run
  new_run = queued_run now fresh o s none (if job_id =ₛ "" then fresh.job_id else job_id) mode

  -- The three ways through enqueueSyncRunTx.
  data Way (db : Db) (r : GoError ⊎ Db) : Type 0 where
    refused : (e : GoError) → r ≡ inl e → Way db r
    skipped : insert_run new_run db.runs ≡ none → r ≡ inr db → Way db r
    queued :
        (runs : List Run)
        → insert_run new_run db.runs ≡ some runs
        → r
          ≡ insert_outbox "enqueue Shopify sync outbox"
              (outbox_row codec now fresh prefix new_run)
              (record db { runs = runs })
        → Way db r

  enqueue_sync_run-cases :
      (db : Db) → Way db (enqueue_sync_run codec now fresh o s job_id mode prefix db)
  unfolding enqueue_sync_run
  enqueue_sync_run-cases db = elim (Bool-cases (any (is_connected o s) db.stores)) [
    | inr e ↦ refused not_connected (rw e)
    | inl e ↦ elim (Option-cases (insert_run new_run db.runs)) [
      | inl n ↦ skipped n (rw (e, n))
      | inr (runs, n) ↦ queued runs n (rw (e, n))
    ]
  ]

  insert_outbox-ok :
      (failure : String) (db db' : Db)
      → insert_outbox failure (outbox_row codec now fresh prefix new_run) db ≡ inr db'
      → record db { outbox = outbox_row codec now fresh prefix new_run ∷ db.outbox } ≡ db'
  insert_outbox-ok failure db db' h = ground arith

  insert_run-runs :
      (runs runs' : List Run) → insert_run new_run runs ≡ some runs' → new_run ∷ runs ≡ runs'
  insert_run-runs runs runs' h = ground arith

  inr_injective : {x y : Db} → ◌≡◌ {A = GoError ⊎ Db} (inr x) (inr y) → x ≡ y
  inr_injective q = cc

  -- Only the runs and the outbox change.
  pub enqueue_sync_run-SameRest :
      (db db' : Db)
      → enqueue_sync_run codec now fresh o s job_id mode prefix db ≡ inr db'
      → SameRest db db'
  enqueue_sync_run-SameRest db db' h = elim (enqueue_sync_run-cases db) [
    | refused e r ↦ let stuck = sym r ∙ h in cc stuck
    | skipped n r ↦
        let same : db ≡ db' = inr_injective (sym r ∙ h) in
        rw (← same) (record { stores = refl; events = refl; accounts = refl; mirrors = refl })
    | queued runs n r ↦
        let e =
          insert_outbox-ok "enqueue Shopify sync outbox" (record db { runs = runs }) db'
            (sym r ∙ h) in
        rw (← e) (record { stores = refl; events = refl; accounts = refl; mirrors = refl })
  ]

  -- If enqueueSyncRunTx returns no error and the ids that the database made up are new, the store
  -- has an active run.
  pub enqueue_sync_run-active :
      (db db' : Db)
      → IsFree fresh job_id db.runs
      → enqueue_sync_run codec now fresh o s job_id mode prefix db ≡ inr db'
      → any (active_in o s) db'.runs ≡ true
  enqueue_sync_run-active db db' free h = elim (enqueue_sync_run-cases db) [
    | refused e r ↦ let stuck = sym r ∙ h in cc stuck
    | skipped n r ↦ let same : db ≡ db' = inr_injective (sym r ∙ h) in rw (← same) (busy db n free)
    | queued runs n r ↦
        let e =
          insert_outbox-ok "enqueue Shopify sync outbox" (record db { runs = runs }) db'
            (sym r ∙ h) in
        rw (← e) (rw (← insert_run-runs db.runs runs n) (ground (arith, eq_refl o, eq_refl s)))
  ]
    where
      busy :
          (db : Db)
          → insert_run new_run db.runs ≡ none
          → IsFree fresh job_id db.runs
          → any (active_in o s) db.runs ≡ true
      busy db n free = elim (Bool-cases (any (active_in o s) db.runs)) [
        | inl e ↦ e
        | inr e ↦ ground (arith, count-any (active_in o s) db.runs e)
      ]

  -- A run that is queued is held by nobody.
  pub enqueue_sync_run-holds :
      (r : SyncRequest) (db db' : Db)
      → any (holds r) db.runs ≡ false
      → enqueue_sync_run codec now fresh o s job_id mode prefix db ≡ inr db'
      → any (holds r) db'.runs ≡ false
  enqueue_sync_run-holds r db db' free h = elim (enqueue_sync_run-cases db) [
    | refused e w ↦ let stuck = sym w ∙ h in cc stuck
    | skipped n w ↦ let same : db ≡ db' = inr_injective (sym w ∙ h) in rw (← same) free
    | queued runs n w ↦
        let e =
          insert_outbox-ok "enqueue Shopify sync outbox" (record db { runs = runs }) db'
            (sym w ∙ h) in
        rw (← e) (rw (← insert_run-runs db.runs runs n) (ground (arith, free)))
  ]
