-- ===== src/Store/Request.antt =====
-- From CreateSyncRun to the worker: what becomes of a request for a synchronisation.
use xg_mangement.Base.{
  ℕ, String, ◌≡◌, refl, ◌∙◌, ap, true, false, Option, none, some, ◌∷◌, arith, ◌=ₛ◌, ◌==◌, any,
  Bool-cases, Option-cases, ⊎-cases, inl, inr, ◌⊎◌, eq_iff, is_blank, trim_space, ltb,
}
use xg_mangement.Errors.{GoError, ◌⁀◌}
use xg_mangement.Jobs.{Codec, validate, year_10000}
use xg_mangement.Queue.{Message, Channel, job_message, client_publish, delivery_envelope}
use xg_mangement.Sync.{
  SyncRequest, validate_request, handle, classified, Outcome, mode_full, mode_incremental,
}
use xg_mangement.Store.Tables.{queued, Run}
use xg_mangement.Store.Database.{Db, transact}
use xg_mangement.Store.Runs.{insert_run}
use xg_mangement.Store.Enqueue.{
  Fresh, queued_run, payload_fields, run_envelope, outbox_row, create_body, create_sync_run,
  is_connected,
}

-- the request that the worker makes of a run's job
abbrev pub request_of : Run → SyncRequest
request_of run = record {
  organization_id = run.organization_id;
  store_id = run.store_id;
  run_id = run.id;
  mode = run.mode;
  lease_owner = "";
}

-- A run whose job a worker can handle.
pub record IsSound (run : Run) : Type 0 where
  pub organization : is_blank run.organization_id ≡ false
  pub store : is_blank run.store_id ≡ false
  pub id : is_blank run.id ≡ false
  pub job : (run.job_id =ₛ "") ≡ false
  pub created : (run.created_at == 0) ≡ false
  pub dated : ltb run.created_at year_10000 ≡ true
  pub mode : (run.mode ≡ mode_full) ⊎ (run.mode ≡ mode_incremental)

filled : (s : String) → is_blank s ≡ false → (s =ₛ "") ≡ false
unfolding trim_space
filled s h = elim (Bool-cases (s =ₛ "")) [
  | inr e ↦ e
  | inl e ↦ let wrong : is_blank "" ≡ false = rw ((eq_iff s "").0 e) at h in cc wrong
]

module _ (codec : Codec) (run : Run) (sound : IsSound run) where
  validates : validate codec.valid (run_envelope codec run) ≡ none
  unfolding validate
  validates = ground (
    arith,
    codec.encode_object-valid (payload_fields run),
    codec.encode_object-filled (payload_fields run),
    filled run.organization_id sound.organization,
    sound.job,
    sound.created,
  )

  request-validates : validate_request (request_of run) ≡ none
  unfolding validate_request
  request-validates = elim sound.mode [
    | inl m ↦ rw m (ground (arith, sound.organization, sound.store, sound.id))
    | inr m ↦ rw m (ground (arith, sound.organization, sound.store, sound.id))
  ]

  -- what the consumer reads is the envelope itself, since its payload is compact
  decoded : codec.decode (codec.encode (run_envelope codec run)) ≡ some (run_envelope codec run)
  decoded =
      codec.decode-encode (run_envelope codec run) (codec.encode_object-valid (payload_fields run))
      ∙ ap (λ text. some (record (run_envelope codec run) { payload = text }))
          (codec.compact-encode_object (payload_fields run))

  -- The job of a sound run comes through: the message that the outbox publishes for it is accepted
  -- by the consumer as the same envelope, and the handler makes exactly that run's request of the
  -- syncer.
  pub run_envelope-handled :
      (channel : Channel) (sync : SyncRequest → Outcome)
      → ((m : Message codec.Body) × ((client_publish codec (run_envelope codec run) channel).0
            ≡ some m)
          × (delivery_envelope codec m ≡ inr (run_envelope codec run)))
        × (handle codec (some sync) (run_envelope codec run) ≡ classified (sync (request_of run)))
  unfolding client_publish delivery_envelope handle
  run_envelope-handled channel sync = (
    (
      job_message codec (run_envelope codec run),
      rw (
        validates,
        codec.encode_error-none (run_envelope codec run)
            (codec.encode_object-valid (payload_fields run)) sound.dated,
        client_publish,
      ),
      rw (decoded, validates, delivery_envelope),
    ),
    rw (codec.decode_strings-encode_object (payload_fields run) refl, request-validates, handle),
  )

-- The values that the database makes up, and the request's ids, are not blank.
pub record IsGiven (now : ℕ) (fresh : Fresh) (o s : String) : Type 0 where
  pub organization : is_blank o ≡ false
  pub store : is_blank s ≡ false
  pub run_id : is_blank fresh.run_id ≡ false
  pub job_id : (fresh.job_id =ₛ "") ≡ false
  pub time : (now == 0) ≡ false
  pub dated : ltb now year_10000 ≡ true

module _ (codec : Codec) (now : ℕ) (fresh : Fresh) (o s user : String) where
  -- the database after the request
  abbrev pub requested : Run → Db → Db
  requested run db = record db {
    runs = run ∷ db.runs;
    outbox = outbox_row codec now fresh "shopify-sync:" run ∷ db.outbox;
  }

  create_body-ok :
      (mode : String) (db db' : Db) (run : Run)
      → create_body codec now fresh o s user mode db ≡ inr (run, db')
      → (queued_run now fresh o s (some user) fresh.job_id mode ≡ run)
        × (requested (queued_run now fresh o s (some user) fresh.job_id mode) db ≡ db')
        × (any (is_connected o s) db.stores ≡ true)
  unfolding create_body
  create_body-ok mode db db' run h =
      let new : Run = queued_run now fresh o s (some user) fresh.job_id mode in
      elim (Bool-cases (any (is_connected o s) db.stores)) [
        | inr c ↦ let stuck = rw (c, create_body) at h in cc stuck
        | inl c ↦ elim (Option-cases (insert_run new db.runs)) [
          | inl n ↦ let stuck = rw (c, n, create_body) at h in cc stuck
          | inr (runs, n) ↦
              elim (Bool-cases
                (any (λ other. other.event_key =ₛ "shopify-sync:" ⁀ fresh.run_id) db.outbox)) [
                  | inl k ↦ let stuck = rw (c, n, k, create_body) at h in cc stuck
                  | inr k ↦
                      let done = pair_injective (rw (c, n, k, create_body) at h) in
                      let e : new ∷ db.runs ≡ runs = ground arith in
                      (
                        ap (λ p. p.0) done,
                        ap
                              (λ rs. record db {
                                runs = rs;
                                outbox = outbox_row codec now fresh "shopify-sync:" new ∷ db.outbox;
                              })
                              e
                            ∙ ap (λ p. p.1) done,
                        c,
                      )
                ]
        ]
      ]
    where
      pair_injective : {x y : Run × Db} → ◌≡◌ {A = GoError ⊎ (Run × Db)} (inr x) (inr y) → x ≡ y
      pair_injective q = cc

  IsSound-queued :
      (mode : String)
      → IsGiven now fresh o s
      → (mode ≡ mode_full) ⊎ (mode ≡ mode_incremental)
      → IsSound (queued_run now fresh o s (some user) fresh.job_id mode)
  IsSound-queued mode given good = record {
    organization = given.organization;
    store = given.store;
    id = given.run_id;
    job = given.job_id;
    created = given.time;
    dated = given.dated;
    mode = good;
  }

  commits :
      (fault : Option GoError) (mode : String) (db db' : Db) (run : Run)
      → IsGiven now fresh o s
      → (mode ≡ mode_full) ⊎ (mode ≡ mode_incremental)
      → transact fault (create_body codec now fresh o s user mode db) db ≡ (inr run, db')
      → (requested run db ≡ db')
        × (run.status ≡ queued)
        × (run.requested_by ≡ some user)
        × IsSound run
        × (any (is_connected o s) db.stores ≡ true)
  commits (some e) mode db db' run given good h = let stuck = ap (λ p. p.0) h in cc stuck
  commits none mode db db' run given good h =
      elim (⊎-cases (create_body codec now fresh o s user mode db)) [
        | inl (e, n) ↦ let stuck = ap (λ p. p.0) (rw n at h) in cc stuck
        | inr ((run1, db1), n) ↦
            let (e, e', c) = create_body-ok mode db db1 run1 n in
            let done = rw n at h in
            let same : run1 ≡ run = inr_injective (ap (λ p. p.0) done) in
            rw (← same, ← e)
              (e' ∙ ap (λ p. p.1) done, refl, refl, IsSound-queued mode given good, c)
      ]
    where
      inr_injective : {x y : Run} → ◌≡◌ {A = GoError ⊎ Run} (inr x) (inr y) → x ≡ y
      inr_injective q = cc

  -- A CreateSyncRun that returns a run has a connected store, and has added that run, queued and with
  -- the user that has requested it, and one outbox message with the envelope of its job, and nothing else; the run is sound, if the ids and
  -- the time are given.
  pub create_sync_run-queued :
      (fault : Option GoError) (mode : String) (db db' : Db) (run : Run)
      → create_sync_run codec now fresh o s fault user mode db ≡ (inr run, db')
      → IsGiven now fresh o s
      → (requested run db ≡ db')
        × (run.status ≡ queued)
        × (run.requested_by ≡ some user)
        × IsSound run
        × (any (is_connected o s) db.stores ≡ true)
  unfolding create_sync_run
  create_sync_run-queued fault mode db db' run h given = elim (Bool-cases (mode =ₛ "")) [
    | inl e ↦ commits fault mode_full db db' run given (inl refl) (rw (e, create_sync_run) at h)
    | inr e ↦ elim (Bool-cases (mode =ₛ mode_full)) [
      | inl f ↦
          commits fault mode db db' run given (inl ((eq_iff mode mode_full).0 f))
            (rw (e, f, create_sync_run) at h)
      | inr f ↦ elim (Bool-cases (mode =ₛ mode_incremental)) [
        | inl g ↦
            commits fault mode db db' run given (inr ((eq_iff mode mode_incremental).0 g))
              (rw (e, f, g, create_sync_run) at h)
        | inr g ↦ let stuck = ap (λ p. p.0) (rw (e, f, g, create_sync_run) at h) in cc stuck
      ]
    ]
  ]
