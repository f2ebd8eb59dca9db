-- ===== src/Tests/Stores.antt =====
-- The transactions of the store at concrete databases.
use xg_mangement.Base.{
  ◌≡◌, refl, true, false, Option, none, some, inl, [], ◌∷◌, inr, any, Bool, ◌⊎◌, ◌=ₛ◌,
}
use xg_mangement.Errors.{GoError}
use xg_mangement.Queue.{Message, client_publish, delivery_envelope}
use xg_mangement.Sync.{
  SyncRequest, MirrorBatch, Outcome, returned, validate_request, handle, classified,
}
use xg_mangement.Mirror.{
  normalize_mirror_batch, collect, sort_by_gid, clean_product, clean_variant, add_newest,
}
use xg_mangement.Store.{
  Run, Db, create_sync_run, create_body, replace_mirror, replace_body, replace_bound, bind_batch,
  product_columns, variant_columns, record_event, enqueue_sync_run, active_in, run_envelope,
  is_connected, mark_synchronized, follow_up, complete_sync_run, completed_row, queued,
  enqueue_webhook_sync, topic_triggers_mirror, queued_run,
}
use xg_mangement.Store.Replacement.{IsWritten}
use xg_mangement.Store.Completion.{
  IsCleared, replace_mirror-IsWritten, replace_mirror-fenced, replace_mirror-follow_up,
}
use xg_mangement.Store.Deduplication.{IsAsked, record_event-once, record_event-active}
use xg_mangement.Store.Later.{Step, Steps}
use xg_mangement.Store.Request.{
  IsGiven, IsSound, request_of, requested, run_envelope-handled, create_sync_run-queued,
}
use xg_mangement.Tests.JsonText.{codec}
use xg_mangement.Tests.Values.{batch, request, fresh, store, empty, busy, event, channel}

abbrev replaced : Db
replaced = (replace_mirror codec 5 fresh request none batch busy).1

replaces : replace_mirror codec 5 fresh request none batch busy ≡ (inr tt, replaced)
unfolding replace_mirror replace_body replace_bound bind_batch product_columns variant_columns
    mark_synchronized follow_up complete_sync_run completed_row enqueue_sync_run validate_request
    normalize_mirror_batch collect sort_by_gid clean_product clean_variant add_newest
    xg_mangement.Base.trim_space
replaces = refl

replace_mirror-IsWritten_example :
    (b bound : MirrorBatch) × (normalize_mirror_batch codec.valid 5 batch ≡ inr b)
    × (bind_batch fresh b ≡ inr bound)
    × IsWritten request bound busy.mirrors replaced.mirrors
replace_mirror-IsWritten_example =
    replace_mirror-IsWritten codec 5 fresh request none batch busy replaced replaces

replace_mirror-fenced_example :
    (e : GoError) × (replace_mirror codec 5 fresh
        (record request { lease_owner = "slow" })
        none
        batch
        busy
      ≡ (inl e, busy))
replace_mirror-fenced_example =
    replace_mirror-fenced codec 5 fresh (record request { lease_owner = "slow" }) none batch busy
      refl

replace_mirror-follow_up_example :
    (any (active_in "o" "s") replaced.runs ≡ true) × IsCleared "o" "s" replaced.stores
replace_mirror-follow_up_example =
    replace_mirror-follow_up codec 5 fresh request none batch busy replaced store replaces refl refl
      refl

abbrev noticed : Db
noticed = (record_event codec 6 fresh event none busy).1

notices : record_event codec 6 fresh event none busy ≡ (inr false, noticed)
unfolding record_event enqueue_webhook_sync topic_triggers_mirror
notices = refl

abbrev unrelated : Db
unrelated = (record_event codec 7 fresh (record event { webhook_id = "w-2" }) none noticed).1

record_event-once_example :
    ((record_event codec 8 fresh event none unrelated).1 ≡ unrelated)
    × (◌≡◌ {A = Option GoError} none none
        → record_event codec 8 fresh event none unrelated ≡ (inr true, unrelated))
record_event-once_example =
    record_event-once codec 6 fresh event none busy noticed false 8 fresh event none unrelated
      notices
      (Steps.next Steps.here (Step.event 7 fresh (record event { webhook_id = "w-2" }) none)) refl

triggers : topic_triggers_mirror event.topic ≡ true
unfolding topic_triggers_mirror
triggers = refl

record_event-active_example :
    (any (active_in "o" "s") noticed.runs ≡ true)
    × (any (active_in "o" "s") busy.runs ≡ true → IsAsked "o" "s" noticed.stores)
record_event-active_example =
    record_event-active codec 6 fresh event none busy noticed store notices triggers refl refl refl

abbrev new_run : Run
new_run = queued_run 8 fresh "o" "s" (some "u") "job2" "full"

creates :
    create_sync_run codec 8 fresh "o" "s" none "u" "" empty
    ≡ (inr new_run, requested codec 8 fresh "o" "s" "u" new_run empty)
unfolding create_sync_run create_body
creates = refl

given : IsGiven 8 fresh "o" "s"
unfolding xg_mangement.Base.trim_space
given = record {
  organization = refl;
  store = refl;
  run_id = refl;
  job_id = refl;
  time = refl;
  dated = refl;
}

create_sync_run-queued_example :
    (requested codec 8 fresh "o" "s" "u" new_run empty
      ≡ requested codec 8 fresh "o" "s" "u" new_run empty)
    × (new_run.status ≡ queued)
    × (new_run.requested_by ≡ some "u")
    × IsSound new_run
    × (any (is_connected "o" "s") empty.stores ≡ true)
create_sync_run-queued_example =
    create_sync_run-queued codec 8 fresh "o" "s" "u" none "" empty
      (requested codec 8 fresh "o" "s" "u" new_run empty) new_run creates given

abbrev syncs : SyncRequest → Outcome
syncs r = returned none

sound : IsSound new_run
unfolding xg_mangement.Base.trim_space
sound = record {
  organization = refl;
  store = refl;
  id = refl;
  job = refl;
  created = refl;
  dated = refl;
  mode = inl refl;
}

run_envelope-handled_example :
    ((m : Message codec.Body) × ((client_publish codec (run_envelope codec new_run) channel).0
        ≡ some m)
      × (delivery_envelope codec m ≡ inr (run_envelope codec new_run)))
    × (handle codec (some syncs) (run_envelope codec new_run)
        ≡ classified (syncs (request_of new_run)))
run_envelope-handled_example = run_envelope-handled codec new_run sound channel syncs
