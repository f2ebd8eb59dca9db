-- ===== src/Tests/Services.antt =====
-- Service.Sync against a Shopify whose second bulk operation fails.
use xg_mangement.Base.{
  ◌≡◌, refl, ℕ, suc, if◌then◌else◌, ◌=ₛ◌, String, true, false, Option, none, some, List, [], ◌∷◌,
  inl, inr, any, arith,
}
use xg_mangement.Sync.{validate_request}
use xg_mangement.Store.{start_sync_run, started_row}
use xg_mangement.Bulk.{Parser, finished}
use xg_mangement.Service.{World, ok, BulkOperation, SyncTarget}
use xg_mangement.Service.Actions.{Settings}
use xg_mangement.Service.Sync.{sync, wait_for_bulk, wait_until_done, leased}
use xg_mangement.Service.Calls.{State}
use xg_mangement.Service.Polls.{wait_until_done-ends}
use xg_mangement.Service.Postgres.{Answers, Shared, started, postgres}
use xg_mangement.Service.Stored.{IsSettled, sync-IsSettled}
use xg_mangement.Tests.JsonText.{codec}
use xg_mangement.Tests.Values.{request, queued_row, fresh, empty}

abbrev answers : Answers
answers = record {
  now = λ n. n;
  owner = λ _. "worker";
  fresh = λ _. fresh;
  fault = λ _. none;
  later = λ _. inr [];
}

abbrev completed_operation : BulkOperation
completed_operation = record {
  id = "7";
  status = "COMPLETED";
  error_code = "";
  url = "https://x/7";
}

abbrev running_operation : BulkOperation
running_operation = record completed_operation { status = "RUNNING" }

abbrev target : SyncTarget
target = record { domain = "a.myshopify.com"; api_version = "2026-07" }

abbrev shopify : World Shared
shopify = record {
  resolve_sync_target = λ _ _ _ d. (ok target, d);
  access_token = λ _ _ _ d. (ok "token", d);
  start_bulk_query = λ _ _ _ _ query d. (
    ok (
        if query =ₛ "products"
        then completed_operation
        else record completed_operation { status = "FAILED" }),
    d,
  );
  get_bulk_operation = λ _ _ _ _ _ d. (ok completed_operation, d);
  download_jsonl = λ _ _ _ d. (ok (record { lines = "" ∷ []; end = finished }), d);
  list_theme_nodes = λ _ _ _ _ d. (ok [], d);
  elapsed = λ _. 1;
}

abbrev parser : Parser
parser = record { parse_resource = λ _. none; parse_time = λ _. none }

abbrev settings : Settings
settings = record {
  ticks = λ _. 1;
  poll_interval = 3;
  timeout = 20;
  synced_at = 4;
  canceled_at = some 2;
  sleeper = none;
}

abbrev before : Shared
before = record { db = record empty { runs = queued_row ∷ [] }; calls = 0 }

abbrev held : Shared
held = (started codec answers request before).1

valid : validate_request request ≡ none
unfolding validate_request xg_mangement.Base.trim_space
valid = refl

starts : started codec answers request before ≡ (inr "worker", held)
unfolding started start_sync_run started_row validate_request xg_mangement.Base.trim_space
starts = refl

sync-IsSettled_example :
    IsSettled codec answers shopify parser settings
      (leased (postgres codec answers) shopify parser settings request "worker")
      (sync (postgres codec answers) shopify parser settings true request before)
unfolding postgres
sync-IsSettled_example =
    sync-IsSettled codec answers shopify parser settings request before held "worker" valid starts

abbrev polling : State Shared
polling = record { db = before; lost = none; calls = 0; left = 20; canceled_at = some 2 }

wait_until_done-ends_example :
    wait_for_bulk
      (postgres codec answers)
      shopify
      parser
      settings
      request
      30
      target
      "token"
      running_operation
      polling
    ≡ wait_until_done
        (postgres codec answers)
        shopify
        parser
        settings
        request
        target
        "token"
        running_operation
        polling
wait_until_done-ends_example =
    wait_until_done-ends (postgres codec answers) shopify parser settings request 30 target "token"
      running_operation polling refl (omega arith)
