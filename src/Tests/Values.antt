-- ===== src/Tests/Values.antt =====
-- The values that the tests share.
use xg_mangement.Base.{true, false, none, some, inr, List, [], ◌∷◌, pos, String}
use xg_mangement.Errors.{GoError, handler, plain}
use xg_mangement.Jobs.{Envelope, type_store_sync}
use xg_mangement.Queue.{Client, Broker, Channel, Message, names, answered, int32, attempt_header}
use xg_mangement.Sync.{SyncRequest, Product, Variant, MirrorBatch, mode_full}
use xg_mangement.Store.{Fresh, StoreRow, Mirrors, Db, WebhookEvent, Run, running, completed, queued}
use xg_mangement.Store.{zero_counts}
use xg_mangement.Tests.JsonText.{codec}

abbrev pub payload : List (String × String)
payload = ("store_id", "s") ∷ ("run_id", "r") ∷ ("mode", mode_full) ∷ []

abbrev pub envelope : Envelope
envelope = record {
  version = pos 1;
  id = "job";
  job_type = type_store_sync;
  organization_id = "o";
  occurred_at = 7;
  payload = codec.encode_object payload;
}

abbrev pub message : Message Envelope
message = record {
  headers = (attempt_header, int32 (pos 1)) ∷ [];
  content_type = "application/json";
  persistent = true;
  message_id = "job";
  message_type = type_store_sync;
  timestamp = 0;
  body = envelope;
}

abbrev pub client : Client
client = record { queues = names "jobs"; max_attempts = 3 }

abbrev pub channel : Channel
channel = record {
  available = true;
  send_error = none;
  confirmation = some (answered true);
  returned = false;
  stored = true;
}

abbrev pub broker : Broker
broker = record { channel = channel; ack_error = none }

abbrev pub transient : GoError
transient =
    handler (record { code = "timeout"; retryable = true; preserve_attempt = false }) (plain "x")

abbrev pub contended : GoError
contended =
    handler (record { code = "sync_already_running"; retryable = true; preserve_attempt = true })
      (plain "x")

abbrev pub request : SyncRequest
request = record {
  organization_id = "o";
  store_id = "s";
  run_id = "r";
  mode = mode_full;
  lease_owner = "worker";
}

abbrev pub queued_row : Run
queued_row = record {
  id = "r";
  organization_id = "o";
  store_id = "s";
  mode = mode_full;
  status = queued;
  requested_by = none;
  job_id = "job";
  counts = zero_counts;
  error = none;
  lease_owner = none;
  lease_expires_at = none;
  heartbeat_at = none;
  started_at = none;
  completed_at = none;
  created_at = 1;
}

abbrev pub running_row : Run
running_row = record queued_row {
  status = running;
  lease_owner = some "worker";
  lease_expires_at = some 100;
  heartbeat_at = some 1;
  started_at = some 1;
}

abbrev pub completed_run : Run
completed_run = record queued_row { status = completed; completed_at = some 5 }

abbrev pub product : Product
product = record {
  shopify_gid = "p1";
  handle = "h";
  title = "t";
  status = "ACTIVE";
  vendor = "v";
  product_type = "";
  payload = "{}";
  source_updated_at = some 4;
}

abbrev pub variant : Variant
variant = record {
  shopify_gid = "v1";
  product_shopify_gid = "p1";
  sku = "";
  title = "t";
  price = "1";
  compare_at_price = "";
  inventory_quantity = none;
  payload = "{}";
  source_updated_at = some 4;
}

abbrev pub batch : MirrorBatch
batch = record {
  products = product ∷ record product { title = "old"; source_updated_at = some 2 } ∷ [];
  variants = variant ∷ [];
  collections = [];
  themes = [];
  synced_at = 9;
}

abbrev pub fresh : Fresh
fresh = record {
  run_id = "r2";
  job_id = "job2";
  outbox_id = "x2";
  numeric = λ s. inr s;
  jsonb = λ s. inr s;
}

abbrev pub store : StoreRow
store = record {
  id = "s";
  organization_id = "o";
  shop_domain = "shop.myshopify.com";
  status = "connected";
  account_id = none;
  resync_requested = true;
  last_synced_at = none;
  updated_at = 1;
}

abbrev pub no_rows : Mirrors
no_rows = record { products = []; variants = []; collections = []; themes = [] }

abbrev pub empty : Db
empty = record {
  runs = [];
  stores = store ∷ [];
  outbox = [];
  events = [];
  accounts = [];
  mirrors = no_rows;
}

abbrev pub busy : Db
busy = record empty { runs = running_row ∷ [] }

abbrev pub event : WebhookEvent
event = record {
  organization_id = "o";
  store_id = "s";
  webhook_id = "w";
  shop_domain = "shop.myshopify.com";
  topic = "products/update";
  body = [];
}
