-- ===== src/Tests/Hooks.antt =====
-- A webhook with a toy signature, twice.
use xg_mangement.Base.{◌≡◌, ◌≢◌, refl, true, none, some, List, [], ◌∷◌, ◌⊎◌, inr, trim_space}
use xg_mangement.Store.{
  Db, record_event, enqueue_webhook_sync, enqueue_sync_run, topic_triggers_mirror,
}
use xg_mangement.Store.Later.{Step, Steps}
use xg_mangement.Webhooks.{
  Crypto, ConfigRow, Delivery, Reply, shopify_webhook, authentic_event, ◌>>=◌, verify_webhook_hmac,
  webhook_client_secret, resolve_webhook_target, normalize_shop_domain, is_shop_domain,
  is_shop_rest,
}
use xg_mangement.Webhooks.Recorded.{IsAccepted, shopify_webhook-IsAccepted, shopify_webhook-once}
use xg_mangement.Tests.JsonText.{codec}
use xg_mangement.Tests.Values.{fresh, store, busy, event}

-- the signature "s" holds the bytes of the body behind a one
abbrev crypto : Crypto
crypto = record {
  to_lower = λ s. s;
  decode_base64 = λ _. some (1 ∷ 7 ∷ []);
  hmac = λ secret body. 1 ∷ body;
  decrypt = λ bytes. inr bytes;
  client_secret = λ _. some "secret";
}

abbrev configs : List ConfigRow
configs =
    record {
      organization_id = store.organization_id;
      provider = "shopify";
      enabled = true;
      encrypted_secrets = [];
    }
    ∷ []

abbrev delivery : Delivery
delivery = record {
  webhook_id = " w-1 ";
  shop_domain = store.shop_domain;
  topic = "products/update";
  signature = "s";
  body = some (7 ∷ []);
}

abbrev forged : Delivery
forged = record delivery { body = some (8 ∷ []) }

abbrev answer : Reply × Db
answer = shopify_webhook crypto codec 5 fresh none none configs delivery busy

shopify_webhook-IsAccepted_example :
    ((answer.0.status ≢ 202) × (answer.1 ≡ busy))
    ⊎ IsAccepted crypto codec 5 fresh none none configs delivery busy answer
shopify_webhook-IsAccepted_example =
    shopify_webhook-IsAccepted crypto codec 5 fresh none none configs delivery busy

is_accepted : answer.0.status ≡ 202
unfolding shopify_webhook authentic_event ◌>>=◌ verify_webhook_hmac webhook_client_secret
    resolve_webhook_target normalize_shop_domain is_shop_domain is_shop_rest record_event
    enqueue_webhook_sync enqueue_sync_run topic_triggers_mirror trim_space
is_accepted = refl

is_refused : (shopify_webhook crypto codec 5 fresh none none configs forged busy).0.status ≡ 401
unfolding shopify_webhook authentic_event ◌>>=◌ verify_webhook_hmac webhook_client_secret
    resolve_webhook_target normalize_shop_domain is_shop_domain is_shop_rest record_event
    enqueue_webhook_sync enqueue_sync_run topic_triggers_mirror trim_space
is_refused = refl

-- another event comes before the second delivery
abbrev between : Db
between = (record_event codec 7 fresh (record event { webhook_id = "w-2" }) none answer.1).1

comes_between : Steps codec answer.1 between
comes_between =
    Steps.next Steps.here (Step.event 7 fresh (record event { webhook_id = "w-2" }) none)

shopify_webhook-once_example :
    ((shopify_webhook crypto codec 9 fresh none none configs delivery between).1 ≡ between)
    × ((shopify_webhook crypto codec 9 fresh none none configs delivery between).0.status ≢ 202)
shopify_webhook-once_example =
    shopify_webhook-once crypto codec 5 9 fresh fresh none none none none configs configs delivery
      delivery busy between is_accepted comes_between refl
