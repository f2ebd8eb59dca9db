-- ===== src/Queue.antt =====
-- internal/platform/queue: the RabbitMQ client. `Headers` has the attempt counter, `Publish` a
-- confirmed publish and the lazy publisher, `Delivery` the hand-over of a consumed message;
-- `Attempts` and `Settlement` prove what holds of them.
mod Headers
mod Publish
mod Delivery
pub mod Attempts
pub mod Settlement
pub use Headers.*
pub use Publish.*
pub use Delivery.*
unfoldable pub use Headers.{header_attempt, should_preserve_attempt}
unfoldable pub use Publish.{publish, lazy_publish, lazy_close, client_publish}
unfoldable pub use Delivery.{
  retry, dead_letter, acknowledge, retry_message, dead_message, delivery_envelope,
}
