-- ===== src/Examples/Submitting.antt =====
-- Tasks that are submitted to a broker.
use distributed_messaging_sy.Base.{◌+◌, ◌≡◌, refl, bytes, none, returns}
use distributed_messaging_sy.Amqp.Process.{started}
use distributed_messaging_sy.Amqp.Trace.{taken_total}
use distributed_messaging_sy.Gateway.Publish.{auto_detect_and_publish}
use distributed_messaging_sy.Gateway.Delivery.{
  auto_detect-reports, marked-hides_error, refusing, successes,
}
use distributed_messaging_sy.Examples.Broker.{lossy, by_topic}

auto_detect-reports_example :
    (taken_total lossy (auto_detect_and_publish lossy by_topic started).1.calls
      ≡ successes (auto_detect_and_publish lossy by_topic started).0 + 0)
    × ((auto_detect_and_publish lossy by_topic started).1.metrics.msgs_published
        ≡ successes (auto_detect_and_publish lossy by_topic started).0 + 0)
unfolding bytes taken_total
auto_detect-reports_example = auto_detect-reports lossy by_topic started (λ e. cc)

marked-hides_error_example :
    let r = record by_topic { retry = bytes "1" } in
    ((auto_detect_and_publish lossy r started).0 ≡ returns none)
    × ((auto_detect_and_publish lossy r started).1.metrics.msgs_published ≡ 1)
    × (taken_total (refusing lossy) (auto_detect_and_publish (refusing lossy) r started).1.calls
        ≡ 0)
unfolding taken_total
marked-hides_error_example =
    marked-hides_error lossy (record by_topic { retry = bytes "1" }) started refl
