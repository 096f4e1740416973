-- ===== src/Contracts/Topics.antt =====
-- packages/contracts/src/topics.ts.
use kafka_nest_playground.Prelude.{String, List, [], ◌∷◌}

-- `KAFKA_TOPICS`, a constant for each key.
abbrev pub identity_user_events : String
identity_user_events = "identity.user-events"

abbrev pub catalog_product_events : String
catalog_product_events = "catalog.product-events"

abbrev pub catalog_inventory_events : String
catalog_inventory_events = "catalog.inventory-events"

abbrev pub order_order_events : String
order_order_events = "order.order-events"

abbrev pub order_order_events_retry5s : String
order_order_events_retry5s = "order.order-events.retry-5s"

abbrev pub order_order_events_retry30s : String
order_order_events_retry30s = "order.order-events.retry-30s"

abbrev pub order_order_events_retry5m : String
order_order_events_retry5m = "order.order-events.retry-5m"

abbrev pub payment_payment_events : String
payment_payment_events = "payment.payment-events"

abbrev pub risk_risk_events : String
risk_risk_events = "risk.risk-events"

abbrev pub pricing_price_events : String
pricing_price_events = "pricing.price-events"

abbrev pub notification_notification_commands : String
notification_notification_commands = "notification.notification-commands"

abbrev pub analytics_domain_events : String
analytics_domain_events = "analytics.domain-events"

abbrev pub dead_letter_events : String
dead_letter_events = "dead-letter.events"

-- `KAFKA_TOPIC_NAMES`.
abbrev pub kafka_topic_names : List String
kafka_topic_names =
    identity_user_events ∷ catalog_product_events ∷ catalog_inventory_events ∷ order_order_events
    ∷ order_order_events_retry5s ∷ order_order_events_retry30s ∷ order_order_events_retry5m
    ∷ payment_payment_events ∷ risk_risk_events ∷ pricing_price_events
    ∷ notification_notification_commands ∷ analytics_domain_events ∷ dead_letter_events ∷ []
