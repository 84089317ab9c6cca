-- ===== src/Webhooks/Types.antt =====
-- The records of packages/domain/webhooks/src/types.ts and delivery.service.ts. Times are in
-- milliseconds; the payload of an event is the text of its JSON.
use alice_uprm.Prelude.{ℕ, Bool, true, false, Option, List}
use alice_uprm.Prelude.Text.{Text}

pub data OutboundEventType : Type 0 where
  reward_created reward_approved refund_reversed wallet_balance_changed : OutboundEventType

abbrev pub event_type_eq : OutboundEventType → OutboundEventType → Bool
event_type_eq reward_created reward_created = true
event_type_eq reward_approved reward_approved = true
event_type_eq refund_reversed refund_reversed = true
event_type_eq wallet_balance_changed wallet_balance_changed = true
event_type_eq _ _ = false

pub record OutboundWebhookEvent : Type 0 where
  pub event_type : OutboundEventType
  pub tenant_id : ℕ
  pub occurred_at : Text
  pub payload : Text
  pub source_event_id : Option ℕ
  pub source_topic : Option Text

pub record OutboundWebhookEndpoint : Type 0 where
  pub id : Text
  pub url : Text
  pub secret : Text
  pub event_types : List OutboundEventType

pub record OutboundWebhookConfig : Type 0 where
  pub enabled : Bool
  pub endpoints : List OutboundWebhookEndpoint

pub data DeliveryStatus : Type 0 where
  pending retrying delivering delivered dead_letter : DeliveryStatus

abbrev pub status_eq : DeliveryStatus → DeliveryStatus → Bool
status_eq pending pending = true
status_eq retrying retrying = true
status_eq delivering delivering = true
status_eq delivered delivered = true
status_eq dead_letter dead_letter = true
status_eq _ _ = false

pub record DeliveryRecord : Type 0 where
  pub id : ℕ
  pub tenant_id : ℕ
  pub event_type : OutboundEventType
  pub endpoint_url : Text
  pub signing_secret : Text
  pub payload : OutboundWebhookEvent
  pub status : DeliveryStatus
  pub attempt_count : ℕ
  pub next_attempt_at : ℕ
  pub last_attempt_at : Option ℕ
  pub delivered_at : Option ℕ
  pub last_status_code : Option ℕ
  pub last_error : Option Text
  pub source_topic : Option Text
  pub source_event_id : Option ℕ
  pub created_at : ℕ

pub record Deliveries : Type 0 where
  pub rows : List DeliveryRecord
  pub next_id : ℕ

abbrev pub delivery_id : DeliveryRecord → ℕ
delivery_id d = d.id
