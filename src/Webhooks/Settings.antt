-- ===== src/Webhooks/Settings.antt =====
-- The settings of outbound webhooks, written as JSON and read back by `parseOutboundWebhookConfig`
-- (packages/domain/webhooks/src/delivery.service.ts).
use alice_uprm.Prelude.{◌≡◌, refl, ap, Bool, true, some, List, [], ◌∷◌, All}
use alice_uprm.Prelude.Text.{Text, codes, text_eq}
use alice_uprm.Webhooks.Types.{
  OutboundEventType, reward_created, reward_approved, refund_reversed, wallet_balance_changed,
  OutboundWebhookEndpoint, OutboundWebhookConfig,
}
use alice_uprm.Webhooks.Config.{
  Json, boolean, string, array, object, Items, no_items, item, Fields, no_fields, field, get_field,
  as_object, as_items, event_type_text, event_type_of, event_types_of, is_complete, string_or_empty,
  is_truthy, endpoint_of, endpoints_of, parse_outbound, parse_outbound_webhook_config,
}

unfoldable pub types_json : List OutboundEventType → Items
types_json [] = no_items
types_json (t ∷ ts) = item (string (event_type_text t)) (types_json ts)

unfoldable pub endpoint_json : OutboundWebhookEndpoint → Fields
endpoint_json e = field (codes "id") (string e.id) (
    field (codes "url") (string e.url) (
      field (codes "secret") (string e.secret)
        (field (codes "eventTypes") (array (types_json e.event_types)) no_fields)))

unfoldable pub endpoints_json : List OutboundWebhookEndpoint → Items
endpoints_json [] = no_items
endpoints_json (e ∷ es) = item (object (endpoint_json e)) (endpoints_json es)

-- The column that holds a configuration.
unfoldable pub config_json : OutboundWebhookConfig → Json
config_json c = object (
    field (codes "outbound")
      (object (
        field (codes "enabled") (boolean c.enabled)
          (field (codes "endpoints") (array (endpoints_json c.endpoints)) no_fields)))
      no_fields)

event_type_of-text : (t : OutboundEventType) → event_type_of (event_type_text t) ≡ some t
unfolding event_type_of text_eq
event_type_of-text reward_created = refl
event_type_of-text reward_approved = refl
event_type_of-text refund_reversed = refl
event_type_of-text wallet_balance_changed = refl

event_types_of-types_json : (ts : List OutboundEventType) → event_types_of (types_json ts) ≡ ts
unfolding event_types_of types_json
event_types_of-types_json [] = refl
event_types_of-types_json (t ∷ ts) = rw (event_type_of-text t, event_types_of-types_json ts) refl

module _ (text_of : Json → Text) (is_zero : Text → Bool) where
  endpoint_of-endpoint_json :
      (e : OutboundWebhookEndpoint) → endpoint_of text_of is_zero (endpoint_json e) ≡ e
  unfolding endpoint_of endpoint_json get_field text_eq string_or_empty as_items
  endpoint_of-endpoint_json e =
      ap (λ ts. record e { event_types = ts }) (event_types_of-types_json e.event_types)

  endpoints_of-endpoints_json :
      (es : List OutboundWebhookEndpoint)
      → All (λ e. is_complete e ≡ true) es
      → endpoints_of text_of is_zero (endpoints_json es) ≡ es
  unfolding endpoints_of endpoints_json as_object
  endpoints_of-endpoints_json [] h = refl
  endpoints_of-endpoints_json (e ∷ es) h =
      rw (endpoint_of-endpoint_json e, h.0, endpoints_of-endpoints_json es h.1) refl

-- A configuration whose endpoints have an id, a URL, a secret and an event type each, written as JSON,
-- is read back as itself.
pub parse_outbound_webhook_config-config_json :
    (text_of : Json → Text) (is_zero : Text → Bool) (c : OutboundWebhookConfig)
    → All (λ e. is_complete e ≡ true) c.endpoints
    → parse_outbound_webhook_config text_of is_zero (config_json c) ≡ some c
unfolding parse_outbound_webhook_config config_json get_field text_eq as_object parse_outbound
    is_truthy as_items
parse_outbound_webhook_config-config_json text_of is_zero c h =
    ap (λ es. some (record c { endpoints = es }))
      (endpoints_of-endpoints_json text_of is_zero c.endpoints h)
