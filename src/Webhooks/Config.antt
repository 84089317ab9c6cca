-- ===== src/Webhooks/Config.antt =====
-- `parseOutboundWebhookConfig` of packages/domain/webhooks/src/delivery.service.ts. A JSON number is
-- its literal. `text_of` is `String(value)` of a value that is neither null nor a string, and
-- `is_zero` says that a number is false for `Boolean`.
use alice_uprm.Prelude.{
  Bool, true, false, not, ◌&&◌, Option, none, some, List, [], ◌∷◌, if◌then◌else◌,
}
use alice_uprm.Prelude.Text.{Text, codes, text_eq}
use alice_uprm.Prelude.Rows.{filter, any}
use alice_uprm.Webhooks.Types.{
  OutboundEventType, reward_created, reward_approved, refund_reversed, wallet_balance_changed,
  OutboundWebhookEndpoint, OutboundWebhookConfig, event_type_eq,
}

mutual
  pub data Json : Type 0 where
    null : Json
    boolean : Bool → Json
    number : Text → Json
    string : Text → Json
    array : Items → Json
    object : Fields → Json

  pub data Items : Type 0 where
    no_items : Items
    item : Json → Items → Items

  pub data Fields : Type 0 where
    no_fields : Fields
    field : Text → Json → Fields → Fields

-- `value.key`, where a field that is not there is undefined.
unfoldable pub get_field : Text → Fields → Option Json
get_field key no_fields = none
get_field key (field k v fs) = if text_eq k key then some v else get_field key fs

-- `typeof value === 'object'` and not null, not looking into an array, which has no such fields.
unfoldable pub as_object : Json → Option Fields
as_object (object fs) = some fs
as_object (array _) = some no_fields
as_object _ = none

unfoldable pub as_items : Option Json → Items
as_items (some (array xs)) = xs
as_items _ = no_items

abbrev pub event_type_text : OutboundEventType → Text
event_type_text reward_created = codes "reward.created"
event_type_text reward_approved = codes "reward.approved"
event_type_text refund_reversed = codes "refund.reversed"
event_type_text wallet_balance_changed = codes "wallet.balance.changed"

unfoldable pub event_type_of : Text → Option OutboundEventType
event_type_of t =
    if text_eq t (event_type_text reward_created)
    then some reward_created
    else if text_eq t (event_type_text reward_approved)
    then some reward_approved
    else if text_eq t (event_type_text refund_reversed)
    then some refund_reversed
    else if text_eq t (event_type_text wallet_balance_changed)
    then some wallet_balance_changed
    else none

abbrev pub json_event_type : Json → Option OutboundEventType
json_event_type (string t) = event_type_of t
json_event_type _ = none

abbrev pub keep {ℓ} : {A : Type ℓ} → Option A → List A → List A
keep none xs = xs
keep (some x) xs = x ∷ xs

unfoldable pub event_types_of : Items → List OutboundEventType
event_types_of no_items = []
event_types_of (item v vs) = keep (json_event_type v) (event_types_of vs)

abbrev pub is_empty_text : Text → Bool
is_empty_text [] = true
is_empty_text (_ ∷ _) = false

abbrev pub is_empty_types : List OutboundEventType → Bool
is_empty_types [] = true
is_empty_types (_ ∷ _) = false

-- The last filter.
unfoldable pub is_complete : OutboundWebhookEndpoint → Bool
is_complete e =
    not (is_empty_text e.id)
    && not (is_empty_text e.url)
    && not (is_empty_text e.secret)
    && not (is_empty_types e.event_types)

module _ (text_of : Json → Text) (is_zero : Text → Bool) where
  -- `String(value ?? '')`
  unfoldable pub string_or_empty : Option Json → Text
  string_or_empty none = []
  string_or_empty (some null) = []
  string_or_empty (some (string t)) = t
  string_or_empty (some v) = text_of v

  -- `Boolean(value)`
  unfoldable pub is_truthy : Option Json → Bool
  is_truthy none = false
  is_truthy (some null) = false
  is_truthy (some (boolean b)) = b
  is_truthy (some (number t)) = not (is_zero t)
  is_truthy (some (string t)) = not (is_empty_text t)
  is_truthy (some (array _)) = true
  is_truthy (some (object _)) = true

  unfoldable pub endpoint_of : Fields → OutboundWebhookEndpoint
  endpoint_of fs = record {
    id = string_or_empty (get_field (codes "id") fs);
    url = string_or_empty (get_field (codes "url") fs);
    secret = string_or_empty (get_field (codes "secret") fs);
    event_types = event_types_of (as_items (get_field (codes "eventTypes") fs));
  }

  -- The three passes over the endpoints: objects, mapped, complete.
  unfoldable pub endpoints_of : Items → List OutboundWebhookEndpoint
  endpoints_of no_items = []
  endpoints_of (item v vs) =
      let rest = endpoints_of vs in
      elim (as_object v) [
        | none ↦ rest
        | some fs ↦ if is_complete (endpoint_of fs) then endpoint_of fs ∷ rest else rest
      ]

  unfoldable pub parse_outbound : Fields → OutboundWebhookConfig
  parse_outbound outbound = record {
    enabled = is_truthy (get_field (codes "enabled") outbound);
    endpoints = endpoints_of (as_items (get_field (codes "endpoints") outbound));
  }

  -- A null column is `null`.
  unfoldable pub parse_outbound_webhook_config : Json → Option OutboundWebhookConfig
  parse_outbound_webhook_config raw = elim (as_object raw) [
    | none ↦ none
    | some fs ↦ elim (get_field (codes "outbound") fs) [
      | none ↦ none
      | some v ↦ elim (as_object v) [ none ↦ none | some outbound ↦ some (parse_outbound outbound) ]
    ]
  ]

  -- `getSubscribedEndpoints`, on the column of the tenant's configuration.
  unfoldable pub get_subscribed_endpoints : Json → OutboundEventType → List OutboundWebhookEndpoint
  get_subscribed_endpoints raw event = elim (parse_outbound_webhook_config raw) [
    | none ↦ []
    | some outbound ↦
        if outbound.enabled
        then filter (λ e. any (event_type_eq event) e.event_types) outbound.endpoints
        else []
  ]
