-- ===== src/Channels/Adapters/Publish.antt =====
-- src/channels/adapters/ntfy-channel.ts and webhook-channel.ts
use notify_hub.Base.{ℕ, ◌++◌, [], ◌∷◌, List, Option, none, some, Text, lit, pos}
use notify_hub.Base.Map.{Map, lookup}
use notify_hub.Core.{
  Notification, Priority, low, default, high, urgent, Value, undefined, num, str, arr, obj, Items,
  nil, cons,
}
use notify_hub.Ports.{Externals, ◌>>=◌, request, template, value_of, NotificationChannel}
use notify_hub.Channels.Adapters.{post_json, expect_success}

-- NTFY_PRIORITY
unfoldable pub ntfy_priority : Priority → ℕ
ntfy_priority low = 2
ntfy_priority default = 3
ntfy_priority high = 4
ntfy_priority urgent = 5

abbrev pub items : List Text → Items
items [] = nil
items (s ∷ ss) = cons (str s) (items ss)

-- A priority is always a string that is not empty, so the test on it is that it is there.
unfoldable pub priority_fields : Option Priority → Map Value
unfolding ntfy_priority
priority_fields none = []
priority_fields (some p) = (lit "priority", num (pos (ntfy_priority p))) ∷ []

-- An empty array of tags is left out.
unfoldable pub tags_fields : Option (List Text) → Map Value
tags_fields none = []
tags_fields (some []) = []
tags_fields (some (t ∷ ts)) = (lit "tags", arr (items (t ∷ ts))) ∷ []

unfoldable pub ntfy_body : Map Text → Notification → Map Value
unfolding priority_fields tags_fields lookup
ntfy_body cfg n =
    (lit "topic", value_of (lookup cfg (lit "NTFY_TOPIC")))
    ∷ (lit "title", str n.title)
    ∷ (lit "message", str n.message)
    ∷ (priority_fields n.priority ++ tags_fields n.tags)

unfoldable pub ntfy_channel : Externals → Map Text → NotificationChannel
unfolding ntfy_body expect_success lookup
ntfy_channel x cfg = record {
  name = lit "ntfy";
  send = λ n. do
    let url = lookup cfg (lit "NTFY_URL")
    response ← request x (post_json url (ntfy_body cfg n))
    expect_success (lit "ntfy channel: request to " ++ (template url ++ lit " failed with status "))
        response;
}

priority_text : Priority → Text
priority_text low = lit "low"
priority_text default = lit "default"
priority_text high = lit "high"
priority_text urgent = lit "urgent"

abbrev optional : {A : Type 0} → (A → Value) → Option A → Value
optional f none = undefined
optional f (some a) = f a

unfoldable pub webhook_channel : Externals → Map Text → NotificationChannel
unfolding priority_text expect_success lookup
webhook_channel x cfg = record {
  name = lit "webhook";
  send = λ n. do
    let url = lookup cfg (lit "WEBHOOK_URL")
    let body =
        (lit "title", str n.title)
        ∷ (lit "message", str n.message)
        ∷ (lit "priority", optional (λ p. str (priority_text p)) n.priority)
        ∷ (lit "tags", optional (λ ts. arr (items ts)) n.tags)
        ∷ (lit "metadata", optional obj n.metadata)
        ∷ []
    response ← request x (post_json url body)
    expect_success
        (lit "webhook channel: request to " ++ (template url ++ lit " failed with status "))
        response;
}
