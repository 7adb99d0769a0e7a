-- ===== src/Channels/Adapters.antt =====
-- What the adapters of src/channels/adapters share: a POST of a JSON body, and the status check.
pub mod Chat
pub mod Publish
pub mod Voice
pub mod Direct
pub mod Frame
use notify_hub.Base.{
  ℕ, Bool, ◌||◌, ◌++◌, [], ◌∷◌, Option, Text, lit, ltb, leb, decimal, if◌then◌else◌,
}
use notify_hub.Base.Map.{Map}
use notify_hub.Core.{Value, undefined, obj}
use notify_hub.Ports.{HttpRequest, HttpResponse, Io, pure, throw, object}

-- `status < 200 || status >= 300`
unfoldable pub is_rejected : ℕ → Bool
is_rejected status = ltb status 200 || leb 300 status

abbrev pub post_json : Option Text → Map Value → HttpRequest
post_json url body = record {
  method = lit "POST";
  url = url;
  headers = (lit "content-type", lit "application/json") ∷ [];
  body = obj (object body);
}

-- The check that ends a `send`: `message` is the text before the status.
unfoldable pub expect_success : Text → HttpResponse → Io (Unit {0})
unfolding is_rejected decimal
expect_success message response =
    if is_rejected response.status then throw (message ++ decimal response.status) else pure tt
