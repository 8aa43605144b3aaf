-- ===== src/Pubsub.antt =====
-- `enum PubsubEvent` of database/src/lib.rs: what a client in publish/subscribe mode is told.
use redvector.Base.{ℕ, Option, none, some, List, [], ◌∷◌, Bytes, codes, pos}
use redvector.Response.{Response, Responses, integer, bytes, array, done, then_}

pub data PubsubEvent : Type 0 where
  subscription unsubscription : Bytes → ℕ → PubsubEvent
  pattern_subscription pattern_unsubscription : Bytes → ℕ → PubsubEvent
  message : Bytes → Option Bytes → Bytes → PubsubEvent

-- `Response::Array` of a vector of data.
abbrev all_data : List Bytes → Responses
all_data [] = done
all_data (d ∷ ds) = then_ (bytes d) (all_data ds)

-- The name of the event, what it is about and the number of subscriptions, which is below 2^63.
abbrev counted : Bytes → Bytes → ℕ → Response
counted name about subscriptions =
    array (then_ (bytes name) (then_ (bytes about) (then_ (integer (pos subscriptions)) done)))

unfoldable pub as_response : PubsubEvent → Response
as_response (message channel (some pattern_) text) =
    array (all_data (codes "pmessage" ∷ pattern_ ∷ channel ∷ text ∷ []))
as_response (message channel none text) = array (all_data (codes "message" ∷ channel ∷ text ∷ []))
as_response (subscription channel subscriptions) = counted (codes "subscribe") channel subscriptions
as_response (unsubscription channel subscriptions) =
    counted (codes "unsubscribe") channel subscriptions
as_response (pattern_subscription pattern_ subscriptions) =
    counted (codes "psubscribe") pattern_ subscriptions
as_response (pattern_unsubscription pattern_ subscriptions) =
    counted (codes "punsubscribe") pattern_ subscriptions
