-- ===== src/Client/Fetch.antt =====
-- src/client.ts: `fetchSubscription` and the calls that use it, on how its `fetch` ends.
pub mod Request
mod Tests
use react_native_nitro_xray.Prelude.{Bool, List, Option, Text, codes, if◌then◌else◌, ◌++◌}
use react_native_nitro_xray.Json.{Number}
use react_native_nitro_xray.Errors.{
  Thrown, xray, xray_error, subscription_timeout, subscription_http_error,
}
use react_native_nitro_xray.Subscription.Types.{ParsedServer, SubscriptionInfo}
use react_native_nitro_xray.Subscription.Numbers.{number_text}
use react_native_nitro_xray.Subscription.UserInfo.{parse_subscription_user_info}
use react_native_nitro_xray.Subscription.Vmess.{parse_subscription}
use react_native_nitro_xray.Client.Engine.{Outcome, returned, thrown}

-- What is used of a `Response`: its body may still fail.
pub record Response : Type 0 where
  pub ok : Bool
  pub status : Number
  pub user_info : Option Text
  pub text : Outcome Text

-- How `fetch` ends: with a response, with an `AbortError`, or with any other exception.
pub data FetchEnd : Type 0 where
  fetched : Response → FetchEnd
  aborted : FetchEnd
  failed : Thrown → FetchEnd

unfoldable pub fetch_subscription : FetchEnd → Outcome Response
fetch_subscription (fetched response) =
    if response.ok
    then returned response
    else thrown (
        xray (
          xray_error subscription_http_error
            (codes "Subscription fetch failed: HTTP " ++ number_text response.status)))
fetch_subscription aborted =
    thrown
      (xray (xray_error subscription_timeout (codes "Subscription fetch timed out after 15000ms")))
fetch_subscription (failed e) = thrown e

infixl 5 ◌>>=◌
abbrev ◌>>=◌ : {A B : Type 0} → Outcome A → (A → Outcome B) → Outcome B
returned a >>= f = f a
thrown e >>= f = thrown e

-- The servers, or none if a link is mistyped.
unfoldable pub from_subscription : FetchEnd → Outcome (Option (List ParsedServer))
from_subscription end = do
  response ← fetch_subscription end
  body ← response.text
  returned (parse_subscription body)

pub record SubscriptionResult : Type 0 where
  pub servers : Option (List ParsedServer)
  pub info : Option SubscriptionInfo

unfoldable pub from_subscription_with_info : FetchEnd → Outcome SubscriptionResult
from_subscription_with_info end = do
  response ← fetch_subscription end
  body ← response.text
  returned (record {
    servers = parse_subscription body;
    info = parse_subscription_user_info response.user_info;
  })
