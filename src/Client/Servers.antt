-- ===== src/Client/Servers.antt =====
-- src/client.ts: the calls of `XrayClient` that only pass on to a parser, the builder or the test.
use react_native_nitro_xray.Prelude.{List, Option, Text, none, or_default, ℕ}
use react_native_nitro_xray.Json.{Json}
use react_native_nitro_xray.Subscription.Types.{ParsedServer}
use react_native_nitro_xray.Subscription.Vmess.{Parsed, parse_share_link}
use react_native_nitro_xray.Subscription.Vmess
use react_native_nitro_xray.Config.Build.{BuildConfigOptions, no_options, build_xray_config}
use react_native_nitro_xray.Urltest.{UrlTestResult}
use react_native_nitro_xray.Urltest.Run.{UrlTestOptions, Network}
use react_native_nitro_xray.Urltest.Run

unfoldable pub parse_subscription : Text → Option (List ParsedServer)
parse_subscription payload = Vmess.parse_subscription payload

unfoldable pub parse_link : Text → Parsed
parse_link uri = parse_share_link uri

unfoldable pub build_config : ParsedServer → Option BuildConfigOptions → Json
build_config server options = build_xray_config server (or_default options no_options)

-- `options = {}`.
abbrev no_test_options : UrlTestOptions
no_test_options = record { timeout_ms = none; concurrency = none; probe_url = none }

unfoldable pub url_test :
    List ParsedServer → Option UrlTestOptions → Network → List ℕ → Option (List UrlTestResult)
url_test servers options network order =
    Run.url_test (or_default options no_test_options) network servers order
