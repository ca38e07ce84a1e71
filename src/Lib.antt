-- ===== src/Lib.antt =====
-- react-native-nitro-xray-core: the TypeScript layer of a VPN engine for React Native.
--
-- An app parses share links to servers, builds an Xray configuration for one, and starts the native
-- engine with it. The operations that start and stop the engine are run one after the other by a lock;
-- the state of the engine reaches any number of listeners through one native callback; the traffic
-- counters of an engine are summed over its restarts; a native rejection becomes a typed error.
--
-- The files and the code:
--   Prelude        tests on natural numbers, lists with JavaScript's indexing, and texts: lists of
--                  UTF-16 code units, with `indexOf`
--   Json           JSON values. A number is NaN, an infinity or a decimal fraction; an object is a list
--                  of fields in the order of their insertion
--   Errors         src/errors.ts: `XrayErrorCode`, `XrayError`, `toXrayError`
--   Stats          src/stats/session.ts: `TrafficSession` and its methods. A method takes the session
--                  and returns the new one. The counters are natural numbers
--   Lock           src/lock.ts: `createSerialLock`. Its promises are explicit; an event calls `withLock`
--                  or runs one reaction, and the events may come in any order
--   Native         src/native.ts: `addStateListener` and the single native listener. The set of the
--                  listeners is a list without repetition
--   Subscription.Types    src/subscription/types.ts: `ParsedServer`
--   Subscription.Base64   src/subscription/base64.ts: `base64ToBytes`, `utf8Decode`, `base64ToString`.
--                  The buffer keeps the wrap at 32 bits of `<<`
--   Subscription.Payload  src/subscription/base64.ts: `looksLikeBase64`, and the text that
--                  `parseSubscription` splits
--   Subscription.Uri, Numbers   `decodeURIComponent`, and `parseInt` with `toPort` of
--                  src/subscription/parse.ts
--   Subscription.Parts    src/subscription/parse.ts: `splitAuthorityLink` and the other helpers
--   Subscription.Links    src/subscription/parse.ts: `parseVless`, `parseTrojan`, `parseShadowsocks`. A
--                  `Record` of strings is a list of entries, the last set first
--   Subscription.Vmess    src/subscription/parse.ts: `parseVmess`, `parseShareLink`, `parseSubscription`.
--                  A payload with a field of another type than `VmessJson` says is told apart
--   Subscription.UserInfo     src/subscription/parse.ts: `parseSubscriptionUserInfo`, and `Number(text)`
--   Config         src/config/build.ts: `buildXrayConfig`, `buildOlcrtcTunnelConfig` and their helpers;
--                  Settings, Transport, Outbound and Build hold the code, the others its properties;
--                  Reader is what Xray reads in a configuration; Plain is about printed values
--   Urltest        src/urltest/urltest.ts: the ranking; Measure has the outcome of one probe, and Pool
--                  the workers, as a state that the settled probes change in any order; Run has `urlTest`
--                  as a whole, on the order in which the probes settle
--   Json.Print     `JSON.stringify` on the values of Json, with the escapes of its strings
--   Json.Parse     `JSON.parse`: the tokens of a text, and a value from the tokens by a stack
--   Json.Strings, Words, Reading, RoundTrip   the text of a string, of a literal or number and of a value,
--                  as it is read
--   Client         src/client.ts: the operations of `XrayClient`, by their names. Each is an action on the
--                  variables of src/client.ts and src/native.ts and on the state of the native object
--   Client.Connection     what `connect` stores, and the options of `connectOlcrtcOnly`
--   Client.Engine  the methods of src/specs/nitro-xray-core.nitro.ts as a record over a native state,
--                  which is a parameter; the variables, and the actions. A method that returns a promise
--                  also says what runs in JavaScript before the promise settles, its interludes: state
--                  events, `stats()` calls and the first lines of `startOlcrtc` and `stopOlcrtc`, which no
--                  lock holds back
--   Client.Sessions       src/client.ts: the traffic sessions, the hook and the interludes
--   Client.Operations     sequences of the client's calls; Hooked and Keeps have what they keep
--   Client.Calls   a native object that notes what it is told to do, but for the callback that
--                  src/native.ts gives it; Parts and Order have what the operations tell it
--   Client.Shown   `coreVersions`
--   Client.Recalled   `currentConnection` behind the calls that store a connection
--   Client.Fetch   `fetchSubscription` and the calls that use it, on how its `fetch` ends; Fetch.Request has
--                  its request and its timer, on a `fetch` that is a parameter
--   Client.Servers the calls that only pass on to a parser, the builder or `urlTest`
--   Versions       src/versions/parse.ts. A regular expression of fixed length is a list of classes of
--                  code units
--   Versions.Generator    scripts/gen-core-versions.ts: `findDepVersion` and the agreement of the artifacts,
--                  whose contents are lists of bytes
-- Files named Tests hold runs of the code at concrete inputs.
--
-- Fuel: the loop of `utf8Decode` runs on one unit for each byte, and each round takes a byte at least;
-- the digits of a number `n` are written with `n + 1` units, and each round divides by ten. All other
-- loops are recursions on a list.
--
-- Not modelled: the example app, and the generated and the native code. `fetch`, timers, the clock and
-- the promises' scheduler are given as the events that they produce. A listener that changes the set while
-- it is iterated, a `probeUrl` that throws, and headers that are a `Headers` object are left out, and so
-- are the rounding of numbers beyond 2^53, the exponents in which very large and very small numbers are
-- printed, and fractions of a microsecond or of a byte.
pub mod Prelude
pub mod Errors
pub mod Stats
pub mod Lock
pub mod Native
pub mod Json
pub mod Config
pub mod Urltest
pub mod Versions
pub mod Subscription
pub mod Client
