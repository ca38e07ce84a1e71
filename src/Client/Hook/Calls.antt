-- ===== src/Client/Hook/Calls.antt =====
-- How often the hook of src/client.ts is among the listeners of src/native.ts, and what the listeners do.
use react_native_nitro_xray.Prelude.{
  Bool, Bool-cases, List, Text, [], ap, arith, false, if◌then◌else◌, inl, inr, map, refl, true, ℕ,
  ◌++◌, ◌+◌, ◌∙◌, ◌∷◌, ◌≡◌, ◌≤◌,
}
use react_native_nitro_xray.Native.{
  connecting, connected, disconnected, error, blocked, disconnecting, reconnecting, XrayState,
  Multiplexer, has, add, delete, add_state_listener, ensure_native_listener,
}
use react_native_nitro_xray.Stats.{TrafficSession, suspend, commit_restart}
use react_native_nitro_xray.Client.Sessions.{hooks_in, each_session, on_state, call_listeners}
use react_native_nitro_xray.Client.Engine.{Sessions, app, listener_eq, session_hook}
use react_native_nitro_xray.Client.Engine.{Listener, session_hook, app, listener_eq}

abbrev pub one_if : Bool → ℕ
one_if b = if b then 1 else 0

pub hooks_in-concat :
    (ls : List Listener) (l : Listener) → hooks_in (ls ++ l ∷ []) ≡ hooks_in ls + hooks_in (l ∷ [])
unfolding hooks_in
hooks_in-concat [] l = omega arith
hooks_in-concat (session_hook j ∷ ls) l = omega (arith, hooks_in-concat ls l)
hooks_in-concat (app i ∷ ls) l = hooks_in-concat ls l

pub has-hooks_in : (k : ℕ) (ls : List Listener) → hooks_in ls ≡ 0 → has (session_hook k) ls ≡ false
unfolding has hooks_in
has-hooks_in k [] h = refl
has-hooks_in k (session_hook j ∷ ls) h = absurd (omega arith)
has-hooks_in k (app i ∷ ls) h = has-hooks_in k ls h

pub app_none : (n i : ℕ) → n + hooks_in (app i ∷ []) ≡ n
unfolding hooks_in
app_none n i = omega arith

pub hook_one : (k n : ℕ) → n ≡ 0 → n + hooks_in (session_hook k ∷ []) ≡ 1
unfolding hooks_in
hook_one k n h = omega arith

pub hooks_in-add_app : (i : ℕ) (ls : List Listener) → hooks_in (add (app i) ls) ≡ hooks_in ls
unfolding add
hooks_in-add_app i ls = elim (Bool-cases (has (app i) ls)) [
  | inl there ↦ rw (there, add) refl
  | inr new ↦ rw (new, add) (hooks_in-concat ls (app i) ∙ app_none (hooks_in ls) i)
]

pub hooks_in-delete_app : (i : ℕ) (ls : List Listener) → hooks_in (delete (app i) ls) ≡ hooks_in ls
unfolding delete hooks_in
hooks_in-delete_app i [] = refl
hooks_in-delete_app i (session_hook j ∷ ls) = ap (λ n. 1 + n) (hooks_in-delete_app i ls)
hooks_in-delete_app i (app j ∷ ls) = ground (arith, hooks_in-delete_app i ls)

pub hooks_in-add_hook :
    (k : ℕ) (ls : List Listener) → hooks_in ls ≡ 0 → hooks_in (add (session_hook k) ls) ≡ 1
unfolding add
hooks_in-add_hook k ls h =
    rw (has-hooks_in k ls h, add) (hooks_in-concat ls (session_hook k) ∙ hook_one k (hooks_in ls) h)

pub add_state_listener-parts :
    (l : Listener) (m : Multiplexer Listener)
    → (m.native_listener_registered ≡ true → 1 ≤ m.registrations)
    → ((add_state_listener l m).state_listeners ≡ add l m.state_listeners)
      × (((add_state_listener l m).native_listener_registered ≡ true)
          × (1 ≤ (add_state_listener l m).registrations))
unfolding add_state_listener ensure_native_listener
add_state_listener-parts l m called = (ground arith, (ground arith, ground (arith, called)))

pub on_state-nil : (state : XrayState) → on_state state [] ≡ []
unfolding on_state each_session
on_state-nil connecting = refl
on_state-nil connected = refl
on_state-nil disconnected = refl
on_state-nil error = refl
on_state-nil blocked = refl
on_state-nil disconnecting = refl
on_state-nil reconnecting = refl

pub call_listeners-nil : (calls : List (Listener × XrayState × Text)) → call_listeners calls [] ≡ []
unfolding call_listeners
call_listeners-nil [] = refl
call_listeners-nil ((session_hook k, state, message) ∷ calls) =
    ap (λ ss. call_listeners calls ss) (on_state-nil state) ∙ call_listeners-nil calls
call_listeners-nil ((app i, state, message) ∷ calls) = call_listeners-nil calls

-- The calls that one event makes of the listeners `ls`.
abbrev pub event_calls : XrayState → Text → List Listener → List (Listener × XrayState × Text)
event_calls state message ls = map (λ l. (l, state, message)) ls

-- How many of some calls are calls of the hook.
abbrev pub hook_calls : List (Listener × XrayState × Text) → ℕ
hook_calls calls = hooks_in (map (λ (l, state, message). l) calls)

pub hook_calls-event :
    (state : XrayState) (message : Text) (ls : List Listener)
    → hook_calls (event_calls state message ls) ≡ hooks_in ls
unfolding hooks_in
hook_calls-event state message [] = refl
hook_calls-event state message (session_hook k ∷ ls) =
    ap (λ n. 1 + n) (hook_calls-event state message ls)
hook_calls-event state message (app i ∷ ls) = hook_calls-event state message ls

-- What an event is to do to a session.
abbrev pub acted : XrayState → TrafficSession → TrafficSession
acted connecting s = suspend s
acted connected s = commit_restart s
acted disconnected s = commit_restart s
acted error s = commit_restart s
acted blocked s = commit_restart s
acted disconnecting s = s
acted reconnecting s = s

abbrev pub acted_on : XrayState → Sessions → Sessions
acted_on state = map λ (tag, s). (tag, acted state s)

each_session-map :
    (f : TrafficSession → TrafficSession) (ss : Sessions)
    → each_session f ss ≡ map (λ (tag, s). (tag, f s)) ss
unfolding each_session
each_session-map f [] = refl
each_session-map f ((tag, s) ∷ ss) = ap (◌∷◌ (tag, f s)) (each_session-map f ss)

map-same : (ss : Sessions) → ss ≡ map (λ (tag, s). (tag, s)) ss
map-same [] = refl
map-same ((tag, s) ∷ ss) = ap (◌∷◌ (tag, s)) (map-same ss)

pub on_state-acted : (state : XrayState) (ss : Sessions) → on_state state ss ≡ acted_on state ss
unfolding on_state
on_state-acted connecting ss = each_session-map suspend ss
on_state-acted connected ss = each_session-map commit_restart ss
on_state-acted disconnected ss = each_session-map commit_restart ss
on_state-acted error ss = each_session-map commit_restart ss
on_state-acted blocked ss = each_session-map commit_restart ss
on_state-acted disconnecting ss = map-same ss
on_state-acted reconnecting ss = map-same ss

pub call_listeners-unhooked :
    (state : XrayState) (message : Text) (ls : List Listener) (ss : Sessions)
    → hooks_in ls ≡ 0
    → call_listeners (event_calls state message ls) ss ≡ ss
unfolding call_listeners hooks_in
call_listeners-unhooked state message [] ss h = refl
call_listeners-unhooked state message (session_hook j ∷ ls) ss h = absurd (omega arith)
call_listeners-unhooked state message (app i ∷ ls) ss h =
    call_listeners-unhooked state message ls ss h

pub call_listeners-hooked :
    (state : XrayState) (message : Text) (ls : List Listener) (ss : Sessions)
    → hooks_in ls ≡ 1
    → call_listeners (event_calls state message ls) ss ≡ on_state state ss
unfolding call_listeners hooks_in
call_listeners-hooked state message [] ss h = absurd (omega arith)
call_listeners-hooked state message (session_hook j ∷ ls) ss h =
    call_listeners-unhooked state message ls (on_state state ss) (omega arith)
call_listeners-hooked state message (app i ∷ ls) ss h = call_listeners-hooked state message ls ss h

pub each_session-nil : (f : TrafficSession → TrafficSession) → each_session f [] ≡ []
unfolding each_session
each_session-nil f = refl
