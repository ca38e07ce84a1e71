-- ===== src/Client/Totals/Grown.antt =====
-- What each traffic session of src/client.ts has counted never falls.
use react_native_nitro_xray.Prelude.{
  Bool, Bool-cases, List, Text, [], arith, false, if◌then◌else◌, inl, inr, refl, text_eq,
  text_eq_refl, true, ◌∷◌, ◌≡◌,
}
use react_native_nitro_xray.Stats.{
  reset, TrafficStats, TrafficSession, fresh, update, suspend, commit_restart,
}
use react_native_nitro_xray.Stats.Totals.{
  call as session_call, totals, AtMost, AtMost-refl, AtMost-trans, calls-AtMost, on_sample,
  on_suspend, on_commit, calls, update-eq-totals,
}
use react_native_nitro_xray.Native.{
  XrayState, connecting, connected, disconnected, error, blocked, disconnecting, reconnecting,
}
use react_native_nitro_xray.Client.Engine.{Sessions, Listener, session_hook, app}
use react_native_nitro_xray.Client.Sessions.{each_session, update_session, on_state, call_listeners}

abbrev pub nothing : TrafficStats
nothing = record { uplink = 0; downlink = 0 }

-- What the session of a tag has counted, nothing without one.
unfoldable pub total_of : Text → Sessions → TrafficStats
total_of tag [] = nothing
total_of tag ((t, s) ∷ rest) = if text_eq t tag then totals s else total_of tag rest

pub AtMost-nothing : (a : TrafficStats) → AtMost nothing a
AtMost-nothing a = record { up = omega arith; down = omega arith }

-- Each session grows.
pub each_session-grows :
    (f : TrafficSession → TrafficSession)
    → ((s : TrafficSession) → AtMost (totals s) (totals (f s)))
    → (tag : Text) (ss : Sessions) → AtMost (total_of tag ss) (total_of tag (each_session f ss))
unfolding total_of each_session
each_session-grows f h tag [] = AtMost-refl nothing
each_session-grows f h tag ((t, s) ∷ ss) = elim (Bool-cases (text_eq t tag)) [
  | inl same ↦ rw same (h s)
  | inr other ↦ rw other (each_session-grows f h tag ss)
]

pub update-grows :
    (raw : TrafficStats) (s : TrafficSession) → AtMost (totals s) (totals (update s raw).0)
unfolding calls session_call
update-grows raw s = calls-AtMost (on_sample raw ∷ []) s

pub suspend-grows : (s : TrafficSession) → AtMost (totals s) (totals (suspend s))
unfolding calls session_call
suspend-grows s = calls-AtMost (on_suspend ∷ []) s

pub commit-grows : (s : TrafficSession) → AtMost (totals s) (totals (commit_restart s))
unfolding calls session_call
commit-grows s = calls-AtMost (on_commit ∷ []) s

pub on_state-grows :
    (state : XrayState) (tag : Text) (ss : Sessions)
    → AtMost (total_of tag ss) (total_of tag (on_state state ss))
unfolding on_state
on_state-grows connecting tag ss = each_session-grows suspend suspend-grows tag ss
on_state-grows connected tag ss = each_session-grows commit_restart commit-grows tag ss
on_state-grows disconnected tag ss = each_session-grows commit_restart commit-grows tag ss
on_state-grows error tag ss = each_session-grows commit_restart commit-grows tag ss
on_state-grows blocked tag ss = each_session-grows commit_restart commit-grows tag ss
on_state-grows disconnecting tag ss = AtMost-refl (total_of tag ss)
on_state-grows reconnecting tag ss = AtMost-refl (total_of tag ss)

pub call_listeners-grows :
    (calls : List (Listener × XrayState × Text)) (tag : Text) (ss : Sessions)
    → AtMost (total_of tag ss) (total_of tag (call_listeners calls ss))
unfolding call_listeners
call_listeners-grows [] tag ss = AtMost-refl (total_of tag ss)
call_listeners-grows ((session_hook k, state, message) ∷ calls) tag ss =
    AtMost-trans (on_state-grows state tag ss) (call_listeners-grows calls tag (on_state state ss))
call_listeners-grows ((app i, state, message) ∷ calls) tag ss = call_listeners-grows calls tag ss

pub branch-grows :
    (b : Bool) {a a' c c' : TrafficStats}
    → AtMost a a'
    → AtMost c c'
    → AtMost (if b then a else c) (if b then a' else c')
branch-grows true h k = h
branch-grows false h k = k

pub update_session-grows :
    (tag : Text) (raw : TrafficStats) (shown : Text) (ss : Sessions)
    → AtMost (total_of shown ss) (total_of shown (update_session tag raw ss).0)
unfolding update_session total_of
update_session-grows tag raw shown [] = AtMost-nothing _
update_session-grows tag raw shown ((t, s) ∷ ss) = elim (Bool-cases (text_eq t tag)) [
  | inl same ↦
      rw (same, update_session)
        (branch-grows (text_eq t shown) (update-grows raw s) (AtMost-refl (total_of shown ss)))
  | inr other ↦
      rw (other, update_session)
        (branch-grows (text_eq t shown) (AtMost-refl (totals s))
          (update_session-grows tag raw shown ss))
]

-- What `stats()` returns is what the session then holds.
pub update_session-shown :
    (tag : Text) (raw : TrafficStats) (ss : Sessions)
    → (update_session tag raw ss).1 ≡ total_of tag (update_session tag raw ss).0
unfolding update_session total_of
update_session-shown tag raw [] = rw (text_eq_refl tag) (update-eq-totals fresh raw)
update_session-shown tag raw ((t, s) ∷ ss) = elim (Bool-cases (text_eq t tag)) [
  | inl same ↦ rw (same, update_session) (rw same (update-eq-totals s raw))
  | inr other ↦ rw (other, update_session) (rw other (update_session-shown tag raw ss))
]

pub reset-totals : (s : TrafficSession) → totals (reset s) ≡ nothing
unfolding totals reset
reset-totals s = ground arith

pub reset-nothing : (tag : Text) (ss : Sessions) → total_of tag (each_session reset ss) ≡ nothing
unfolding total_of each_session
reset-nothing tag [] = refl
reset-nothing tag ((t, s) ∷ ss) = elim (Bool-cases (text_eq t tag)) [
  | inl same ↦ rw same (reset-totals s)
  | inr other ↦ rw other (reset-nothing tag ss)
]
