-- ===== src/Lock/Progress.antt =====
-- Every operation under the lock gets its turn, whatever became of the ones before it.
use react_native_nitro_xray.Prelude.{
  All, All-append, Bool, Bool-cases, List, [], ap, arith, eqb_refl, false, inl, inr, length, refl,
  suc, sym, true, ℕ, ◌++◌, ◌<◌, ◌==◌, ◌∙◌, ◌∷◌, ◌≡◌,
}
use mathlib.Core.Path.{◌≡⟨◌⟩◌, ◌∎}
use react_native_nitro_xray.Lock.{
  Status, pending, fulfilled, rejected, is_settled, Entry, Calls, chain_of, Job, start_op,
  settle_op, release_chain, update_at, Event, call, start, settle, release, step, run,
}

-- How the operation of the call with `k` calls before it ends.
abbrev pub Outcomes : Type 0
Outcomes = ℕ → Bool

abbrev pub outcome : Bool → Status
outcome true = fulfilled
outcome false = rejected

-- The events that remain for the call with `k` calls before it.
abbrev pub turn : Outcomes → ℕ → List Event
turn ends k = start k ∷ settle k (outcome (ends k)) ∷ release k ∷ []

-- Those of all the calls, the oldest first.
unfoldable pub turns : Outcomes → Calls → List Event
turns ends [] = []
turns ends (e ∷ older) = turns ends older ++ turn ends (length older)

-- The run of a call after its turn: what it was, or what its operation ended with.
abbrev pub ended : Status → Status → Status
ended pending s = s
ended s _ = s

-- Every call has been through, with the outcome that its operation had or now has.
abbrev pub Finished : Outcomes → Calls → Calls → Type 0
Finished ends [] [] = Unit
Finished ends (e ∷ older) (e' ∷ older') =
    (e'.started ≡ true)
    × (e'.run ≡ ended e.run (outcome (ends (length older))))
    × (e'.chain ≡ fulfilled)
    × Finished ends older older'
Finished ends _ _ = ⊥

length-update_at :
    (k : ℕ) (job : Job) (calls : Calls) → length (update_at k job calls) ≡ length calls
unfolding update_at
length-update_at k job [] = refl
length-update_at k job (e ∷ older) = elim (Bool-cases (length older == k)) [
  | inl here ↦ rw here refl
  | inr later ↦ rw later (ap suc (length-update_at k job older))
]

run-append : (xs ys : List Event) (calls : Calls) → run (xs ++ ys) calls ≡ run ys (run xs calls)
unfolding run
run-append [] ys calls = refl
run-append (x ∷ xs) ys calls = run-append xs ys (step x calls)

-- An event of a call below `n`.
abbrev Below : ℕ → Event → Type 0
Below n call = ⊥
Below n (start k) = k < n
Below n (settle k s) = k < n
Below n (release k) = k < n

update_at-cons :
    (k : ℕ) (job : Job) (e : Entry) (older : Calls)
    → k < length older
    → update_at k job (e ∷ older) ≡ e ∷ update_at k job older
unfolding update_at
update_at-cons k job e older h = ground arith

step-cons :
    (ev : Event) (e : Entry) (older : Calls)
    → Below (length older) ev
    → (step ev (e ∷ older) ≡ e ∷ step ev older) × (length (step ev older) ≡ length older)
unfolding step
step-cons call e older h = absurd h
step-cons (start k) e older h =
    (update_at-cons k start_op e older h, length-update_at k start_op older)
step-cons (settle k s) e older h =
    (update_at-cons k (settle_op s) e older h, length-update_at k (settle_op s) older)
step-cons (release k) e older h =
    (update_at-cons k release_chain e older h, length-update_at k release_chain older)

-- Events of the older calls leave the newest alone.
run-cons :
    (evs : List Event) (e : Entry) (older : Calls)
    → All (Below (length older)) evs
    → (run evs (e ∷ older) ≡ e ∷ run evs older) × (length (run evs older) ≡ length older)
unfolding run
run-cons [] e older h = (refl, refl)
run-cons (ev ∷ evs) e older (p, h) =
    let (one, same) = step-cons ev e older p in
    let rest = run-cons evs e (step ev older) (rw same h) in
    (ap (run evs) one ∙ rest.0, rest.1 ∙ same)

Below-weaken : (n : ℕ) (evs : List Event) → All (Below n) evs → All (Below (suc n)) evs
Below-weaken n [] h = tt
Below-weaken n (call ∷ evs) h = absurd h.0
Below-weaken n (start k ∷ evs) h = (omega arith, Below-weaken n evs h.1)
Below-weaken n (settle k s ∷ evs) h = (omega arith, Below-weaken n evs h.1)
Below-weaken n (release k ∷ evs) h = (omega arith, Below-weaken n evs h.1)

turns-Below : (ends : Outcomes) (calls : Calls) → All (Below (length calls)) (turns ends calls)
unfolding turns
turns-Below ends [] = tt
turns-Below ends (e ∷ older) =
    All-append (Below (suc (length older))) (turns ends older) (turn ends (length older))
      (Below-weaken (length older) (turns ends older) (turns-Below ends older))
      (omega arith, (omega arith, (omega arith, tt)))

-- The entry of a call after its turn.
abbrev served : Outcomes → ℕ → Entry → Entry
served ends k e = record { started = true; run = ended e.run (outcome (ends k)); chain = fulfilled }

outcome-is_settled : (b : Bool) → is_settled (outcome b) ≡ true
outcome-is_settled true = refl
outcome-is_settled false = refl

serve_fields :
    (older : Calls) (started : Bool) (r c : Status) (b : Bool)
    → chain_of older ≡ fulfilled
    → let e : Entry = record { started = started; run = r; chain = c } in
      release_chain older (settle_op (outcome b) older (start_op older e))
      ≡ record { started = true; run = ended r (outcome b); chain = fulfilled }
unfolding start_op settle_op release_chain
serve_fields older started pending c true h = rw h refl
serve_fields older started pending c false h = rw h refl
serve_fields older started fulfilled c b h = rw h refl
serve_fields older started rejected c b h = rw h refl

update_at-head :
    (job : Job) (e : Entry) (older : Calls)
    → update_at (length older) job (e ∷ older) ≡ job older e ∷ older
unfolding update_at
update_at-head job e older = rw (eqb_refl (length older)) refl

run-turn :
    (ends : Outcomes) (e : Entry) (older : Calls)
    → chain_of older ≡ fulfilled
    → run (turn ends (length older)) (e ∷ older) ≡ served ends (length older) e ∷ older
unfolding run step
run-turn ends e older h =
    simp update_at-head
      (ap (λ x. x ∷ older) (serve_fields older e.started e.run e.chain (ends (length older)) h))

chain_of-Finished :
    (ends : Outcomes) (calls after : Calls) → Finished ends calls after → chain_of after ≡ fulfilled
chain_of-Finished ends [] [] h = refl
chain_of-Finished ends (e ∷ older) (e' ∷ older') h = h.2
chain_of-Finished ends [] (e' ∷ older') h = absurd h
chain_of-Finished ends (e ∷ older) [] h = absurd h

turns-cons :
    (ends : Outcomes) (e : Entry) (older : Calls)
    → Finished ends older (run (turns ends older) older)
    → run (turns ends (e ∷ older)) (e ∷ older)
      ≡ served ends (length older) e ∷ run (turns ends older) older
unfolding turns
turns-cons ends e older ih =
    let done = run (turns ends older) older in
    let c = run-cons (turns ends older) e older (turns-Below ends older) in
    run (turns ends older ++ turn ends (length older)) (e ∷ older)
    ≡⟨ run-append (turns ends older) (turn ends (length older)) (e ∷ older) ⟩
      run (turn ends (length older)) (run (turns ends older) (e ∷ older))
    ≡⟨ ap (run (turn ends (length older))) c.0 ⟩ run (turn ends (length older)) (e ∷ done)
    ≡⟨ ap (λ n. run (turn ends n) (e ∷ done)) (sym c.1) ⟩ run (turn ends (length done)) (e ∷ done)
    ≡⟨ run-turn ends e done (chain_of-Finished ends older done ih) ⟩
      served ends (length done) e ∷ done
    ≡⟨ ap (λ n. served ends n e ∷ done) c.1 ⟩ served ends (length older) e ∷ done ∎

-- From any state of the lock, whatever the operations end with, there are events that bring every
-- call through: each operation is called, each `run` has its operation's outcome (one that had
-- settled keeps it), and every chain is fulfilled, rejections before it or not.
pub turns-Finished :
    (ends : Outcomes) (calls : Calls) → Finished ends calls (run (turns ends calls) calls)
unfolding turns
turns-Finished ends [] = unfold run in tt
turns-Finished ends (e ∷ older) =
    let ih = turns-Finished ends older in rw (turns-cons ends e older ih) (refl, refl, refl, ih)
