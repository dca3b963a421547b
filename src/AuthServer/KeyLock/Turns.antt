-- ===== src/AuthServer/KeyLock/Turns.antt =====
-- Whose turn it is under `createKeyLock` of auth/server/store.ts.
use zendesk_mcp_server.Base.{
  ℕ, zero, suc, ◌≤◌, ◌<◌, ◌≡◌, refl, ◌∙◌, ◌⊎◌, inl, inr, true, arith, Option-cases, number_key,
  text_key, Run,
}
use zendesk_mcp_server.AuthServer.KeyLock.{
  Status, waiting, running, settled, KeyLock, create_key_lock, is_due, Step,
}
use zendesk_mcp_server.AuthServer.KeyLock.Chained.{IsChained, Run-IsChained}

-- Two calls for the same key never run together, and none runs before an earlier one of its key has
-- settled, however starts, ends and cleanups interleave.
pub one_at_a_time :
    {l : KeyLock} (i j : ℕ)
    → Run Step create_key_lock l
    → i < j
    → j < l.count
    → (l.jobs i).key ≡ (l.jobs j).key
    → (l.jobs j).status ≡ running
    → (l.jobs i).status ≡ settled
one_at_a_time i j run before made same runs =
    (Run-IsChained run).in_turn i j (before, made, same) (λ h. cc)

status-cases : (s : Status) → (s ≡ waiting) ⊎ ((s ≡ running) ⊎ (s ≡ settled))
status-cases waiting = inl refl
status-cases running = inr (inl refl)
status-cases settled = inr (inr refl)

-- A call of a key that runs or may begin, no later than `j`.
abbrev pub HasTurn : KeyLock → ℕ → Type 0
HasTurn l j =
    (i : ℕ) × (i ≤ j)
    × ((l.jobs i).key ≡ (l.jobs j).key)
    × (((l.jobs i).status ≡ running)
        ⊎ (((l.jobs i).status ≡ waiting) × (is_due l (l.jobs i).after ≡ true)))

turn_below :
    (bound : ℕ) (l : KeyLock) (j : ℕ)
    → IsChained l
    → j < bound
    → j < l.count
    → (l.jobs j).status ≡ waiting
    → HasTurn l j
turn_below zero l j c lt made waits = absurd (omega arith)
turn_below (suc bound) l j c lt made waits = elim (Option-cases (l.jobs j).after) [
  | inl first ↦ (j, omega arith, refl, inr (waits, rw first refl))
  | inr (p, chained) ↦
      let (before, same) = c.earlier j p made chained in
      elim (status-cases (l.jobs p).status) [
        | inl held ↦
            let (i, le, of_key, turn) = turn_below bound l p c (omega arith) (omega arith) held in
            (i, omega arith, of_key ∙ same, turn)
        | inr (inl runs) ↦ (p, omega arith, same, inl runs)
        | inr (inr done) ↦ (j, omega arith, refl, inr (waits, ground arith))
      ]
]

-- No call waits for nothing: where a call waits, some call of the same key, no later than it, runs or
-- may begin at once.
pub never_stuck :
    {l : KeyLock} (j : ℕ)
    → Run Step create_key_lock l
    → j < l.count
    → (l.jobs j).status ≡ waiting
    → HasTurn l j
never_stuck {l} j run made waits =
    turn_below (suc j) l j (Run-IsChained run) (omega arith) made waits
