-- ===== src/AuthServer/KeyLock/Chained.antt =====
-- What the chains of `createKeyLock` of auth/server/store.ts keep true.
use zendesk_mcp_server.Base.{
  ℕ, ◌≤◌, ◌<◌, String, ◌≡◌, refl, sym, ◌≢◌, inl, inr, true, Option, none, some, arith, eq_iff,
  Bool-cases, Option-cases, ◌==◌, number_key, text_key, Run, Run-keeps,
}
use zendesk_mcp_server.Base.JsMap
use zendesk_mcp_server.Base.JsMap.{JsMap, get-put, get-delete}
use zendesk_mcp_server.AuthServer.KeyLock.{
  waiting, running, settled, KeyLock, create_key_lock, with_lock, is_due, begin_job, settle_job,
  drop_tail, clean_up, Step, called, began, ended, cleaned,
}

-- Two calls for one key, the first before the second.
abbrev pub AreOrdered : KeyLock → ℕ → ℕ → Type 0
AreOrdered l i j = (i < j) × (j < l.count) × ((l.jobs i).key ≡ (l.jobs j).key)

abbrev pub ChainedTo : KeyLock → ℕ → ℕ → Option ℕ → Type 0
ChainedTo l i j none = (l.jobs i).status ≡ settled
ChainedTo l i j (some p) = i ≤ p

abbrev pub TailOf : KeyLock → ℕ → Option ℕ → Type 0
TailOf l i none = (l.jobs i).status ≡ settled
TailOf l i (some t) = i ≤ t

pub record IsChained (l : KeyLock) : Type 0 where
  pub in_turn :
      (i j : ℕ) → AreOrdered l i j → (l.jobs j).status ≢ waiting → (l.jobs i).status ≡ settled
  pub chain : (i j : ℕ) → AreOrdered l i j → ChainedTo l i j (l.jobs j).after
  pub earlier :
      (j p : ℕ)
      → j < l.count
      → (l.jobs j).after ≡ some p
      → (p < j) × ((l.jobs p).key ≡ (l.jobs j).key)
  pub known :
      (key : String) (t : ℕ)
      → JsMap.get l.tails key ≡ some t
      → (t < l.count) × ((l.jobs t).key ≡ key)
  pub tail : (i : ℕ) → i < l.count → TailOf l i (JsMap.get l.tails (l.jobs i).key)

pub create-IsChained : IsChained create_key_lock
unfolding create_key_lock JsMap.get
create-IsChained = record {
  in_turn = λ i j o h. absurd (omega arith);
  chain = λ i j o. absurd (omega arith);
  earlier = λ j p lt h. absurd (omega arith);
  known = λ key t h. cc;
  tail = λ i lt. absurd (omega arith);
}

with_lock-IsChained : (l : KeyLock) (key : String) → IsChained l → IsChained (with_lock l key)
unfolding with_lock
with_lock-IsChained l key c = record {
  in_turn = λ i j o h. ground (arith, c.in_turn i j);
  chain = λ i j o. elim (Option-cases (JsMap.get l.tails key)) [
    | inl free ↦ ground (arith, c.chain i j, c.tail i)
    | inr (t, there) ↦ ground (arith, c.chain i j, c.tail i)
  ];
  earlier = λ j p lt h. ground (arith, c.earlier j p, c.known key p);
  known = λ k t h. ground (arith, c.known k t, get-put l.tails key k l.count, eq_iff key k);
  tail = λ i lt. ground (
    arith,
    c.tail i,
    get-put l.tails key key l.count,
    eq_iff key key,
    get-put l.tails key (l.jobs i).key l.count,
    eq_iff key (l.jobs i).key,
  );
}

-- A call that is due comes after settled calls only.
due-settled :
    (l : KeyLock) (i j : ℕ)
    → IsChained l
    → AreOrdered l i j
    → is_due l (l.jobs j).after ≡ true
    → (l.jobs i).status ≡ settled
due-settled l i j c o due = elim (Option-cases (l.jobs j).after) [
  | inl first ↦ ground (arith, c.chain i j)
  | inr (p, chained) ↦
      let (before, same) = c.earlier j p o.1 chained in ground (arith, c.chain i j, c.in_turn i p)
]

begin_job-IsChained :
    (l : KeyLock) (i : ℕ)
    → (l.jobs i).status ≡ waiting
    → is_due l (l.jobs i).after ≡ true
    → IsChained l
    → IsChained (begin_job l i)
unfolding begin_job
begin_job-IsChained l i waits due c = record {
  in_turn = λ a b o h. ground (arith, c.in_turn a b, due-settled l a b c);
  chain = λ a b o. ground (arith, c.chain a b);
  earlier = λ j p lt h. ground (arith, c.earlier j p);
  known = λ k t h. ground (arith, c.known k t);
  tail = λ a lt. ground (arith, c.tail a);
}

settle_job-IsChained :
    (l : KeyLock) (i : ℕ) → (l.jobs i).status ≡ running → IsChained l → IsChained (settle_job l i)
unfolding settle_job
settle_job-IsChained l i runs c = record {
  in_turn = λ a b o h. ground (arith, c.in_turn a b);
  chain = λ a b o. ground (arith, c.chain a b);
  earlier = λ j p lt h. ground (arith, c.earlier j p);
  known = λ k t h. ground (arith, c.known k t);
  tail = λ a lt. ground (arith, c.tail a);
}

drop_tail-IsChained :
    (l : KeyLock) (key : String) (i : ℕ) (o : Option ℕ)
    → (l.jobs i).status ≡ settled
    → (l.jobs i).key ≡ key
    → o ≡ JsMap.get l.tails key
    → IsChained l
    → IsChained (drop_tail l key i o)
drop_tail-IsChained l key i none done of_key read c = c
drop_tail-IsChained l key i (some t) done of_key read c = elim (Bool-cases (t == i)) [
  | inr other ↦ rw other c
  | inl same ↦ rw same (record {
    in_turn = c.in_turn;
    chain = c.chain;
    earlier = c.earlier;
    known = λ k u h. ground (arith, c.known k u, get-delete l.tails key k);
    tail = λ a lt. ground (
      arith,
      c.tail a,
      c.in_turn a i,
      c.known key t (sym read),
      get-delete l.tails key (l.jobs a).key,
      eq_iff key (l.jobs a).key,
    );
  })
]

clean_up-IsChained :
    (l : KeyLock) (i : ℕ) → (l.jobs i).status ≡ settled → IsChained l → IsChained (clean_up l i)
unfolding clean_up
clean_up-IsChained l i done c =
    drop_tail-IsChained l (l.jobs i).key i (JsMap.get l.tails (l.jobs i).key) done refl refl c

pub Step-IsChained : {l m : KeyLock} → Step l m → IsChained l → IsChained m
Step-IsChained (called l key) c = with_lock-IsChained l key c
Step-IsChained (began l i lt waits due) c = begin_job-IsChained l i waits due c
Step-IsChained (ended l i lt runs) c = settle_job-IsChained l i runs c
Step-IsChained (cleaned l i lt done) c = clean_up-IsChained l i done c

pub Run-IsChained : {l : KeyLock} → Run Step create_key_lock l → IsChained l
Run-IsChained = Run-keeps IsChained (λ l m step. Step-IsChained step) create-IsChained
