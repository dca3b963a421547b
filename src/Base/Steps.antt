-- ===== src/Base/Steps.antt =====
-- Runs of a state machine: its states linked by the steps of a relation, the last step outermost.
pub data Run {A : Type 0} (Step : A → A → Type 0) (start : A) : A → Type 0 where
  at_start : Run Step start start
  then_step : {middle last : A} → Run Step start middle → Step middle last → Run Step start last

-- What every step keeps, a run keeps.
pub Run-keeps :
    {A : Type 0} {Step : A → A → Type 0} (P : A → Type 0)
    → ((a b : A) → Step a b → P a → P b)
    → {a b : A} → P a
    → Run Step a b
    → P b
Run-keeps P keeps p at_start = p
Run-keeps P keeps p (then_step {middle} {last} run step) =
    keeps middle last step (Run-keeps P keeps p run)
