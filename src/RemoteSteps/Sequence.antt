-- ===== src/RemoteSteps/Sequence.antt =====
-- What a list of step reports says of the order in which the steps ran.
use dijex_api.Prelude.{
  Bool, true, false, not, ◌≡◌, refl, List, [], ◌∷◌, ◌++◌, ◌⊎◌, ◌↔◌, inl, inr, All, arith,
  Bool-cases,
}
use dijex_api.RemoteSteps.{
  Status, ok, skipped, failed, not_run, Verdict, StepResult, all_ok, is_failed,
}

-- The step ran and did not fail.
abbrev pub HasPassed : Status → Type 0
HasPassed st = (st ≡ ok) ⊎ (st ≡ skipped)

abbrev pub Passed : {N : Type 0} → List (StepResult N) → Type 0
Passed = All (λ st. HasPassed st.status)

abbrev pub NotRun : {N : Type 0} → List (StepResult N) → Type 0
NotRun = All (λ st. st.status ≡ not_run)

-- Steps that passed, then either the end or one step that failed and, behind it, none that ran.
abbrev pub IsSequential : {N : Type 0} → List (StepResult N) → Type 0
IsSequential [] = Unit
IsSequential (st ∷ sts) =
    (HasPassed st.status × IsSequential sts) ⊎ ((st.status ≡ failed) × NotRun sts)

-- The Boolean that a step returns says whether it passed.
abbrev pub Agrees : Bool → Status → Type 0
Agrees true st = HasPassed st
Agrees false st = st ≡ failed

-- The first reports replaced by these verdicts.
abbrev pub fill : {N : Type 0} → List Verdict → List (StepResult N) → List (StepResult N)
fill [] sts = sts
fill (v ∷ vs) [] = []
fill (v ∷ vs) (st ∷ sts) = record st { status = v.status; message = v.message } ∷ fill vs sts

all_ok_cons :
    (N : Type 0) (st : StepResult N) (sts : List (StepResult N))
    → HasPassed st.status
    → all_ok (st ∷ sts) ≡ all_ok sts
unfolding all_ok
all_ok_cons N st sts h = ground arith

-- Of reports in sequence `allOK` finds whether all steps passed.
pub all_ok_iff :
    {N : Type 0} (sts : List (StepResult N)) → IsSequential sts → (all_ok sts ≡ true) ↔ Passed sts
unfolding all_ok
all_ok_iff [] h = (λ _. tt, λ _. refl)
all_ok_iff (st ∷ sts) (inl (p, h)) =
    let (to, from) = all_ok_iff sts h in
    (λ e. (p, to (ground arith)), λ (_, hs). (ground (arith, from hs)))
all_ok_iff (st ∷ sts) (inr (e, h)) = (λ o. absurd (ground arith), λ (p, _). absurd (ground arith))

-- Steps that passed may stand in front of a sequence.
pub IsSequential-append :
    {N : Type 0} (xs ys : List (StepResult N))
    → Passed xs
    → IsSequential ys
    → IsSequential (xs ++ ys)
IsSequential-append [] ys h k = k
IsSequential-append (x ∷ xs) ys (p, h) k = inl (p, IsSequential-append xs ys h k)

-- A failed step among them: not all passed.
pub failed-not-Passed :
    {N : Type 0} (xs : List (StepResult N)) (st : StepResult N) (ys : List (StepResult N))
    → st.status ≡ failed
    → ¬ Passed (xs ++ st ∷ ys)
failed-not-Passed [] st ys e (p, _) = ground arith
failed-not-Passed (x ∷ xs) st ys e (_, h) = failed-not-Passed xs st ys e h

pub last-IsSequential :
    {N : Type 0} (st : StepResult N)
    → Agrees (not (is_failed st.status)) st.status
    → IsSequential (st ∷ [])
last-IsSequential st a = elim (Bool-cases (is_failed st.status)) [
  | inl e ↦ inr (rw e at a, tt)
  | inr e ↦ inl (rw e at a, tt)
]
