-- ===== src/RemoteSteps.antt =====
-- The step reports that internal/remotedeploy and internal/remotepurge share: `StepResult`, its
-- status, and the functions over the list of steps, which both packages declare with one text. The
-- names of the steps are a parameter. Durations and times are left out.
pub mod Sequence
pub mod Order
pub mod Search
use dijex_api.Prelude.{
  String, Bool, true, false, List, [], ◌∷◌, ◌++◌, map, Option, none, some, if◌then◌else◌, length,
  ltb, take,
}
use dijex_api.Text.{Bytes, codes, trim_space, is_empty, trim_prefix, split, bytes_eq}

-- `StatusOK` and its siblings; `unset` is the empty string.
pub data Status : Type 0 where
  ok skipped failed not_run unset : Status

-- What a step writes into its report.
pub record Verdict : Type 0 where
  pub status : Status
  pub message : Bytes

pub record StepResult (N : Type 0) : Type 0 where
  pub name : N
  pub title : String
  pub status : Status
  pub message : Bytes

abbrev pub waiting : {N : Type 0} → N → String → StepResult N
waiting name title = record { name = name; title = title; status = not_run; message = [] }

abbrev pub is_failed : Status → Bool
is_failed failed = true
is_failed _ = false

-- One round of `markAllNotRun` and of `markRemainingNotRun`.
abbrev not_run_if_unset : Status → Status
not_run_if_unset unset = not_run
not_run_if_unset st = st

abbrev pub passes : Status → Bool
passes failed = false
passes not_run = false
passes _ = true

module _ {N : Type 0} (same : N → N → Bool) where
  -- `findStep`, and the write through the pointer that it returns; `none` is its panic.
  unfoldable pub set_step : N → Verdict → List (StepResult N) → Option (List (StepResult N))
  set_step name v [] = none
  set_step name v (st ∷ sts) =
      let later = set_step name v sts in
      if same st.name name
      then some (record st { status = v.status; message = v.message } ∷ sts)
      else elim later [ none ↦ none | some rest ↦ some (st ∷ rest) ]

  mark_behind : N → Bool → List (StepResult N) → List (StepResult N)
  mark_behind name passed [] = []
  mark_behind name false (st ∷ sts) = st ∷ mark_behind name (same st.name name) sts
  mark_behind name true (st ∷ sts) =
      record st { status = not_run_if_unset st.status } ∷ mark_behind name true sts

  unfoldable pub mark_remaining_not_run : N → List (StepResult N) → List (StepResult N)
  unfolding mark_behind
  mark_remaining_not_run name steps = mark_behind name false steps

unfoldable pub mark_all_not_run : {N : Type 0} → List (StepResult N) → List (StepResult N)
mark_all_not_run [] = []
mark_all_not_run (st ∷ sts) =
    record st { status = not_run_if_unset st.status } ∷ mark_all_not_run sts

unfoldable pub all_ok : {N : Type 0} → List (StepResult N) → Bool
all_ok [] = true
all_ok (st ∷ sts) = if passes st.status then all_ok sts else false

-- `firstNonEmpty`
unfoldable pub first_non_empty : List Bytes → Bytes
first_non_empty [] = []
first_non_empty (p ∷ ps) = if is_empty (trim_space p) then first_non_empty ps else p

-- `shortID` and `shortIDs`
unfoldable pub short_id : Bytes → Bytes
short_id id =
    let bare = trim_prefix (trim_space id) (codes "sha256:") in
    if ltb 12 (length bare) then take 12 bare else bare

unfoldable pub short_ids : List Bytes → List Bytes
unfolding short_id
short_ids ids = map short_id ids

abbrev pub contains_id : Bytes → List Bytes → Bool
contains_id id [] = false
contains_id id (x ∷ xs) = if bytes_eq x id then true else contains_id id xs

-- The loop over lines of `findExistingContainerIDs`: `out` is the list so far, and the map `seen`
-- holds its members.
pub collect_ids : List Bytes → List Bytes → List Bytes
collect_ids [] out = out
collect_ids (line ∷ lines) out =
    let id = trim_space line in
    collect_ids lines
      (if is_empty id then out else if contains_id id out then out else out ++ id ∷ [])

unfoldable pub container_ids : List Bytes → List Bytes → List Bytes
unfolding collect_ids split
container_ids [] out = out
container_ids (src ∷ srcs) out = container_ids srcs (collect_ids (split 10 src) out)
