-- ===== src/WorkPlan/Mutations/Progress.antt =====
-- Which states of progress, of a merge unit and of a contract lead where.
use changesaga.Prelude.{
  ◌≡◌, refl, inl, inr, Bool, true, false, List, [], ◌∷◌, All, subst, Text, codes, text_eq,
  text_eq_sound, has, Option, some, Result, ok, err, arith, Bool-cases,
}
use changesaga.WorkPlan.Records.{ProgressEvent, MergeEvent, ContractEvent, WorkItem, Contract, Plan}
use changesaga.WorkPlan.Readiness.{progress_heads, merge_heads, contract_heads, single_state}
use changesaga.WorkPlan.Checks.{Library}
use changesaga.WorkPlan.Mutations.{MutationError, Outcome, World}
use changesaga.WorkPlan.Mutations.Transitions.{
  progress_transition, merge_transition, contract_transition,
}
use changesaga.WorkPlan.Mutations.Events.{
  record_progress_of, record_merge_of, record_contract_state_of,
}
use changesaga.WorkPlan.Mutations.Recorded.{single_head-permit, record_progress_of-eq-ok}
use changesaga.WorkPlan.Mutations.Guards.{record_merge_of-eq-ok, record_contract_state_of-eq-ok}

-- States that permitted transitions lead to.
pub data Leads (transition : Text → Text → Bool) : Text → Text → Type 0 where
  here : {s : Text} → Leads transition s s
  via :
      {r t : Text} (s : Text) → transition r s ≡ true → Leads transition s t → Leads transition r t

abbrev pub progress_states : List Text
progress_states =
    codes "planned"
    ∷ codes "ready"
    ∷ codes "in_progress"
    ∷ codes "blocked"
    ∷ codes "done"
    ∷ codes "cancelled"
    ∷ []

at_state : (P : Text → Type 0) (ss : List Text) → All P ss → (s : Text) → has s ss ≡ true → P s
unfolding has
at_state P [] h s i = cc
at_state P (r ∷ ss) h s i = elim (Bool-cases (text_eq r s)) [
  | inl e ↦ subst P (text_eq_sound r s e) h.0
  | inr n ↦ at_state P ss h.1 s (ground arith)
]

-- Work can still be done, and be cancelled.
abbrev pub IsOpen : Text → Type 0
IsOpen s =
    Leads progress_transition s (codes "done") × Leads progress_transition s (codes "cancelled")

started : IsOpen (codes "in_progress")
unfolding progress_transition
started = (via (codes "done") refl here, via (codes "cancelled") refl here)

to_started : (s : Text) → progress_transition s (codes "in_progress") ≡ true → IsOpen s
to_started s h = (via (codes "in_progress") h started.0, via (codes "in_progress") h started.1)

-- From every state of progress but cancelled, permitted transitions lead to done and to cancelled.
pub progress_transition-IsOpen :
    (s : Text) → has s progress_states ≡ true → text_eq s (codes "cancelled") ≡ false → IsOpen s
unfolding progress_transition
progress_transition-IsOpen =
    at_state (λ s. text_eq s (codes "cancelled") ≡ false → IsOpen s) progress_states
      (
        λ n. to_started (codes "planned") refl,
        (
          λ n. to_started (codes "ready") refl,
          (
            λ n. started,
            (
              λ n. to_started (codes "blocked") refl,
              (λ n. to_started (codes "done") refl, ((λ n. cc), tt)),
            ),
          ),
        ),
      )

-- The call returns an error, and nothing is written.
abbrev pub IsRefused : Result MutationError Outcome → Type 0
IsRefused r = (e : MutationError) × (r ≡ err e)

refused : (r : Result MutationError Outcome) → ((out : Outcome) → r ≡ ok out → ⊥) → IsRefused r
refused (ok out) h = absurd (h out refl)
refused (err e) h = (e, refl)

-- An event to be recorded, with the item or the contract of its stream.
pub data Attempt : Type 0 where
  progress_of : WorkItem → ProgressEvent → Attempt
  merge_of : WorkItem → MergeEvent → Attempt
  contract_state_of : Contract → ContractEvent → Attempt

-- The state at the single head of its stream, and the state in which such a stream has ended.
abbrev pub head_state : Attempt → Option Text
head_state (progress_of item e) = single_state (progress_heads item)
head_state (merge_of item e) = single_state (merge_heads item e.unit)
head_state (contract_state_of contract e) = single_state (contract_heads contract)

abbrev pub end_state : Attempt → Text
end_state (progress_of item e) = codes "cancelled"
end_state (merge_of item e) = codes "abandoned"
end_state (contract_state_of contract e) = codes "waived"

module _ (lib : Library) (w : World) (plan : Plan) (request_id digest : Text) where
  abbrev pub run_attempt : Text → Attempt → Result MutationError Outcome
  run_attempt id (progress_of item e) = record_progress_of lib w plan request_id digest item id e
  run_attempt id (merge_of item e) = record_merge_of lib w plan request_id digest item id e
  run_attempt id (contract_state_of contract e) =
      record_contract_state_of lib w plan request_id digest contract id e

  -- If the single head of the stream that an event is for has ended, it is refused, whatever its
  -- parents and its state: RecordProgress refuses every event of an item whose progress is cancelled,
  -- RecordMerge every event of a merge unit that is abandoned, and RecordContractState every event of
  -- a contract that is waived, each whatever the other streams are.
  pub recorded_after_end-IsRefused :
      (id : Text) (a : Attempt) → head_state a ≡ some (end_state a) → IsRefused (run_attempt id a)
  unfolding progress_transition merge_transition contract_transition
  recorded_after_end-IsRefused id (progress_of item e) ended =
      refused (record_progress_of lib w plan request_id digest item id e) λ out h. cc (
        single_head-permit lib w plan request_id digest progress_transition _ e.state _
          (codes "cancelled")
          (record_progress_of-eq-ok lib w plan request_id digest item id e out h).2 ended)
  recorded_after_end-IsRefused id (merge_of item e) ended =
      refused (record_merge_of lib w plan request_id digest item id e) λ out h. cc (
        single_head-permit lib w plan request_id digest merge_transition _ e.state _
          (codes "abandoned") (record_merge_of-eq-ok lib w plan request_id digest item id e out h).2
          ended)
  recorded_after_end-IsRefused id (contract_state_of contract e) ended =
      refused (record_contract_state_of lib w plan request_id digest contract id e) λ out h. cc (
        single_head-permit lib w plan request_id digest contract_transition _ e.state _
          (codes "waived")
          (record_contract_state_of-eq-ok lib w plan request_id digest contract id e out h).2 ended)
