-- ===== src/Orchestrator/Executor/Laws.antt =====
-- What one run of the executor writes and sends.
use batch_it_protocol.Prelude.{
  Bool-cases, List, Option, Option-cases, [], arith, false, inl, inr, none, refl, some, true, ℕ,
  ◌++◌, ◌∷◌, ◌≡◌, ◌⊎◌,
}
use Prim.Native.String.{String}
use batch_it_protocol.Orchestrator.Executor.{
  Action, Inputs, Run, initial_state, main, mode_of, save, set_to, submit, submit_bundle,
}
use batch_it_protocol.Orchestrator.Jito.{BundleResult, not_sent, sent}
use batch_it_protocol.Orchestrator.Stages.{
  LaunchState, SubmissionMode, bundle_submitted, confirming, failed, jito, sequential_debug,
}

-- The bundles among the actions.
pub submissions : List Action → List (List String)
submissions [] = []
submissions (save s ∷ actions) = submissions actions
submissions (submit txs ∷ actions) = txs ∷ submissions actions

-- How a run that submitted the bundle `txs` ends: the identifier of the bundle is saved and the run
-- succeeds, or the error is saved and the run fails.
abbrev pub IsSettled : Inputs → List String → LaunchState → ℕ → Type 0
IsSettled i txs s status =
    ((id : String) × (i.submit txs ≡ sent id)
      × (s.stage ≡ confirming)
      × (s.last_bundle_id ≡ some id)
      × (status ≡ 0))
    ⊎ ((error : String) × (i.submit txs ≡ not_sent error)
        × (s.stage ≡ failed)
        × (s.last_error ≡ some error)
        × (status ≡ 1))

abbrev pub WritesAhead : Inputs → Run → Type 0
WritesAhead i run =
    (submissions run.actions ≡ [])
    ⊎ ((txs : List String) × (before after : LaunchState) × (run.actions
          ≡ save before ∷ submit txs ∷ save after ∷ [])
        × (i.allow_sequential_rpc ≡ false)
        × (before.stage ≡ bundle_submitted)
        × IsSettled i txs after run.status)

BundleResult-cases :
    (r : BundleResult) → ((id : String) × (r ≡ sent id)) ⊎ ((error : String) × (r ≡ not_sent error))
BundleResult-cases (sent id) = inl (id, refl)
BundleResult-cases (not_sent error) = inr (error, refl)

submit_bundle-WritesAhead :
    (i : Inputs) (s : LaunchState) (txs : List String)
    → i.allow_sequential_rpc ≡ false
    → WritesAhead i (submit_bundle i s txs)
unfolding submit_bundle submissions
submit_bundle-WritesAhead i s txs production = elim (Option-cases (i.tip)) [
  | inl no_tip ↦ inl (ground arith)
  | inr (tip, e) ↦
      let all : List String = txs ++ (tip ∷ []) in
      let before : LaunchState = record s { stage = bundle_submitted } in
      elim (BundleResult-cases (i.submit all)) [
        | inl (id, answered) ↦ inr (
          all,
          before,
          record before { last_bundle_id = some id; stage = confirming },
          ground arith,
          production,
          refl,
          inl (id, answered, refl, refl, ground arith),
        )
        | inr (error, answered) ↦ inr (
          all,
          before,
          record before { stage = failed; last_error = some error },
          ground arith,
          production,
          refl,
          inr (error, answered, refl, refl, ground arith),
        )
      ]
]

in_mode-WritesAhead :
    (i : Inputs) (s : LaunchState) (txs : List String) (m : SubmissionMode)
    → (m ≡ sequential_debug) ⊎ (i.allow_sequential_rpc ≡ false)
    → WritesAhead i (elim m [
      | jito ↦ submit_bundle i s txs
      | sequential_debug ↦ record { actions = []; status = 1 }
    ])
unfolding submissions
in_mode-WritesAhead i s txs jito (inl wrong) = cc
in_mode-WritesAhead i s txs jito (inr production) = submit_bundle-WritesAhead i s txs production
in_mode-WritesAhead i s txs sequential_debug h = inl refl

mode_of_cases : (i : Inputs) → (mode_of i ≡ sequential_debug) ⊎ (i.allow_sequential_rpc ≡ false)
unfolding mode_of
mode_of_cases i = ground arith

-- The part of `main` behind its first tests.
with_file-WritesAhead :
    (i : Inputs) (s : LaunchState) (file : Option (List String))
    → WritesAhead i (elim file [
      | none ↦ record { actions = []; status = 1 }
      | some txs ↦ elim (mode_of i) [
        | jito ↦ submit_bundle i s txs
        | sequential_debug ↦ record { actions = []; status = 1 }
      ]
    ])
unfolding submissions
with_file-WritesAhead i s none = inl refl
with_file-WritesAhead i s (some txs) = in_mode-WritesAhead i s txs (mode_of i) (mode_of_cases i)

-- A run submits no bundle at all, or exactly one. It submits only where sequential submission is off,
-- it has saved the stage `bundle_submitted` just before, and it saves the answer just after: the
-- identifier of the bundle, or the error with the exit status 1.
pub main-WritesAhead : (i : Inputs) → WritesAhead i (main i)
unfolding main submissions
main-WritesAhead i = elim (Bool-cases (set_to i.pool)) [
  | inr no_pool ↦ rw no_pool (inl refl)
  | inl pool ↦ rw pool (elim (Bool-cases (i.keypair_readable)) [
    | inr no_key ↦ rw no_key (inl refl)
    | inl key ↦ rw key (elim (Bool-cases (set_to i.bundle_path)) [
      | inr no_path ↦ rw no_path (inl refl)
      | inl path ↦ rw path (with_file-WritesAhead i (initial_state i) i.bundle_file)
    ])
  ])
]

-- Whatever state `s` an earlier run has saved, a run with the pool set, a readable key file, a readable
-- bundle file, a tip and no sequential submission submits the bundle with the tip, exactly once: the
-- saved stage is never looked at.
pub main_resubmits :
    (i : Inputs) (s : LaunchState) (txs : List String) (tip : String)
    → i.saved_state ≡ some s
    → set_to i.pool ≡ true
    → i.keypair_readable ≡ true
    → set_to i.bundle_path ≡ true
    → i.bundle_file ≡ some txs
    → i.tip ≡ some tip
    → i.allow_sequential_rpc ≡ false
    → submissions (main i).actions ≡ (txs ++ (tip ∷ [])) ∷ []
unfolding main submissions
main_resubmits i s txs tip hs hp hk hb hf ht ha = ground arith
