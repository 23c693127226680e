-- ===== src/Escrow/Ledger/Refinement.antt =====
-- The program implements the deal: whatever is done to a pool is, seen through `view`, a run of moves.
pub mod Raise
pub mod Payout
use batch_it_protocol.Prelude.{List, Option-cases, arith, false, inl, inr, ℕ, ◌≡◌, true, refl, ap}
use batch_it_protocol.Prelude.Division.{share}
use batch_it_protocol.Prelude.Maps.{AllEntries, AllEntries-lookup, lookup}
use batch_it_protocol.Escrow.Funding.Laws.{create_pool_lem}
use batch_it_protocol.Escrow.Ledger.{Ledger}
use batch_it_protocol.Escrow.Ledger.Guarantees.{Reachable-Inv, Step-Inv}
use batch_it_protocol.Escrow.Ledger.Invariant.{Inv}
use batch_it_protocol.Escrow.Ledger.Refinement.Payout.{
  claim-Moves, mark_refundable-Moves, received-Moves, refund-Moves,
}
use batch_it_protocol.Escrow.Ledger.Refinement.Raise.{
  begin_launch-Moves, complete_buy-Moves, contribute-Moves, finalize-Moves,
}
use batch_it_protocol.Escrow.Ledger.Steps.{
  IsLeftover, Leads, here, Opened, Reachable, Step, bought_in, contributed, created, launched,
  marked, next, paid_back, paid_out, received, settled, start,
}
use batch_it_protocol.Escrow.Ledger.View.{deposit_of, paid_of, view}
use batch_it_protocol.Escrow.Runtime.{IsRuntime, Runtime}
use batch_it_protocol.Escrow.Spec.{Deal, IsFresh, Moves, Moves-IsSettledAs, append, still}
use batch_it_protocol.Escrow.Ledger.Steps
use batch_it_protocol.Escrow.Types.{Contribution, Pubkey, finalized}

pub Step-Moves :
    (r : Runtime) (legal : IsRuntime r) (pump : Pubkey) (l l' : Ledger)
    → Inv l
    → Step r pump l l'
    → Moves (view l) (view l')
Step-Moves r legal pump l l' v (contributed now who bump wallet n e) =
    contribute-Moves r legal l l' v now who bump wallet n e
Step-Moves r legal pump l l' v (launched now mint e) = begin_launch-Moves r legal l l' v now mint e
Step-Moves r legal pump l l' v (bought_in now mint owner curve source n e) =
    complete_buy-Moves r legal l l' v pump now mint owner curve source n e
Step-Moves r legal pump l l' v (settled curve source e) =
    finalize-Moves r legal l l' v curve source e
Step-Moves r legal pump l l' v (paid_out who source wallet e) =
    claim-Moves r legal l l' v who source wallet e
Step-Moves r legal pump l l' v (marked now e) = mark_refundable-Moves r legal l l' v now e
Step-Moves r legal pump l l' v (paid_back now who wallet e) =
    refund-Moves r legal l l' v now who wallet e
Step-Moves r legal pump l l' v (received lamports tokens buyer e) =
    received-Moves r legal l l' v lamports tokens buyer e

-- A record left from an earlier pool shows neither a deposit nor a payment.
leftover_shows :
    (key who : Pubkey) (m : List (Pubkey × Contribution))
    → AllEntries (IsLeftover key) m
    → (deposit_of m who ≡ 0) × (paid_of m who ≡ false)
leftover_shows key who m h = elim (Option-cases (lookup who m)) [
  | inl missing ↦ ground arith
  | inr (c, found) ↦ let left = AllEntries-lookup (IsLeftover key) who m h found in ground arith
]

Opened-IsFresh : {l : Ledger} → Opened l → IsFresh (view l)
unfolding view
Opened-IsFresh {l}
      (created now creator bump buyer_bump seed launch_at grace min_raise max_pool min_contribution
        wide e leftovers apart) =
    let f =
      create_pool_lem now creator bump buyer_bump seed launch_at grace min_raise max_pool
        min_contribution e in
    record {
      open_phase = f.0;
      nothing_raised = f.1;
      no_deposit = λ who. (leftover_shows l.pool_key who l.contributions leftovers).0;
      nobody_paid = λ who. (leftover_shows l.pool_key who l.contributions leftovers).1;
      none_handed_out = f.3;
      none_returned = f.2;
    }

-- The program refines the specification: every state that a pool can reach, by any instructions of
-- anybody's in any order, shows a deal that has come about from a fresh deal by moves of the
-- specification alone: deposits before the launch time and within the cap, a launch in its window with
-- the raise met, one buy before the grace period ends, a settlement within the tokens bought, one
-- payment to each contributor of exactly the pro-rata share, and, after the grace period with no
-- buy, returns of whole deposits.
pub Reachable-Moves :
    (r : Runtime) (legal : IsRuntime r) (pump : Pubkey) (l : Ledger)
    → Reachable r pump l
    → (d : Deal) × IsFresh d × Moves d (view l)
Reachable-Moves r legal pump l (start o) = (view l, Opened-IsFresh o, still)
Reachable-Moves r legal pump l (next {l = m} before s) =
    let (d, fresh, run) = Reachable-Moves r legal pump m before in
    (d, fresh, append run (Step-Moves r legal pump m l (Reachable-Inv r legal pump m before) s))

Leads-Inv :
    (r : Runtime) (legal : IsRuntime r) (pump : Pubkey) {l l' : Ledger}
    → Inv l
    → Leads r pump l l'
    → Inv l'
Leads-Inv r legal pump v here = v
Leads-Inv r legal pump v (Steps.then_ steps s) =
    Step-Inv r legal pump s (Leads-Inv r legal pump v steps)

Leads-Moves :
    (r : Runtime) (legal : IsRuntime r) (pump : Pubkey) {l l' : Ledger}
    → Inv l
    → Leads r pump l l'
    → Moves (view l) (view l')
Leads-Moves r legal pump v here = still
Leads-Moves r legal pump {l} {l'} v (Steps.then_ {l' = m} steps s) =
    append (Leads-Moves r legal pump v steps)
      (Step-Moves r legal pump m l' (Leads-Inv r legal pump v steps) s)

-- From a reachable finalized state on, whatever anybody does, the pool stays finalized and every
-- contributor's due share stays what it was, to the token; a contributor who has been paid stays paid,
-- so nobody is paid twice or diluted.
pub shares_are_fixed :
    (r : Runtime) (legal : IsRuntime r) (pump : Pubkey) (l l' : Ledger)
    → Reachable r pump l
    → l.pool.status ≡ finalized
    → Leads r pump l l'
    → (l'.pool.status ≡ finalized)
      × ((who : Pubkey)
          → (share l'.pool.distributable l'.pool.total_contributed (deposit_of l'.contributions who)
              ≡ share l.pool.distributable l.pool.total_contributed
                  (deposit_of l.contributions who))
            × ((paid_of l.contributions who ≡ true) → paid_of l'.contributions who ≡ true))
unfolding view
shares_are_fixed r legal pump l l' reach st steps =
    let kept =
      Moves-IsSettledAs st (Leads-Moves r legal pump (Reachable-Inv r legal pump l reach) steps) in
    let supply : l'.pool.distributable ≡ l.pool.distributable = kept.supply in
    let raised : l'.pool.total_contributed ≡ l.pool.total_contributed = kept.raised in
    (
      kept.phase,
      λ who.
          let deposit : deposit_of l'.contributions who ≡ deposit_of l.contributions who =
            ap (λ (f : Pubkey → ℕ). f who) kept.deposit in
          (rw (supply, raised, deposit) refl, kept.paid_kept who),
    )
