-- ===== src/Escrow/Ledger/Guarantees.antt =====
-- What the escrow promises its contributors, in every state that it can reach.
use batch_it_protocol.Prelude.{arith, ok, some, true, ℕ, ◌+◌, ◌-◌, ◌<◌, ◌≡◌, ◌⊎◌}
use batch_it_protocol.Prelude.Int.{leb_ℤ, ℤ}
use batch_it_protocol.Prelude.Maps.{
  AllEntries-lookup, insert, lookup, lookup-insert, lookup-le-weight,
}
use batch_it_protocol.Prelude.Words.{u64_mod}
use batch_it_protocol.Escrow.Exit.Laws.{refund_allowed-holds, refund_pays}
use batch_it_protocol.Escrow.Ledger.{Ledger, refund, refund_accounts}
use batch_it_protocol.Escrow.Ledger.Invariant.{Inv, IsEntry, amount_of}
use batch_it_protocol.Escrow.Ledger.Kept.Payout.{claim-Inv, finalize-Inv}
use batch_it_protocol.Escrow.Ledger.Kept.Payback.{mark_refundable-Inv, received-Inv, refund-Inv}
use batch_it_protocol.Escrow.Ledger.Kept.Raise.{Opened-Inv, contribute-Inv}
use batch_it_protocol.Escrow.Ledger.Kept.Begin.{begin_launch-Inv, complete_buy-Inv}
use batch_it_protocol.Escrow.Ledger.Steps.{
  Reachable, Step, bought_in, contributed, launched, marked, next, paid_back, paid_out, received,
  settled, start,
}
use batch_it_protocol.Escrow.Runtime.{IsRuntime, Runtime}
use batch_it_protocol.Escrow.Types.{Contribution, Pubkey, launching, opened, refundable}

pub Step-Inv :
    (r : Runtime) (legal : IsRuntime r) (pump : Pubkey) {l l' : Ledger}
    → Step r pump l l'
    → Inv l
    → Inv l'
Step-Inv r legal pump {l} {l'} (contributed now who bump wallet n e) v =
    contribute-Inv r legal now who bump wallet n l l' e v
Step-Inv r legal pump {l} {l'} (launched now mint e) v = begin_launch-Inv now mint l l' e v
Step-Inv r legal pump {l} {l'} (bought_in now mint owner curve source n e) v =
    complete_buy-Inv r pump now mint owner curve source n l l' e v
Step-Inv r legal pump {l} {l'} (settled curve source e) v =
    finalize-Inv r legal curve source l l' e v
Step-Inv r legal pump {l} {l'} (paid_out who source wallet e) v =
    claim-Inv r legal who source wallet l l' e v
Step-Inv r legal pump {l} {l'} (marked now e) v = mark_refundable-Inv now l l' e v
Step-Inv r legal pump {l} {l'} (paid_back now who wallet e) v = refund-Inv now who wallet l l' e v
Step-Inv r legal pump {l} {l'} (received lamports tokens buyer e) v =
    rw e (received-Inv lamports tokens buyer l v)

-- In every state that a pool can reach, by any instructions of anybody's in any order, with whatever
-- token accounts they pass, the invariant holds: the contributions add up to the total, which stays
-- within the cap; until the buy the pool holds the lamports of the total; nothing is claimed before the
-- pool is finalized and nothing refunded before it is refundable; and what a finalized pool still owes
-- is, with the claims already paid, at most what it distributes. The runtime's transfers and burns are
-- assumed to move what they say.
pub Reachable-Inv :
    (r : Runtime) (legal : IsRuntime r) (pump : Pubkey) (l : Ledger) → Reachable r pump l → Inv l
Reachable-Inv r legal pump l (start o) = Opened-Inv o
Reachable-Inv r legal pump l (next before s) =
    Step-Inv r legal pump s (Reachable-Inv r legal pump _ before)

-- In every reachable state past the grace period in which the pool is open, launching or refundable, a
-- contributor whose recorded contribution is positive, and whose wallet has room for it, is refunded
-- all of it, whatever the others have done before: the refund succeeds, the wallet afterwards holds the
-- contribution more and the pool's lamports and its total that much less, and the record is emptied
-- and marked.
pub refund_always :
    (r : Runtime) (legal : IsRuntime r) (pump : Pubkey) (now : ℤ) (who : Pubkey) (wallet : ℕ)
    (l : Ledger) (c : Contribution)
    → Reachable r pump l
    → (l.pool.status ≡ opened) ⊎ ((l.pool.status ≡ launching) ⊎ (l.pool.status ≡ refundable))
    → leb_ℤ l.pool.grace_ends_at now ≡ true
    → lookup who l.contributions ≡ some c
    → 0 < c.amount
    → wallet + c.amount < u64_mod
    → (l' : Ledger) × (refund now who wallet l ≡ ok (l', wallet + c.amount))
      × (l'.pool_lamports + c.amount ≡ l.pool_lamports)
      × (l'.pool.total_contributed + c.amount ≡ l.pool.total_contributed)
      × (lookup who l'.contributions ≡ some (record c { amount = 0; refunded = true }))
unfolding refund
refund_always r legal pump now who wallet l c reach st over found pos_amount room =
    let v = Reachable-Inv r legal pump l reach in
    let entry =
      AllEntries-lookup (IsEntry l.pool_key l.pool.status) who l.contributions v.entries found in
    let part = lookup-le-weight amount_of who l.contributions in
    let allowed = refund_allowed-holds l.pool.status (leb_ℤ l.pool.grace_ends_at now) over st in
    let pays =
      refund_pays now (refund_accounts who wallet c l) allowed (ground arith) (ground arith)
        (ground arith) (ground arith) pos_amount (ground arith) (ground arith) (ground arith)
        room in
    (
      record l {
        pool = record (l.pool) {
          status = refundable;
          total_contributed = l.pool.total_contributed - c.amount;
          total_refunded = l.pool.total_refunded + c.amount;
        };
        pool_lamports = l.pool_lamports - c.amount;
        contributions = insert who (record c { amount = 0; refunded = true }) l.contributions;
      },
      ground arith,
      ground arith,
      ground arith,
      ground
          (arith, lookup-insert who who (record c { amount = 0; refunded = true }) l.contributions),
    )
