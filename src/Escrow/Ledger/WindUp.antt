-- ===== src/Escrow/Ledger/WindUp.antt =====
-- Winding a pool up: everybody is refunded, and the creator closes the empty pool.
use mathlib.Core.Path.{subst}
use batch_it_protocol.Escrow.Exit
use batch_it_protocol.Prelude.{
  Result, Bool-cases, arith, inl, inr, ok, refl, true, ℕ, ◌+◌, ◌<◌, ◌≡◌, ◌⊎◌, if◌then◌else◌,
}
use batch_it_protocol.Prelude.Int.{leb_ℤ, ℤ}
use batch_it_protocol.Prelude.Words.{u64_mod}
use batch_it_protocol.Escrow.Exit.{close_pool}
use batch_it_protocol.Escrow.Ledger.{Ledger, mark_refundable}
use batch_it_protocol.Escrow.Ledger.Guarantees.{Reachable-Inv}
use batch_it_protocol.Escrow.Ledger.Records.{Reachable-IsDistinct}
use batch_it_protocol.Escrow.Ledger.Steps.{Reachable, marked, next}
use batch_it_protocol.Escrow.Runtime.{IsRuntime, Runtime}
use batch_it_protocol.Escrow.Types.{Failure, Pubkey, is_status, launching, opened, refundable}
use batch_it_protocol.Escrow.Ledger.Drain.{drain, refund_all, refundees, repaid}

-- The pool's way out: it is marked, unless a refund has marked it already.
unfoldable pub give_up : ℤ → Ledger → Result Failure Ledger
give_up now l = if is_status l.pool.status refundable then ok l else mark_refundable now l

give_up_lem :
    (now : ℤ) (l : Ledger)
    → (l.pool.status ≡ opened) ⊎ ((l.pool.status ≡ launching) ⊎ (l.pool.status ≡ refundable))
    → leb_ℤ l.pool.grace_ends_at now ≡ true
    → give_up now l ≡ ok (record l { pool = record (l.pool) { status = refundable } })
unfolding give_up mark_refundable Exit.mark_refundable
give_up_lem now l st over = ground arith

give_up-Reachable :
    (r : Runtime) (pump : Pubkey) (now : ℤ) (l : Ledger) {l' : Ledger}
    → Reachable r pump l
    → give_up now l ≡ ok l'
    → Reachable r pump l'
unfolding give_up
give_up-Reachable r pump now l {l'} reach e =
    elim (Bool-cases (is_status l.pool.status refundable)) [
      | inl already ↦ let same : l ≡ l' = ground arith in subst (λ x. Reachable r pump x) same reach
      | inr not_yet ↦ next reach (marked now (ground arith))
    ]

close_pool-empty :
    (creator lamports : ℕ) (l : Ledger)
    → l.pool.creator ≡ creator
    → l.pool.total_contributed ≡ 0
    → l.pool.status ≡ refundable
    → lamports + l.pool_lamports < u64_mod
    → close_pool creator lamports l.pool l.pool_lamports ≡ ok (lamports + l.pool_lamports)
unfolding close_pool
close_pool-empty creator lamports l hc ht hs hr = ground arith

-- In every reachable state past the grace period in which the pool is open, launching or refundable,
-- the pool can be wound up by a fixed finite sequence of instructions, none of which can fail: the
-- pool is marked, unless it is marked already, every contributor with something left is refunded once,
-- in the order of the records, each wallet then holds what the contributor had left in the pool more,
-- and then nothing is counted any more, exactly the total has left the
-- pool, and the creator's `close_pool` pays out the lamports that remain. Every wallet is assumed to
-- have room for the total, and the creator's for the pool's lamports.
pub winds_up :
    (r : Runtime) (legal : IsRuntime r) (pump : Pubkey) (now : ℤ) (wallet : Pubkey → ℕ)
    (creator_lamports : ℕ) (l : Ledger)
    → Reachable r pump l
    → (l.pool.status ≡ opened) ⊎ ((l.pool.status ≡ launching) ⊎ (l.pool.status ≡ refundable))
    → leb_ℤ l.pool.grace_ends_at now ≡ true
    → ((who : Pubkey) → wallet who + l.pool.total_contributed < u64_mod)
    → creator_lamports + l.pool_lamports < u64_mod
    → (l1 : Ledger) × (l2 : Ledger) × (give_up now l ≡ ok l1)
      × (refund_all now wallet (refundees l.contributions) l1
          ≡ ok (l2, repaid wallet l.contributions))
      × (l2.pool.total_contributed ≡ 0)
      × (l2.pool_lamports + l.pool.total_contributed ≡ l.pool_lamports)
      × (close_pool l.pool.creator creator_lamports l2.pool l2.pool_lamports
          ≡ ok (creator_lamports + l2.pool_lamports))
winds_up r legal pump now wallet creator_lamports l reach st over room creator_room =
    let l1 : Ledger = record l { pool = record (l.pool) { status = refundable } } in
    let marked_first = give_up_lem now l st over in
    let reach1 = give_up-Reachable r pump now l reach marked_first in
    let (l2, paid, drained) =
      drain r legal pump now wallet l.pool.total_contributed room l.contributions l1 reach1 refl
        over (omega arith) (Reachable-IsDistinct r pump reach) (λ who c found. found)
        (Reachable-Inv r legal pump l reach).counted in
    (
      l1,
      l2,
      marked_first,
      paid,
      drained.nothing_left,
      drained.all_paid,
      close_pool-empty l.pool.creator creator_lamports l2 drained.same_creator drained.nothing_left
          drained.ended (omega (arith, drained.all_paid)),
    )
