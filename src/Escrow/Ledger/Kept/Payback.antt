-- ===== src/Escrow/Ledger/Kept/Payback.antt =====
-- The instructions that pay a pool back keep the invariant, and so do payments from outside.
use batch_it_protocol.Escrow.Exit
use batch_it_protocol.Prelude.{
  Option-cases, Result-cases, arith, false, inl, inr, ok, refl, true, ℕ, ◌+◌, ◌-◌, ◌≡◌, ◌≢◌,
}
use batch_it_protocol.Prelude.Int.{leb_ℤ, ℤ}
use batch_it_protocol.Prelude.Maps.{
  AllEntries-insert, AllEntries-lookup, AllEntries-mono, insert, lookup, weight-insert,
}
use batch_it_protocol.Escrow.Exit.Laws.{mark_refundable_lem, refund_allowed-cases, refund_lem}
use batch_it_protocol.Escrow.Ledger.{Ledger, mark_refundable, refund, refund_accounts}
use batch_it_protocol.Escrow.Ledger.Invariant.{Inv, IsEntry, amount_of}
use batch_it_protocol.Escrow.Types.{Contribution, PoolStatus, Pubkey, finalized, refundable}

-- Refunds may be made once nothing can be claimed any more.
IsEntry-refundable :
    (key : Pubkey) (s : PoolStatus)
    → s ≢ finalized
    → (who : Pubkey) (c : Contribution) → IsEntry key s who c
    → IsEntry key refundable who c
IsEntry-refundable key s hf who c h = ground arith

pub mark_refundable-Inv : (now : ℤ) (l l' : Ledger) → mark_refundable now l ≡ ok l' → Inv l → Inv l'
unfolding mark_refundable
mark_refundable-Inv now l l' e v = elim (Result-cases (Exit.mark_refundable now l.pool)) [
  | inr (x, failed) ↦ absurd (ground arith)
  | inl (p, done) ↦
      let f = mark_refundable_lem now l.pool done in
      let same : l' ≡ record l { pool = record (l.pool) { status = refundable } } = ground arith in
      rw same (record {
        counted = v.counted;
        capped = v.capped;
        in_range = v.in_range;
        raise_positive = v.raise_positive;
        solvent = ground arith;
        never_closed = ground arith;
        kept = inl refl;
        unpaid = ground arith;
        settled_total = λ s. ground arith;
        settled_range = λ s. ground arith;
        owed = λ s. ground arith;
        entries =
            AllEntries-mono (IsEntry l.pool_key l.pool.status) (IsEntry l.pool_key refundable)
              l.contributions (IsEntry-refundable l.pool_key l.pool.status (ground arith))
              v.entries;
      })
]

refunded-IsEntry :
    (key who : Pubkey) (c : Contribution)
    → c.claimed ≡ false
    → IsEntry key refundable who c
    → IsEntry key refundable who (record c { amount = 0; refunded = true })
refunded-IsEntry key who c hc h = ground arith

pub refund-Inv :
    (now : ℤ) (who : Pubkey) (wallet : ℕ) (l l' : Ledger) {wallet' : ℕ}
    → refund now who wallet l ≡ ok (l', wallet')
    → Inv l
    → Inv l'
unfolding refund
refund-Inv now who wallet l l' e v = elim (Option-cases (lookup who l.contributions)) [
  | inl missing ↦ absurd (ground arith)
  | inr (c, found) ↦ elim (Result-cases (Exit.refund now (refund_accounts who wallet c l))) [
    | inr (x, failed) ↦ absurd (ground arith)
    | inl (a, done) ↦
        let f = refund_lem now (refund_accounts who wallet c l) done in
        let why = refund_allowed-cases l.pool.status (leb_ℤ l.pool.grace_ends_at now) f.0 in
        let c' : Contribution = record c { amount = 0; refunded = true } in
        let amounts = weight-insert amount_of who c' l.contributions in
        let same : l' ≡ record l {
          pool = record (l.pool) {
            status = refundable;
            total_contributed = l.pool.total_contributed - c.amount;
            total_refunded = l.pool.total_refunded + c.amount;
          };
          pool_lamports = a.pool_lamports;
          contributions = insert who c' l.contributions;
        } =
          ground arith in
        rw same (record {
          counted = ground arith;
          capped = ground arith;
          in_range = v.in_range;
          raise_positive = v.raise_positive;
          solvent = ground arith;
          never_closed = ground arith;
          kept = inl refl;
          unpaid = ground arith;
          settled_total = λ s. ground arith;
          settled_range = λ s. ground arith;
          owed = λ s. ground arith;
          entries =
              let entries' =
                AllEntries-mono (IsEntry l.pool_key l.pool.status) (IsEntry l.pool_key refundable)
                  l.contributions (IsEntry-refundable l.pool_key l.pool.status (ground arith))
                  v.entries in
              AllEntries-insert (IsEntry l.pool_key refundable) who c' l.contributions
                (refunded-IsEntry l.pool_key who c f.2 (
                  AllEntries-lookup (IsEntry l.pool_key refundable) who l.contributions entries'
                    found))
                entries';
        })
  ]
]

pub received-Inv :
    (lamports tokens buyer_lamports : ℕ) (l : Ledger)
    → Inv l
    → Inv (record l {
      pool_lamports = l.pool_lamports + lamports;
      vault_tokens = l.vault_tokens + tokens;
      buyer_lamports = buyer_lamports;
    })
received-Inv lamports tokens buyer_lamports l v = record {
  counted = v.counted;
  capped = v.capped;
  in_range = v.in_range;
  raise_positive = v.raise_positive;
  solvent = ground arith;
  never_closed = v.never_closed;
  kept = v.kept;
  unpaid = v.unpaid;
  settled_total = v.settled_total;
  settled_range = v.settled_range;
  owed = v.owed;
  entries = v.entries;
}
