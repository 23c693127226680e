-- ===== src/Escrow/Ledger/Kept/Payout.antt =====
-- The instructions that settle a pool keep the invariant.
use batch_it_protocol.Escrow.Settlement
use batch_it_protocol.Prelude.{
  List, Option-cases, Result-cases, [], ap, arith, inl, inr, ok, true, ℕ, ◌+◌, ◌<◌, ◌∷◌, ◌≡◌, ◌≤◌,
}
use batch_it_protocol.Prelude.Division.{add_share_le, share, share-whole, share-zero}
use batch_it_protocol.Prelude.Maps.{
  AllEntries, AllEntries-insert, AllEntries-lookup, AllEntries-mono, insert, lookup,
  lookup-le-weight, weight, weight-insert, weight_mono,
}
use batch_it_protocol.Escrow.Ledger.{
  Source, vault_after, finalize_accounts, Ledger, claim, claim_accounts, finalize,
}
use batch_it_protocol.Escrow.Ledger.Invariant.{Inv, IsEntry, amount_of, owed_on}
use batch_it_protocol.Escrow.Ledger.Kept.Begin.{IsEntry-status}
use batch_it_protocol.Escrow.Math.Laws.{allocation_lem}
use batch_it_protocol.Escrow.Runtime.{IsRuntime, Runtime}
use batch_it_protocol.Escrow.Settlement.{FinalizeAccounts}
use batch_it_protocol.Escrow.Types.{TokenAccount, Contribution, PoolStatus, Pubkey, finalized}
use batch_it_protocol.Escrow.Settlement.Laws.{claim_lem, finalize_lem}

owed-le-share : (d t : ℕ) (c : Contribution) → owed_on d t c ≤ share d t c.amount
owed-le-share d t c = ground arith

weight-share-le :
    (d t : ℕ) (m : List (ℕ × Contribution))
    → 0 < t
    → weight (λ (c : Contribution). share d t c.amount) m ≤ share d t (weight amount_of m)
unfolding weight
weight-share-le d t [] h = omega (arith, share-zero d t h)
weight-share-le d t ((k, c) ∷ m) h =
    omega (arith, weight-share-le d t m h, add_share_le d t c.amount (weight amount_of m) h)

all_owed :
    (d t : ℕ) (m : List (ℕ × Contribution))
    → AllEntries (λ _ c. owed_on d t c ≤ share d t c.amount) m
all_owed d t [] = tt
all_owed d t ((k, c) ∷ m) = (owed-le-share d t c, all_owed d t m)

-- What is owed on contributions that add up to the total is at most what is distributed.
pub weight-owed-le :
    (d t : ℕ) (m : List (ℕ × Contribution))
    → 0 < t
    → weight amount_of m ≡ t
    → weight (owed_on d t) m ≤ d
weight-owed-le d t m h e = omega (
  arith,
  weight_mono (owed_on d t) (λ (c : Contribution). share d t c.amount) m (all_owed d t m),
  weight-share-le d t m h,
  ap (share d t) e,
  share-whole d t h,
)

pub finalize-Inv :
    (r : Runtime) (legal : IsRuntime r) (curve : List ℕ) (source : Source) (l l' : Ledger)
    {account : TokenAccount}
    → finalize r curve source l ≡ ok (l', account)
    → Inv l
    → Inv l'
unfolding finalize
finalize-Inv r legal curve source l l' e v =
    let accounts = finalize_accounts r curve source l in
    elim (Result-cases (Settlement.finalize r accounts)) [
      | inr (x, failed) ↦ absurd (ground arith)
      | inl (a, done) ↦
          let f = finalize_lem r legal accounts done in
          let t : ℕ = l.pool.total_contributed in
          let due = weight-owed-le a.pool.distributable t l.contributions f.1 v.counted in
          let whole : a.pool.total_contributed ≡ l.pool.total_contributed = ground arith in
          let unclaimed : l.pool.total_claimed ≡ 0 = ground arith in
          let st : a.pool.status ≡ finalized = ground arith in
          let same : l'
              ≡ record l { pool = a.pool; vault_tokens = vault_after source a.associated_user l } =
            ground arith in
          rw same (record {
            counted = ground arith;
            capped = ground arith;
            in_range = ground arith;
            raise_positive = ground arith;
            solvent = ground arith;
            never_closed = ground arith;
            kept = ground arith;
            unpaid = ground arith;
            settled_total = λ s. ground arith;
            settled_range = λ s. ground arith;
            owed = λ s. rw whole (ground arith);
            entries = rw st (
                AllEntries-mono (IsEntry l.pool_key l.pool.status) (IsEntry l.pool_key finalized)
                  l.contributions (IsEntry-status l.pool_key l.pool.status finalized (ground arith))
                  v.entries);
          })
    ]

claimed-IsEntry :
    (key : Pubkey) (s : PoolStatus) (who : Pubkey) (c : Contribution)
    → s ≡ finalized
    → IsEntry key s who c
    → IsEntry key s who (record c { claimed = true })
claimed-IsEntry key s who c st h = ground arith

pub claim-Inv :
    (r : Runtime) (legal : IsRuntime r) (who : Pubkey) (source : Source) (wallet : TokenAccount)
    (l l' : Ledger) {source' wallet' : TokenAccount}
    → claim r who source wallet l ≡ ok (l', source', wallet')
    → Inv l
    → Inv l'
unfolding claim
claim-Inv r legal who source wallet l l' e v = elim (Option-cases (lookup who l.contributions)) [
  | inl missing ↦ absurd (ground arith)
  | inr (c, found) ↦
      elim (Result-cases (Settlement.claim r (claim_accounts r who source wallet c l))) [
        | inr (x, failed) ↦ absurd (ground arith)
        | inl (a, done) ↦
            let (n, share_of, st, fresh, _, left, _, pool', contribution') =
              claim_lem r legal (claim_accounts r who source wallet c l) done in
            let d : ℕ = l.pool.distributable in
            let t : ℕ = l.pool.total_contributed in
            let c' : Contribution = record c { claimed = true } in
            let part = lookup-le-weight amount_of who l.contributions in
            let fits : c.amount ≤ t = ground arith in
            let exact =
              allocation_lem d c.amount t (v.settled_total st) fits (v.settled_range st)
                (omega arith) in
            let n_share : n ≡ share d t c.amount = ground arith in
            let amounts = weight-insert amount_of who c' l.contributions in
            let dues = weight-insert (owed_on d t) who c' l.contributions in
            let before' = v.owed st in
            let same : l' ≡ record l {
              pool = record (l.pool) { total_claimed = l.pool.total_claimed + n };
              vault_tokens = vault_after source a.vault_ata l;
              contributions = insert who c' l.contributions;
            } =
              ground arith in
            rw same (record {
              counted = ground arith;
              capped = v.capped;
              in_range = v.in_range;
              raise_positive = v.raise_positive;
              solvent = v.solvent;
              never_closed = v.never_closed;
              kept = v.kept;
              unpaid = inl st;
              settled_total = v.settled_total;
              settled_range = v.settled_range;
              owed = λ s. ground arith;
              entries =
                  AllEntries-insert (IsEntry l.pool_key l.pool.status) who c' l.contributions
                    (claimed-IsEntry l.pool_key l.pool.status who c st (
                      AllEntries-lookup (IsEntry l.pool_key l.pool.status) who l.contributions
                        v.entries found))
                    v.entries;
            })
      ]
]
