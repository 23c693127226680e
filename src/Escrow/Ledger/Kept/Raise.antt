-- ===== src/Escrow/Ledger/Kept/Raise.antt =====
-- A pool starts with the invariant, and contributions keep the invariant.
use batch_it_protocol.Escrow.Funding
use batch_it_protocol.Prelude.{
  Result-cases, arith, false, inl, inr, ok, ℕ, List, [], ◌∷◌, refl, ◌<◌, ◌≡◌,
}
use batch_it_protocol.Prelude.Int.{ℤ}
use batch_it_protocol.Prelude.Maps.{
  AllEntries, AllEntries-mono, weight, AllEntries-insert, insert, lookup, measure, weight-insert,
}
use batch_it_protocol.Escrow.Funding.{ContributeAccounts}
use batch_it_protocol.Escrow.Funding.Laws.{contribute_lem, contribute_window, create_pool_lem}
use batch_it_protocol.Escrow.Launch.Laws.{}
use batch_it_protocol.Escrow.Ledger.{contribute_accounts, Ledger, contribute, contribution_of}
use batch_it_protocol.Escrow.Ledger.Invariant.{Inv, IsEntry, amount_of}
use batch_it_protocol.Escrow.Ledger.Steps.{IsLeftover, Opened, created}
use batch_it_protocol.Escrow.Runtime.{IsRuntime, Runtime}
use batch_it_protocol.Escrow.Types.{Contribution, PoolStatus, Pubkey}

-- Records left from an earlier pool hold nothing.
leftovers-weight :
    (key : Pubkey) (m : List (Pubkey × Contribution))
    → AllEntries (IsLeftover key) m
    → weight amount_of m ≡ 0
unfolding weight
leftovers-weight key [] h = refl
leftovers-weight key ((who, c) ∷ m) h = ground (arith, h.0.emptied, leftovers-weight key m h.1)

leftover-IsEntry :
    (key : Pubkey) (s : PoolStatus) (who : Pubkey) (c : Contribution)
    → IsLeftover key who c
    → IsEntry key s who c
leftover-IsEntry key s who c h = ground arith

pub Opened-Inv : {l : Ledger} → Opened l → Inv l
Opened-Inv {l}
      (created now creator bump buyer_bump seed launch_at grace min_raise max_pool min_contribution
        wide e leftovers apart) =
    let f =
      create_pool_lem now creator bump buyer_bump seed launch_at grace min_raise max_pool
        min_contribution e in
    record {
      counted = ground (arith, leftovers-weight l.pool_key l.contributions leftovers);
      capped = ground arith;
      in_range = ground arith;
      raise_positive = ground arith;
      solvent = ground arith;
      never_closed = ground arith;
      kept = ground arith;
      unpaid = ground arith;
      settled_total = λ s. ground arith;
      settled_range = λ s. ground arith;
      owed = λ s. ground arith;
      entries =
          AllEntries-mono (IsLeftover l.pool_key) (IsEntry l.pool_key l.pool.status) l.contributions
            (leftover-IsEntry l.pool_key l.pool.status) leftovers;
    }

new-IsEntry :
    (l : Ledger) (who : Pubkey) (s : PoolStatus) (c : Contribution)
    → c.contributor ≡ who
    → c.pool ≡ l.pool_key
    → c.claimed ≡ false
    → c.refunded ≡ false
    → 0 < c.amount
    → IsEntry l.pool_key s who c
new-IsEntry l who s c h1 h2 h3 h4 h5 = ground arith

pub contribute-Inv :
    (r : Runtime) (legal : IsRuntime r) (now : ℤ) (who : Pubkey) (bump wallet n : ℕ) (l l' : Ledger)
    {wallet' : ℕ}
    → contribute r now who bump wallet n l ≡ ok (l', wallet')
    → Inv l
    → Inv l'
unfolding contribute
contribute-Inv r legal now who bump wallet n l l' e v =
    let accounts = contribute_accounts who bump wallet l in
    elim (Result-cases (Funding.contribute r now accounts n)) [
      | inr (x, failed) ↦ absurd (ground arith)
      | inl (a, done) ↦
          let f = contribute_lem r legal now accounts n done in
          let w = weight-insert amount_of who a.contribution l.contributions in
          let old : amount_of (contribution_of who l)
              ≡ measure amount_of (lookup who l.contributions) =
            ground arith in
          let same : l' ≡ record l {
            pool = a.pool;
            pool_lamports = a.pool_lamports;
            contributions = insert who a.contribution l.contributions;
          } =
            ground arith in
          rw same (record {
            counted = ground arith;
            capped = ground arith;
            in_range = ground arith;
            raise_positive = ground arith;
            solvent = ground arith;
            never_closed = ground arith;
            kept = ground arith;
            unpaid = ground arith;
            settled_total = λ s. ground arith;
            settled_range = λ s. ground arith;
            owed = λ s. ground arith;
            entries =
                let st : a.pool.status ≡ l.pool.status = ground arith in
                rw st (
                  AllEntries-insert (IsEntry l.pool_key l.pool.status) who a.contribution
                    l.contributions
                    (new-IsEntry l who l.pool.status a.contribution f.7 f.8 f.9 f.10
                      (ground (arith, f.6, contribute_window r now accounts n done)))
                    v.entries);
          })
    ]
