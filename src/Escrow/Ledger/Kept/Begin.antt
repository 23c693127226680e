-- ===== src/Escrow/Ledger/Kept/Begin.antt =====
-- The instructions that launch a pool and buy for it keep the invariant.
use batch_it_protocol.Escrow.Launch
use batch_it_protocol.Prelude.{
  Bool-cases, List, Result-cases, arith, inl, inr, ok, refl, ℕ, ◌≡◌, ◌≢◌,
}
use batch_it_protocol.Prelude.Int.{ℤ}
use batch_it_protocol.Prelude.Maps.{AllEntries-mono}
use batch_it_protocol.Escrow.Launch.{BuyAccounts, execute_buy}
use batch_it_protocol.Escrow.Launch.Laws.{
  begin_launch_lem, complete_buy_idempotent, complete_buy_lem, execute_buy_lem,
}
use batch_it_protocol.Escrow.Ledger.{
  Source, another, buy_accounts, passed, the_vault, vault_after, Ledger, begin_launch, complete_buy,
}
use batch_it_protocol.Escrow.Ledger.Invariant.{Inv, IsEntry}
use batch_it_protocol.Escrow.Runtime.{Runtime}
use batch_it_protocol.Escrow.Types.{
  TokenAccount, Contribution, PoolStatus, Pubkey, bought, finalized, is_status, launching,
}

-- A status change that finalizes nothing and refunds nothing keeps the entries.
pub IsEntry-status :
    (key : Pubkey) (s t : PoolStatus)
    → s ≢ finalized
    → (who : Pubkey) (c : Contribution) → IsEntry key s who c
    → IsEntry key t who c
IsEntry-status key s t hf who c h = ground arith

-- The account passed is the one that is stored.
pub passed-kept :
    (r : Runtime) (source : Source) (l : Ledger)
    → vault_after source (passed r source l) l ≡ l.vault_tokens
passed-kept r the_vault l = refl
passed-kept r (another account) l = refl

pub begin_launch-Inv :
    (now : ℤ) (mint : Pubkey) (l l' : Ledger) → begin_launch now mint l ≡ ok l' → Inv l → Inv l'
unfolding begin_launch
begin_launch-Inv now mint l l' e v = elim (Result-cases (Launch.begin_launch now l.pool mint)) [
  | inr (x, failed) ↦ absurd (ground arith)
  | inl (p, done) ↦
      let f = begin_launch_lem now l.pool mint done in
      let same : l' ≡ record l { pool = record (l.pool) { mint = mint; status = launching } } =
        ground arith in
      rw same (record {
        counted = v.counted;
        capped = v.capped;
        in_range = v.in_range;
        raise_positive = v.raise_positive;
        solvent = ground arith;
        never_closed = ground arith;
        kept = ground arith;
        unpaid = ground arith;
        settled_total = λ s. ground arith;
        settled_range = λ s. ground arith;
        owed = λ s. ground arith;
        entries =
            AllEntries-mono (IsEntry l.pool_key l.pool.status) (IsEntry l.pool_key launching)
              l.contributions (IsEntry-status l.pool_key l.pool.status launching (ground arith))
              v.entries;
      })
]

bought-Inv :
    (r : Runtime) (a : BuyAccounts) (n : ℕ) (l : Ledger) (a' : BuyAccounts) (tokens : ℕ)
    → a.pool ≡ l.pool
    → a.pool_lamports ≡ l.pool_lamports
    → l.pool.status ≡ launching
    → execute_buy r a n ≡ ok a'
    → Inv l
    → Inv (record l {
      pool = a'.pool;
      pool_lamports = a'.pool_lamports;
      buyer_lamports = a'.market.buyer_lamports;
      vault_tokens = tokens;
    })
bought-Inv r a n l a' tokens hp hl hs e v =
    let f = execute_buy_lem r a n e in
    let st : a'.pool.status ≡ bought = ground arith in
    record {
      counted = ground arith;
      capped = ground arith;
      in_range = ground arith;
      raise_positive = ground arith;
      solvent = ground arith;
      never_closed = ground arith;
      kept = ground arith;
      unpaid = ground arith;
      settled_total = λ s. ground arith;
      settled_range = λ s. ground arith;
      owed = λ s. ground arith;
      entries = rw st (
          AllEntries-mono (IsEntry l.pool_key l.pool.status) (IsEntry l.pool_key bought)
            l.contributions (IsEntry-status l.pool_key l.pool.status bought (ground arith))
            v.entries);
    }

pub complete_buy-Inv :
    (r : Runtime) (pump : Pubkey) (now : ℤ) (mint owner : Pubkey) (curve : List ℕ) (source : Source)
    (n : ℕ) (l l' : Ledger) {account : TokenAccount}
    → complete_buy r pump now mint owner curve source n l ≡ ok (l', account)
    → Inv l
    → Inv l'
unfolding complete_buy
complete_buy-Inv r pump now mint owner curve source n l l' e v =
    let accounts = buy_accounts r mint owner curve source l in
    elim (Result-cases (Launch.complete_buy r pump now accounts n)) [
      | inr (x, failed) ↦ absurd (ground arith)
      | inl (a, done) ↦ elim (Bool-cases (is_status l.pool.status bought)) [
        | inl again ↦
            let idle : Launch.complete_buy r pump now accounts n ≡ ok accounts =
              complete_buy_idempotent r pump now accounts n (ground arith) in
            let same : a ≡ accounts = cc in
            let vault_kept : vault_after source (passed r source l) l ≡ l.vault_tokens =
              passed-kept r source l in
            let kept : l' ≡ l = ground arith in rw kept v
        | inr first ↦
            let f = complete_buy_lem r pump now accounts n done (ground arith) in
            let same : l' ≡ record l {
              pool = a.pool;
              pool_lamports = a.pool_lamports;
              buyer_lamports = a.market.buyer_lamports;
              vault_tokens = vault_after source a.market.associated_user l;
            } =
              ground arith in
            rw same (
              bought-Inv r accounts n l a (vault_after source a.market.associated_user l) refl refl
                f.0 f.5 v)
      ]
    ]
