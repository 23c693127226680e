-- ===== src/Escrow/Ledger/PayAll.antt =====
-- Paying everybody in turn.
use batch_it_protocol.Prelude.{
  Bool-cases, List, Result, [], arith, false, if◌then◌else◌, inl, inr, ltb, ok, refl, some, sym,
  true, ℕ, ◌+◌, ◌<◌, ◌==◌, ◌>>=◌, ◌∙◌, ◌∷◌, ◌≡◌, ◌≤◌,
}
use batch_it_protocol.Prelude.Division.{share}
use batch_it_protocol.Prelude.Maps.{
  IsDistinct, lookup, lookup-insert, weight, weight-insert, lookup-le-weight,
}
use batch_it_protocol.Prelude.Words.{u64_mod}
use batch_it_protocol.Escrow.Ledger.{Ledger, claim, the_vault}
use batch_it_protocol.Escrow.Ledger.Claiming.{
  paid_into, CanClaim, claim_succeeds, claimed_by, share_of,
}
use batch_it_protocol.Escrow.Ledger.Drain.{Remain, Remain-after, other_key}
use batch_it_protocol.Escrow.Ledger.Guarantees.{Reachable-Inv}
use batch_it_protocol.Escrow.Ledger.Invariant.{Backed, Inv, owed_on}
use batch_it_protocol.Escrow.Ledger.Backing.{Leads-Backed, Leads-Reachable}
use batch_it_protocol.Escrow.Ledger.Kept.Backing.{claim-Backed}
use batch_it_protocol.Escrow.Ledger.Kept.Payout.{claim-Inv}
use batch_it_protocol.Escrow.Ledger.Records.{Reachable-IsDistinct}
use batch_it_protocol.Escrow.Ledger.Steps.{Leads, Reachable}
use batch_it_protocol.Escrow.Runtime.{IsRuntime, Runtime}
use batch_it_protocol.Escrow.Types.{TokenAccount, Contribution, Failure, Pubkey, bought, finalized}

-- The contributors who are owed something, when `d` tokens are distributed over `t` lamports.
unfoldable pub creditors : ℕ → ℕ → List (Pubkey × Contribution) → List Pubkey
creditors d t [] = []
creditors d t ((who, c) ∷ m) =
    if ltb 0 (owed_on d t c) then who ∷ creditors d t m else creditors d t m

-- A `claim` by each of them in turn, out of the vault into their token accounts. The result is the
-- ledger, and the token account of each one afterwards, in the same order.
unfoldable pub claim_all :
    Runtime
    → (Pubkey → TokenAccount)
    → List Pubkey
    → Ledger
    → Result Failure (Ledger × List TokenAccount)
claim_all r wallet [] l = ok (l, [])
claim_all r wallet (who ∷ ws) l = do
  (l1, _, account) ← claim r who the_vault (wallet who) l
  (l2, others) ← claim_all r wallet ws l1
  ok (l2, account ∷ others)

-- What their token accounts are to hold afterwards: what they held and what they were owed.
unfoldable pub credited :
    (Pubkey → TokenAccount) → ℕ → ℕ → List (Pubkey × Contribution) → List TokenAccount
credited wallet d t [] = []
credited wallet d t ((who, c) ∷ m) =
    if ltb 0 (owed_on d t c)
    then paid_into (wallet who) (owed_on d t c) ∷ credited wallet d t m
    else credited wallet d t m

-- All that is owed on the records.
abbrev pub owed_in : ℕ → ℕ → List (Pubkey × Contribution) → ℕ
owed_in d t m = weight (owed_on d t) m

module _ (r : Runtime) (legal : IsRuntime r) (wallet : Pubkey → TokenAccount) (d t mint : ℕ)
    (own : (who : Pubkey) → (wallet who).owner ≡ who)
    (right_mint : (who : Pubkey) → (wallet who).mint ≡ mint)
    (room : (who : Pubkey) → (wallet who).amount + d < u64_mod) where
  -- Whoever is owed something can claim.
  creditor-CanClaim :
      (l : Ledger) (who : Pubkey) (c : Contribution)
      → Inv l
      → l.pool.status ≡ finalized
      → l.pool.distributable ≡ d
      → l.pool.total_contributed ≡ t
      → l.pool.mint ≡ mint
      → lookup who l.contributions ≡ some c
      → ltb 0 (owed_on d t c) ≡ true
      → CanClaim l who (wallet who) c
  creditor-CanClaim l who c v st ed et em found something =
      let fresh : c.claimed ≡ false = ground arith in
      let due : owed_on d t c ≡ share d t c.amount = ground arith in
      let same : share_of l c ≡ share d t c.amount = rw (ed, et) refl in
      let positive : 0 < share d t c.amount = ground arith in
      let part =
        lookup-le-weight (owed_on l.pool.distributable l.pool.total_contributed) who
          l.contributions in
      let tally = v.owed st in
      let within : share_of l c ≤ d = ground arith in
      let space = room who in
      record {
        found = found;
        fresh = fresh;
        worth = omega arith;
        own_wallet = own who;
        right_mint = right_mint who ∙ sym em;
        room = omega arith;
      }

  creditor-share :
      (l : Ledger) (c : Contribution)
      → l.pool.distributable ≡ d
      → l.pool.total_contributed ≡ t
      → ltb 0 (owed_on d t c) ≡ true
      → owed_on d t c ≡ share_of l c
  creditor-share l c ed et something =
      let due : owed_on d t c ≡ share d t c.amount = ground arith in due ∙ rw (ed, et) refl

  others_kept :
      (l : Ledger) (who : Pubkey) (c : Contribution)
      → (other : Pubkey) → (other == who) ≡ false
      → lookup other (claimed_by who c l).contributions ≡ lookup other l.contributions
  others_kept l who c other apart =
      ground (arith, lookup-insert other who (record c { claimed = true }) l.contributions)

  owed_less :
      (l : Ledger) (who : Pubkey) (c : Contribution)
      → lookup who l.contributions ≡ some c
      → owed_in d t (claimed_by who c l).contributions + owed_on d t c ≡ owed_in d t l.contributions
  owed_less l who c found =
      ground (arith, weight-insert (owed_on d t) who (record c { claimed = true }) l.contributions)

  -- The records of `m` are still to be paid.
  pay_all :
      (m : List (Pubkey × Contribution)) (l : Ledger)
      → Inv l
      → Backed l
      → l.pool.status ≡ finalized
      → l.pool.distributable ≡ d
      → l.pool.total_contributed ≡ t
      → l.pool.mint ≡ mint
      → IsDistinct m
      → Remain m l
      → (l' : Ledger) × (claim_all r wallet (creditors d t m) l ≡ ok (l', credited wallet d t m))
        × (l'.vault_tokens + owed_in d t m ≡ l.vault_tokens)
        × (owed_in d t l'.contributions + owed_in d t m ≡ owed_in d t l.contributions)
  unfolding claim_all creditors credited weight
  pay_all [] l v backed st ed et em apart remain = (l, refl, ground arith, ground arith)
  pay_all ((who, c) ∷ m) l v backed st ed et em apart remain =
      let remain_after : Remain m l =
        λ k c' e. remain k c' (let other = other_key k who m apart.0 e in ground arith) in
      elim (Bool-cases (ltb 0 (owed_on d t c))) [
        | inr nothing ↦
            let (l', done, vault, owed) = pay_all m l v backed st ed et em apart.1 remain_after in
            rw nothing (l', done, ground arith, ground arith)
        | inl something ↦
            let found = remain who c (ground arith) in
            let can = creditor-CanClaim l who c v st ed et em found something in
            let (paid, in_vault) = claim_succeeds r legal l who (wallet who) c v backed st can in
            let l1 : Ledger = claimed_by who c l in
            let v1 = claim-Inv r legal who the_vault (wallet who) l l1 paid v in
            let backed1 = claim-Backed r legal who the_vault (wallet who) l l1 paid v backed in
            let (l', rest, vault, owed) =
              pay_all m l1 v1 backed1 st ed et em apart.1
                (Remain-after who m l l1 apart.0 (others_kept l who c) remain_after) in
            let whole = creditor-share l c ed et something in
            let debt = owed_less l who c found in
            rw something (
              l',
              rw (paid, rest, whole) refl,
              omega (arith, vault, in_vault, whole),
              omega (arith, owed, debt),
            )
      ]

-- Once a pool has been bought with its tokens in the vault, then whatever anybody does, in every finalized
-- state that follows everybody who is owed something can be paid, one after the other, in the order of
-- the records: no claim fails, each token account then holds what it held and what was owed, nothing is
-- owed on any record afterwards, and exactly what was owed has left the vault. Each contributor is
-- assumed to have an own token account of the pool's mint with room for all that is distributed.
pub pays_everybody :
    (r : Runtime) (legal : IsRuntime r) (pump : Pubkey) (wallet : Pubkey → TokenAccount)
    (at_buy l : Ledger)
    → Reachable r pump at_buy
    → at_buy.pool.status ≡ bought
    → at_buy.pool.tokens_bought ≤ at_buy.vault_tokens
    → Leads r pump at_buy l
    → l.pool.status ≡ finalized
    → ((who : Pubkey) → (wallet who).owner ≡ who)
    → ((who : Pubkey) → (wallet who).mint ≡ l.pool.mint)
    → ((who : Pubkey) → (wallet who).amount + l.pool.distributable < u64_mod)
    → (l' : Ledger) × (claim_all r wallet
          (creditors l.pool.distributable l.pool.total_contributed l.contributions)
          l
        ≡ ok (l', credited wallet l.pool.distributable l.pool.total_contributed l.contributions))
      × (l'.vault_tokens + owed_in l.pool.distributable l.pool.total_contributed l.contributions
          ≡ l.vault_tokens)
      × (owed_in l.pool.distributable l.pool.total_contributed l'.contributions ≡ 0)
pays_everybody r legal pump wallet at_buy l reach was stock steps st own right_mint room =
    let reach' = Leads-Reachable r pump reach steps in
    let (l', done, vault, owed) =
      pay_all r legal wallet l.pool.distributable l.pool.total_contributed l.pool.mint own
        right_mint room l.contributions l (Reachable-Inv r legal pump l reach')
        (Leads-Backed r legal pump reach was stock steps) st refl refl refl
        (Reachable-IsDistinct r pump reach') (λ who c found. found) in
    (l', done, vault, omega (arith, owed))
