-- ===== src/Escrow/Ledger/Claiming.antt =====
-- A claim that can be made: what it does, and that the order of two claims does not matter.
use batch_it_protocol.Prelude.{
  ap, arith, false, inl, ok, refl, some, true, ℕ, ◌+◌, ◌-◌, ◌<◌, ◌==◌, ◌≡◌, ◌≢◌, ◌≤◌, sym, ◌∙◌,
}
use batch_it_protocol.Prelude.Division.{share, share-zero}
use batch_it_protocol.Prelude.Maps.{
  AllEntries-lookup, insert, insert-insert, lookup, lookup-insert, lookup-le-weight,
}
use batch_it_protocol.Prelude.Words.{u64_mod}
use batch_it_protocol.Escrow.Ledger.{the_vault, vault, Ledger, claim, claim_accounts}
use batch_it_protocol.Escrow.Ledger.Invariant.{Backed, Inv, IsEntry, amount_of, owed_on}
use batch_it_protocol.Escrow.Ledger.Kept.Payout.{claim-Inv}
use batch_it_protocol.Escrow.Ledger.Kept.Backing.{claim-Backed}
use batch_it_protocol.Escrow.Math.Laws.{allocation_lem}
use batch_it_protocol.Escrow.Runtime.{IsRuntime, Runtime}
use batch_it_protocol.Escrow.Types.{TokenAccount, Contribution, Pubkey, finalized}
use batch_it_protocol.Escrow.Settlement.Claims.{claim_pays}

-- The tokens due on a contribution.
abbrev pub share_of : Ledger → Contribution → ℕ
share_of l c = share l.pool.distributable l.pool.total_contributed c.amount

-- `who` has a contribution that is not claimed and worth at least a token, and a token account of the
-- mint with room for it.
pub record CanClaim (l : Ledger) (who : Pubkey) (wallet : TokenAccount) (c : Contribution)
    : Type 0 where
  pub found : lookup who l.contributions ≡ some c
  pub fresh : c.claimed ≡ false
  pub worth : 0 < share_of l c
  pub own_wallet : wallet.owner ≡ who
  pub right_mint : wallet.mint ≡ l.pool.mint
  pub room : wallet.amount + share_of l c < u64_mod

-- A token account that has received `n` tokens.
abbrev pub paid_into : TokenAccount → ℕ → TokenAccount
paid_into wallet n = record wallet { amount = wallet.amount + n }

-- The ledger after the claim.
abbrev pub claimed_by : Pubkey → Contribution → Ledger → Ledger
claimed_by who c l = record l {
  pool = record (l.pool) { total_claimed = l.pool.total_claimed + share_of l c };
  vault_tokens = l.vault_tokens - share_of l c;
  contributions = insert who (record c { claimed = true }) l.contributions;
}

-- The ledger, the vault and the wallet after the claim.
abbrev pub claim_result :
    Runtime → Pubkey → TokenAccount → Contribution → Ledger → Ledger × TokenAccount × TokenAccount
claim_result r who wallet c l =
    let l' : Ledger = claimed_by who c l in (l', vault r l', paid_into wallet (share_of l c))

module _ (r : Runtime) (legal : IsRuntime r) where
  pub claim_succeeds :
      (l : Ledger) (who : Pubkey) (wallet : TokenAccount) (c : Contribution)
      → Inv l
      → Backed l
      → l.pool.status ≡ finalized
      → CanClaim l who wallet c
      → (claim r who the_vault wallet l ≡ ok (claim_result r who wallet c l))
        × (share_of l c ≤ l.vault_tokens)
  unfolding claim
  claim_succeeds l who wallet c v backed st can =
      let d : ℕ = l.pool.distributable in
      let t : ℕ = l.pool.total_contributed in
      let found = can.found in
      let fresh = can.fresh in
      let entry =
        AllEntries-lookup (IsEntry l.pool_key l.pool.status) who l.contributions v.entries found in
      let part = lookup-le-weight amount_of who l.contributions in
      let due = lookup-le-weight (owed_on d t) who l.contributions in
      let covered = backed.covered st in
      let tally = v.owed st in
      let positive = v.settled_total st in
      let range = v.settled_range st in
      let worth = can.worth in
      let some_amount : 0 < c.amount = ground (arith, share-zero d t positive) in
      let exact =
        allocation_lem d c.amount t positive (ground arith) range
          (omega (arith, v.capped, v.in_range)) in
      let pays =
        claim_pays r legal (claim_accounts r who the_vault wallet c l) (share d t c.amount)
          (record {
            of_pool = entry.in_pool;
            vault_owner = refl;
            vault_mint = refl;
            wallet_owner = can.own_wallet;
            wallet_mint = can.right_mint;
          })
          st (ground arith) fresh (ground arith) some_amount exact (inl worth) (ground arith)
          can.room (ground arith) in
      (ground arith, ground arith)

  -- Another contributor's claim leaves a claim as it was.
  still_claims :
      (l : Ledger) (a b : Pubkey) (wallet : TokenAccount) (ca cb : Contribution)
      → (b == a) ≡ false
      → CanClaim l b wallet cb
      → CanClaim (claimed_by a ca l) b wallet cb
  still_claims l a b wallet ca cb apart can = record {
    found = rw (lookup-insert b a (record ca { claimed = true }) l.contributions, apart) can.found;
    fresh = can.fresh;
    worth = can.worth;
    own_wallet = can.own_wallet;
    right_mint = can.right_mint;
    room = can.room;
  }

  same_ledger :
      (l : Ledger) (a b : Pubkey) (ca cb : Contribution) {ca' cb' : Contribution}
      → (a == b) ≡ false
      → lookup a l.contributions ≡ some ca'
      → lookup b l.contributions ≡ some cb'
      → claimed_by b cb (claimed_by a ca l) ≡ claimed_by a ca (claimed_by b cb l)
  same_ledger l a b ca cb apart fa fb =
      let x : Contribution = record ca { claimed = true } in
      let y : Contribution = record cb { claimed = true } in
      let entries = insert-insert a b x y l.contributions apart fa fb in
      let tally : l.pool.total_claimed + share_of l ca + share_of l cb
          ≡ l.pool.total_claimed + share_of l cb + share_of l ca =
        omega arith in
      let left : l.vault_tokens - share_of l ca - share_of l cb
          ≡ l.vault_tokens - share_of l cb - share_of l ca =
        omega arith in
      rw (tally, left, entries) refl

  -- Claims commute: in a ledger with the invariant, backed by its vault, whose pool is finalized, two
  -- contributors who can each claim can do so out of the vault in either order, each is paid the same
  -- into the own token account, and the ledger afterwards is the same.
  pub claims_commute :
      (l : Ledger) (a b : Pubkey) (wa wb : TokenAccount) (ca cb : Contribution)
      → Inv l
      → Backed l
      → l.pool.status ≡ finalized
      → a ≢ b
      → CanClaim l a wa ca
      → CanClaim l b wb cb
      → (la : Ledger) × (lb : Ledger) × (l' : Ledger) × (claim r a the_vault wa l
          ≡ ok (la, vault r la, paid_into wa (share_of l ca)))
        × (claim r b the_vault wb la ≡ ok (l', vault r l', paid_into wb (share_of l cb)))
        × (claim r b the_vault wb l ≡ ok (lb, vault r lb, paid_into wb (share_of l cb)))
        × (claim r a the_vault wa lb ≡ ok (l', vault r l', paid_into wa (share_of l ca)))
  claims_commute l a b wa wb ca cb v backed st apart can_a can_b =
      let ab : (a == b) ≡ false = ground (arith, apart) in
      let ba : (b == a) ≡ false = ground (arith, apart) in
      let first_a = (claim_succeeds l a wa ca v backed st can_a).0 in
      let first_b = (claim_succeeds l b wb cb v backed st can_b).0 in
      let va = claim-Inv r legal a the_vault wa l (claimed_by a ca l) first_a v in
      let vb = claim-Inv r legal b the_vault wb l (claimed_by b cb l) first_b v in
      let ba_backed = claim-Backed r legal a the_vault wa l (claimed_by a ca l) first_a v backed in
      let bb_backed = claim-Backed r legal b the_vault wb l (claimed_by b cb l) first_b v backed in
      let then_b =
        claim_succeeds (claimed_by a ca l) b wb cb va ba_backed st
          (still_claims l a b wb ca cb ba can_b) in
      let then_a =
        claim_succeeds (claimed_by b cb l) a wa ca vb bb_backed st
          (still_claims l b a wa cb ca ab can_a) in
      (
        claimed_by a ca l,
        claimed_by b cb l,
        claimed_by b cb (claimed_by a ca l),
        first_a,
        then_b.0,
        first_b,
        then_a.0
            ∙ ap (λ l2. ok (l2, vault r l2, paid_into wa (share_of l ca)))
                (sym (same_ledger l a b ca cb ab can_a.found can_b.found)),
      )
