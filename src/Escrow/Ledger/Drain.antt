-- ===== src/Escrow/Ledger/Drain.antt =====
-- Refunding everybody in turn.
use batch_it_protocol.Escrow.Exit
use batch_it_protocol.Prelude.{
  List, Option-cases, Result, Result-cases, Bool-cases, [], arith, inl, inr, none, ok, refl, some,
  true, ℕ, ◌+◌, ◌<◌, ◌==◌, ◌>>=◌, ◌∷◌, ◌≡◌, ltb, if◌then◌else◌, ◌≤◌, false, sym, ◌∙◌, ap,
}
use batch_it_protocol.Prelude.Int.{leb_ℤ, ℤ}
use batch_it_protocol.Prelude.Maps.{lookup, lookup-insert, weight, IsDistinct}
use batch_it_protocol.Prelude.Words.{u64_mod}
use batch_it_protocol.Escrow.Exit.{close_pool}
use batch_it_protocol.Escrow.Exit.Laws.{refund_lem}
use batch_it_protocol.Escrow.Ledger.{Ledger, refund, refund_accounts}
use batch_it_protocol.Escrow.Ledger.Guarantees.{refund_always}
use batch_it_protocol.Escrow.Ledger.Invariant.{amount_of}
use batch_it_protocol.Escrow.Ledger.Steps.{Reachable, next, paid_back}
use batch_it_protocol.Escrow.Runtime.{IsRuntime, Runtime}
use batch_it_protocol.Escrow.Types.{Contribution, Failure, Pubkey, refundable}

-- The contributors with something left, in the order of their records.
unfoldable pub refundees : List (Pubkey × Contribution) → List Pubkey
refundees [] = []
refundees ((who, c) ∷ m) = if ltb 0 c.amount then who ∷ refundees m else refundees m

-- A `refund` to each of them in turn; `wallet` tells how many lamports each one has. The result is the
-- ledger, and the lamports that each one has afterwards, in the same order.
unfoldable pub refund_all :
    ℤ → (Pubkey → ℕ) → List Pubkey → Ledger → Result Failure (Ledger × List ℕ)
refund_all now wallet [] l = ok (l, [])
refund_all now wallet (who ∷ ws) l = do
  (l1, lamports) ← refund now who (wallet who) l
  (l2, others) ← refund_all now wallet ws l1
  ok (l2, lamports ∷ others)

refund_all-first :
    (now : ℤ) (wallet : Pubkey → ℕ) (who : Pubkey) (ws : List Pubkey) (l : Ledger) {l1 l2 : Ledger}
    {lamports : ℕ} {others : List ℕ}
    → refund now who (wallet who) l ≡ ok (l1, lamports)
    → refund_all now wallet ws l1 ≡ ok (l2, others)
    → refund_all now wallet (who ∷ ws) l ≡ ok (l2, lamports ∷ others)
unfolding refund_all
refund_all-first now wallet who ws l first rest = rw (first, rest) refl

-- What they are to have afterwards: what they had and what is left of their contribution.
unfoldable pub repaid : (Pubkey → ℕ) → List (Pubkey × Contribution) → List ℕ
repaid wallet [] = []
repaid wallet ((who, c) ∷ m) =
    if ltb 0 c.amount then (wallet who + c.amount) ∷ repaid wallet m else repaid wallet m

-- What `refund` leaves alone.
refund-kept :
    (now : ℤ) (who : Pubkey) (wallet : ℕ) (l l' : Ledger) {wallet' : ℕ}
    → refund now who wallet l ≡ ok (l', wallet')
    → (l'.pool.status ≡ refundable)
      × (l'.pool.grace_ends_at ≡ l.pool.grace_ends_at)
      × (l'.pool.creator ≡ l.pool.creator)
      × ((other : Pubkey)
          → (other == who) ≡ false
          → lookup other l'.contributions ≡ lookup other l.contributions)
unfolding refund
refund-kept now who wallet l l' e = elim (Option-cases (lookup who l.contributions)) [
  | inl missing ↦ absurd (ground arith)
  | inr (c, found) ↦ elim (Result-cases (Exit.refund now (refund_accounts who wallet c l))) [
    | inr (x, failed) ↦ absurd (ground arith)
    | inl (a, done) ↦
        let f = refund_lem now (refund_accounts who wallet c l) done in
        (
          ground arith,
          ground arith,
          ground arith,
          λ other apart. ground (arith, lookup-insert other who a.contribution l.contributions),
        )
  ]
]

-- What has become of `l`, when everybody on the list has been refunded.
pub record IsDrained (r : Runtime) (pump : Pubkey) (l l' : Ledger) : Type 0 where
  pub reached : Reachable r pump l'
  pub ended : l'.pool.status ≡ refundable
  pub nothing_left : l'.pool.total_contributed ≡ 0
  pub all_paid : l'.pool_lamports + l.pool.total_contributed ≡ l.pool_lamports
  pub same_creator : l'.pool.creator ≡ l.pool.creator

-- The records of `m` that are still to be refunded are those of the ledger.
abbrev pub Remain : List (Pubkey × Contribution) → Ledger → Type 0
Remain m l =
    (who : Pubkey) (c : Contribution) → lookup who m ≡ some c → lookup who l.contributions ≡ some c

IsDrained-step :
    {r : Runtime} {pump : Pubkey} (l m l' : Ledger) (n : ℕ)
    → m.pool_lamports + n ≡ l.pool_lamports
    → m.pool.total_contributed + n ≡ l.pool.total_contributed
    → m.pool.creator ≡ l.pool.creator
    → IsDrained r pump m l'
    → IsDrained r pump l l'
IsDrained-step l m l' n lamports total creator d = record {
  reached = d.reached;
  ended = d.ended;
  nothing_left = d.nothing_left;
  all_paid = omega (arith, d.all_paid);
  same_creator = d.same_creator ∙ creator;
}

pub other_key :
    (k who : Pubkey) (m : List (Pubkey × Contribution)) {d : Contribution}
    → lookup who m ≡ none
    → lookup k m ≡ some d
    → (k == who) ≡ false
other_key k who m missing found = elim (Bool-cases (k == who)) [
  | inl same ↦
      let key : k ≡ who = ground arith in
      let also : lookup k m ≡ lookup who m = ap (λ j. lookup j m) key in absurd (ground arith)
  | inr other ↦ other
]

pub Remain-after :
    (who : Pubkey) (m : List (Pubkey × Contribution)) (l l' : Ledger)
    → lookup who m ≡ none
    → ((other : Pubkey)
        → (other == who) ≡ false
        → lookup other l'.contributions ≡ lookup other l.contributions)
    → Remain m l
    → Remain m l'
Remain-after who m l l' missing same remain =
    λ k c found. same k (other_key k who m missing found) ∙ remain k c found

module _ (r : Runtime) (legal : IsRuntime r) (pump : Pubkey) (now : ℤ) (wallet : Pubkey → ℕ)
    (bound : ℕ) (room : (who : Pubkey) → wallet who + bound < u64_mod) where
  pub drain :
      (m : List (Pubkey × Contribution)) (l : Ledger)
      → Reachable r pump l
      → l.pool.status ≡ refundable
      → leb_ℤ l.pool.grace_ends_at now ≡ true
      → l.pool.total_contributed ≤ bound
      → IsDistinct m
      → Remain m l
      → weight amount_of m ≡ l.pool.total_contributed
      → (l' : Ledger) × (refund_all now wallet (refundees m) l ≡ ok (l', repaid wallet m))
        × IsDrained r pump l l'
  unfolding refund_all refundees repaid weight
  drain [] l reach st over fits apart remain sum = (
    l,
    refl,
    record {
      reached = reach;
      ended = st;
      nothing_left = sym sum;
      all_paid = ground arith;
      same_creator = refl;
    },
  )
  drain ((who, c) ∷ m) l reach st over fits apart remain sum =
      let remain_after : Remain m l =
        λ k d e. remain k d (let other = other_key k who m apart.0 e in ground arith) in
      elim (Bool-cases (ltb 0 c.amount)) [
        | inr empty ↦ rw empty (drain m l reach st over fits apart.1 remain_after (ground arith))
        | inl some_left ↦
            let found = remain who c (ground arith) in
            let (l1, paid, lamports, total, _) =
              refund_always r legal pump now who (wallet who) l c reach (inr (inr st)) over found
                (ground arith) (ground (arith, room who)) in
            let kept = refund-kept now who (wallet who) l l1 paid in
            let (l', rest, drained) =
              drain m l1 (next reach (paid_back now who (wallet who) paid)) kept.0 (rw kept.1 over)
                (ground arith) apart.1 (Remain-after who m l l1 apart.0 kept.3 remain_after)
                (ground arith) in
            rw some_left (
              l',
              refund_all-first now wallet who (refundees m) l paid rest,
              IsDrained-step l l1 l' c.amount lamports total kept.2 drained,
            )
      ]
