-- ===== src/Spike/Report/Claims.antt =====
-- The report says of the threat model what the verdict of the same run says.
use batch_it_protocol.Prelude.{Bool, true, false, if◌then◌else◌, map, none, refl, some, ◌≡◌}
use Prim.Native.String.{String}
use batch_it_protocol.Escrow.Types.{Pubkey}
use batch_it_protocol.Spike.Report.{Report, claim_line, may_claim, must_not_claim}
use batch_it_protocol.Spike.Run.{
  Choice, Note, Printed, SpikeResult, nothing, not_proven, option_a, option_b, print_verdict,
  proven, unproven, waiting,
}

abbrev pub option_text : Choice → String
option_text option_a = "A"
option_text option_b = "B"
option_text unproven = "UNPROVEN"

-- The result with its keys and notes printed.
abbrev pub report_of : (Pubkey → String) → (Note → String) → SpikeResult → Report
report_of base58 note_text r = record {
  option = option_text r.option;
  success = r.success;
  buyer = base58 r.buyer;
  mint = elim r.mint [ none ↦ none | some m ↦ some (base58 m) ];
  error = r.error;
  signatures = r.signatures;
  notes = map note_text r.notes;
}

abbrev pub claim_for : Printed → String
claim_for proven = may_claim
claim_for nothing = must_not_claim
claim_for waiting = must_not_claim
claim_for not_proven = must_not_claim

unproven_claim :
    (funds_awaited : Bool)
    → must_not_claim ≡ claim_for (if funds_awaited then waiting else not_proven)
unproven_claim true = refl
unproven_claim false = refl

-- By the option and the success of the result.
claim_by_cases :
    (base58 : Pubkey → String) (note_text : Note → String) (r : SpikeResult) (c : Choice) (b : Bool)
    → claim_line (report_of base58 note_text (record r { option = c; success = b }))
      ≡ claim_for (print_verdict (record r { option = c; success = b }))
unfolding claim_line print_verdict
claim_by_cases base58 note_text r option_a true = refl
claim_by_cases base58 note_text r option_a false = unproven_claim _
claim_by_cases base58 note_text r option_b true = unproven_claim _
claim_by_cases base58 note_text r option_b false = unproven_claim _
claim_by_cases base58 note_text r unproven true = unproven_claim _
claim_by_cases base58 note_text r unproven false = unproven_claim _

-- The report allows the claim of the threat model exactly when the verdict printed is "proven".
pub claim_line-verdict :
    (base58 : Pubkey → String) (note_text : Note → String) (r : SpikeResult)
    → claim_line (report_of base58 note_text r) ≡ claim_for (print_verdict r)
claim_line-verdict base58 note_text r = claim_by_cases base58 note_text r r.option r.success
