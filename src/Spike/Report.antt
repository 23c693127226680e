-- ===== src/Spike/Report.antt =====
-- writeResult of spikes/pda-buyer/src/run.ts and of run-lite-a.ts: the lines of SPIKE_RESULT.md, from the
-- fields of the result as the texts that are printed, and the time as a text.
pub mod Claims
use batch_it_protocol.Prelude.{
  Bool, List, Option, [], false, if◌then◌else◌, map, none, refl, some, true, ap, sym, ◌∙◌, ◌&&◌,
  ◌++◌, ◌≡◌, ◌∷◌,
}
use batch_it_protocol.Prelude.Texts.{is_truthy, same_text}
use Prim.Native.String.{String, ◌++◌ as str_append}
use mathlib.Core.Logic.{inl, inr}
use batch_it_protocol.Prelude.{Bool-cases}

pub record Report : Type 0 where
  pub option : String
  pub success : Bool
  pub buyer : String
  pub mint : Option String
  pub error : Option String
  pub signatures : List String
  pub notes : List String

-- The result of run-lite-a.ts also has the program, and may have the amount.
pub record LiteReport : Type 0 where
  pub report : Report
  pub program : String
  pub token_amount : Option String

-- `filter(Boolean)`
unfoldable pub truthy_lines : List String → List String
truthy_lines [] = []
truthy_lines (line ∷ lines) =
    if is_truthy line then line ∷ truthy_lines lines else truthy_lines lines

-- `join("\n")`
unfoldable pub join_lines : List String → String
join_lines [] = ""
join_lines (line ∷ []) = line
join_lines (line ∷ next ∷ lines) = str_append line (str_append "\n" (join_lines (next ∷ lines)))

-- A text between backquotes, after a heading in bold.
abbrev pub headed : String → String → String
headed heading text = str_append "**" (str_append heading (str_append ":** " text))

abbrev pub quoted : String → String
quoted text = str_append "`" (str_append text "`")

abbrev pub item : String → String
item text = str_append "- " text

-- `field ? line : ""`
abbrev pub line_if : (String → String) → Option String → String
line_if line none = ""
line_if line (some text) = if is_truthy text then line text else ""

abbrev pub success_text : Bool → String
success_text true = "true"
success_text false = "false"

abbrev pub heading_lines : String → Report → List String
heading_lines time r =
    "# SPIKE RESULT — PDA buyer (option A)"
    ∷ ""
    ∷ headed "Timestamp" time
    ∷ headed "Option proven" r.option
    ∷ headed "Success" (success_text r.success)
    ∷ headed "Buyer PDA" (quoted r.buyer)
    ∷ line_if (λ mint. headed "Mint" (quoted mint)) r.mint
    ∷ line_if (headed "Error") r.error
    ∷ ""
    ∷ []

abbrev pub may_claim : String
may_claim =
    "Threat model MAY claim: pooled buy is signed by a program PDA; orchestrator cannot redirect the buy signer. Creator is a program-controlled pubkey (PDA)."

abbrev pub must_not_claim : String
must_not_claim =
    "Threat model MUST NOT claim PDA-signed buys until option A is proven or option B is formally adopted with its weaker custody story."

-- The line on the threat model, and the one on what to do next.
unfoldable pub claim_line : Report → String
claim_line r = if r.success && same_text r.option "A" then may_claim else must_not_claim

unfoldable pub next_line : Report → String
next_line r =
    if r.success
    then "Next: escrow program + tests (do not start mainnet work)."
    else "STOP: write redesign notes for option B before touching escrow."

abbrev pub listed_lines : Report → List String
listed_lines r =
    "## Signatures"
    ∷ (map (λ s. item (quoted s)) r.signatures
        ++ ("" ∷ "## Notes" ∷ (map item r.notes ++ ("" ∷ "## Threat-model implication" ∷ []))))

unfoldable pub report_text : String → Report → String
report_text time r = join_lines (
    truthy_lines
      (heading_lines time r ++ (listed_lines r ++ (claim_line r ∷ "" ∷ next_line r ∷ "" ∷ []))))

abbrev pub lite_heading_lines : String → LiteReport → List String
lite_heading_lines time r =
    "# SPIKE RESULT — PDA buyer (option A)"
    ∷ ""
    ∷ headed "Timestamp" time
    ∷ headed "Option" r.report.option
    ∷ headed "Success" (success_text r.report.success)
    ∷ headed "Program" (quoted r.program)
    ∷ headed "Buyer PDA" (quoted r.report.buyer)
    ∷ line_if (λ mint. headed "Mint" (quoted mint)) r.report.mint
    ∷ line_if (headed "Token amount") r.token_amount
    ∷ line_if (headed "Error") r.report.error
    ∷ ""
    ∷ []

unfoldable pub lite_claim_line : LiteReport → String
lite_claim_line r =
    if r.report.success
    then "Threat model MAY claim: pooled buy is signed by a program PDA via invoke_signed; orchestrator cannot redirect the buy signer. Creator can be a program-controlled PDA."
    else "Threat model MUST NOT claim PDA-signed buys until proven."

unfoldable pub lite_report_text : String → LiteReport → String
lite_report_text time r = join_lines (
    truthy_lines
      (lite_heading_lines time r ++ (listed_lines r.report ++ (lite_claim_line r ∷ "" ∷ []))))

truthy-append : (xs ys : List String) → truthy_lines (xs ++ ys) ≡ truthy_lines xs ++ truthy_lines ys
unfolding truthy_lines
truthy-append [] ys = refl
truthy-append (x ∷ xs) ys = elim (Bool-cases (is_truthy x)) [
  | inl kept ↦ rw kept (ap (λ t. x ∷ t) (truthy-append xs ys))
  | inr dropped ↦ rw dropped (truthy-append xs ys)
]

-- An empty line between two parts is never written: the text is that of the parts put together.
pub separator_dropped :
    (before after : List String)
    → join_lines (truthy_lines (before ++ ("" ∷ after)))
      ≡ join_lines (truthy_lines (before ++ after))
unfolding truthy_lines
separator_dropped before after =
    ap join_lines (truthy-append before ("" ∷ after) ∙ sym (truthy-append before after))
