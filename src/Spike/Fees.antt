-- ===== src/Spike/Fees.antt =====
-- spikes/pda-buyer/src/pump.ts: the fee settings in pump's `Global` account.
pub mod Layout
use batch_it_protocol.Prelude.{List, ℕ, Result, drop}
use batch_it_protocol.Escrow.Types.{Pubkey}
use batch_it_protocol.Web3.{Web3}
use batch_it_protocol.Web3.Buffer.{RangeError}
use batch_it_protocol.Web3.Reader.{
  Reader, ◌>>=◌, ◌>>◌, pure, read_bool, read_key, read_keys, read_u64, value,
}

pub record PumpGlobalFees : Type 0 where
  pub fee_recipient : Pubkey
  pub fee_recipients : List Pubkey
  pub reserved_fee_recipient : Pubkey
  pub reserved_fee_recipients : List Pubkey
  pub buyback_fee_recipients : List Pubkey
  pub fee_basis_points : ℕ
  pub creator_fee_basis_points : ℕ

-- The reads of `decodeGlobalFees`, from the offset 8 on.
unfoldable pub read_global_fees : Web3 → Reader PumpGlobalFees
read_global_fees w = do
  _initialized ← read_bool
  _authority ← read_key w
  fee_recipient ← read_key w
  _initial_virtual_token_reserves ← read_u64
  _initial_virtual_sol_reserves ← read_u64
  _initial_real_token_reserves ← read_u64
  _token_total_supply ← read_u64
  fee_basis_points ← read_u64
  _withdraw_authority ← read_key w
  _enable_migrate ← read_bool
  _pool_migration_fee ← read_u64
  creator_fee_basis_points ← read_u64
  fee_recipients ← read_keys w 7
  _set_creator_authority ← read_key w
  _admin_set_creator_authority ← read_key w
  _create_v2_enabled ← read_bool
  _whitelist_pda ← read_key w
  reserved_fee_recipient ← read_key w
  _mayhem_mode_enabled ← read_bool
  reserved_fee_recipients ← read_keys w 7
  _is_cashback_enabled ← read_bool
  buyback_fee_recipients ← read_keys w 8
  pure (record {
    fee_recipient = fee_recipient;
    fee_recipients = fee_recipients;
    reserved_fee_recipient = reserved_fee_recipient;
    reserved_fee_recipients = reserved_fee_recipients;
    buyback_fee_recipients = buyback_fee_recipients;
    fee_basis_points = fee_basis_points;
    creator_fee_basis_points = creator_fee_basis_points;
  })

unfoldable pub decode_global_fees : Web3 → List ℕ → Result RangeError PumpGlobalFees
decode_global_fees w bytes = value (read_global_fees w (drop 8 bytes))

abbrev pub pick_fee_recipient : PumpGlobalFees → Pubkey
pick_fee_recipient fees = fees.fee_recipient
