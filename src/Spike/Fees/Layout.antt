-- ===== src/Spike/Fees/Layout.antt =====
-- pump's `Global` account, field by field in the order of the pinned IDL (third_party/pump-public-docs/
-- pump.json), and what decodeGlobalFees makes of its bytes.
use batch_it_protocol.Prelude.{Bool, List, ℕ, ok, ap, drop, length, ◌++◌, ◌≡◌, ◌<◌, ◌^◌, ◌∷◌, []}
use batch_it_protocol.Prelude.Bytes.{le_bytes}
use batch_it_protocol.Prelude.Words.{u64_mod}
use batch_it_protocol.Escrow.Types.{Pubkey}
use batch_it_protocol.Web3.{Web3, IsWeb3, to_buffer}
use batch_it_protocol.Web3.Buffer.{drop_prefix}
use batch_it_protocol.Web3.Reader.{
  AreKeys, Reads, Reads-bind, Reads-map, flag, keys_bytes, read_bool-Reads, read_key-Reads,
  read_keys, read_keys-Reads, read_u64-Reads, value,
}
use batch_it_protocol.Spike.Fees.{PumpGlobalFees, decode_global_fees, read_global_fees}

pub record Global : Type 0 where
  pub initialized : Bool
  pub authority : Pubkey
  pub fee_recipient : Pubkey
  pub initial_virtual_token_reserves : ℕ
  pub initial_virtual_sol_reserves : ℕ
  pub initial_real_token_reserves : ℕ
  pub token_total_supply : ℕ
  pub fee_basis_points : ℕ
  pub withdraw_authority : Pubkey
  pub enable_migrate : Bool
  pub pool_migration_fee : ℕ
  pub creator_fee_basis_points : ℕ
  pub fee_recipients : List Pubkey
  pub set_creator_authority : Pubkey
  pub admin_set_creator_authority : Pubkey
  pub create_v2_enabled : Bool
  pub whitelist_pda : Pubkey
  pub reserved_fee_recipient : Pubkey
  pub mayhem_mode_enabled : Bool
  pub reserved_fee_recipients : List Pubkey
  pub is_cashback_enabled : Bool
  pub buyback_fee_recipients : List Pubkey

-- The types of the fields.
pub record IsGlobal (g : Global) : Type 0 where
  pub authority : g.authority < 256 ^ 32
  pub fee_recipient : g.fee_recipient < 256 ^ 32
  pub initial_virtual_token_reserves : g.initial_virtual_token_reserves < u64_mod
  pub initial_virtual_sol_reserves : g.initial_virtual_sol_reserves < u64_mod
  pub initial_real_token_reserves : g.initial_real_token_reserves < u64_mod
  pub token_total_supply : g.token_total_supply < u64_mod
  pub fee_basis_points : g.fee_basis_points < u64_mod
  pub withdraw_authority : g.withdraw_authority < 256 ^ 32
  pub pool_migration_fee : g.pool_migration_fee < u64_mod
  pub creator_fee_basis_points : g.creator_fee_basis_points < u64_mod
  pub fee_recipients : AreKeys g.fee_recipients
  pub seven_recipients : length g.fee_recipients ≡ 7
  pub set_creator_authority : g.set_creator_authority < 256 ^ 32
  pub admin_set_creator_authority : g.admin_set_creator_authority < 256 ^ 32
  pub whitelist_pda : g.whitelist_pda < 256 ^ 32
  pub reserved_fee_recipient : g.reserved_fee_recipient < 256 ^ 32
  pub reserved_fee_recipients : AreKeys g.reserved_fee_recipients
  pub seven_reserved : length g.reserved_fee_recipients ≡ 7
  pub buyback_fee_recipients : AreKeys g.buyback_fee_recipients
  pub eight_buyback : length g.buyback_fee_recipients ≡ 8

-- The bytes of the fields: a `bool` is a byte, a `u64` 8 bytes, a `pubkey` 32.
abbrev pub global_bytes : Global → List ℕ
global_bytes g =
    (flag g.initialized ∷ [])
    ++ (to_buffer g.authority
        ++ (to_buffer g.fee_recipient
            ++ (le_bytes 8 g.initial_virtual_token_reserves
                ++ (le_bytes 8 g.initial_virtual_sol_reserves
                    ++ (le_bytes 8 g.initial_real_token_reserves
                        ++ (le_bytes 8 g.token_total_supply
                            ++ (le_bytes 8 g.fee_basis_points
                                ++ (to_buffer g.withdraw_authority
                                    ++ ((flag g.enable_migrate ∷ [])
                                        ++ (le_bytes 8 g.pool_migration_fee
                                            ++ (le_bytes 8 g.creator_fee_basis_points
                                                ++ (keys_bytes g.fee_recipients
                                                    ++ (to_buffer g.set_creator_authority
                                                        ++ (to_buffer g.admin_set_creator_authority
                                                            ++ ((flag g.create_v2_enabled ∷ [])
                                                            ++ (to_buffer g.whitelist_pda
                                                            ++ (to_buffer g.reserved_fee_recipient
                                                            ++ ((flag g.mayhem_mode_enabled ∷ [])
                                                            ++ (keys_bytes g.reserved_fee_recipients
                                                            ++ ((flag g.is_cashback_enabled ∷ [])
                                                            ++ keys_bytes
                                                            g.buyback_fee_recipients))))))))))))))))))))

abbrev pub fees_of : Global → PumpGlobalFees
fees_of g = record {
  fee_recipient = g.fee_recipient;
  fee_recipients = g.fee_recipients;
  reserved_fee_recipient = g.reserved_fee_recipient;
  reserved_fee_recipients = g.reserved_fee_recipients;
  buyback_fee_recipients = g.buyback_fee_recipients;
  fee_basis_points = g.fee_basis_points;
  creator_fee_basis_points = g.creator_fee_basis_points;
}

read_global_fees-Reads :
    (w : Web3)
    → IsWeb3 w
    → (g : Global) → IsGlobal g
    → Reads (read_global_fees w) (global_bytes g) (fees_of g)
unfolding read_global_fees
read_global_fees-Reads w legal g h =
    let key = read_key-Reads w legal in
    let keys = read_keys-Reads w legal in
    let bool = read_bool-Reads in
    let num = read_u64-Reads in
    Reads-bind _ _ (bool g.initialized) (
      Reads-bind _ _ (key g.authority h.authority) (
        Reads-bind _ _ (key g.fee_recipient h.fee_recipient) (
          Reads-bind _ _ (num g.initial_virtual_token_reserves h.initial_virtual_token_reserves) (
            Reads-bind _ _ (num g.initial_virtual_sol_reserves h.initial_virtual_sol_reserves) (
              Reads-bind _ _ (num g.initial_real_token_reserves h.initial_real_token_reserves) (
                Reads-bind _ _ (num g.token_total_supply h.token_total_supply) (
                  Reads-bind _ _ (num g.fee_basis_points h.fee_basis_points) (
                    Reads-bind _ _ (key g.withdraw_authority h.withdraw_authority) (
                      Reads-bind _ _ (bool g.enable_migrate) (
                        Reads-bind _ _ (num g.pool_migration_fee h.pool_migration_fee) (
                          Reads-bind _ _ (num g.creator_fee_basis_points h.creator_fee_basis_points)
                            (Reads-bind _ _
                              (keys 7 g.fee_recipients h.seven_recipients h.fee_recipients)
                              (Reads-bind _ _ (key g.set_creator_authority h.set_creator_authority)
                                (Reads-bind _ _
                                  (key g.admin_set_creator_authority h.admin_set_creator_authority)
                                  (Reads-bind _ _ (bool g.create_v2_enabled) (
                                    Reads-bind _ _ (key g.whitelist_pda h.whitelist_pda) (
                                      Reads-bind _ _
                                        (key g.reserved_fee_recipient h.reserved_fee_recipient)
                                        (Reads-bind _ _ (bool g.mayhem_mode_enabled) (
                                          Reads-bind _ _
                                            (keys 7 g.reserved_fee_recipients h.seven_reserved
                                              h.reserved_fee_recipients)
                                            (Reads-bind _ _ (bool g.is_cashback_enabled) (
                                              Reads-map (read_keys w 8) _ (
                                                keys 8 g.buyback_fee_recipients h.eight_buyback
                                                  h.buyback_fee_recipients))))))))))))))))))))))

-- On an account of the IDL's layout, behind any 8 bytes of discriminator and before whatever else the
-- account holds, decodeGlobalFees returns its fee fields.
pub decode_global_fees-layout :
    (w : Web3)
    → IsWeb3 w
    → (g : Global) → IsGlobal g
    → (discriminator left : List ℕ) → length discriminator ≡ 8
    → decode_global_fees w (discriminator ++ (global_bytes g ++ left)) ≡ ok (fees_of g)
unfolding decode_global_fees
decode_global_fees-layout w legal g h discriminator left e =
    let run : read_global_fees w (drop 8 (discriminator ++ (global_bytes g ++ left)))
        ≡ ok (fees_of g, left) =
      rw (drop_prefix 8 discriminator (global_bytes g ++ left) e)
        ((read_global_fees-Reads w legal g h).at left) in
    ap value run
