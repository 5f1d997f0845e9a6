-- ===== src/App/Router/Charges.antt =====
-- What the sender's account reads after a transaction that did not go well (app/src/router.ts,
-- `execute` and `advanceSigned`).
use Prim.Native.String.{String}
use op_cartesi.Base.{◌+◌, ◌^◌, ◌≤◌, ◌<◌}
use op_cartesi.Bytes.{Bytes}
use op_cartesi.Evm.External.{External}
use op_cartesi.Drive.Types.{Account}
use op_cartesi.Drive.Accounts.Codec.{nonce_bytes, balance_bytes}
use op_cartesi.Ledger.Types.{Ledger}
use op_cartesi.Ledger.Operations.{bump_nonce_and_charge}
use op_cartesi.Ledger.Operations.Balances.{IsHolding}
use op_cartesi.App.World.{World}
use op_cartesi.App.Router.{Router, Chargeable}

-- The account can be charged: it covers the fee, and the next nonce and the balance fit their fields.
pub record IsChargeable (keccak256 : Bytes → Bytes) (c : Chargeable) (l : Ledger) (a : Account)
    : Type 0 where
  pub holding : IsHolding keccak256 c.address l a
  pub covered : c.fee ≤ a.balance
  pub nonce_room : a.nonce + 1 < 256 ^ nonce_bytes l.drive.cfg
  pub balance_fits : a.balance < 256 ^ balance_bytes l.drive.cfg

module _ (keccak256 : Bytes → Bytes) (c : Chargeable) (l : Ledger) (a : Account)
    (can : IsChargeable keccak256 c l a) where
  abbrev charged : Ledger
  charged = (bump_nonce_and_charge keccak256 c.address c.fee l).1
