-- ===== src/Drive/Frame/Reads.antt =====
-- The queries of the drive (accounts-drive/js/src/drive.ts, `getAccount`).
use op_cartesi.Bytes.{Bytes}
use op_cartesi.Drive.Accounts.{nonzero_address, get_account}
use op_cartesi.Base.{ℕ}
use op_cartesi.Base.Frame.{keeps_rules, Same-preorder, Keeps, Same}
use op_cartesi.Store.{Store}
use op_cartesi.Drive.Types.{AddressLike}
use op_cartesi.Drive.Table.{counter, lookup, Table}

module _ {S : Type 0} (io : Store S) where
  counter-Same : (off : ℕ) → Keeps Same (counter io off)
  unfolding counter
  counter-Same off = search (keeps_rules, Same-preorder)

  nonzero_address-Same : (addr : AddressLike) → Keeps Same (nonzero_address {S = S} addr)
  unfolding nonzero_address
  nonzero_address-Same addr = search (keeps_rules, Same-preorder)

  module _ (keccak256 : Bytes → Bytes) where
    lookup-Same : (t : Table) (key : Bytes) → Keeps Same (lookup io keccak256 t key)
    unfolding lookup
    lookup-Same t key = search (keeps_rules, Same-preorder)

    pub get_account-Same : (addr : AddressLike) → Keeps Same (get_account io keccak256 addr)
    unfolding get_account
    get_account-Same addr =
        search (keeps_rules, Same-preorder, nonzero_address-Same, lookup-Same) depth 9
