-- ===== src/Ledger/Operations/Reads.antt =====
-- Reading an account (app/src/ledger.ts, `account`).
use op_cartesi.Bytes.{Bytes}
use op_cartesi.Base.{ap, Act}
use op_cartesi.Base.Frame.{keeps_rules, Same-preorder, Keeps, Same}
use op_cartesi.Drive.Types.{Drive}
use op_cartesi.Drive.Frame.Reads.{get_account-Same}
use op_cartesi.Ledger.Types.{Address, Journaled}
use op_cartesi.Ledger.Operations.{on_drive, account}

on_drive-Same : {A : Type 0} (m : Act (Drive Journaled) A) → Keeps Same m → Keeps Same (on_drive m)
unfolding on_drive
on_drive-Same m h = record {
  related = λ l. record {
    same = ap (λ (d : Drive Journaled). record l { drive = d }) (h.related l.drive).same;
  };
}

pub account-Same :
    (keccak256 : Bytes → Bytes) (addr : Address) → Keeps Same (account keccak256 addr)
unfolding account
account-Same keccak256 addr = search (keeps_rules, Same-preorder, on_drive-Same, get_account-Same)
