-- ===== src/App/Router/Admission.antt =====
-- When a signed transaction is admitted (app/src/router.ts, `advanceSigned`).
use op_cartesi.Base.{
  ◌>>=◌, ℕ, ◌+◌, ◌≤◌, ◌<◌, ◌≡◌, refl, ◌≢◌, ◌⊎◌, inl, inr, some, ◌==◌, lt→ltb, le→ltb_false, ==_refl,
  ≢→==_false, Bool-cases, ok,
}
use op_cartesi.Evm.Types.{BlockContext, text}
use op_cartesi.Evm.External.{External}
use op_cartesi.Ledger.Types.{Address}
use op_cartesi.Ledger.Journal.{mark}
use op_cartesi.Ledger.Operations.{account}
use op_cartesi.Ledger.Operations.Funds.{account_read}
use op_cartesi.App.World.{on_ledger, World}
use op_cartesi.App.Parse.{SignedInput}
use op_cartesi.App.Router.{rejection, execute, Router}
use op_cartesi.App.Router.Input.{signed_context, admit}
use Prim.Native.String.{String}

module _ {A : Type 0} (ext : External) (router : Router A) where
  -- When the sender's account is read with the transaction's nonce and a balance that covers
  -- the present fee and the value, the transaction is executed from the ledger as it is,
  -- charged with that fee.
  pub admit-admitted :
      (block : BlockContext) (tx : SignedInput) (to sender : Address) (balance : ℕ) (w : World A)
      → (account ext.keccak256 sender w.ledger).0 ≡ ok (tx.nonce, balance)
      → w.ledger.ram.fee + tx.value ≤ balance
      → admit ext router block tx to sender w
        ≡ execute ext router
            (signed_context ext router block tx to sender)
            (mark w.ledger)
            (some (record { address = sender; fee = w.ledger.ram.fee }))
            w
  unfolding admit on_ledger ◌>>=◌
  admit-admitted block tx to sender balance w e covered =
      rw
        (
          account_read ext.keccak256 sender tx.nonce balance w.ledger e,
          ==_refl tx.nonce,
          le→ltb_false (w.ledger.ram.fee + tx.value) balance covered,
        )
        refl

  -- When the sender's account is read with another nonce, or with a balance short of the
  -- present fee and the value, the transaction is refused with a text and the world is as it
  -- was.
  pub admit-refused :
      (block : BlockContext) (tx : SignedInput) (to sender : Address) (nonce balance : ℕ)
      (w : World A)
      → (account ext.keccak256 sender w.ledger).0 ≡ ok (nonce, balance)
      → (tx.nonce ≢ nonce) ⊎ (balance < w.ledger.ram.fee + tx.value)
      → (message : String) × (admit ext router block tx to sender w
          ≡ (ok (rejection (text message)), w))
  unfolding admit on_ledger ◌>>=◌
  admit-refused block tx to sender nonce balance w e (inl other) = (
    "nonce, account nonce",
    rw (account_read ext.keccak256 sender nonce balance w.ledger e, ≢→==_false tx.nonce nonce other)
        refl,
  )
  admit-refused block tx to sender nonce balance w e (inr short) =
      elim (Bool-cases (tx.nonce == nonce)) [
        | inl same ↦ (
          "balance does not cover fee and value",
          rw
              (
                account_read ext.keccak256 sender nonce balance w.ledger e,
                same,
                lt→ltb balance (w.ledger.ram.fee + tx.value) short,
              )
              refl,
        )
        | inr other ↦ (
          "nonce, account nonce",
          rw (account_read ext.keccak256 sender nonce balance w.ledger e, other) refl,
        )
      ]
