-- ===== src/App/Boot/Payable.antt =====
-- What the registry says of an address is what a call with value meets there (app/src/router.ts,
-- `payableAt` of the registry and `execute`).
use op_cartesi.Ledger.Types.{Ledger}
use op_cartesi.App.L1Block.{Guest}
use op_cartesi.Base.{
  pure, if_some, ◌≡◌, Bool, true, false, Option, none, some, Act, ◌>>◌, Result, ok,
}
use op_cartesi.Evm.Types.{TxContext, text, AdvanceOutcome}
use op_cartesi.Evm.External.{External}
use op_cartesi.Evm.Encoding.{error_revert}
use op_cartesi.Ledger.Operations.{credit_ether, debit_ether}
use op_cartesi.App.World.{on_ledger, World, Handler}
use op_cartesi.App.Router.{Router}

module _ {A : Type 0} (ext : External) where
  -- The call's value from the sender to its target.
  abbrev pub move_value : TxContext → Act (World (Guest A)) (Unit {0})
  move_value ctx = do
    on_ledger (debit_ether ext.keccak256 ctx.sender ctx.value)
    on_ledger (credit_ether ext.keccak256 ctx.to ctx.value)

  -- A handler's own entry, which has the value.
  abbrev pub advance_entry : TxContext → Handler (Guest A) → Act (World (Guest A)) AdvanceOutcome
  advance_entry ctx h =
      if_some h.advance (λ f. f ctx)
        (pure (AdvanceOutcome.revert (error_revert ext (text "not a transaction target"))))

  -- What a call meets, by what the registry says: nobody, who keeps the value; a refusal of the
  -- value; or a handler.
  pub data Meets (ctx : TxContext) (v : World (Guest A))
      (run : Result AdvanceOutcome × World (Guest A)) : Option Bool → Type 0 where
    nobody : run ≡ (ok AdvanceOutcome.accept, v) → Meets ctx v run none
    not_payable :
        run ≡ (ok (AdvanceOutcome.revert (error_revert ext (text "not payable"))), v)
        → Meets ctx v run (some false)
    payable : (h : Handler (Guest A)) → run ≡ advance_entry ctx h v → Meets ctx v run (some true)
