-- ===== src/App/Router/Input.antt =====
-- What the router makes of an input (app/src/router.ts, `advance`, `advanceDeposit` and
-- `advanceSigned`): a deposit's mint, a transaction's admission, and then `execute`.
use op_cartesi.Evm.Types.{tag_app, BlockContext, TxContext, text, report}
use op_cartesi.Evm.External.{External}
use op_cartesi.Ledger.Types.{Address}
use op_cartesi.Ledger.Journal.{mark}
use op_cartesi.Ledger.Operations.{account, credit_ether}
use op_cartesi.App.World.{on_ledger, attempt, World}
use op_cartesi.App.Parse.{
  parse_input, recover_sender, DepositInput, SignedInput, ParsedInput, deposit, signed, opaque,
  refused,
}
use op_cartesi.App.Router.{
  rejection, result_of, commit_journal, rollback_all, execute, Router, as_accept, as_opaque,
  AdvanceResult,
}
use op_cartesi.Base.{
  pure, gets, if_some, ◌>>=◌, ℕ, ◌+◌, Bool, true, false, not, Option, none, some, [], ◌∷◌, ltb,
  ◌==◌, if◌then◌else◌, Act, ◌>>◌, Result, ok, err,
}
use op_cartesi.Bytes.{Bytes}
use Prim.Native.String.{String}

module _ (ext : External) where
  module _ {A : Type 0} (router : Router A) where
    unfoldable pub refuse_mint : String → Act (World A) AdvanceResult
    unfolding rollback_all
    refuse_mint message = do rollback_all ext router; pure (rejection (text message))

    -- After the mint of a deposit with nothing to route.
    unfoldable pub finish_create : Result (Unit {0}) → Act (World A) AdvanceResult
    unfolding refuse_mint commit_journal
    finish_create (ok _) = do commit_journal; pure (result_of as_accept [])
    finish_create (err e) = refuse_mint "mint refused"

    abbrev pub deposit_context : BlockContext → DepositInput → Address → TxContext
    deposit_context block d to = record {
      block = block;
      sender = d.from;
      to = to;
      value = d.value;
      payload = d.payload;
      is_deposit = true;
      mint = d.mint;
    }

    -- The mint survives a revert: the mark is taken after it.
    unfoldable pub finish_deposit : TxContext → Result (Unit {0}) → Act (World A) AdvanceResult
    unfolding refuse_mint execute
    finish_deposit ctx (ok _) = do
      after_mint ← gets (λ w. mark w.ledger)
      execute ext router ctx after_mint none
    finish_deposit ctx (err e) = refuse_mint "mint refused (drive full)"

    unfoldable pub advance_deposit : BlockContext → DepositInput → Act (World A) AdvanceResult
    unfolding attempt finish_create finish_deposit
    advance_deposit block d = do
      minted ← attempt (on_ledger (credit_ether ext.keccak256 d.from d.mint))
      if_some d.to (λ to. finish_deposit (deposit_context block d to) minted) (finish_create minted)

    abbrev pub names_other_chain : Option ℕ → Bool
    names_other_chain none = false
    names_other_chain (some id) = not (id == router.chain_id)

    abbrev pub signed_context : BlockContext → SignedInput → Address → Address → TxContext
    signed_context block tx to sender = record {
      block = block;
      sender = sender;
      to = to;
      value = tx.value;
      payload = tx.payload;
      is_deposit = false;
      mint = 0;
    }

    -- Why a verified transaction is not admitted, by the account's nonce and balance.
    unfoldable pub refusal_of : SignedInput → ℕ → ℕ → ℕ → Option String
    refusal_of tx nonce balance fee =
        if not (tx.nonce == nonce)
        then some "nonce, account nonce"
        else (if ltb balance (fee + tx.value)
            then some "balance does not cover fee and value"
            else none)

    -- What follows the recovery of the sender.
    unfoldable pub admit :
        BlockContext → SignedInput → Address → Address → Act (World A) AdvanceResult
    unfolding refusal_of execute
    admit block tx to sender = do
      (nonce, balance) ← on_ledger (account ext.keccak256 sender)
      fee ← gets (λ w. w.ledger.ram.fee)
      here ← gets (λ w. mark w.ledger)
      if_some (refusal_of tx nonce balance fee) (λ message. pure (rejection (text message)))
          (execute ext router (signed_context block tx to sender) here
            (some (record { address = sender; fee = fee })))

    unfoldable pub advance_signed : BlockContext → SignedInput → Act (World A) AdvanceResult
    unfolding admit
    advance_signed block tx =
        if_some tx.to
          (λ to.
            if names_other_chain tx.chain_id
            then pure (rejection (text "transaction signed for another chain"))
            else if_some (recover_sender ext tx) (admit block tx to)
                (pure (rejection (text "signature does not verify"))))
          (pure (rejection (text "contract creation is not supported")))

    unfoldable pub advance_parsed : BlockContext → Bytes → ParsedInput → Act (World A) AdvanceResult
    unfolding advance_deposit advance_signed
    advance_parsed block raw opaque = pure (result_of as_opaque (report (tag_app ∷ raw) ∷ []))
    advance_parsed block raw (refused reason) = pure (rejection reason)
    advance_parsed block raw (deposit d) = advance_deposit block d
    advance_parsed block raw (signed tx) = advance_signed block tx

    -- `advance`
    unfoldable pub advance : BlockContext → Bytes → Act (World A) AdvanceResult
    unfolding advance_parsed
    advance block raw = advance_parsed block raw (parse_input ext raw)
