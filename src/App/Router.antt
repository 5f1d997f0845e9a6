-- ===== src/App/Router.antt =====
-- The router (app/src/router.ts): resolve a target, move the value, run the handler, charge the
-- sender, and commit one of the outcomes. The manifest is the table that the constructor and
-- `register` fill before the first input.
pub mod Frame
pub mod Input
pub mod Outcomes
pub mod Charges
pub mod Unfunded
pub mod Settle
pub mod Advance
pub mod Admission
pub mod Messages
use op_cartesi.Evm.Types.{
  tag_revert, tag_fail, BlockContext, TxContext, Reason, text, described, AdvanceOutcome, revert,
  fail, reject, Emission, notice, voucher, report,
}
use op_cartesi.Evm.External.{External}
use op_cartesi.Evm.Encoding.{error_revert}
use op_cartesi.Ledger.Types.{Address, Ledger}
use op_cartesi.Ledger.Journal.{rollback_to, commit}
use op_cartesi.Ledger.Operations.{
  portal_kind, credit_ether, debit_ether, bump_nonce_and_charge, after_rollback,
  token_by_l2_address,
}
use op_cartesi.App.World.{on_ledger, attempt, Sink, World, Handler}
use op_cartesi.App.FacadeView.{facade_view}
use op_cartesi.App.Handlers.{facade_advance, portal_advance}
use op_cartesi.Base.{
  pure, gets, reads, if_some, ◌>>=◌, ℕ, Bool, true, false, not, ◌&&◌, ◌||◌, Option, none, some,
  List, [], ◌∷◌, ◌++◌, ltb, if◌then◌else◌, Act, ◌>>◌, Result, ok, err,
}
use Prim.Native.String.{String}
use op_cartesi.Bytes.{bytes_equal}

pub record Router (A : Type 0) : Type 0 where
  pub manifest : List (Address × Handler A)
  pub chain_id : ℕ

pub data Outcome : Type 0 where
  as_accept as_revert as_fail as_reject as_opaque : Outcome

pub record AdvanceResult : Type 0 where
  pub accept : Bool
  pub emissions : List Emission
  pub outcome : Outcome
  pub reason : Option Reason

-- The signer to bump and charge, and the fee at admission.
pub record Chargeable : Type 0 where
  pub address : Address
  pub fee : ℕ

abbrev pub rejection : Reason → AdvanceResult
rejection reason = record {
  accept = false;
  emissions = [];
  outcome = as_reject;
  reason = some reason;
}

abbrev pub result_of : Outcome → List Emission → AdvanceResult
result_of outcome emissions = record {
  accept = true;
  emissions = emissions;
  outcome = outcome;
  reason = none;
}

-- `reportsOnly`
unfoldable pub reports_only : List Emission → List Emission
reports_only [] = []
reports_only (report payload ∷ es) = report payload ∷ reports_only es
reports_only (notice payload ∷ es) = reports_only es
reports_only (voucher destination value payload ∷ es) = reports_only es

unfoldable pub find_handler :
    {A : Type 0} → Address → List (Address × Handler A) → Option (Handler A)
find_handler key [] = none
find_handler key ((k, h) ∷ m) = if bytes_equal key k then some h else find_handler key m

-- `new BufferSink(inputIndex)`
abbrev pub new_sink : ℕ → Sink
new_sink index = record { input_index = index; emissions = []; withdrawals = 0 }

module _ {A : Type 0} where
  unfoldable pub begin_sink : ℕ → Act (World A) (Unit {0})
  begin_sink index w = (ok tt, record w { sink = new_sink index })

  unfoldable pub commit_journal : Act (World A) (Unit {0})
  commit_journal w = (ok tt, record w { ledger = commit w.ledger })

unfoldable pub or_else : {B : Type 0} → Option B → Option B → Option B
or_else none o = o
or_else (some b) o = some b

abbrev pub is_some : {B : Type 0} → Option B → Bool
is_some none = false
is_some (some b) = true

abbrev pub at_application : Address → Option BlockContext → Bool
at_application to none = false
at_application to (some block) = bytes_equal to block.app_contract

abbrev pub from_portal : Option Address → Ledger → Bool
from_portal none l = false
from_portal (some sender) l = is_some (portal_kind sender l)

module _ (ext : External) where
  unfoldable pub portal_receiver : {A : Type 0} → Handler A
  portal_receiver = record { payable = true; advance = some (portal_advance ext); view = none }

  unfoldable pub erc20_facade : {A : Type 0} → Handler A
  erc20_facade = record {
    payable = false;
    advance = some (facade_advance ext);
    view = some (λ call. reads (facade_view ext call));
  }

  module _ {A : Type 0} (router : Router A) where
    -- The manifest, then the portal receiver, then the façades.
    unfoldable pub resolve :
        Address → Option BlockContext → Option Address → Ledger → Option (Handler A)
    unfolding find_handler or_else
    resolve to block depositor l = or_else (find_handler to router.manifest) (
        if at_application to block || from_portal depositor l
        then some portal_receiver
        else (if is_some (token_by_l2_address ext.keccak256 to l) then some erc20_facade else none))

    unfoldable pub enter : TxContext → Handler A → Act (World A) AdvanceOutcome
    enter ctx h =
        if ltb 0 ctx.value && not h.payable
        then pure (AdvanceOutcome.revert (error_revert ext (text "not payable")))
        else if_some h.advance (λ f. f ctx)
            (pure (AdvanceOutcome.revert (error_revert ext (text "not a transaction target"))))

    -- The body of the `try` of `execute`.
    unfoldable pub dispatch : TxContext → Act (World A) AdvanceOutcome
    unfolding resolve enter
    dispatch ctx = do
      on_ledger (debit_ether ext.keccak256 ctx.sender ctx.value)
      on_ledger (credit_ether ext.keccak256 ctx.to ctx.value)
      handler ← gets (λ w.
          resolve ctx.to (some ctx.block) (if ctx.is_deposit then some ctx.sender else none)
            w.ledger)
      if_some handler (enter ctx) (pure AdvanceOutcome.accept)

    -- The `catch` of `execute`.
    unfoldable pub caught : Option Chargeable → Result AdvanceOutcome → AdvanceOutcome
    caught chargeable (ok outcome) = outcome
    caught none (err e) = reject (described e)
    caught (some c) (err e) = AdvanceOutcome.revert (error_revert ext (described e))

    unfoldable pub roll_back : ℕ → Act (World A) (Unit {0})
    roll_back m = on_ledger (do rollback_to m; after_rollback ext.keccak256)

    -- `rollbackAll`
    unfoldable pub rollback_all : Act (World A) (Unit {0})
    unfolding roll_back
    rollback_all = roll_back 0

    unfoldable pub charge_result : Result (Unit {0}) → Act (World A) (Option AdvanceResult)
    unfolding rollback_all
    charge_result (ok _) = pure none
    charge_result (err e) = do rollback_all; pure (some (rejection (described e)))

    -- The charge: a result when it is refused.
    unfoldable pub charge : Option Chargeable → Act (World A) (Option AdvanceResult)
    unfolding attempt charge_result
    charge none = pure none
    charge (some c) = do
      r ← attempt (on_ledger (bump_nonce_and_charge ext.keccak256 c.address c.fee))
      charge_result r

    -- Commit, unless the charge was refused, and give the result made of the sink's emissions.
    unfoldable pub settle_result :
        (List Emission → AdvanceResult) → Option AdvanceResult → Act (World A) AdvanceResult
    unfolding commit_journal
    settle_result finish refusal =
        if_some refusal pure
          (do commit_journal; emissions ← gets (λ w. w.sink.emissions); pure (finish emissions))

    unfoldable pub settle :
        Option Chargeable → (List Emission → AdvanceResult) → Act (World A) AdvanceResult
    unfolding charge settle_result
    settle chargeable finish = charge chargeable >>= settle_result finish

    unfoldable pub conclude : ℕ → Option Chargeable → AdvanceOutcome → Act (World A) AdvanceResult
    unfolding settle reports_only roll_back rollback_all
    conclude m chargeable AdvanceOutcome.accept = settle chargeable (result_of as_accept)
    conclude m chargeable (fail b) =
        settle chargeable λ es. result_of as_fail (es ++ report (tag_fail ∷ b) ∷ [])
    conclude m chargeable (AdvanceOutcome.revert b) = do
      roll_back m
      settle chargeable λ es. result_of as_revert (reports_only es ++ report (tag_revert ∷ b) ∷ [])
    conclude m chargeable (reject reason) = do rollback_all; pure (rejection reason)

    unfoldable pub execute : TxContext → ℕ → Option Chargeable → Act (World A) AdvanceResult
    unfolding dispatch caught conclude begin_sink attempt
    execute ctx m chargeable = do
      begin_sink ctx.block.input_index
      r ← attempt (dispatch ctx)
      conclude m chargeable (caught chargeable r)
