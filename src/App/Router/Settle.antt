-- ===== src/App/Router/Settle.antt =====
-- How `execute` ends (app/src/router.ts).
use op_cartesi.App.Router.Outcomes.{roll_back_restores}
use op_cartesi.Base.{
  ◌>>=◌, ◌≡◌, refl, true, false, Option, none, some, List, [], ◌∷◌, ◌++◌, Failure, Result, ok, err,
}
use op_cartesi.Evm.Types.{
  tag_revert, tag_fail, TxContext, AdvanceOutcome, fail, reject, Emission, report,
}
use op_cartesi.Evm.External.{External}
use op_cartesi.Ledger.Types.{Ledger}
use op_cartesi.Ledger.Journal.{mark, commit}
use op_cartesi.Ledger.Operations.{bump_nonce_and_charge}
use op_cartesi.Ledger.Operations.Frame.{bump_nonce_and_charge-Keeps}
use op_cartesi.Ledger.Operations.Rollback.{IsCached}
use op_cartesi.Bytes.{Bytes}
use op_cartesi.Ledger.Operations.Statuses.{StatusOrder}
use op_cartesi.App.World.{on_ledger, attempt, World}
use op_cartesi.App.World.Frame.{OnWorld-preorder, on_ledger-Keeps, OnWorld}
use op_cartesi.App.Router.Frame.{dispatch-Keeps, AllJournaled}
use op_cartesi.App.Router.{
  result_of, reports_only, new_sink, begin_sink, commit_journal, dispatch, caught, roll_back,
  rollback_all, charge_result, charge, settle_result, settle, conclude, execute, Router, as_accept,
  as_revert, as_fail, AdvanceResult, Chargeable,
}
use mathlib.Core.Path.{subst}

-- How an input may end, from a world with the ledger `l`: refused with that ledger unchanged,
-- accepted with nothing left in the journal and every message's status unchanged or moved on, or thrown with that ledger unchanged.
pub data Settles {A : Type 0} (l : Ledger) : Result AdvanceResult × World A → Type 0 where
  refused_whole :
      {r : AdvanceResult} {v : World A}
      → r.accept ≡ false
      → r.emissions ≡ []
      → v.ledger ≡ l
      → Settles l (ok r, v)
  committed :
      {r : AdvanceResult} {v : World A}
      → r.accept ≡ true
      → mark v.ledger ≡ 0
      → ((k : Bytes) → StatusOrder (l.ram.messages k) (v.ledger.ram.messages k))
      → Settles l (ok r, v)
  thrown : {e : Failure} {v : World A} → v.ledger ≡ l → Settles l (err e, v)

module _ {A : Type 0} (ext : External) (router : Router A) where
  -- A cached ledger with nothing in its journal: what every input starts from.
  pub record IsReady (w : World A) : Type 0 where
    pub cached : IsCached ext.keccak256 w.ledger
    pub empty : mark w.ledger ≡ 0

  pub rollback_all_restores :
      (w v : World A)
      → IsReady w
      → OnWorld w v
      → rollback_all ext router v ≡ (ok tt, record v { ledger = w.ledger })
  unfolding rollback_all
  rollback_all_restores w v ready h =
      subst (λ m. roll_back ext router m v ≡ (ok tt, record v { ledger = w.ledger })) ready.empty
        (roll_back_restores ext router w v ready.cached h)

  abbrev Accepts : (List Emission → AdvanceResult) → Type 0
  Accepts finish = (es : List Emission) → (finish es).accept ≡ true

  -- Once the charge has been tried.
  charged-Settles :
      (r : Result (Unit {0})) (finish : List Emission → AdvanceResult) (w v : World A)
      → IsReady w
      → Accepts finish
      → OnWorld w v
      → Settles w.ledger ((charge_result ext router r >>= settle_result ext router finish) v)
  unfolding charge_result settle_result commit_journal commit mark ◌>>=◌
  charged-Settles (ok u) finish w v ready accepts h = committed (accepts _) refl h.ledgers.progress
  charged-Settles (err e) finish w v ready accepts h =
      rw (rollback_all_restores w v ready h) (refused_whole refl refl refl)

  settle-Settles :
      (chargeable : Option Chargeable) (finish : List Emission → AdvanceResult) (w v : World A)
      → IsReady w
      → Accepts finish
      → OnWorld w v
      → Settles w.ledger (settle ext router chargeable finish v)
  unfolding settle charge attempt settle_result commit_journal commit mark ◌>>=◌
  settle-Settles none finish w v ready accepts h = committed (accepts _) refl h.ledgers.progress
  settle-Settles (some c) finish w v ready accepts h =
      let step =
        on_ledger-Keeps (bump_nonce_and_charge ext.keccak256 c.address c.fee)
          (bump_nonce_and_charge-Keeps ext.keccak256 c.address c.fee) in
      charged-Settles (on_ledger (bump_nonce_and_charge ext.keccak256 c.address c.fee) v).0 finish w
        _ ready accepts (OnWorld-preorder.chain w v _ h (step.related v))

  -- Whatever the outcome, from a mark that stands at or above the world before the input.
  conclude-Settles :
      (outcome : AdvanceOutcome) (chargeable : Option Chargeable) (w u v : World A)
      → IsReady w
      → IsCached ext.keccak256 u.ledger
      → OnWorld w u
      → OnWorld u v
      → Settles w.ledger (conclude ext router (mark u.ledger) chargeable outcome v)
  unfolding conclude ◌>>=◌
  conclude-Settles AdvanceOutcome.accept chargeable w u v ready cached h k =
      settle-Settles chargeable (result_of as_accept) w v ready (λ es. refl)
        (OnWorld-preorder.chain w u v h k)
  conclude-Settles (fail b) chargeable w u v ready cached h k =
      settle-Settles chargeable (λ es. result_of as_fail (es ++ report (tag_fail ∷ b) ∷ [])) w v
        ready (λ es. refl) (OnWorld-preorder.chain w u v h k)
  conclude-Settles (AdvanceOutcome.revert b) chargeable w u v ready cached h k =
      rw (roll_back_restores ext router u v cached k) (
        settle-Settles chargeable
          (λ es. result_of as_revert (reports_only es ++ report (tag_revert ∷ b) ∷ [])) w
          (record v { ledger = u.ledger }) ready (λ es. refl) (record { ledgers = h.ledgers }))
  conclude-Settles (reject reason) chargeable w u v ready cached h k =
      rw (rollback_all_restores w v ready (OnWorld-preorder.chain w u v h k))
        (refused_whole refl refl refl)

  pub execute-Settles :
      (ctx : TxContext) (chargeable : Option Chargeable) (w u : World A)
      → AllJournaled router.manifest
      → IsReady w
      → IsCached ext.keccak256 u.ledger
      → OnWorld w u
      → Settles w.ledger (execute ext router ctx (mark u.ledger) chargeable u)
  unfolding execute begin_sink attempt ◌>>=◌
  execute-Settles ctx chargeable w u all ready cached h =
      let begun : World A = record u { sink = new_sink ctx.block.input_index } in
      let run = (dispatch-Keeps ext router ctx all).related begun in
      conclude-Settles (caught ext router chargeable (dispatch ext router ctx begun).0) chargeable w
        u (dispatch ext router ctx begun).1 ready cached h (record { ledgers = run.ledgers })
