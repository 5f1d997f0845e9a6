-- ===== src/App/Router/Outcomes.antt =====
-- What each outcome of `execute` leaves (app/src/router.ts).
use op_cartesi.Evm.Encoding.{error_revert}
use op_cartesi.Base.{◌>>=◌, ◌≡◌, refl, ap, some, List, [], ◌∷◌, ◌++◌, Failure, Result, ok, err}
use op_cartesi.Bytes.{Bytes}
use op_cartesi.Evm.Types.{
  tag_revert, tag_fail, TxContext, described, AdvanceOutcome, fail, Emission, report,
}
use op_cartesi.Evm.External.{External}
use op_cartesi.Ledger.Types.{Ledger}
use op_cartesi.Ledger.Journal.{mark, commit}
use op_cartesi.Ledger.Operations.{bump_nonce_and_charge}
use op_cartesi.Ledger.Operations.Rollback.{IsCached, rollback_restores}
use op_cartesi.App.World.{on_ledger, attempt, World}
use op_cartesi.App.World.Frame.{OnWorld}
use op_cartesi.App.Router.Frame.{dispatch-Keeps, AllJournaled}
use op_cartesi.App.Router.{
  result_of, reports_only, new_sink, begin_sink, commit_journal, dispatch, caught, roll_back,
  charge_result, charge, settle_result, settle, conclude, execute, Router, as_revert, as_fail,
  AdvanceResult, Chargeable,
}
use op_cartesi.App.Router.Input.{finish_deposit}
use mathlib.Core.Path.{subst}

module _ {A : Type 0} (ext : External) (router : Router A) where
  abbrev pub begun : TxContext → World A → World A
  begun ctx w = record w { sink = new_sink ctx.block.input_index }

  abbrev pub attempted : TxContext → World A → Result AdvanceOutcome × World A
  attempted ctx w = dispatch ext router ctx (begun ctx w)

  -- The rollback to the mark of the world before, whatever the transaction did.
  pub roll_back_restores :
      (w v : World A)
      → IsCached ext.keccak256 w.ledger
      → OnWorld w v
      → roll_back ext router (mark w.ledger) v ≡ (ok tt, record v { ledger = w.ledger })
  unfolding roll_back on_ledger
  roll_back_restores w v cached h =
      let e = rollback_restores ext.keccak256 w.ledger v.ledger cached h.ledgers in
      ap (λ (p : Result (Unit {0}) × Ledger). (p.0, record v { ledger = p.1 })) e

  -- A charge that is written: the journal is committed and the result is the finished one.
  settle_charged :
      (c : Chargeable) (finish : List Emission → AdvanceResult) (v : World A) (charged : Ledger)
      → bump_nonce_and_charge ext.keccak256 c.address c.fee v.ledger ≡ (ok tt, charged)
      → settle ext router (some c) finish v
        ≡ (ok (finish v.sink.emissions), record v { ledger = commit charged })
  unfolding settle charge charge_result settle_result attempt on_ledger commit_journal ◌>>=◌
  settle_charged c finish v charged e = rw e

  -- A reverted outcome, from a world that journaled work has led to.
  pub conclude_revert :
      (c : Chargeable) (b : Bytes) (w v : World A) (charged : Ledger)
      → IsCached ext.keccak256 w.ledger
      → OnWorld w v
      → bump_nonce_and_charge ext.keccak256 c.address c.fee w.ledger ≡ (ok tt, charged)
      → conclude ext router (mark w.ledger) (some c) (AdvanceOutcome.revert b) v ≡ (
        ok (result_of as_revert (reports_only v.sink.emissions ++ report (tag_revert ∷ b) ∷ [])),
        record v { ledger = commit charged },
      )
  unfolding conclude ◌>>=◌
  conclude_revert c b w v charged cached h e = rw (roll_back_restores w v cached h) (
      settle_charged c (λ es. result_of as_revert (reports_only es ++ report (tag_revert ∷ b) ∷ []))
        _ charged e)

  -- The run of a transaction is journaled, however it ends.
  pub run_journaled :
      (ctx : TxContext) (w : World A) (r : Result AdvanceOutcome) (v : World A)
      → AllJournaled router.manifest
      → attempted ctx w ≡ (r, v)
      → OnWorld (begun ctx w) v
  run_journaled ctx w r v all run =
      subst (λ (p : Result AdvanceOutcome × World A). OnWorld (begun ctx w) p.1) run
        ((dispatch-Keeps ext router ctx all).related (begun ctx w))

  -- With journaled handlers and right caches, when the dispatched transaction reverts and the
  -- charge can be written on the ledger from before it, the result is accepted as a revert with
  -- the reports and the revert data, and the ledger is that one with the charge alone,
  -- committed.
  pub execute-revert :
      (ctx : TxContext) (c : Chargeable) (b : Bytes) (w v : World A) (charged : Ledger)
      → AllJournaled router.manifest
      → IsCached ext.keccak256 w.ledger
      → attempted ctx w ≡ (ok (AdvanceOutcome.revert b), v)
      → bump_nonce_and_charge ext.keccak256 c.address c.fee w.ledger ≡ (ok tt, charged)
      → execute ext router ctx (mark w.ledger) (some c) w ≡ (
        ok (result_of as_revert (reports_only v.sink.emissions ++ report (tag_revert ∷ b) ∷ [])),
        record v { ledger = commit charged },
      )
  unfolding execute begin_sink attempt caught ◌>>=◌
  execute-revert ctx c b w v charged all cached run e = rw run (
      conclude_revert c b (begun ctx w) v charged cached
        (run_journaled ctx w (ok (AdvanceOutcome.revert b)) v all run) e)

  -- With journaled handlers and right caches, when the dispatch of a chargeable transaction
  -- throws and the charge can be written on the ledger from before it, the result is a revert
  -- whose data describes the failure, and the ledger is that one with the charge alone,
  -- committed.
  pub execute-throw :
      (ctx : TxContext) (c : Chargeable) (x : Failure) (w v : World A) (charged : Ledger)
      → AllJournaled router.manifest
      → IsCached ext.keccak256 w.ledger
      → attempted ctx w ≡ (err x, v)
      → bump_nonce_and_charge ext.keccak256 c.address c.fee w.ledger ≡ (ok tt, charged)
      → execute ext router ctx (mark w.ledger) (some c) w ≡ (
        ok (
            result_of as_revert (
              reports_only v.sink.emissions
              ++ report (tag_revert ∷ error_revert ext (described x)) ∷ [])),
        record v { ledger = commit charged },
      )
  unfolding execute begin_sink attempt caught ◌>>=◌
  execute-throw ctx c x w v charged all cached run e = rw run (
      conclude_revert c (error_revert ext (described x)) (begun ctx w) v charged cached
        (run_journaled ctx w (err x) v all run) e)

  -- When the dispatch ends with a failure and the charge can be written on the ledger that it
  -- left, the result is accepted with all emissions and the failure's data as a report, and
  -- what was written stays, charged and committed.
  pub execute-fail :
      (ctx : TxContext) (c : Chargeable) (b : Bytes) (w v : World A) (charged : Ledger)
      → attempted ctx w ≡ (ok (fail b), v)
      → bump_nonce_and_charge ext.keccak256 c.address c.fee v.ledger ≡ (ok tt, charged)
      → execute ext router ctx (mark w.ledger) (some c) w ≡ (
        ok (result_of as_fail (v.sink.emissions ++ report (tag_fail ∷ b) ∷ [])),
        record v { ledger = commit charged },
      )
  unfolding execute begin_sink attempt caught conclude ◌>>=◌
  execute-fail ctx c b w v charged run e =
      rw run
        (settle_charged c (λ es. result_of as_fail (es ++ report (tag_fail ∷ b) ∷ [])) v charged e)

  -- With journaled handlers and right caches after the mint, when the dispatch of a deposit
  -- reverts, the result is accepted as a revert with the reports and the revert data, and the
  -- ledger is the one right after the mint, committed.
  pub deposit-revert :
      (ctx : TxContext) (b : Bytes) (u v : World A)
      → AllJournaled router.manifest
      → IsCached ext.keccak256 u.ledger
      → attempted ctx u ≡ (ok (AdvanceOutcome.revert b), v)
      → finish_deposit ext router ctx (ok tt) u ≡ (
        ok (result_of as_revert (reports_only v.sink.emissions ++ report (tag_revert ∷ b) ∷ [])),
        record v { ledger = commit u.ledger },
      )
  unfolding finish_deposit execute begin_sink attempt caught conclude settle charge settle_result
      commit_journal ◌>>=◌
  deposit-revert ctx b u v all cached run = rw run (
      rw
        (roll_back_restores (begun ctx u) v cached
          (run_journaled ctx u (ok (AdvanceOutcome.revert b)) v all run))
        refl)
