-- ===== src/App/CrossDomain/Messenger/Relay.antt =====
-- One delivery (app/src/handlers/messenger.ts, `advance` and `dispatch`).
use op_cartesi.Base.{
  pure, ◌>>=◌, ◌≡◌, refl, ap, ◌∙◌, ◌⊎◌, inl, inr, true, Act, ◌>>◌, Failure, Result, ok, err,
}
use op_cartesi.Bytes.{Bytes}
use op_cartesi.Evm.Types.{AdvanceOutcome, accept, CrossDomainMessage}
use op_cartesi.Evm.External.{External}
use op_cartesi.Ledger.Types.{failed, CrossDomainConfig, Ledger}
use op_cartesi.Ledger.Journal.{mark, rollback_to}
use op_cartesi.Ledger.Operations.{after_rollback}
use op_cartesi.Ledger.Operations.Rollback.{IsCached, rollback_restores}
use op_cartesi.App.World.{on_ledger, attempt, World}
use op_cartesi.App.World.Frame.{OnWorld}
use op_cartesi.App.CrossDomain.Frame.{run_relay-Keeps}
use op_cartesi.App.CrossDomain.Quiet.{run_relay-IsQuiet, SameOutputs, Quiet, threw}
use op_cartesi.App.CrossDomain.Messenger.{record_relay, run_relay, conclude_relay, deliver}

module _ {A : Type 0} (ext : External) where
  -- The failure is recorded on the world as it stands, and nothing else happens.
  abbrev pub failure_recorded : Bytes → Act (World A) AdvanceOutcome
  failure_recorded hash = do record_relay ext hash failed true; pure accept

  -- The rollback of a run that has thrown gives the whole world back.
  taken_back :
      (w v : World A)
      → IsCached ext.keccak256 w.ledger
      → OnWorld w v
      → SameOutputs w v
      → on_ledger (do rollback_to (mark w.ledger); after_rollback ext.keccak256) v ≡ (ok tt, w)
  unfolding on_ledger
  taken_back w v cached h s =
      ap (λ (p : Result (Unit {0}) × Ledger). (p.0, record v { ledger = p.1 }))
        (rollback_restores ext.keccak256 w.ledger v.ledger cached h.ledgers)
      ∙ λ i. (ok tt, record { ledger = w.ledger; sink = s.same_sink i; app = s.same_app i })

  -- What follows a run that threw, and one that did not.
  abbrev Delivered :
      Bytes → (w : World A) → Result (Unit {0}) × World A → Result AdvanceOutcome × World A → Type 0
  Delivered hash w run end =
      ((v : World A) × (run ≡ (ok tt, v)) × (end ≡ (ok accept, v)))
      ⊎ ((e : Failure) × (run.0 ≡ err e) × (end ≡ failure_recorded hash w))

  concluded :
      (hash : Bytes) (w : World A) (p : Result (Unit {0}) × World A)
      → IsCached ext.keccak256 w.ledger
      → OnWorld w p.1
      → Quiet w p
      → Delivered hash w p (conclude_relay ext hash (mark w.ledger) p.0 p.1)
  unfolding conclude_relay pure ◌>>=◌
  concluded hash w (ok u, v) cached h q = inl (v, refl, refl)
  concluded hash w (err e, v) cached h (threw s) =
      inr (e, refl, rw (taken_back w v cached h s) refl)

  -- From a ledger with right caches, a delivery either runs the message to its end and is
  -- accepted with what the run left; or the run throws, and the delivery is the recording of
  -- that failure on the world from before the run: its writes are taken back, and it has
  -- emitted nothing.
  pub deliver-atomic :
      (m : CrossDomainMessage) (cd : CrossDomainConfig) (hash : Bytes) (w : World A)
      → IsCached ext.keccak256 w.ledger
      → ((v : World A) × (run_relay ext m cd hash w ≡ (ok tt, v))
          × (deliver ext m cd hash w ≡ (ok accept, v)))
        ⊎ ((e : Failure) × ((run_relay ext m cd hash w).0 ≡ err e)
            × (deliver ext m cd hash w ≡ failure_recorded hash w))
  unfolding deliver attempt ◌>>=◌
  deliver-atomic m cd hash w cached =
      concluded hash w (run_relay ext m cd hash w) cached
        ((run_relay-Keeps ext m cd hash).related w) ((run_relay-IsQuiet ext m cd hash).quiet w)
