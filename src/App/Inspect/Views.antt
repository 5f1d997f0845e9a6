-- ===== src/App/Inspect/Views.antt =====
-- Views that only read, which the source asks of a handler and does not see to (app/src/types.ts,
-- `Handler`).
use op_cartesi.App.FacadeView.{facade_view}
use op_cartesi.Base.{
  reads, ◌≡◌, refl, Bool, true, false, Option, none, some, List, [], ◌∷◌, if◌then◌else◌, Act,
  Result,
}
use op_cartesi.Evm.Types.{CallContext, ViewOutcome}
use op_cartesi.Evm.External.{External}
use op_cartesi.Ledger.Operations.{token_by_l2_address}
use op_cartesi.Ledger.Types.{Address, Ledger}
use op_cartesi.App.World.{World, Handler}
use op_cartesi.App.Router.{find_handler, or_else, is_some, erc20_facade, resolve, Router}
use op_cartesi.Bytes.{bytes_equal}

-- A view leaves the ledger as it was.
pub data IsReadOnly {A : Type 0} : Option (CallContext → Act (World A) ViewOutcome) → Type 0 where
  no_view : IsReadOnly none
  only_reads :
      {f : CallContext → Act (World A) ViewOutcome}
      → ((call : CallContext) (w : World A) → (f call w).1.ledger ≡ w.ledger)
      → IsReadOnly (some f)

pub reads-IsReadOnly :
    {A : Type 0} (f : CallContext → World A → Result ViewOutcome)
    → IsReadOnly (some (λ call. reads (f call)))
unfolding reads
reads-IsReadOnly f = only_reads λ call w. refl

-- Every view of the manifest is one.
pub data AllReadOnly {A : Type 0} : List (Address × Handler A) → Type 0 where
  no_handler : AllReadOnly []
  and_handler :
      {key : Address} {h : Handler A} {m : List (Address × Handler A)}
      → IsReadOnly h.view
      → AllReadOnly m
      → AllReadOnly ((key, h) ∷ m)

-- What a query finds, if it finds a handler.
pub data Readable {A : Type 0} : Option (Handler A) → Type 0 where
  nobody : Readable none
  somebody : {h : Handler A} → IsReadOnly h.view → Readable (some h)

module _ {A : Type 0} (ext : External) where
  Readable-if :
      (b : Bool) (o p : Option (Handler A))
      → Readable o
      → Readable p
      → Readable (if b then o else p)
  Readable-if true o p ho hp = ho
  Readable-if false o p ho hp = hp

  Readable-or_else : {o p : Option (Handler A)} → Readable o → Readable p → Readable (or_else o p)
  unfolding or_else
  Readable-or_else nobody hp = hp
  Readable-or_else (somebody j) hp = somebody j

  find_handler-Readable :
      (key : Address) {m : List (Address × Handler A)}
      → AllReadOnly m
      → Readable (find_handler key m)
  unfolding find_handler
  find_handler-Readable key no_handler = nobody
  find_handler-Readable key (and_handler j all) =
      Readable-if (bytes_equal key _) _ _ (somebody j) (find_handler-Readable key all)

  -- A query goes to the manifest or to a façade, whose view reads.
  pub resolve-Readable :
      (router : Router A) (to : Address) (l : Ledger)
      → AllReadOnly router.manifest
      → Readable (resolve ext router to none none l)
  unfolding resolve erc20_facade
  resolve-Readable router to l all = Readable-or_else (find_handler-Readable to all) (
      Readable-if (is_some (token_by_l2_address ext.keccak256 to l)) _ _
        (somebody {h = erc20_facade ext} (reads-IsReadOnly (facade_view ext))) nobody)
