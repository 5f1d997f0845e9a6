-- ===== src/App/Router/Frame.antt =====
-- What the router asks of the handlers: that they change the ledger through its operations alone.
use op_cartesi.Ledger.Operations.Frame.{credit_ether-Keeps, debit_ether-Keeps}
use op_cartesi.App.Handlers.Frame.{facade_advance-Keeps, portal_advance-Keeps}
use op_cartesi.Bytes.{bytes_equal}
use op_cartesi.Base.{
  pure, gets, if_some, ◌>>=◌, Bool, true, false, ◌||◌, Option, none, some, List, [], ◌∷◌,
  if◌then◌else◌, Act,
}
use op_cartesi.Base.Frame.{Keeps-pure, Keeps-bind, Keeps-if, Keeps}
use op_cartesi.Evm.Types.{BlockContext, TxContext, AdvanceOutcome}
use op_cartesi.Evm.External.{External}
use op_cartesi.Ledger.Types.{Address, Ledger}
use op_cartesi.App.World.{World, Handler}
use op_cartesi.App.World.Frame.{OnWorld-preorder, on_ledger-Keeps, OnWorld}
use op_cartesi.Ledger.Operations.{token_by_l2_address}
use op_cartesi.App.Router.{
  find_handler, or_else, is_some, at_application, from_portal, portal_receiver, erc20_facade,
  resolve, enter, dispatch, Router,
}

-- Whatever the entry is called with, its changes of the ledger are journaled.
pub data IsJournaled {A : Type 0} : Option (TxContext → Act (World A) AdvanceOutcome) → Type 0 where
  missing : IsJournaled none
  journaled :
      {f : TxContext → Act (World A) AdvanceOutcome}
      → ((ctx : TxContext) → Keeps OnWorld (f ctx))
      → IsJournaled (some f)

-- Every handler of the manifest is journaled.
pub data AllJournaled {A : Type 0} : List (Address × Handler A) → Type 0 where
  done : AllJournaled []
  more :
      {key : Address} {h : Handler A} {m : List (Address × Handler A)}
      → IsJournaled h.advance
      → AllJournaled m
      → AllJournaled ((key, h) ∷ m)

module _ {A : Type 0} (ext : External) where
  data Found : Option (Handler A) → Type 0 where
    nobody : Found none
    one : {h : Handler A} → IsJournaled h.advance → Found (some h)

  Found-if : (b : Bool) (o p : Option (Handler A)) → Found o → Found p → Found (if b then o else p)
  Found-if true o p ho hp = ho
  Found-if false o p ho hp = hp

  Found-or_else : {o p : Option (Handler A)} → Found o → Found p → Found (or_else o p)
  unfolding or_else
  Found-or_else nobody hp = hp
  Found-or_else (one j) hp = one j

  find_handler-Found :
      (key : Address) {m : List (Address × Handler A)} → AllJournaled m → Found (find_handler key m)
  unfolding find_handler
  find_handler-Found key done = nobody
  find_handler-Found key (more j all) =
      Found-if (bytes_equal key _) _ _ (one j) (find_handler-Found key all)

  resolve-Found :
      (router : Router A) (to : Address) (block : Option BlockContext) (depositor : Option Address)
      (l : Ledger)
      → AllJournaled router.manifest
      → Found (resolve ext router to block depositor l)
  unfolding resolve portal_receiver erc20_facade
  resolve-Found router to block depositor l all = Found-or_else (find_handler-Found to all) (
      Found-if (at_application to block || from_portal depositor l) _ _
        (one {h = portal_receiver ext} (journaled (portal_advance-Keeps ext)))
        (Found-if (is_some (token_by_l2_address ext.keccak256 to l)) _ _
          (one {h = erc20_facade ext} (journaled (facade_advance-Keeps ext))) nobody))

  enter_entry-Keeps :
      (ctx : TxContext) {o : Option (TxContext → Act (World A) AdvanceOutcome)}
      (m : Act (World A) AdvanceOutcome)
      → IsJournaled o
      → Keeps OnWorld m
      → Keeps OnWorld (if_some o (λ f. f ctx) m)
  unfolding if_some
  enter_entry-Keeps ctx m missing hm = hm
  enter_entry-Keeps ctx m (journaled keeps) hm = keeps ctx

  enter-Keeps :
      (router : Router A) (ctx : TxContext) (h : Handler A)
      → IsJournaled h.advance
      → Keeps OnWorld (enter ext router ctx h)
  unfolding enter
  enter-Keeps router ctx h j =
      Keeps-if _ _ _ (Keeps-pure OnWorld-preorder _)
        (enter_entry-Keeps ctx _ j (Keeps-pure OnWorld-preorder _))

  enter_resolved-Keeps :
      (router : Router A) (ctx : TxContext) {o : Option (Handler A)}
      → Found o
      → Keeps OnWorld (if_some o (enter ext router ctx) (pure AdvanceOutcome.accept))
  unfolding if_some
  enter_resolved-Keeps router ctx nobody = Keeps-pure OnWorld-preorder _
  enter_resolved-Keeps router ctx (one j) = enter-Keeps router ctx _ j

  -- What stands after the value has moved: the target's own run.
  target-Keeps :
      (router : Router A) (ctx : TxContext) (pick : World A → Option (Handler A))
      → ((w : World A) → Found (pick w))
      → Keeps OnWorld
          (gets pick >>= λ o. if_some o (enter ext router ctx) (pure AdvanceOutcome.accept))
  unfolding gets ◌>>=◌
  target-Keeps router ctx pick found = record {
    related = λ w. (enter_resolved-Keeps router ctx (found w)).related w;
  }

  -- With journaled handlers in the manifest, from every world the journal leads back from the
  -- ledger after the dispatch to the ledger before it, the geometry is the same, and message
  -- statuses have only moved on, however the dispatch ends.
  pub dispatch-Keeps :
      (router : Router A) (ctx : TxContext)
      → AllJournaled router.manifest
      → Keeps OnWorld (dispatch ext router ctx)
  unfolding dispatch
  dispatch-Keeps router ctx all =
      Keeps-bind OnWorld-preorder _ _
        (on_ledger-Keeps _ (debit_ether-Keeps ext.keccak256 ctx.sender ctx.value))
        λ _.
          Keeps-bind OnWorld-preorder _ _
            (on_ledger-Keeps _ (credit_ether-Keeps ext.keccak256 ctx.to ctx.value))
            λ _. target-Keeps router ctx _ λ w.
              resolve-Found router ctx.to (some ctx.block)
                (if ctx.is_deposit then some ctx.sender else none) w.ledger all
