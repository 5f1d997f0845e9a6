-- ===== src/App/Boot/Wiring.antt =====
-- The router that the boot leaves (app/src/router.ts, the constructor and `register`): its handlers
-- are journaled, its registry answers what it resolves, and a registration disturbs no other.
use op_cartesi.Ledger.Operations.Frame.{OnLedger-preorder}
use op_cartesi.Bytes.Equal.{bytes_equal_refl, bytes_equal_other}
use op_cartesi.App.Registry.{payable_at}
use op_cartesi.Base.{
  modify, ℕ, ◌≡◌, refl, ap, ◌∙◌, ◌≢◌, Bool, true, false, Option, none, some, List, [], ◌∷◌, ◌++◌,
  if◌then◌else◌, already_routed, error, Result, ok, err,
}
use op_cartesi.Base.Frame.{Keeps}
use op_cartesi.Bytes.{Bytes, bytes_equal}
use op_cartesi.Evm.Types.{TxContext, CallContext, ViewOutcome}
use op_cartesi.Evm.External.{External}
use op_cartesi.Evm.Addresses.{registry_address, config_address}
use op_cartesi.Ledger.Types.{Address, ResolvedFacade, Ledger}
use op_cartesi.Ledger.Operations.{token_by_l2_address}
use op_cartesi.App.World.{World, Handler}
use op_cartesi.App.World.Frame.{OnWorld}
use op_cartesi.App.L1Block.{set_attributes, l1block_body, l1block_advance, Guest}
use op_cartesi.App.Config.Frame.{config_advance-Keeps}
use op_cartesi.App.Handlers.Frame.{handler_rules, bridge_advance-Keeps, passer_advance-Keeps}
use op_cartesi.App.CrossDomain.Frame.{standard_bridge_advance-Keeps, messenger_advance-Keeps}
use op_cartesi.App.Router.{find_handler, or_else, is_some, erc20_facade, resolve, Router}
use op_cartesi.App.Router.Frame.{missing, journaled, AllJournaled, done, more}
use op_cartesi.App.Boot.{
  manifest_keys, payable_of, register, manifest_with, router_with, look_up, wired_registry,
  standard_router,
}

module _ {A : Type 0} where
  AllJournaled-append :
      {m n : List (Address × Handler A)} → AllJournaled m → AllJournaled n → AllJournaled (m ++ n)
  AllJournaled-append done hn = hn
  AllJournaled-append (more j hm) hn = more j (AllJournaled-append hm hn)

  first_entry :
      (b : Bool) (g : Handler A) (x y z : Option (Handler A))
      → x ≡ or_else y z
      → (if b then some g else x) ≡ or_else (if b then some g else y) z
  unfolding or_else
  first_entry true g x y z e = refl
  first_entry false g x y z e = e

  or_else-none : (o : Option (Handler A)) → or_else o none ≡ o
  unfolding or_else
  or_else-none none = refl
  or_else-none (some g) = refl

  -- Looking in a manifest that has one entry more at its end.
  find_handler-append :
      (key k : Address) (h : Handler A) (m : List (Address × Handler A))
      → find_handler key (m ++ (k, h) ∷ [])
        ≡ or_else (find_handler key m) (if bytes_equal key k then some h else none)
  unfolding find_handler or_else
  find_handler-append key k h [] = refl
  find_handler-append key k h ((j, g) ∷ m) =
      first_entry (bytes_equal key j) g _ _ _ (find_handler-append key k h m)

  -- A registration of an address that is routed is refused; of any other address, it succeeds,
  -- routes that address to the handler, and leaves every other address as it was.
  pub register-extends :
      (key : Address) (h : Handler A) (m : List (Address × Handler A))
      → ((g : Handler A)
          → find_handler key m ≡ some g
          → register key h m ≡ err (error already_routed))
        × (find_handler key m ≡ none
            → (n : List (Address × Handler A)) × (register key h m ≡ ok n)
              × (find_handler key n ≡ some h)
              × ((other : Address) → other ≢ key → find_handler other n ≡ find_handler other m))
  unfolding register or_else
  register-extends key h m = (
    λ g e. rw (register, e) refl,
    λ free. (
      m ++ (key, h) ∷ [],
      rw (register, free) refl,
      find_handler-append key key h m ∙ rw (free, bytes_equal_refl key) refl,
      λ other differs.
          find_handler-append other key h m
          ∙ rw (bytes_equal_other other key differs) (or_else-none (find_handler other m)),
    ),
  )

module _ {A : Type 0} (ext : External) (owner : Address) (chain_id : ℕ) where
  set_attributes-Keeps : (body : Bytes) → Keeps (OnWorld {A = Guest A}) (set_attributes ext body)
  unfolding set_attributes modify
  set_attributes-Keeps body = record {
    related = λ w. record { ledgers = OnLedger-preorder.here w.ledger };
  }

  l1block_advance-Keeps :
      (ctx : TxContext) → Keeps (OnWorld {A = Guest A}) (l1block_advance ext ctx)
  unfolding l1block_advance l1block_body
  l1block_advance-Keeps ctx = search (handler_rules, set_attributes-Keeps) depth 8

  -- When what the application registers is journaled, so is every handler of the router that
  -- the boot leaves: the built-in ones change the ledger through its operations alone.
  pub standard_router-AllJournaled :
      (application : List (Address × Handler (Guest A)))
      → AllJournaled application
      → AllJournaled (standard_router ext owner chain_id application).manifest
  unfolding standard_router router_with manifest_with
  standard_router-AllJournaled application all = more missing (
      more (journaled (bridge_advance-Keeps ext)) (
        more (journaled (config_advance-Keeps ext config_address owner)) (
          more (journaled l1block_advance-Keeps) (
            more (journaled (messenger_advance-Keeps ext)) (
              more (journaled (standard_bridge_advance-Keeps ext))
                (more (journaled (passer_advance-Keeps ext)) all))))))

  payable_entry :
      (b : Bool) (h g : Handler (Guest A)) (rest o : Option (Handler (Guest A)))
      → h.payable ≡ g.payable
      → payable_of (or_else (if b then some h else rest) o)
        ≡ payable_of (or_else (if b then some g else rest) o)
  unfolding or_else
  payable_entry true h g rest o e = ap (λ (p : Bool). some p) e
  payable_entry false h g rest o e = refl

  -- What is payable does not hang on the registry's own view.
  payable_same :
      (r s : CallContext → World (Guest A) → Result ViewOutcome)
      (application : List (Address × Handler (Guest A))) (target : Address) (l : Ledger)
      → payable_of (resolve ext (router_with ext owner chain_id r application) target none none l)
        ≡ payable_of (resolve ext (router_with ext owner chain_id s application) target none none l)
  unfolding resolve router_with manifest_with find_handler
  payable_same r s application target l =
      payable_entry (bytes_equal target registry_address) _ _ _ _ refl

  -- The registry's own look at the façades adds nothing to what `resolve` finds.
  facade_again :
      (router : Router (Guest A)) (target : Address) (l : Ledger) (o : Option (Handler (Guest A)))
      (t : Option ResolvedFacade)
      → elim (payable_of (or_else o (if is_some t then some (erc20_facade ext) else none))) [
        | some payable ↦ some payable
        | none ↦ elim t [ none ↦ none | some f ↦ some false ]
      ]
        ≡ payable_of (or_else o (if is_some t then some (erc20_facade ext) else none))
  unfolding or_else erc20_facade
  facade_again router target l none none = refl
  facade_again router target l none (some t) = refl
  facade_again router target l (some h) t = refl

  -- The registry answers what the finished router resolves for a call that is no deposit and has no block.
  pub payable_at-resolve :
      (application : List (Address × Handler (Guest A))) (target : Address) (l : Ledger)
      → payable_at ext
          (look_up ext owner chain_id application)
          (manifest_keys (standard_router ext owner chain_id application).manifest)
          target
          l
        ≡ payable_of
            (resolve ext (standard_router ext owner chain_id application) target none none l)
  unfolding payable_at look_up standard_router resolve
  payable_at-resolve application target l =
      facade_again (standard_router ext owner chain_id application) target l _
        (token_by_l2_address ext.keccak256 target l)
      ∙ payable_same _ (wired_registry ext owner chain_id application) application target l
