-- ===== src/App/Application/Contracts.antt =====
-- The contracts of an application (app/src/application.ts, `contract`): which handlers the router has
-- after any number of registrations, failed ones included.
use op_cartesi.App.Boot.{register, standard_router}
use op_cartesi.App.Boot.Wiring.{standard_router-AllJournaled}
use op_cartesi.App.Contract.Answers.{contract_advance-Keeps, IsTame}
use mathlib.Core.Path.{subst}
use op_cartesi.Base.{
  throw_if, ◌>>=◌, ℕ, ◌≡◌, refl, sym, inl, inr, false, List, [], ◌∷◌, ◌++◌, ◌==◌, Bool-cases,
  length, continue_with, Result, ok, err,
}
use op_cartesi.Store.{Store}
use op_cartesi.Evm.External.{External}
use op_cartesi.Ledger.Types.{Address}
use op_cartesi.AbiDrive.Types.{Text, TextCodec}
use op_cartesi.App.World.{Handler}
use op_cartesi.App.L1Block.{Guest}
use op_cartesi.App.Router.Frame.{IsJournaled, journaled, AllJournaled, done, more}
use op_cartesi.App.Contract.{contract_handler}
use op_cartesi.App.Contract.Spec.{AbiItem, ContractCodec, ContractSpec}
use op_cartesi.App.Application.{is_reserved, route, record_contract, contract, Application}

-- No contract stands at an address that the standard reserves.
abbrev pub AllFree : {A : Type 0} → List (Address × Handler A) → Type 0
AllFree [] = Unit {0}
AllFree ((key, h) ∷ m) = (is_reserved key ≡ false) × AllFree m

AllFree-append :
    {A : Type 0} (m : List (Address × Handler A)) (key : Address) (h : Handler A)
    → AllFree m
    → is_reserved key ≡ false
    → AllFree (m ++ (key, h) ∷ [])
AllFree-append [] key h free e = (e, tt)
AllFree-append ((k, g) ∷ m) key h (e₁, free) e = (e₁, AllFree-append m key h free e)

AllJournaled-add :
    {A : Type 0} {m : List (Address × Handler A)} (key : Address) (h : Handler A)
    → AllJournaled m
    → IsJournaled h.advance
    → AllJournaled (m ++ (key, h) ∷ [])
AllJournaled-add key h done j = more j done
AllJournaled-add key h (more i all) j = more i (AllJournaled-add key h all j)

module _ {S A Arg Value : Type 0} (io : Store S) (codec : TextCodec) (ext : External)
    (owner : Address) (chain_id : ℕ) (viem : ContractCodec Arg Value)
    (stringify : List AbiItem → Text) where
  -- A registration adds at most the one contract, at an address that is not reserved.
  data Added (spec : ContractSpec (Guest A) Arg Value) (m n : List (Address × Handler (Guest A)))
      : Type 0 where
    nothing : n ≡ m → Added spec m n
    one :
        n ≡ m ++ (spec.address, contract_handler ext viem spec) ∷ []
        → is_reserved spec.address ≡ false
        → Added spec m n

  recorded-Added :
      (spec : ContractSpec (Guest A) Arg Value) (m : List (Address × Handler (Guest A)))
      (addr : Address) (abi : Text) (p : Result (Unit {0}) × Application A S)
      → Added spec m p.1.contracts
      → Added spec m
          (continue_with p
            (λ u. record_contract io codec ext owner chain_id viem stringify addr abi)).1.contracts
  unfolding record_contract
  recorded-Added spec m addr abi (ok u, app) h = h
  recorded-Added spec m addr abi (err e, app) h = h

  route-Added :
      (spec : ContractSpec (Guest A) Arg Value) (app : Application A S)
      → is_reserved spec.address ≡ false
      → Added spec app.contracts
          (route io codec ext owner chain_id viem stringify spec.address
            (contract_handler ext viem spec)
            app).1.contracts
  unfolding route
  route-Added spec app free =
      elim (register spec.address (contract_handler ext viem spec)
          (standard_router ext owner chain_id app.contracts).manifest)
        as (λ (r : Result (List (Address × Handler (Guest A)))). Added spec app.contracts (
          let p : Result (Unit {0}) × Application A S = elim r [
            | err e ↦ (err e, app)
            | ok m ↦ (
              ok tt,
              record app {
                contracts = app.contracts ++ (spec.address, contract_handler ext viem spec) ∷ [];
              },
            )
          ] in
          p.1.contracts)) [ err e ↦ nothing refl | ok m ↦ one refl free ]

  contract-Added :
      (spec : ContractSpec (Guest A) Arg Value) (app : Application A S)
      → Added spec app.contracts
          (contract io codec ext owner chain_id viem stringify spec app).1.contracts
  unfolding contract ◌>>=◌ throw_if
  contract-Added spec app = elim (Bool-cases (length spec.address == 20)) [
    | inr bad ↦ rw (contract, bad) (nothing refl)
    | inl good ↦ elim (Bool-cases (is_reserved spec.address)) [
      | inl reserved ↦ rw (contract, good, reserved) (nothing refl)
      | inr free ↦
          rw (contract, good, free)
            (recorded-Added spec app.contracts spec.address (stringify spec.abi)
              (route io codec ext owner chain_id viem stringify spec.address
                (contract_handler ext viem spec) app)
              (route-Added spec app free))
    ]
  ]

  -- The applications that registrations of tame contracts lead to, from a boot.
  pub data Built : Application A S → Type 0 where
    booted : {app : Application A S} → app.contracts ≡ [] → Built app
    registered :
        {app next : Application A S} (spec : ContractSpec (Guest A) Arg Value)
        → IsTame ext viem spec
        → Built app
        → next ≡ (contract io codec ext owner chain_id viem stringify spec app).1
        → Built next

  pub record IsOrderly (m : List (Address × Handler (Guest A))) : Type 0 where
    pub all_journaled : AllJournaled m
    pub all_free : AllFree m

  Added-IsOrderly :
      (spec : ContractSpec (Guest A) Arg Value) (m n : List (Address × Handler (Guest A)))
      → IsTame ext viem spec
      → IsOrderly m
      → Added spec m n
      → IsOrderly n
  unfolding contract_handler
  Added-IsOrderly spec m n t o (nothing e) = subst IsOrderly (sym e) o
  Added-IsOrderly spec m n t o (one e free) = subst IsOrderly (sym e) (record {
    all_journaled =
        AllJournaled-add spec.address (contract_handler ext viem spec) o.all_journaled
          (journaled (λ ctx. contract_advance-Keeps ext viem spec ctx t));
    all_free = AllFree-append m spec.address (contract_handler ext viem spec) o.all_free free;
  })

  Built-IsOrderly : {app : Application A S} → Built app → IsOrderly app.contracts
  Built-IsOrderly (booted e) =
      subst IsOrderly (sym e) (record { all_journaled = done; all_free = tt })
  Built-IsOrderly (registered {app} spec t b e) =
      Added-IsOrderly spec app.contracts _ t (Built-IsOrderly b) (
        subst (λ (next : Application A S). Added spec app.contracts next.contracts) (sym e)
          (contract-Added spec app))

  -- After any registrations of contracts from a boot, failed ones included, when the contracts'
  -- callbacks change the ledger only in the ways of the ledger's operations, every handler of
  -- the router does, and no contract stands at an address that the standard reserves.
  pub Built-AllJournaled :
      {app : Application A S}
      → Built app
      → AllJournaled (standard_router ext owner chain_id app.contracts).manifest
        × AllFree app.contracts
  Built-AllJournaled b =
      let o = Built-IsOrderly b in
      (standard_router-AllJournaled ext owner chain_id _ o.all_journaled, o.all_free)
