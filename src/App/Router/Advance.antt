-- ===== src/App/Router/Advance.antt =====
-- How an input ends (app/src/router.ts, `advance`).
use op_cartesi.Base.{
  pure, if_some, ◌>>=◌, ℕ, ◌≡◌, refl, sym, Bool, true, false, Option, none, some, if◌then◌else◌,
  Act, continue_with, Result, ok, err,
}
use op_cartesi.Bytes.{Bytes}
use op_cartesi.Evm.Types.{BlockContext, TxContext, Reason, text}
use op_cartesi.Evm.External.{External}
use op_cartesi.Ledger.Types.{Address, Ledger}
use op_cartesi.Ledger.Journal.{mark, commit}
use op_cartesi.Ledger.Operations.{account, credit_ether}
use op_cartesi.Ledger.Operations.Frame.{credit_ether-Keeps}
use op_cartesi.Ledger.Operations.Rollback.{IsCached}
use op_cartesi.Ledger.Operations.Reads.{account-Same}
use op_cartesi.Ledger.Operations.Statuses.{unchanged}
use op_cartesi.App.World.{on_ledger, attempt, World}
use op_cartesi.App.Parse.{
  parse_input, recover_sender, DepositInput, SignedInput, ParsedInput, deposit, signed, opaque,
  refused,
}
use op_cartesi.App.World.Frame.{OnWorld-preorder, on_ledger-Keeps, OnWorld}
use op_cartesi.App.Router.Frame.{AllJournaled}
use op_cartesi.App.Router.Settle.{
  rollback_all_restores, execute-Settles, Settles, refused_whole, committed, thrown, IsReady,
}
use op_cartesi.App.Router.{rejection, commit_journal, Router, AdvanceResult}
use op_cartesi.App.Router.Input.{
  refuse_mint, finish_create, deposit_context, finish_deposit, advance_deposit, names_other_chain,
  signed_context, refusal_of, admit, advance_signed, advance_parsed, advance,
}
use mathlib.Core.Path.{subst}
use Prim.Native.String.{String}

module _ {A : Type 0} (ext : External) (router : Router A) where
  refuse_mint-Settles :
      (message : String) (w v : World A)
      → IsReady ext router w
      → OnWorld w v
      → Settles w.ledger (refuse_mint ext router message v)
  unfolding refuse_mint ◌>>=◌
  refuse_mint-Settles message w v ready h =
      rw (rollback_all_restores ext router w v ready h) (refused_whole refl refl refl)

  -- After the mint, whether or not it was written.
  deposit-Settles :
      (minted : Result (Unit {0})) (ctx : TxContext) (w u : World A)
      → AllJournaled router.manifest
      → IsReady ext router w
      → IsCached ext.keccak256 u.ledger
      → OnWorld w u
      → Settles w.ledger (finish_deposit ext router ctx minted u)
  unfolding finish_deposit ◌>>=◌
  deposit-Settles (ok x) ctx w u all ready cached h =
      execute-Settles ext router ctx none w u all ready cached h
  deposit-Settles (err e) ctx w u all ready cached h = refuse_mint-Settles _ w u ready h

  create-Settles :
      (minted : Result (Unit {0})) (w u : World A)
      → IsReady ext router w
      → OnWorld w u
      → Settles w.ledger (finish_create ext router minted u)
  unfolding finish_create commit_journal commit mark ◌>>=◌
  create-Settles (ok x) w u ready h = committed refl refl h.ledgers.progress
  create-Settles (err e) w u ready h = refuse_mint-Settles _ w u ready h

  route-Settles :
      (block : BlockContext) (d : DepositInput) (to : Option Address) (minted : Result (Unit {0}))
      (w u : World A)
      → AllJournaled router.manifest
      → IsReady ext router w
      → IsCached ext.keccak256 u.ledger
      → OnWorld w u
      → Settles w.ledger (
          if_some to
            (λ a. finish_deposit ext router (deposit_context ext router block d a) minted)
            (finish_create ext router minted)
            u)
  unfolding if_some
  route-Settles block d none minted w u all ready cached h = create-Settles minted w u ready h
  route-Settles block d (some to) minted w u all ready cached h =
      deposit-Settles minted _ w u all ready cached h

  pub advance_deposit-Settles :
      (block : BlockContext) (d : DepositInput) (w : World A)
      → AllJournaled router.manifest
      → IsReady ext router w
      → IsCached ext.keccak256 (credit_ether ext.keccak256 d.from d.mint w.ledger).1
      → Settles w.ledger (advance_deposit ext router block d w)
  unfolding advance_deposit attempt on_ledger ◌>>=◌
  advance_deposit-Settles block d w all ready cached =
      let mint =
        on_ledger-Keeps (credit_ether ext.keccak256 d.from d.mint)
          (credit_ether-Keeps ext.keccak256 d.from d.mint) in
      let (minted, l) = credit_ether ext.keccak256 d.from d.mint w.ledger in
      route-Settles block d d.to (credit_ether ext.keccak256 d.from d.mint w.ledger).0 w _ all ready
        cached (mint.related w)

  -- A refusal on a world that nothing has written to.
  untouched-Settles :
      (reason : Reason) (w v : World A)
      → v.ledger ≡ w.ledger
      → Settles w.ledger (pure (rejection reason) v)
  unfolding pure
  untouched-Settles reason w v e = refused_whole refl refl e

  refusal-Settles :
      (o : Option String) (m : Act (World A) AdvanceResult) (w : World A)
      → Settles w.ledger (m w)
      → Settles w.ledger (if_some o (λ message. pure (rejection (text message))) m w)
  unfolding if_some
  refusal-Settles none m w h = h
  refusal-Settles (some message) m w h = untouched-Settles _ w w refl

  -- What follows the account's record, or the throw of its read.
  admit_account-Settles :
      (p : Result (ℕ × ℕ) × Ledger) (f : ℕ × ℕ → Act (World A) AdvanceResult) (w : World A)
      → p.1 ≡ w.ledger
      → ((a : ℕ × ℕ) → Settles w.ledger (f a w))
      → Settles w.ledger (continue_with (p.0, record w { ledger = p.1 }) f)
  admit_account-Settles (ok a, l) f w e h =
      subst (λ (x : Ledger). Settles w.ledger (f a (record w { ledger = x }))) (sym e) (h a)
  admit_account-Settles (err x, l) f w e h = thrown e

  admit-Settles :
      (block : BlockContext) (tx : SignedInput) (to sender : Address) (w : World A)
      → AllJournaled router.manifest
      → IsReady ext router w
      → Settles w.ledger (admit ext router block tx to sender w)
  unfolding admit on_ledger ◌>>=◌
  admit-Settles block tx to sender w all ready =
      admit_account-Settles (account ext.keccak256 sender w.ledger) _ w
        ((account-Same ext.keccak256 sender).related w.ledger).same
        λ a. refusal-Settles (refusal_of ext router tx a.0 a.1 w.ledger.ram.fee) _ w (
          execute-Settles ext router (signed_context ext router block tx to sender)
            (some (record { address = sender; fee = w.ledger.ram.fee })) w w all ready ready.cached
            (OnWorld-preorder.here w))

  signed_by-Settles :
      (block : BlockContext) (tx : SignedInput) (to : Address) (signer : Option Address)
      (w : World A)
      → AllJournaled router.manifest
      → IsReady ext router w
      → Settles w.ledger (
          if_some signer
            (admit ext router block tx to)
            (pure (rejection (text "signature does not verify")))
            w)
  unfolding if_some
  signed_by-Settles block tx to none w all ready = untouched-Settles _ w w refl
  signed_by-Settles block tx to (some sender) w all ready =
      admit-Settles block tx to sender w all ready

  chain-Settles :
      (b : Bool) (m : Act (World A) AdvanceResult) (w : World A)
      → Settles w.ledger (m w)
      → Settles w.ledger
          ((if b then pure (rejection (text "transaction signed for another chain")) else m) w)
  chain-Settles true m w h = untouched-Settles _ w w refl
  chain-Settles false m w h = h

  to-Settles :
      (block : BlockContext) (tx : SignedInput) (o : Option Address) (w : World A)
      → AllJournaled router.manifest
      → IsReady ext router w
      → Settles w.ledger (
          if_some o
            (λ to.
              if names_other_chain ext router tx.chain_id
              then pure (rejection (text "transaction signed for another chain"))
              else if_some
                  (recover_sender ext tx)
                  (admit ext router block tx to)
                  (pure (rejection (text "signature does not verify"))))
            (pure (rejection (text "contract creation is not supported")))
            w)
  unfolding if_some
  to-Settles block tx none w all ready = untouched-Settles _ w w refl
  to-Settles block tx (some to) w all ready =
      chain-Settles (names_other_chain ext router tx.chain_id) _ w
        (signed_by-Settles block tx to (recover_sender ext tx) w all ready)

  -- A signed transaction is refused with the ledger as it was, or committed as a whole.
  pub advance_signed-Settles :
      (block : BlockContext) (tx : SignedInput) (w : World A)
      → AllJournaled router.manifest
      → IsReady ext router w
      → Settles w.ledger (advance_signed ext router block tx w)
  unfolding advance_signed
  advance_signed-Settles block tx w all ready = to-Settles block tx tx.to w all ready

  -- The caches still agree after the mint, where the input is a deposit.
  unfoldable pub MintIsCached : ParsedInput → Ledger → Type 0
  MintIsCached opaque l = Unit {0}
  MintIsCached (refused reason) l = Unit {0}
  MintIsCached (signed tx) l = Unit {0}
  MintIsCached (deposit d) l = IsCached ext.keccak256 (credit_ether ext.keccak256 d.from d.mint l).1

  parsed-Settles :
      (block : BlockContext) (raw : Bytes) (input : ParsedInput) (w : World A)
      → AllJournaled router.manifest
      → IsReady ext router w
      → MintIsCached input w.ledger
      → Settles w.ledger (advance_parsed ext router block raw input w)
  unfolding advance_parsed pure MintIsCached
  parsed-Settles block raw opaque w all ready minted = committed refl ready.empty λ k. unchanged
  parsed-Settles block raw (refused reason) w all ready minted = untouched-Settles _ w w refl
  parsed-Settles block raw (deposit d) w all ready minted =
      advance_deposit-Settles block d w all ready minted
  parsed-Settles block raw (signed tx) w all ready minted =
      advance_signed-Settles block tx w all ready

  -- With journaled handlers in the manifest, from a ledger with an empty journal and right
  -- caches, and with caches that stay right after a deposit's mint, an input ends in one of
  -- three ways: refused, with no emissions and the ledger as it was; accepted, with nothing
  -- left in the journal and the status of every cross-domain message unchanged or moved on; or
  -- thrown, with the ledger as it was.
  pub advance-Settles :
      (block : BlockContext) (raw : Bytes) (w : World A)
      → AllJournaled router.manifest
      → IsReady ext router w
      → MintIsCached (parse_input ext raw) w.ledger
      → Settles w.ledger (advance ext router block raw w)
  unfolding advance
  advance-Settles block raw w all ready minted =
      parsed-Settles block raw (parse_input ext raw) w all ready minted
