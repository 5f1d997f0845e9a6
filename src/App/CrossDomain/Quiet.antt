-- ===== src/App/CrossDomain/Quiet.antt =====
-- The emission discipline of a relayed call (app/src/handlers/messenger.ts and l2bridge.ts): the
-- sink has no rollback, so a run that throws has to have emitted nothing.
use op_cartesi.Base.{
  if_some, ◌>>=◌, ℕ, ◌≡◌, refl, ◌∙◌, Bool, true, false, Option, none, some, if◌then◌else◌, Act,
  continue_with, ◌>>◌, Failure, Result, ok, err,
}
use op_cartesi.Base.Frame.{keeps_rules, IsPreorder, Keeps}
use op_cartesi.Bytes.{Bytes}
use op_cartesi.Evm.Types.{CrossDomainMessage}
use op_cartesi.Evm.External.{
  BridgeTransfer, StandardBridgeCall, bridge_erc20, bridge_erc20_to, finalize_erc20, finalize_ether,
  External,
}
use op_cartesi.Ledger.Types.{Status, successful, CrossDomainConfig, Ledger}
use op_cartesi.Evm.Encoding.{Log}
use op_cartesi.Ledger.Operations.{set_message_status}
use op_cartesi.App.World.{on_ledger, emit, emit_log, World}
use op_cartesi.App.Handlers.{token_id_of}
use op_cartesi.App.CrossDomain.Bridge.{
  finalize_erc20_transfer, finalize_ether_transfer, finalize_call, finalize_from_messenger,
}
use op_cartesi.App.CrossDomain.Messenger.{relay_dispatch, record_relay, run_relay}

-- The sink and the handlers' own state are as they were.
pub record SameOutputs {A : Type 0} (w v : World A) : Type 0 where
  pub same_sink : v.sink ≡ w.sink
  pub same_app : v.app ≡ w.app

SameOutputs-preorder : {A : Type 0} → IsPreorder (SameOutputs {A = A})
SameOutputs-preorder = record {
  here = λ w. record { same_sink = refl; same_app = refl };
  chain = λ u v w h k. record {
    same_sink = k.same_sink ∙ h.same_sink;
    same_app = k.same_app ∙ h.same_app;
  };
}

-- A result from `w` that is a value, or a throw with nothing emitted.
pub data Quiet {A B : Type 0} (w : World A) : Result B × World A → Type 0 where
  ended : {b : B} {v : World A} → Quiet w (ok b, v)
  threw : {e : Failure} {v : World A} → SameOutputs w v → Quiet w (err e, v)

pub record IsQuiet {A B : Type 0} (m : Act (World A) B) : Type 0 where
  pub quiet : (w : World A) → Quiet w (m w)

-- From every state the action gives a value.
record IsTotal {S B : Type 0} (m : Act S B) : Type 0 where
  value : (s : S) → (b : B) × ((m s).0 ≡ ok b)

module _ {A : Type 0} where
  on_ledger-SameOutputs :
      {B : Type 0} (m : Act Ledger B) → Keeps (SameOutputs {A = A}) (on_ledger m)
  unfolding on_ledger
  on_ledger-SameOutputs m = record { related = λ w. record { same_sink = refl; same_app = refl } }

  silent : {B : Type 0} (w : World A) (p : Result B × World A) → SameOutputs w p.1 → Quiet w p
  silent w (ok b, v) h = ended
  silent w (err e, v) h = threw h

  silent-IsQuiet : {B : Type 0} (m : Act (World A) B) → Keeps SameOutputs m → IsQuiet m
  silent-IsQuiet m h = record { quiet = λ w. silent w (m w) (h.related w) }

  total : {B : Type 0} (w : World A) (p : Result B × World A) (b : B) → p.0 ≡ ok b → Quiet w p
  total w (ok c, v) b e = ended
  total w (err x, v) b e = absurd cc

  total-IsQuiet : {B : Type 0} (m : Act (World A) B) → IsTotal m → IsQuiet m
  total-IsQuiet m h = record { quiet = λ w. total w (m w) (h.value w).0 (h.value w).1 }

  Quiet-chain :
      {B : Type 0} (w u : World A) (p : Result B × World A)
      → SameOutputs w u
      → Quiet u p
      → Quiet w p
  Quiet-chain w u p h ended = ended
  Quiet-chain w u p h (threw k) = threw (SameOutputs-preorder.chain _ _ _ h k)

  after_silent :
      {B C : Type 0} (w : World A) (p : Result B × World A) (f : B → Act (World A) C)
      → SameOutputs w p.1
      → ((b : B) → IsQuiet (f b))
      → Quiet w (continue_with p f)
  after_silent w (ok b, v) f h k = Quiet-chain w v _ h ((k b).quiet v)
  after_silent w (err e, v) f h k = threw h

  -- Silent work first.
  first-IsQuiet :
      {B C : Type 0} (m : Act (World A) B) (f : B → Act (World A) C)
      → Keeps SameOutputs m
      → ((b : B) → IsQuiet (f b))
      → IsQuiet (m >>= f)
  unfolding ◌>>=◌
  first-IsQuiet m f h k = record { quiet = λ w. after_silent w (m w) f (h.related w) k }

  before_total :
      {B C : Type 0} (w : World A) (p : Result B × World A) (f : B → Act (World A) C)
      → Quiet w p
      → ((b : B) → IsTotal (f b))
      → Quiet w (continue_with p f)
  before_total w (ok b, v) f h k = total w (f b v) ((k b).value v).0 ((k b).value v).1
  before_total w (err e, v) f (threw s) k = threw s

  -- Work that cannot throw last.
  last-IsQuiet :
      {B C : Type 0} (m : Act (World A) B) (f : B → Act (World A) C)
      → IsQuiet m
      → ((b : B) → IsTotal (f b))
      → IsQuiet (m >>= f)
  unfolding ◌>>=◌
  last-IsQuiet m f h k = record { quiet = λ w. before_total w (m w) f (h.quiet w) k }

  if-IsQuiet :
      {B : Type 0} (b : Bool) (m n : Act (World A) B)
      → IsQuiet m
      → IsQuiet n
      → IsQuiet (if b then m else n)
  if-IsQuiet true m n h k = h
  if-IsQuiet false m n h k = k

  if_some-IsQuiet :
      {B C : Type 0} (o : Option B) (f : B → Act (World A) C) (m : Act (World A) C)
      → ((b : B) → IsQuiet (f b))
      → IsQuiet m
      → IsQuiet (if_some o f m)
  unfolding if_some
  if_some-IsQuiet none f m h k = k
  if_some-IsQuiet (some b) f m h k = h b

  ruleset silent_rules = (keeps_rules, SameOutputs-preorder, on_ledger-SameOutputs)

  module _ (ext : External) where
    log-IsTotal : (emitter : Bytes) (l : Log) → IsTotal (emit_log {A = A} ext emitter l)
    unfolding emit_log emit
    log-IsTotal emitter l = record { value = λ w. (tt, refl) }

    two_logs-IsTotal :
        (emitter other : Bytes) (l k : Log)
        → IsTotal (emit_log {A = A} ext emitter l >> emit_log ext other k)
    unfolding emit_log emit ◌>>=◌
    two_logs-IsTotal emitter other l k = record { value = λ w. (tt, refl) }

    token_id_of-SameOutputs :
        (l1_token : Bytes) → Keeps (SameOutputs {A = A}) (token_id_of ext l1_token)
    unfolding token_id_of
    token_id_of-SameOutputs l1_token = search silent_rules depth 12

    finalize_erc20-IsQuiet :
        (m : CrossDomainMessage) (t : BridgeTransfer)
        → IsQuiet {A = A} (finalize_erc20_transfer ext m t)
    unfolding finalize_erc20_transfer
    finalize_erc20-IsQuiet m t = first-IsQuiet _ _ (search silent_rules) λ u.
        first-IsQuiet _ _ (search silent_rules) λ u.
          first-IsQuiet _ _ (token_id_of-SameOutputs t.remote_token) λ id.
            first-IsQuiet _ _ (on_ledger-SameOutputs _)
              λ u. total-IsQuiet _ (two_logs-IsTotal _ _ _ _)

    finalize_ether-IsQuiet :
        (m : CrossDomainMessage) (from to : Bytes) (amount : ℕ) (extra : Bytes)
        → IsQuiet {A = A} (finalize_ether_transfer ext m from to amount extra)
    unfolding finalize_ether_transfer
    finalize_ether-IsQuiet m from to amount extra = first-IsQuiet _ _ (search silent_rules) λ u.
        first-IsQuiet _ _ (on_ledger-SameOutputs _)
          λ u. first-IsQuiet _ _ (on_ledger-SameOutputs _) λ u. total-IsQuiet _ (log-IsTotal _ _)

    finalize_call-IsQuiet :
        (m : CrossDomainMessage) (call : StandardBridgeCall)
        → IsQuiet {A = A} (finalize_call ext m call)
    unfolding finalize_call
    finalize_call-IsQuiet m (finalize_erc20 t) = finalize_erc20-IsQuiet m t
    finalize_call-IsQuiet m (finalize_ether from to amount extra) =
        finalize_ether-IsQuiet m from to amount extra
    finalize_call-IsQuiet m (bridge_erc20 l r amount gas extra) =
        silent-IsQuiet _ (search silent_rules)
    finalize_call-IsQuiet m (bridge_erc20_to a) = silent-IsQuiet _ (search silent_rules)

    finalize_from_messenger-IsQuiet :
        (m : CrossDomainMessage) (cd : CrossDomainConfig)
        → IsQuiet {A = A} (finalize_from_messenger ext m cd)
    unfolding finalize_from_messenger
    finalize_from_messenger-IsQuiet m cd = first-IsQuiet _ _ (search silent_rules) λ u.
        if_some-IsQuiet _ _ _ (finalize_call-IsQuiet m) (silent-IsQuiet _ (search silent_rules))

    relay_dispatch-IsQuiet :
        (m : CrossDomainMessage) (cd : CrossDomainConfig)
        → IsQuiet {A = A} (relay_dispatch ext m cd)
    unfolding relay_dispatch
    relay_dispatch-IsQuiet m cd =
        search (if-IsQuiet, finalize_from_messenger-IsQuiet, silent-IsQuiet, silent_rules) depth 12

    record_relay-IsTotal :
        (hash : Bytes) (status : Status) (is_failure : Bool)
        → IsTotal (record_relay {A = A} ext hash status is_failure)
    unfolding record_relay on_ledger set_message_status emit_log emit ◌>>=◌
    record_relay-IsTotal hash status is_failure = record { value = λ w. (tt, refl) }

    -- The run of a message, the record of its success included.
    pub run_relay-IsQuiet :
        (m : CrossDomainMessage) (cd : CrossDomainConfig) (hash : Bytes)
        → IsQuiet {A = A} (run_relay ext m cd hash)
    unfolding run_relay
    run_relay-IsQuiet m cd hash =
        last-IsQuiet _ _ (relay_dispatch-IsQuiet m cd)
          λ u. record_relay-IsTotal hash successful false
