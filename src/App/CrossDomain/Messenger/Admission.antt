-- ===== src/App/CrossDomain/Messenger/Admission.antt =====
-- Which messages are run (app/src/handlers/messenger.ts, `advance`).
use op_cartesi.Base.{
  pure, gets, if_some, ◌>>=◌, ℕ, ◌≡◌, refl, ◌≢◌, ◌⊎◌, inl, inr, true, false, Option, none, some,
  ◌==◌, ==_iff, Bool-cases, ok,
}
use op_cartesi.Evm.Types.{TxContext, text, AdvanceOutcome, CrossDomainMessage}
use op_cartesi.Evm.External.{External}
use op_cartesi.Evm.Encoding.{error_revert}
use op_cartesi.Evm.Nonces.{decode_versioned_nonce}
use op_cartesi.Evm.CrossDomain.{hash_cross_domain_message}
use op_cartesi.Ledger.Types.{Status, successful, failed, CrossDomainConfig}
use op_cartesi.Ledger.Operations.{message_status}
use op_cartesi.App.World.{World}
use op_cartesi.App.CrossDomain.{message_version}
use op_cartesi.App.CrossDomain.Messenger.{is_from_l1, relay_refusal, deliver, relay}
use Prim.Native.String.{String}

-- A message that nobody has run comes from L1 with its value; one that failed comes from
-- anybody else, with none. One that has been relayed never comes again.
unfoldable pub Admitted :
    TxContext → CrossDomainConfig → CrossDomainMessage → Option Status → Type 0
Admitted ctx cd m none = (is_from_l1 ctx cd ≡ true) × (ctx.value ≡ m.value)
Admitted ctx cd m (some failed) = (is_from_l1 ctx cd ≡ false) × (ctx.value ≡ 0)
Admitted ctx cd m (some successful) = ⊥

not_same : (a b : ℕ) → (a == b) ≡ false → a ≢ b
not_same a b e = λ same. let yes = (==_iff a b).1 same in absurd cc

refusal-cases :
    (ctx : TxContext) (cd : CrossDomainConfig) (m : CrossDomainMessage) (status : Option Status)
    → (Admitted ctx cd m status × (relay_refusal ctx cd m status ≡ none))
      ⊎ (¬ Admitted ctx cd m status
          × ((message : String) × (relay_refusal ctx cd m status ≡ some message)))
unfolding relay_refusal Admitted
refusal-cases ctx cd m (some successful) = inr (λ a. a, ("message has already been relayed", refl))
refusal-cases ctx cd m (some failed) = elim (Bool-cases (is_from_l1 ctx cd)) [
  | inl from_l1 ↦
      let no : ¬ Admitted ctx cd m (some failed) = λ (other, zero_value). absurd cc in
      elim (Bool-cases (ctx.value == m.value)) [
        | inl same ↦ inr (no, ("message already received", rw (from_l1, same) refl))
        | inr differs ↦ inr (no, ("value does not match the message", rw (from_l1, differs) refl))
      ]
  | inr elsewhere ↦ elim (Bool-cases (ctx.value == 0)) [
    | inl zero_value ↦
        inl ((elsewhere, (==_iff ctx.value 0).0 zero_value), rw (elsewhere, zero_value) refl)
    | inr some_value ↦ inr (
      λ (other, zero_value). not_same ctx.value 0 some_value zero_value,
      ("value must be zero on replay", rw (elsewhere, some_value) refl),
    )
  ]
]
refusal-cases ctx cd m none = elim (Bool-cases (is_from_l1 ctx cd)) [
  | inl from_l1 ↦ elim (Bool-cases (ctx.value == m.value)) [
    | inl same ↦ inl ((from_l1, (==_iff ctx.value m.value).0 same), rw (from_l1, same) refl)
    | inr differs ↦ inr (
      λ (here, same). not_same ctx.value m.value differs same,
      ("value does not match the message", rw (from_l1, differs) refl),
    )
  ]
  | inr elsewhere ↦
      let no : ¬ Admitted ctx cd m none = λ (here, same). absurd cc in
      elim (Bool-cases (ctx.value == 0)) [
        | inl zero_value ↦ inr (no, ("message cannot be replayed", rw (elsewhere, zero_value) refl))
        | inr some_value ↦
            inr (no, ("value must be zero on replay", rw (elsewhere, some_value) refl))
      ]
]

module _ {A : Type 0} (ext : External) where
  -- The message's version is 1, and it is admitted by its status in the ledger.
  abbrev pub IsDelivered : TxContext → CrossDomainConfig → CrossDomainMessage → World A → Type 0
  IsDelivered ctx cd m w =
      ((decode_versioned_nonce m.nonce).1 ≡ message_version)
      × Admitted ctx cd m (message_status (hash_cross_domain_message ext m) w.ledger)

  -- A message of version 1 is delivered when nobody has run it and it comes from the aliased L1
  -- messenger, as a deposit with the message's value, or when its run has failed and it comes
  -- otherwise, with no value. When that does not hold, the call reverts with a text and the
  -- world is as it was.
  pub relay-cases :
      (ctx : TxContext) (cd : CrossDomainConfig) (m : CrossDomainMessage) (w : World A)
      → (IsDelivered ctx cd m w
          × (relay ext ctx cd m w ≡ deliver ext m cd (hash_cross_domain_message ext m) w))
        ⊎ (¬ IsDelivered ctx cd m w
            × ((message : String) × (relay ext ctx cd m w
                  ≡ (ok (AdvanceOutcome.revert (error_revert ext (text message))), w))))
  unfolding relay pure gets if_some ◌>>=◌
  relay-cases ctx cd m w =
      elim (Bool-cases ((decode_versioned_nonce m.nonce).1 == message_version)) [
        | inr other ↦ inr (
          λ (one, admitted). not_same (decode_versioned_nonce m.nonce).1 message_version other one,
          ("only version 1 messages are supported", rw other refl),
        )
        | inl one ↦
            let version = (==_iff (decode_versioned_nonce m.nonce).1 message_version).0 one in
            elim (refusal-cases ctx cd m
              (message_status (hash_cross_domain_message ext m) w.ledger)) [
                | inl (admitted, e) ↦ inl ((version, admitted), rw (one, e) refl)
                | inr (refused, (message, e)) ↦
                    inr (λ (first, admitted). refused admitted, (message, rw (one, e) refl))
              ]
      ]
