-- ===== src/App/Contract/Answers.antt =====
-- What a contract's handler can come to (app/src/contract.ts, `contractHandler`).
use mathlib.Core.Path.{subst}
use Prim.Native.String.{String}
use op_cartesi.Base.{
  pure, if_some, ◌>>=◌, ◌≡◌, refl, sym, ◌⊎◌, inl, inr, false, some, List, Bool-cases, Option-cases,
  Act, Result, ok, err,
}
use op_cartesi.Base.Frame.{Keeps}
use op_cartesi.Bytes.{Bytes}
use op_cartesi.Evm.Types.{TxContext, AdvanceOutcome, accept}
use op_cartesi.Evm.External.{External}
use op_cartesi.App.World.{attempt, World}
use op_cartesi.App.World.Frame.{OnWorld-preorder, OnWorld}
use op_cartesi.App.Contract.Spec.{
  Decoded, ContractCodec, Ending, returned, fails, reverts, ContractSpec,
}
use op_cartesi.App.Contract.{
  mutability_of, is_read_only, refused_call, outcome_of, contract_call, contract_advance,
}

-- Not a rejection: the transaction is included whatever the contract does.
pub data IsIncluded : AdvanceOutcome → Type 0 where
  accepted : IsIncluded accept
  reverted : (b : Bytes) → IsIncluded (AdvanceOutcome.revert b)
  failed : (b : Bytes) → IsIncluded (AdvanceOutcome.fail b)

module _ (ext : External) {A Arg Value : Type 0} (codec : ContractCodec Arg Value)
    (spec : ContractSpec A Arg Value) where
  outcome_of-IsIncluded : (r : Result (Ending (Unit {0}))) → IsIncluded (outcome_of ext r)
  unfolding outcome_of
  outcome_of-IsIncluded (ok (returned u)) = accepted
  outcome_of-IsIncluded (ok (fails e)) = failed _
  outcome_of-IsIncluded (ok (reverts e)) = reverted _
  outcome_of-IsIncluded (err e) = reverted _

  -- The callback of a transaction function ran, on that function's arguments, and the outcome is what
  -- its end comes to.
  pub record Ran (ctx : TxContext) (w v : World A) (o : AdvanceOutcome) : Type 0 where
    pub call : Decoded Arg
    pub callback : List Arg → TxContext → Act (World A) (Ending (Unit {0}))
    pub decoded_as : codec.decode_function_data spec.abi ctx.payload ≡ some call
    pub writable : is_read_only (mutability_of spec.abi call.function_name) ≡ false
    pub given : spec.transactions call.function_name ≡ some callback
    pub after : v ≡ (callback call.args ctx w).1
    pub outcome_is : o ≡ outcome_of ext (callback call.args ctx w).0

  abbrev pub Answer : TxContext → World A → Result AdvanceOutcome × World A → Type 0
  Answer ctx w run =
      (o : AdvanceOutcome) × (run.0 ≡ ok o) × IsIncluded o × ((run.1 ≡ w) ⊎ Ran ctx w run.1 o)

  refused-Answer :
      (why : String) (ctx : TxContext) (w : World A) → Answer ctx w (pure (refused_call ext why) w)
  unfolding pure
  refused-Answer why ctx w = (_, refl, reverted _, inl refl)

  contract_call-Answer :
      (ctx : TxContext) (call : Decoded Arg) (w : World A)
      → codec.decode_function_data spec.abi ctx.payload ≡ some call
      → Answer ctx w (contract_call ext codec spec ctx call w)
  unfolding contract_call if_some pure ◌>>=◌ attempt
  contract_call-Answer ctx call w decoded =
      elim (Bool-cases (is_read_only (mutability_of spec.abi call.function_name))) [
        | inl view ↦ rw (contract_call, view) (refused-Answer _ ctx w)
        | inr writable ↦ elim (Option-cases (spec.transactions call.function_name)) [
          | inl absent ↦ rw (contract_call, writable, absent) (refused-Answer _ ctx w)
          | inr (callback, given) ↦
              rw (contract_call, writable, given)
                (
                  outcome_of ext (callback call.args ctx w).0,
                  refl,
                  outcome_of-IsIncluded _,
                  inr (record {
                    call = call;
                    callback = callback;
                    decoded_as = decoded;
                    writable = writable;
                    given = given;
                    after = refl;
                    outcome_is = refl;
                  }),
                )
        ]
      ]

  -- A transaction to a contract, whatever it carries, ends with an accept, a revert or a
  -- failure, never with a throw or a rejection; and either the world is as it was, or the
  -- callback of the decoded function, which the ABI does not declare as a view, ran on its
  -- arguments, the world is the one that it left, and the outcome is what its end comes to.
  pub contract_advance-answers :
      (ctx : TxContext) (w : World A) → Answer ctx w (contract_advance ext codec spec ctx w)
  unfolding contract_advance if_some
  contract_advance-answers ctx w =
      elim (Option-cases (codec.decode_function_data spec.abi ctx.payload)) [
        | inl unknown ↦ rw (contract_advance, unknown) (refused-Answer _ ctx w)
        | inr (call, decoded) ↦
            rw (contract_advance, decoded) (contract_call-Answer ctx call w decoded)
      ]

  -- Callbacks that change the ledger through its operations alone.
  pub record IsTame : Type 0 where
    pub tame :
        (name : String) (callback : List Arg → TxContext → Act (World A) (Ending (Unit {0})))
        → spec.transactions name ≡ some callback
        → (args : List Arg) (ctx : TxContext) → Keeps OnWorld (callback args ctx)

  Ran-OnWorld :
      (ctx : TxContext) (w v : World A) (o : AdvanceOutcome) → IsTame → Ran ctx w v o → OnWorld w v
  Ran-OnWorld ctx w v o t r =
      subst (λ (u : World A). OnWorld w u) (sym r.after)
        ((t.tame r.call.function_name r.callback r.given r.call.args ctx).related w)

  pub contract_advance-Keeps :
      (ctx : TxContext) → IsTame → Keeps OnWorld (contract_advance ext codec spec ctx)
  contract_advance-Keeps ctx t = record {
    related = λ w.
        let (o, e, included, cases) = contract_advance-answers ctx w in
        elim cases [
          | inl same ↦ subst (λ (u : World A). OnWorld w u) (sym same) (OnWorld-preorder.here w)
          | inr r ↦ Ran-OnWorld ctx w _ o t r
        ];
  }
