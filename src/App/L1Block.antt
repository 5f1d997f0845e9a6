-- ===== src/App/L1Block.antt =====
-- The `L1Block` predeploy (app/src/handlers/l1block.ts): the L1 attributes of the last attributes
-- transaction, in plain RAM. Here the handlers' own state is the attributes beside the rest.
pub mod Attributes
pub mod Served
use op_cartesi.Base.{
  pure, modify, ◌>>=◌, ℕ, not, ◌&&◌, Option, none, some, ltb, if◌then◌else◌, length, take, drop,
  Act, ◌>>◌, Result, ok,
}
use op_cartesi.Bytes.{Bytes, slice, bytes_equal, read_be}
use op_cartesi.Evm.Types.{TxContext, CallContext, text, AdvanceOutcome, accept, ViewOutcome}
use op_cartesi.Evm.External.{
  ViewValue, natural, one_hash, L1Query, l1_number, l1_timestamp, l1_basefee, l1_blob_base_fee,
  l1_hash, l1_sequence_number, l1_batcher_hash, l1_base_fee_scalar, l1_blob_base_fee_scalar,
  External,
}
use op_cartesi.App.World.{World}
use op_cartesi.App.Handlers.{revert_with}
use op_cartesi.App.FacadeView.{encoded_value, refused_view}

pub record L1Attributes : Type 0 where
  pub base_fee_scalar : ℕ
  pub blob_base_fee_scalar : ℕ
  pub sequence_number : ℕ
  pub timestamp : ℕ
  pub number : ℕ
  pub basefee : ℕ
  pub blob_base_fee : ℕ
  pub hash : Bytes
  pub batcher_hash : Bytes

-- The RAM of the guest's handlers: `attributes` of the predeploy, and what the application keeps.
pub record Guest (A : Type 0) : Type 0 where
  pub attributes : Option L1Attributes
  pub rest : A

-- `u(view, off, bytes)`
abbrev field_at : Bytes → ℕ → ℕ → ℕ
field_at body off n = read_be (slice off n body)

unfoldable pub unpack_attributes : Bytes → L1Attributes
unpack_attributes body = record {
  base_fee_scalar = field_at body 0 4;
  blob_base_fee_scalar = field_at body 4 4;
  sequence_number = field_at body 8 8;
  timestamp = field_at body 16 8;
  number = field_at body 24 8;
  basefee = field_at body 32 32;
  blob_base_fee = field_at body 64 32;
  hash = slice 96 32 body;
  batcher_hash = slice 128 32 body;
}

unfoldable pub attribute_value : L1Query → L1Attributes → ViewValue
attribute_value l1_number a = natural a.number
attribute_value l1_timestamp a = natural a.timestamp
attribute_value l1_basefee a = natural a.basefee
attribute_value l1_blob_base_fee a = natural a.blob_base_fee
attribute_value l1_hash a = one_hash a.hash
attribute_value l1_sequence_number a = natural a.sequence_number
attribute_value l1_batcher_hash a = one_hash a.batcher_hash
attribute_value l1_base_fee_scalar a = natural a.base_fee_scalar
attribute_value l1_blob_base_fee_scalar a = natural a.blob_base_fee_scalar

abbrev pub set_ecotone : External → Bytes
set_ecotone ext = ext.to_function_selector "setL1BlockValuesEcotone()"

abbrev pub set_isthmus : External → Bytes
set_isthmus ext = ext.to_function_selector "setL1BlockValuesIsthmus()"

module _ {A : Type 0} (ext : External) where
  unfoldable pub set_attributes : Bytes → Act (World (Guest A)) (Unit {0})
  set_attributes body =
      modify (λ w. record w { app = record (w.app) { attributes = some (unpack_attributes body) } })

  -- What follows the selector.
  unfoldable pub l1block_body : Bytes → Act (World (Guest A)) AdvanceOutcome
  unfolding set_attributes
  l1block_body body =
      if ltb (length body) 160
      then revert_with ext "short attributes"
      else (do set_attributes body; pure accept)

  -- `L1Block.advance`
  unfoldable pub l1block_advance : TxContext → Act (World (Guest A)) AdvanceOutcome
  unfolding l1block_body
  l1block_advance ctx =
      if ltb (length ctx.payload) 4
      then revert_with ext "unknown function"
      else (let selector = take 4 ctx.payload in
          if not (bytes_equal selector (set_ecotone ext))
            && not (bytes_equal selector (set_isthmus ext))
          then revert_with ext "unknown function"
          else l1block_body (drop 4 ctx.payload))

  -- `L1Block.view`
  unfoldable pub l1block_view : CallContext → World (Guest A) → Result ViewOutcome
  unfolding attribute_value encoded_value
  l1block_view call w = elim (ext.decode_l1_block call.payload) [
    | none ↦ refused_view ext (text "unknown function")
    | some q ↦ elim (w.app.attributes) [
      | none ↦ refused_view ext (text "no L1 attributes yet")
      | some a ↦ encoded_value ext (ok (attribute_value q a))
    ]
  ]
