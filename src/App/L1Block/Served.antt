-- ===== src/App/L1Block/Served.antt =====
-- What the L1 attributes predeploy serves of an attributes transaction (app/src/handlers/l1block.ts).
use op_cartesi.Base.{◌≡◌, refl, sym, ap, ◌∙◌, ◌⊎◌, some, ◌++◌, length, Result, ok}
use op_cartesi.Bytes.{Bytes, slice, read_be}
use op_cartesi.Evm.Types.{TxContext, CallContext, AdvanceOutcome, accept}
use op_cartesi.Evm.External.{
  ViewValue, natural, one_hash, L1Query, l1_number, l1_timestamp, l1_basefee, l1_blob_base_fee,
  l1_hash, l1_sequence_number, l1_batcher_hash, l1_base_fee_scalar, l1_blob_base_fee_scalar,
  External,
}
use op_cartesi.App.World.{World}
use op_cartesi.App.FacadeView.{encoded_value}
use op_cartesi.App.L1Block.{
  unpack_attributes, attribute_value, set_ecotone, set_isthmus, l1block_advance, l1block_view,
  L1Attributes, Guest,
}
use op_cartesi.App.L1Block.Attributes.{
  packed, unpack-packed, with_attributes, l1block_advance_stores, Fits,
}

-- What a query is answered, by the place of its field behind the selector.
unfoldable pub value_in : Bytes → L1Query → ViewValue
value_in body l1_base_fee_scalar = natural (read_be (slice 0 4 body))
value_in body l1_blob_base_fee_scalar = natural (read_be (slice 4 4 body))
value_in body l1_sequence_number = natural (read_be (slice 8 8 body))
value_in body l1_timestamp = natural (read_be (slice 16 8 body))
value_in body l1_number = natural (read_be (slice 24 8 body))
value_in body l1_basefee = natural (read_be (slice 32 32 body))
value_in body l1_blob_base_fee = natural (read_be (slice 64 32 body))
value_in body l1_hash = one_hash (slice 96 32 body)
value_in body l1_batcher_hash = one_hash (slice 128 32 body)

attribute-value_in :
    (body : Bytes) (q : L1Query) → attribute_value q (unpack_attributes body) ≡ value_in body q
unfolding value_in attribute_value unpack_attributes
attribute-value_in body l1_base_fee_scalar = refl
attribute-value_in body l1_blob_base_fee_scalar = refl
attribute-value_in body l1_sequence_number = refl
attribute-value_in body l1_timestamp = refl
attribute-value_in body l1_number = refl
attribute-value_in body l1_basefee = refl
attribute-value_in body l1_blob_base_fee = refl
attribute-value_in body l1_hash = refl
attribute-value_in body l1_batcher_hash = refl

module _ {A : Type 0} (ext : External) where
  served :
      (call : CallContext) (q : L1Query) (a : L1Attributes) (w : World (Guest A))
      → ext.decode_l1_block call.payload ≡ some q
      → l1block_view ext call (with_attributes ext a w)
        ≡ encoded_value ext (ok (attribute_value q a))
  unfolding l1block_view
  served call q a w d = rw (l1block_view, d) refl

  -- A call of a known selector of four bytes and packed attributes that fit their fields,
  -- whoever sends it, is accepted and changes nothing but the attributes; and a view then
  -- returns the number or the hash that stands in the packed bytes at the place of the field
  -- that it asks for.
  pub l1block_advance-serves :
      (ctx : TxContext) (selector tail : Bytes) (a : L1Attributes) (w : World (Guest A))
      (call : CallContext) (q : L1Query)
      → length selector ≡ 4
      → (selector ≡ set_ecotone ext) ⊎ (selector ≡ set_isthmus ext)
      → Fits a
      → ctx.payload ≡ selector ++ packed a tail
      → ext.decode_l1_block call.payload ≡ some q
      → (l1block_advance ext ctx w ≡ (ok accept, with_attributes ext a w))
        × (l1block_view ext call (l1block_advance ext ctx w).1
            ≡ encoded_value ext (ok (value_in (packed a tail) q)))
  l1block_advance-serves ctx selector tail a w call q four known fits carries asked =
      let e = l1block_advance_stores ext ctx selector tail a w four known fits carries in
      (
        e,
        ap (λ (p : Result AdvanceOutcome × World (Guest A)). l1block_view ext call p.1) e
            ∙ served call q a w asked
            ∙ ap (λ (b : L1Attributes). encoded_value ext (ok (attribute_value q b)))
                (sym (unpack-packed a tail fits))
            ∙ ap (λ (v : ViewValue). encoded_value ext (ok v))
                (attribute-value_in (packed a tail) q),
      )
