-- ===== src/App/Parse.antt =====
-- Transaction parsing and admission (evm-compat/js/src/tx.ts): `parse_input` and `recover_sender`.
use op_cartesi.Base.{
  ℕ, Bool, false, ◌&&◌, ◌||◌, Option, none, some, [], ◌∷◌, ltb, leb, if◌then◌else◌,
}
use op_cartesi.Bytes.{Bytes, read_be}
use op_cartesi.Evm.Types.{Reason, text}
use op_cartesi.Evm.External.{
  TxType, deposit_type, legacy, eip2930, eip1559, other_type, AnyParsedTx, External,
}

abbrev pub half_n : ℕ
half_n = 0x7fffffffffffffffffffffffffffffff5d576e7357a4501ddfe92f46681b20a0

pub record DepositInput : Type 0 where
  pub from : Bytes
  pub to : Option Bytes
  pub mint : ℕ
  pub value : ℕ
  pub payload : Bytes

pub record SignedInput : Type 0 where
  pub tx_type : TxType
  pub chain_id : Option ℕ
  pub nonce : ℕ
  pub to : Option Bytes
  pub value : ℕ
  pub payload : Bytes
  pub s : Bytes
  pub raw : Bytes

pub data ParsedInput : Type 0 where
  deposit : DepositInput → ParsedInput
  signed : SignedInput → ParsedInput
  opaque : ParsedInput
  refused : Reason → ParsedInput

abbrev or_zero : Option ℕ → ℕ
or_zero none = 0
or_zero (some n) = n

abbrev or_empty : Option Bytes → Bytes
or_empty none = []
or_empty (some b) = b

-- `isSerializedTransaction`: by the first byte.
unfoldable pub is_serialized_transaction : Bytes → Bool
is_serialized_transaction [] = false
is_serialized_transaction (first ∷ rest) = leb 0xc0 first || (leb 0x01 first && leb first 0x04)

unfoldable pub deposit_of : AnyParsedTx → ParsedInput
deposit_of tx = elim tx.from [
  | none ↦ opaque
  | some from ↦ deposit (record {
    from = from;
    to = tx.to;
    mint = or_zero tx.mint;
    value = or_zero tx.value;
    payload = or_empty tx.payload;
  })
]

-- What follows the type checks; both halves of the signature are needed.
unfoldable pub signed_of : Bytes → AnyParsedTx → ParsedInput
unfolding is_serialized_transaction
signed_of raw tx = elim tx.r [
  | none ↦ opaque
  | some r ↦ elim tx.s [
    | none ↦ opaque
    | some s ↦
        if is_serialized_transaction raw
        then signed (record {
          tx_type = tx.tx_type;
          chain_id = tx.chain_id;
          nonce = or_zero tx.nonce;
          to = tx.to;
          value = or_zero tx.value;
          payload = or_empty tx.payload;
          s = s;
          raw = raw;
        })
        else opaque
  ]
]

unfoldable pub classify : Bytes → AnyParsedTx → ParsedInput
unfolding deposit_of signed_of
classify raw tx = elim tx.tx_type [
  | deposit_type ↦ deposit_of tx
  | legacy ↦ signed_of raw tx
  | eip2930 ↦ signed_of raw tx
  | eip1559 ↦ signed_of raw tx
  | other_type ↦ refused (text "transaction type not admitted")
]

module _ (ext : External) where
  unfoldable pub parse_input : Bytes → ParsedInput
  unfolding classify
  parse_input raw = elim (ext.parse_transaction raw) [ none ↦ opaque | some tx ↦ classify raw tx ]

  -- The low-s rule comes first.
  unfoldable pub recover_sender : SignedInput → Option Bytes
  recover_sender parsed =
      if ltb half_n (read_be parsed.s) then none else ext.recover_transaction_address parsed.raw
