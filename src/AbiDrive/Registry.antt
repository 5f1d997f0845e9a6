-- ===== src/AbiDrive/Registry.antt =====
-- What the ABI drive promises: a list of contracts in the order of registration, with no bytes and
-- no offsets. A text counts with the length of its encoding.
use op_cartesi.Base.{
  ℕ, ◌+◌, ◌≡◌, ◌&&◌, Option, none, some, List, [], ◌∷◌, ◌++◌, arith, ltb, leb, ◌==◌, if◌then◌else◌,
  length, AbiDriveErrorKind, heap_full, duplicate, abi_drive, Result, ok, err,
}
use op_cartesi.Bytes.{Bytes, bytes_equal}
use op_cartesi.AbiDrive.Types.{TextCodec, AbiEntry}

unfoldable pub find : Bytes → List AbiEntry → Option AbiEntry
find address [] = none
find address (e ∷ es) = if bytes_equal e.address address then some e else find address es

module _ (text : TextCodec) where
  unfoldable pub text_size : List AbiEntry → ℕ
  text_size [] = 0
  text_size (e ∷ es) = length (text.encode e.abi) + text_size es

  abbrev pub new_contract : ℕ → ℕ → AbiEntry → List AbiEntry → Result (List AbiEntry)
  new_contract capacity heap e es =
      if leb capacity (length es)
      then err (abi_drive AbiDriveErrorKind.registry_full)
      else if ltb heap (text_size es + length (text.encode e.abi))
      then err (abi_drive heap_full)
      else ok (es ++ e ∷ [])

  -- The registration of a contract, in a registry of so many entries and so many bytes of text.
  unfoldable pub add_contract : ℕ → ℕ → AbiEntry → List AbiEntry → Result (List AbiEntry)
  unfolding text_size find
  add_contract capacity heap e es = elim (find e.address es) [
    | none ↦ new_contract capacity heap e es
    | some old ↦
        if (old.kind == e.kind) && bytes_equal old.abi e.abi
        then ok es
        else err (abi_drive duplicate)
  ]

  -- The registry after an attempt.
  abbrev pub registry_after : Result (List AbiEntry) → List AbiEntry → List AbiEntry
  registry_after (ok after) es = after
  registry_after (err e) es = es

  abbrev pub result_after : Result (List AbiEntry) → Result (Unit {0})
  result_after (ok after) = ok tt
  result_after (err e) = err e

  pub text_size-append :
      (es : List AbiEntry) (e : AbiEntry)
      → text_size (es ++ e ∷ []) ≡ text_size es + length (text.encode e.abi)
  unfolding text_size
  text_size-append [] e = omega arith
  text_size-append (x ∷ es) e = omega (arith, text_size-append es e)
