-- ===== src/Base/Results.antt =====
-- What the program throws, and its two shapes of computation: a result, and an action on a state
-- that keeps what was written before a throw.
use mathlib.Core.Bool.{Bool, true, false}
use mathlib.Core.Option.{Option, none, some}

-- `ErrorKind` of the accounts drive.
pub data ErrorKind : Type 0 where
  table_full registry_full overflow nonce_protected duplicate_token unknown_token bad_width :
      ErrorKind
  zero_address profile : ErrorKind

-- What `InsufficientFunds` names.
pub data Funds : Type 0 where
  ether_funds fee_funds token_funds : Funds

-- The refusals of `validateConfig`, in its order.
pub data ConfigFault : Type 0 where
  length_not_pow2 unknown_profile wide_slot single_slot sparse_profile_slot : ConfigFault
  small_capacity load_limit_range table_offset_range no_registry registry_capacity_range :
      ConfigFault
  registry_misaligned in_header_range sparse_slot small_sparse_capacity : ConfigFault
  sparse_limit_range sparse_offset_range outside_drive overlap : ConfigFault

-- `AbiDriveErrorKind`.
pub data AbiDriveErrorKind : Type 0 where
  bad_magic bad_version bad_geometry registry_full heap_full duplicate : AbiDriveErrorKind

-- One constructor for each `throw new Error(...)`; the wording is left out.
pub data Message : Type 0 where
  out_of_bounds bad_address bad_magic bad_version bad_flags bad_token_count : Message
  bad_hex division_by_zero out_of_range too_many_withdrawals : Message
  bad_seed : Message
  relay_sender not_bridge_message message_carries_value wrong_token_pair : Message
  value_mismatch unsupported_target unsupported_bridge_message already_routed : Message
  reserved_address : Message
  bad_config : ConfigFault → Message

-- `never_ends` is the model's own: a loop that met its fuel.
pub data Failure : Type 0 where
  drive : ErrorKind → Failure
  insufficient : Funds → Failure
  error : Message → Failure
  abi_drive : AbiDriveErrorKind → Failure
  never_ends : Failure

pub data Result {ℓ} (A : Type ℓ) : Type ℓ where
  ok : A → Result A
  err : Failure → Result A

abbrev pub Act : Type 0 → Type 0 → Type 0
Act S A = S → Result A × S

module _ {S : Type 0} where
  unfoldable pub pure : {A : Type 0} → A → Act S A
  pure a s = (ok a, s)

  unfoldable pub throw : {A : Type 0} → Failure → Act S A
  throw e s = (err e, s)

  unfoldable pub gets : {A : Type 0} → (S → A) → Act S A
  gets f s = (ok (f s), s)

  unfoldable pub modify : (S → S) → Act S (Unit {0})
  modify f s = (ok tt, f s)

  -- A computation that only reads the state, and may throw.
  unfoldable pub reads : {A : Type 0} → (S → Result A) → Act S A
  reads f s = (f s, s)

  unfoldable pub throw_if : Bool → Failure → Act S (Unit {0})
  throw_if true e s = (err e, s)
  throw_if false e s = (ok tt, s)

  -- A branch on a value that may be missing.
  unfoldable pub if_some : {A B : Type 0} → Option A → (A → Act S B) → Act S B → Act S B
  if_some none f m = m
  if_some (some a) f m = f a

  -- What runs after an action, by how it ended.
  abbrev pub continue_with : {A B : Type 0} → Result A × S → (A → Act S B) → Result B × S
  continue_with (ok a, s) f = f a s
  continue_with (err e, s) f = (err e, s)

infixl 5 ◌>>=◌ ◌>>◌
-- Opening this opens the steps above too.
unfoldable pub ◌>>=◌ : {S A B : Type 0} → Act S A → (A → Act S B) → Act S B
unfolding pure throw gets modify reads throw_if if_some
◌>>=◌ m f s = continue_with (m s) f

abbrev pub ◌>>◌ : {S B : Type 0} → Act S (Unit {0}) → Act S B → Act S B
m >> k = m >>= λ _. k
