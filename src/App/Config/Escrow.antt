-- ===== src/App/Config/Escrow.antt =====
-- The two ways to escrow ERC-20 tokens (app/src/handlers/config.ts and ledger.ts).
use op_cartesi.Evm.Addresses.{apply_l1_to_l2_alias}
use op_cartesi.Bytes.{Bytes, bytes_equal}
use op_cartesi.Drive.Types.{Drive}
use op_cartesi.Ledger.Journal.{note}
use op_cartesi.Ledger.Journal.Maps.{insert}
use op_cartesi.Base.{
  pure, gets, ◌>>=◌, ℕ, ◌≡◌, refl, ap, ◌∙◌, ◌⊎◌, inl, inr, Bool, true, false, ◌&&◌, Option, none,
  some, List, [], ◌∷◌, ◌==◌, or_false, Bool-cases, Act, table_full, registry_full, overflow,
  nonce_protected, duplicate_token, unknown_token, bad_width, zero_address, profile, drive,
  insufficient, error, abi_drive, never_ends, Result, ok, err,
}
use op_cartesi.Base.Frame.{Keeps-pure, keeps_rules, IsPreorder, Keeps}
use op_cartesi.Evm.Types.{TxContext}
use op_cartesi.Evm.External.{
  ConfigCall, set_fee_call, register_portal_call, register_messenger_call, register_token_call,
  set_token_metadata_call, fee_view, owner_view, External,
}
use op_cartesi.Ledger.Types.{Address, CrossDomainConfig, TokenMetadata, Journaled, Ledger}
use op_cartesi.Ledger.Operations.{
  on_drive, journal, set_metadata, register_portal, set_fee, register_cross_domain, portal_erc20,
  has_kind, has_erc20_portal, set_facade, register_l1_token, token_by_l1_address,
}
use op_cartesi.App.World.{on_ledger, emit, emit_log, World}
use Prim.Native.String.{String}
use op_cartesi.App.Config.{
  some_config, logged, set_fee_call_advance, register_exclusive_portal, register_portal_advance,
  register_messenger_advance, after_registration, register_token_advance,
  set_token_metadata_advance, config_call, config_advance,
}

-- No ERC-20 portal and cross-domain bridge at once.
pub record IsExclusive (l : Ledger) : Type 0 where
  pub one_escrow : (l.ram.cross_domain_config ≡ none) ⊎ (has_erc20_portal l ≡ false)

-- The escrows are as they were.
record SameEscrow (l m : Ledger) : Type 0 where
  pub same_cross : m.ram.cross_domain_config ≡ l.ram.cross_domain_config
  pub same_portals : m.ram.portals ≡ l.ram.portals

SameEscrow-preorder : IsPreorder SameEscrow
SameEscrow-preorder = record {
  here = λ l. record { same_cross = refl; same_portals = refl };
  chain = λ l m n h k. record {
    same_cross = k.same_cross ∙ h.same_cross;
    same_portals = k.same_portals ∙ h.same_portals;
  };
}

SameEscrow-IsExclusive : {l m : Ledger} → SameEscrow l m → IsExclusive l → IsExclusive m
unfolding has_erc20_portal
SameEscrow-IsExclusive h e = elim e.one_escrow [
  | inl no_bridge ↦ record { one_escrow = inl (h.same_cross ∙ no_bridge) }
  | inr no_portal ↦ record {
    one_escrow = inr (ap (has_kind portal_erc20) h.same_portals ∙ no_portal);
  }
]

on_drive-SameEscrow : {A : Type 0} (m : Act (Drive Journaled) A) → Keeps SameEscrow (on_drive m)
unfolding on_drive
on_drive-SameEscrow m = record { related = λ l. record { same_cross = refl; same_portals = refl } }

set_metadata-SameEscrow : (id : ℕ) (m : TokenMetadata) → Keeps SameEscrow (set_metadata id m)
unfolding set_metadata journal note
set_metadata-SameEscrow id m = record {
  related = λ l. record { same_cross = refl; same_portals = refl };
}

set_fee-SameEscrow : (fee : ℕ) → Keeps SameEscrow (set_fee fee)
unfolding set_fee journal note
set_fee-SameEscrow fee = record { related = λ l. record { same_cross = refl; same_portals = refl } }

-- To register a portal of another kind adds none of this kind.
has_kind-insert :
    (kind k : ℕ) (key : Address) (m : List (Address × ℕ))
    → has_kind kind m ≡ false
    → (k == kind) ≡ false
    → has_kind kind (insert key k m) ≡ false
unfolding has_kind insert
has_kind-insert kind k key [] h e = rw e refl
has_kind-insert kind k key ((j, v) ∷ m) h e =
    let (first, rest) = or_false (v == kind) (has_kind kind m) h in
    elim (Bool-cases (bytes_equal j key)) [
      | inl t ↦ rw (t, e) rest
      | inr f ↦ rw (f, first) (has_kind-insert kind k key m rest e)
    ]

register_portal-IsExclusive :
    (key : Address) (kind : ℕ) (l : Ledger)
    → ((kind == portal_erc20) ≡ false) ⊎ (l.ram.cross_domain_config ≡ none)
    → IsExclusive l
    → IsExclusive (register_portal key kind l).1
unfolding register_portal journal note has_erc20_portal
register_portal-IsExclusive key kind l (inr no_bridge) h = record { one_escrow = inl no_bridge }
register_portal-IsExclusive key kind l (inl other) h = elim h.one_escrow [
  | inl no_bridge ↦ record { one_escrow = inl no_bridge }
  | inr no_portal ↦ record {
    one_escrow = inr (has_kind-insert portal_erc20 kind key l.ram.portals no_portal other);
  }
]

-- What an action does keeps the escrows exclusive.
record Guards {A : Type 0} (w v : World A) : Type 0 where
  pub guards : IsExclusive w.ledger → IsExclusive v.ledger

Guards-preorder : {A : Type 0} → IsPreorder (Guards {A = A})
Guards-preorder = record {
  here = λ w. record { guards = λ h. h };
  chain = λ u v w h k. record { guards = λ e. k.guards (h.guards e) };
}

module _ (ext : External) where
  set_facade-SameEscrow : (k : Address) (id : ℕ) → Keeps SameEscrow (set_facade ext.keccak256 k id)
  unfolding set_facade note
  set_facade-SameEscrow k id = record {
    related = λ l. record { same_cross = refl; same_portals = refl };
  }

  register_l1_token-SameEscrow :
      (l1_token : Address) (m : Option TokenMetadata)
      → Keeps SameEscrow (register_l1_token ext.keccak256 l1_token m)
  unfolding register_l1_token
  register_l1_token-SameEscrow l1_token m =
      search
        (
          keeps_rules, SameEscrow-preorder, on_drive-SameEscrow, set_metadata-SameEscrow,
          set_facade-SameEscrow,
        )
        depth 12

  token_by_l1_address-SameEscrow :
      (l1_token : Address) → Keeps SameEscrow (token_by_l1_address ext.keccak256 l1_token)
  unfolding token_by_l1_address
  token_by_l1_address-SameEscrow l1_token =
      search (keeps_rules, SameEscrow-preorder, on_drive-SameEscrow) depth 8

free_escrow :
    (b : Bool) (cross : Option CrossDomainConfig)
    → (b && some_config cross) ≡ false
    → (b ≡ false) ⊎ (cross ≡ none)
free_escrow true none h = inr refl
free_escrow true (some c) h = absurd cc
free_escrow false cross h = inl refl

module _ {A : Type 0} (ext : External) (config_address : Address) where
  on_ledger-Guards :
      {B : Type 0} (m : Act Ledger B) → Keeps SameEscrow m → Keeps (Guards {A = A}) (on_ledger m)
  unfolding on_ledger
  on_ledger-Guards m h = record {
    related = λ w. record { guards = SameEscrow-IsExclusive (h.related w.ledger) };
  }

  logged-Guards :
      (event : String) (topics : List Bytes) (payload : Bytes)
      → Keeps (Guards {A = A}) (logged ext config_address event topics payload)
  unfolding logged emit_log emit pure ◌>>=◌
  logged-Guards event topics payload = record { related = λ w. record { guards = λ h. h } }

  ruleset guard_rules = (
    keeps_rules, Guards-preorder, SameEscrow-preorder, on_ledger-Guards, logged-Guards,
    on_drive-SameEscrow, set_metadata-SameEscrow, set_fee-SameEscrow,
  )

  set_fee_call_advance-Guards :
      (fee : ℕ) → Keeps (Guards {A = A}) (set_fee_call_advance ext config_address fee)
  unfolding set_fee_call_advance
  set_fee_call_advance-Guards fee = search guard_rules depth 8

  set_token_metadata_advance-Guards :
      (l1_token : Bytes) (m : TokenMetadata)
      → Keeps (Guards {A = A}) (set_token_metadata_advance ext config_address l1_token m)
  unfolding set_token_metadata_advance
  set_token_metadata_advance-Guards l1_token m =
      search (guard_rules, token_by_l1_address-SameEscrow) depth 12

  register_messenger_advance-Guards :
      (l1_messenger l1_bridge : Bytes)
      → Keeps
          (Guards {A = A})
          (register_messenger_advance ext config_address l1_messenger l1_bridge)
  unfolding register_messenger_advance on_ledger register_cross_domain journal note logged emit_log
      emit pure gets has_erc20_portal ◌>>=◌
  register_messenger_advance-Guards l1_messenger l1_bridge = record {
    related = λ w. elim (Bool-cases (has_erc20_portal w.ledger)) [
      | inl taken ↦ rw taken (record { guards = λ h. h })
      | inr free ↦ rw free (record { guards = λ h. record { one_escrow = inr free } })
    ];
  }

  register_exclusive_portal-Guards :
      (kind : ℕ) (portal : Bytes)
      → Keeps (Guards {A = A}) (register_exclusive_portal ext config_address kind portal)
  unfolding register_exclusive_portal register_portal on_ledger logged emit_log emit pure gets ◌>>=◌
  register_exclusive_portal-Guards kind portal = record {
    related = λ w.
        let cross = w.ledger.ram.cross_domain_config in
        elim (Bool-cases ((kind == portal_erc20) && some_config cross)) [
          | inl taken ↦ rw taken (record { guards = λ h. h })
          | inr free ↦ rw free (record {
            guards = λ h.
                register_portal-IsExclusive (apply_l1_to_l2_alias portal) kind w.ledger
                  (free_escrow (kind == portal_erc20) cross free) h;
          })
        ];
  }

  register_portal_advance-Guards :
      (kind : ℕ) (portal : Bytes)
      → Keeps (Guards {A = A}) (register_portal_advance ext config_address kind portal)
  unfolding register_portal_advance
  register_portal_advance-Guards kind portal =
      search (guard_rules, register_exclusive_portal-Guards)

  after_registration-Guards :
      (l1_token : Bytes) (w : World A) (p : Result (ℕ × Address) × World A)
      → Guards w p.1
      → Guards w (after_registration ext config_address l1_token p).1
  unfolding after_registration pure
  after_registration-Guards l1_token w (ok (id, l2_token), v) h =
      Guards-preorder.chain w v _ h ((logged-Guards _ _ _).related v)
  after_registration-Guards l1_token w (err (drive e), v) h =
      elim e
        as (λ k. Guards w (after_registration ext config_address l1_token (err (drive k), v)).1) [
          | table_full ↦ h
          | registry_full ↦ h
          | overflow ↦ h
          | nonce_protected ↦ h
          | duplicate_token ↦ h
          | unknown_token ↦ h
          | bad_width ↦ h
          | zero_address ↦ h
          | profile ↦ h
        ]
  after_registration-Guards l1_token w (err (insufficient f), v) h = h
  after_registration-Guards l1_token w (err (error m), v) h = h
  after_registration-Guards l1_token w (err (abi_drive e), v) h = h
  after_registration-Guards l1_token w (err never_ends, v) h = h

  register_token_advance-Guards :
      (l1_token : Bytes) (m : TokenMetadata)
      → Keeps (Guards {A = A}) (register_token_advance ext config_address l1_token m)
  unfolding register_token_advance
  register_token_advance-Guards l1_token m = record {
    related = λ w. after_registration-Guards l1_token w _ (
        (on_ledger-Guards (register_l1_token ext.keccak256 l1_token (some m))
            (register_l1_token-SameEscrow ext l1_token (some m))).related
          w);
  }

  config_call-Guards :
      (call : ConfigCall) → Keeps (Guards {A = A}) (config_call ext config_address call)
  unfolding config_call
  config_call-Guards (set_fee_call fee) = set_fee_call_advance-Guards fee
  config_call-Guards (register_portal_call kind portal) = register_portal_advance-Guards kind portal
  config_call-Guards (register_messenger_call l1_messenger l1_bridge) =
      register_messenger_advance-Guards l1_messenger l1_bridge
  config_call-Guards (register_token_call l1_token name symbol decimals) =
      register_token_advance-Guards l1_token _
  config_call-Guards (set_token_metadata_call l1_token name symbol decimals) =
      set_token_metadata_advance-Guards l1_token _
  config_call-Guards fee_view = Keeps-pure Guards-preorder _
  config_call-Guards owner_view = Keeps-pure Guards-preorder _

  config_advance-Guards :
      (owner : Address) (ctx : TxContext)
      → Keeps (Guards {A = A}) (config_advance ext config_address owner ctx)
  unfolding config_advance
  config_advance-Guards owner ctx = search (guard_rules, config_call-Guards) depth 8

  -- If no ERC-20 portal is registered beside the cross-domain bridge before a call of the
  -- configuration, none is after it, whoever calls and however the call ends.
  pub config_advance-IsExclusive :
      (owner : Address) (ctx : TxContext) (w : World A)
      → IsExclusive w.ledger
      → IsExclusive (config_advance ext config_address owner ctx w).1.ledger
  config_advance-IsExclusive owner ctx w h = ((config_advance-Guards owner ctx).related w).guards h
