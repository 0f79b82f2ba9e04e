-- ===== src/Security.antt =====
-- src/security/UidModel.cpp and include/amlp/security/UidModel.hpp: the owner and the effective owner
-- that a new object gets.
mod Examples
use amlp.Base.{
  Bool-cases, inl, inr, same_iff, ap, ◌↔◌, ◌≡◌, arith, Bool, true, false, ◌&&◌, Option, none, some,
  Bytes, same, if◌then◌else◌,
}

pub record UidModel : Type 0 where
  pub root_uid : Option Bytes
  pub backbone_uid : Option Bytes
  pub auto_trust_backbone : Bool

pub record ResolvedObjectUids : Type 0 where
  pub uid : Bytes
  pub euid : Option Bytes

unfoldable pub active : UidModel → Bool
active model = elim model.root_uid [ none ↦ false | some uid ↦ true ]

-- `uid && *uid == name`
unfoldable pub is_uid : Option Bytes → Bytes → Bool
unfolding same
is_uid none name = false
is_uid (some uid) name = same uid name

abbrev pub untrusted : Bytes → ResolvedObjectUids
untrusted creator_name = record { uid = creator_name; euid = none }

-- The object is from the library of the backbone, if the loader has an effective owner.
unfoldable pub backbone_uids : UidModel → Bytes → Option Bytes → ResolvedObjectUids
unfolding is_uid
backbone_uids model creator_name none = untrusted creator_name
backbone_uids model creator_name (some euid) =
    if model.auto_trust_backbone && is_uid model.backbone_uid creator_name
    then record { uid = euid; euid = some euid }
    else untrusted creator_name

unfoldable pub resolve_object_uids :
    UidModel → (creator_name : Bytes) (loader_uid loader_euid : Option Bytes) → ResolvedObjectUids
unfolding same backbone_uids
resolve_object_uids model creator_name none loader_euid =
    backbone_uids model creator_name loader_euid
resolve_object_uids model creator_name (some loader_uid) loader_euid =
    if same loader_uid creator_name
    then record { uid = loader_uid; euid = loader_euid }
    else backbone_uids model creator_name loader_euid

-- Why a new object may run with the effective owner of its loader: the loader owns it, or it is from
-- the backbone, whose objects are trusted.
pub data Trusted (model : UidModel) (creator_name : Bytes) (loader_uid : Option Bytes)
    : Type 0 where
  own : loader_uid ≡ some creator_name → Trusted model creator_name loader_uid
  backbone :
      model.auto_trust_backbone ≡ true
      → model.backbone_uid ≡ some creator_name
      → Trusted model creator_name loader_uid

is_uid_lem : (o : Option Bytes) (name : Bytes) → (is_uid o name ≡ true) ↔ (o ≡ some name)
unfolding is_uid
is_uid_lem none name = ground arith
is_uid_lem (some uid) name = (
  (λ h. ap (λ x. some x) ((same_iff uid name).0 h)),
  (λ h. (same_iff uid name).1 (ground (arith, h))),
)

module _ (model : UidModel) (creator_name : Bytes) where
  backbone-Trusted :
      (loader_uid loader_euid : Option Bytes) (euid : Bytes)
      → (backbone_uids model creator_name loader_euid).euid ≡ some euid
      → (loader_euid ≡ some euid) × Trusted model creator_name loader_uid
  unfolding backbone_uids
  backbone-Trusted loader_uid none euid h = absurd (ground (arith, h))
  backbone-Trusted loader_uid (some e) euid h =
      elim (Bool-cases (model.auto_trust_backbone && is_uid model.backbone_uid creator_name)) [
        | inl k ↦ (
          ground (arith, h, k),
          backbone (ground (arith, k))
              ((is_uid_lem model.backbone_uid creator_name).0 (ground (arith, k))),
        )
        | inr k ↦ absurd (ground (arith, h, k))
      ]

  trusted-backbone :
      (loader_uid loader_euid : Option Bytes) (euid : Bytes)
      → loader_euid ≡ some euid
      → model.auto_trust_backbone ≡ true
      → model.backbone_uid ≡ some creator_name
      → (backbone_uids model creator_name loader_euid).euid ≡ some euid
  unfolding backbone_uids
  trusted-backbone loader_uid none euid q a b = absurd (ground (arith, q))
  trusted-backbone loader_uid (some e) euid q a b =
      let k : is_uid model.backbone_uid creator_name ≡ true =
        (is_uid_lem model.backbone_uid creator_name).1 b in
      ground (arith, a, k, q)

  granted :
      (loader_uid loader_euid : Option Bytes) (euid : Bytes)
      → (resolve_object_uids model creator_name loader_uid loader_euid).euid ≡ some euid
      → (loader_euid ≡ some euid) × Trusted model creator_name loader_uid
  unfolding resolve_object_uids
  granted none loader_euid euid h = backbone-Trusted none loader_euid euid h
  granted (some uid) loader_euid euid h = elim (Bool-cases (same uid creator_name)) [
    | inl k ↦ (ground (arith, h, k), own (ap (λ x. some x) ((same_iff uid creator_name).0 k)))
    | inr k ↦ backbone-Trusted (some uid) loader_euid euid (ground (arith, h, k))
  ]

  has_euid :
      (loader_uid loader_euid : Option Bytes) (euid : Bytes)
      → loader_euid ≡ some euid
      → Trusted model creator_name loader_uid
      → (resolve_object_uids model creator_name loader_uid loader_euid).euid ≡ some euid
  unfolding resolve_object_uids
  has_euid none loader_euid euid q (own h) = absurd (ground (arith, h))
  has_euid none loader_euid euid q (backbone a b) = trusted-backbone none loader_euid euid q a b
  has_euid (some uid) loader_euid euid q (own h) =
      let k : same uid creator_name ≡ true = (same_iff uid creator_name).1 (ground (arith, h)) in
      ground (arith, k, q)
  has_euid (some uid) loader_euid euid q (backbone a b) =
      ground (arith, q, trusted-backbone (some uid) loader_euid euid q a b)

  -- An object gets an effective owner exactly if its loader has it and the object is trusted: it is
  -- the loader's own, or it is the backbone's and those are trusted.
  pub resolve_object_uids-euid :
      (loader_uid loader_euid : Option Bytes) (euid : Bytes)
      → ((resolve_object_uids model creator_name loader_uid loader_euid).euid ≡ some euid)
        ↔ ((loader_euid ≡ some euid) × Trusted model creator_name loader_uid)
  resolve_object_uids-euid loader_uid loader_euid euid =
      (granted loader_uid loader_euid euid, λ h. has_euid loader_uid loader_euid euid h.0 h.1)
