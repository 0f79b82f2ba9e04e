-- ===== src/Security/Examples.antt =====
-- src/security/UidModel.cpp: the owners of a new object at concrete input.
use amlp.Security.{resolve_object_uids-euid, Trusted, UidModel, resolve_object_uids}
use amlp.Base.{◌↔◌, ◌≡◌, codes, some, true}

abbrev trusting : UidModel
trusting = record {
  root_uid = some (codes "Root");
  backbone_uid = some (codes "Backbone");
  auto_trust_backbone = true;
}

resolve_object_uids-euid_example :
    ((resolve_object_uids trusting
        (codes "Backbone")
        (some (codes "bob"))
        (some (codes "bob"))).euid
      ≡ some (codes "bob"))
    ↔ ((some (codes "bob") ≡ some (codes "bob"))
        × Trusted trusting (codes "Backbone") (some (codes "bob")))
resolve_object_uids-euid_example =
    resolve_object_uids-euid trusting (codes "Backbone") (some (codes "bob")) (some (codes "bob"))
      (codes "bob")
