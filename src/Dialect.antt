-- ===== src/Dialect.antt =====
-- src/dialect/LpcDialect.cpp and include/amlp/dialect/LpcDialect.hpp: the dialects of LPC.
mod Examples
use amlp.Base.{
  Bytes, codes, same, Option, none, some, if◌then◌else◌, ◌≡◌, refl, ◌↔◌, same_iff, arith,
}

pub data LpcDialect : Type 0 where
  fluff_os ld_mud dgd : LpcDialect

unfoldable pub dialect_name : LpcDialect → Bytes
dialect_name fluff_os = codes "fluffos"
dialect_name ld_mud = codes "ldmud"
dialect_name dgd = codes "dgd"

-- `none` is the thrown `std::invalid_argument`.
unfoldable pub dialect_from_string : Bytes → Option LpcDialect
dialect_from_string s =
    if same s (codes "fluffos")
    then some fluff_os
    else if same s (codes "ldmud")
    then some ld_mud
    else if same s (codes "dgd")
    then some dgd
    else none

-- A name is read as a dialect exactly if it is that dialect's name; every other name is refused.
pub dialect_from_string-dialect_name :
    (s : Bytes) (d : LpcDialect) → (dialect_from_string s ≡ some d) ↔ (s ≡ dialect_name d)
unfolding dialect_from_string dialect_name
dialect_from_string-dialect_name s fluff_os = (
  λ h. ground (arith, same_iff s (codes "fluffos")),
  λ h. ground (arith, same_iff s (codes "fluffos")),
)
dialect_from_string-dialect_name s ld_mud = (
  λ h. ground (arith, same_iff s (codes "ldmud")),
  λ h. ground (arith, same_iff s (codes "fluffos"), same_iff s (codes "ldmud")),
)
dialect_from_string-dialect_name s dgd = (
  λ h. ground (arith, same_iff s (codes "dgd")),
  λ h.
      ground
        (arith, same_iff s (codes "fluffos"), same_iff s (codes "ldmud"), same_iff s (codes "dgd")),
)
