-- ===== src/Dialect/Examples.antt =====
-- src/dialect/LpcDialect.cpp: the theorem at concrete input.
use amlp.Base.{codes, some, ◌≡◌, ◌↔◌}
use amlp.Dialect.{ld_mud, dialect_name, dialect_from_string, dialect_from_string-dialect_name}

dialect_from_string-dialect_name_example :
    (dialect_from_string (codes "ldmud") ≡ some ld_mud) ↔ (codes "ldmud" ≡ dialect_name ld_mud)
dialect_from_string-dialect_name_example = dialect_from_string-dialect_name (codes "ldmud") ld_mud
