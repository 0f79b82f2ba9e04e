-- ===== src/Config/Assignments.antt =====
-- src/config/Config.cpp: what the chain of tests on the key does.
use amlp.Base.Int.{ℤ}
use amlp.Base.Result.{returned, thrown, Result}
use amlp.Persist.{stoi, Error}
use amlp.Config.{to_int, Config, assign}
use amlp.Base.{
  ◌==◌, same_iff, Bool-cases, ◌⊎◌, All, codes, List, same, ◌≡◌, Bool, Bytes, [], false, inl, inr,
  refl, true, ◌∷◌,
}
use amlp.Config.Settings.{
  place, Value, value, reading, settings, word, Setting, of_mudlib_root, of_master_file, of_port,
  of_heartbeat_interval_ms, of_max_eval_cost, of_max_string_length, of_include_dir,
  of_simul_efun_file, of_mud_name, of_global_include_file, of_dialect, of_auto_trust_backbone,
}

-- Unless it is the same setting, the value is kept.
abbrev pub Kept : Bool → Value → Value → Type 0
Kept true x y = Unit
Kept false x y = y ≡ x

-- What the assignment of one setting comes to.
abbrev pub Sets : Setting → Bytes → Config → Result Error Config → Type 0
Sets s v c (thrown e) = Unit
Sets s v c (returned d) =
    (reading s v ≡ returned (value s d))
    × (All (λ r. Kept (place r == place s) (value r c) (value r d)) settings × (d.raw ≡ c.raw))

module _ (v : Bytes) (c : Config) where
  to_int-port :
      (z : Result Error ℤ) → stoi v ≡ z → Sets of_port v c (to_int v (λ n. record c { port = n }))
  unfolding to_int
  to_int-port (thrown e) h = rw h tt
  to_int-port (returned z) h = rw h (
    rw h refl,
    (
      (
        refl,
        (refl, (tt, (refl, (refl, (refl, (refl, (refl, (refl, (refl, (refl, (refl, tt))))))))))),
      ),
      refl,
    ),
  )

  to_int-heartbeat_interval_ms :
      (z : Result Error ℤ)
      → stoi v ≡ z
      → Sets of_heartbeat_interval_ms v c (to_int v (λ n. record c { heartbeat_interval_ms = n }))
  unfolding to_int
  to_int-heartbeat_interval_ms (thrown e) h = rw h tt
  to_int-heartbeat_interval_ms (returned z) h = rw h (
    rw h refl,
    (
      (
        refl,
        (refl, (refl, (tt, (refl, (refl, (refl, (refl, (refl, (refl, (refl, (refl, tt))))))))))),
      ),
      refl,
    ),
  )

  to_int-max_eval_cost :
      (z : Result Error ℤ)
      → stoi v ≡ z
      → Sets of_max_eval_cost v c (to_int v (λ n. record c { max_eval_cost = n }))
  unfolding to_int
  to_int-max_eval_cost (thrown e) h = rw h tt
  to_int-max_eval_cost (returned z) h = rw h (
    rw h refl,
    (
      (
        refl,
        (refl, (refl, (refl, (tt, (refl, (refl, (refl, (refl, (refl, (refl, (refl, tt))))))))))),
      ),
      refl,
    ),
  )

  to_int-max_string_length :
      (z : Result Error ℤ)
      → stoi v ≡ z
      → Sets of_max_string_length v c (to_int v (λ n. record c { max_string_length = n }))
  unfolding to_int
  to_int-max_string_length (thrown e) h = rw h tt
  to_int-max_string_length (returned z) h = rw h (
    rw h refl,
    (
      (
        refl,
        (refl, (refl, (refl, (refl, (tt, (refl, (refl, (refl, (refl, (refl, (refl, tt))))))))))),
      ),
      refl,
    ),
  )

pub assign-Sets : (s : Setting) (v : Bytes) (c : Config) → Sets s v c (assign (codes (word s)) v c)
unfolding assign same
assign-Sets of_mudlib_root v c = (
  refl,
  (
    (
      tt,
      (refl, (refl, (refl, (refl, (refl, (refl, (refl, (refl, (refl, (refl, (refl, tt))))))))))),
    ),
    refl,
  ),
)
assign-Sets of_master_file v c = (
  refl,
  (
    (
      refl,
      (tt, (refl, (refl, (refl, (refl, (refl, (refl, (refl, (refl, (refl, (refl, tt))))))))))),
    ),
    refl,
  ),
)
assign-Sets of_port v c = to_int-port v c (stoi v) refl
assign-Sets of_heartbeat_interval_ms v c = to_int-heartbeat_interval_ms v c (stoi v) refl
assign-Sets of_max_eval_cost v c = to_int-max_eval_cost v c (stoi v) refl
assign-Sets of_max_string_length v c = to_int-max_string_length v c (stoi v) refl
assign-Sets of_include_dir v c = (
  refl,
  (
    (
      refl,
      (refl, (refl, (refl, (refl, (refl, (tt, (refl, (refl, (refl, (refl, (refl, tt))))))))))),
    ),
    refl,
  ),
)
assign-Sets of_simul_efun_file v c = (
  refl,
  (
    (
      refl,
      (refl, (refl, (refl, (refl, (refl, (refl, (tt, (refl, (refl, (refl, (refl, tt))))))))))),
    ),
    refl,
  ),
)
assign-Sets of_mud_name v c = (
  refl,
  (
    (
      refl,
      (refl, (refl, (refl, (refl, (refl, (refl, (refl, (tt, (refl, (refl, (refl, tt))))))))))),
    ),
    refl,
  ),
)
assign-Sets of_global_include_file v c = (
  refl,
  (
    (
      refl,
      (refl, (refl, (refl, (refl, (refl, (refl, (refl, (refl, (tt, (refl, (refl, tt))))))))))),
    ),
    refl,
  ),
)
assign-Sets of_dialect v c = (
  refl,
  (
    (
      refl,
      (refl, (refl, (refl, (refl, (refl, (refl, (refl, (refl, (refl, (tt, (refl, tt))))))))))),
    ),
    refl,
  ),
)
assign-Sets of_auto_trust_backbone v c = (
  refl,
  (
    (
      refl,
      (refl, (refl, (refl, (refl, (refl, (refl, (refl, (refl, (refl, (refl, (tt, tt))))))))))),
    ),
    refl,
  ),
)

-- Which setting a key names.
pub data Which (key : Bytes) : Type 0 where
  this : (s : Setting) → key ≡ codes (word s) → Which key
  nothing : All (λ s. same key (codes (word s)) ≡ false) settings → Which key

pub which_of :
    (key : Bytes) (l : List Setting)
    → ((s : Setting) × (key ≡ codes (word s))) ⊎ All (λ s. same key (codes (word s)) ≡ false) l
which_of key [] = inr tt
which_of key (s ∷ l) = elim (Bool-cases (same key (codes (word s)))) [
  | inl h ↦ inl (s, (same_iff key (codes (word s))).0 h)
  | inr h ↦ elim (which_of key l) [ inl k ↦ inl k | inr k ↦ inr (h, k) ]
]

pub which : (key : Bytes) → Which key
which key = elim (which_of key settings) [ inl k ↦ this k.0 k.1 | inr k ↦ nothing k ]

pub assign-nothing :
    (key v : Bytes) (c : Config)
    → All (λ s. same key (codes (word s)) ≡ false) settings
    → assign key v c ≡ returned c
unfolding assign
assign-nothing key v c h =
    rw
      (
        h.0, h.1.0, h.1.1.0, h.1.1.1.0, h.1.1.1.1.0, h.1.1.1.1.1.0, h.1.1.1.1.1.1.0,
        h.1.1.1.1.1.1.1.0, h.1.1.1.1.1.1.1.1.0, h.1.1.1.1.1.1.1.1.1.0, h.1.1.1.1.1.1.1.1.1.1.0,
        h.1.1.1.1.1.1.1.1.1.1.1.0,
      )
      refl
