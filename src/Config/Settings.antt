-- ===== src/Config/Settings.antt =====
-- src/config/Config.cpp: the settings, with the texts that they are read from.
use amlp.Persist.{stoi, Error}
use amlp.Base.Int.{ℤ}
use amlp.Base.Result.{◌>>=◌, Result, returned}
use Prim.Native.String.{String}
use amlp.Base.{
  ap, Bool, ◌==◌, ◌∙◌, codes, sym, All, Bytes, List, Option, same, ℕ, ◌≡◌, [], none, refl, some,
  suc, zero, ◌∷◌,
}
use amlp.Config.{is_on, with_raw, Config, initial}

pub data Setting : Type 0 where
  of_mudlib_root of_master_file of_port of_heartbeat_interval_ms of_max_eval_cost
        of_max_string_length of_include_dir of_simul_efun_file of_mud_name of_global_include_file
        of_dialect of_auto_trust_backbone :
      Setting

abbrev pub word : Setting → String
word of_mudlib_root = "mudlib_root"
word of_master_file = "master_file"
word of_port = "port"
word of_heartbeat_interval_ms = "heartbeat_interval_ms"
word of_max_eval_cost = "max_eval_cost"
word of_max_string_length = "max_string_length"
word of_include_dir = "include_dir"
word of_simul_efun_file = "simul_efun_file"
word of_mud_name = "mud_name"
word of_global_include_file = "global_include_file"
word of_dialect = "dialect"
word of_auto_trust_backbone = "auto_trust_backbone"

abbrev pub place : Setting → ℕ
place of_mudlib_root = 0
place of_master_file = 1
place of_port = 2
place of_heartbeat_interval_ms = 3
place of_max_eval_cost = 4
place of_max_string_length = 5
place of_include_dir = 6
place of_simul_efun_file = 7
place of_mud_name = 8
place of_global_include_file = 9
place of_dialect = 10
place of_auto_trust_backbone = 11

pub data Value : Type 0 where
  text : Bytes → Value
  integer : ℤ → Value
  flag : Bool → Value

abbrev pub value : Setting → Config → Value
value of_mudlib_root c = text c.mudlib_root
value of_master_file c = text c.master_file
value of_port c = integer c.port
value of_heartbeat_interval_ms c = integer c.heartbeat_interval_ms
value of_max_eval_cost c = integer c.max_eval_cost
value of_max_string_length c = integer c.max_string_length
value of_include_dir c = text c.include_dir
value of_simul_efun_file c = text c.simul_efun_file
value of_mud_name c = text c.mud_name
value of_global_include_file c = text c.global_include_file
value of_dialect c = text c.dialect
value of_auto_trust_backbone c = flag c.auto_trust_backbone

-- What the text of a setting stands for.
abbrev pub reading : Setting → Bytes → Result Error Value
reading of_mudlib_root v = returned (text v)
reading of_master_file v = returned (text v)
reading of_port v = stoi v >>= λ z. returned (integer z)
reading of_heartbeat_interval_ms v = stoi v >>= λ z. returned (integer z)
reading of_max_eval_cost v = stoi v >>= λ z. returned (integer z)
reading of_max_string_length v = stoi v >>= λ z. returned (integer z)
reading of_include_dir v = returned (text v)
reading of_simul_efun_file v = returned (text v)
reading of_mud_name v = returned (text v)
reading of_global_include_file v = returned (text v)
reading of_dialect v = returned (text v)
reading of_auto_trust_backbone v = returned (flag (is_on v))

abbrev pub settings : List Setting
settings =
    of_mudlib_root ∷ of_master_file ∷ of_port ∷ of_heartbeat_interval_ms ∷ of_max_eval_cost
    ∷ of_max_string_length ∷ of_include_dir ∷ of_simul_efun_file ∷ of_mud_name
    ∷ of_global_include_file ∷ of_dialect ∷ of_auto_trust_backbone ∷ []

pub of_all : (P : Setting → Type 0) → All P settings → (s : Setting) → P s
of_all P h of_mudlib_root = h.0
of_all P h of_master_file = h.1.0
of_all P h of_port = h.1.1.0
of_all P h of_heartbeat_interval_ms = h.1.1.1.0
of_all P h of_max_eval_cost = h.1.1.1.1.0
of_all P h of_max_string_length = h.1.1.1.1.1.0
of_all P h of_include_dir = h.1.1.1.1.1.1.0
of_all P h of_simul_efun_file = h.1.1.1.1.1.1.1.0
of_all P h of_mud_name = h.1.1.1.1.1.1.1.1.0
of_all P h of_global_include_file = h.1.1.1.1.1.1.1.1.1.0
of_all P h of_dialect = h.1.1.1.1.1.1.1.1.1.1.0
of_all P h of_auto_trust_backbone = h.1.1.1.1.1.1.1.1.1.1.1.0

-- The text is read as the value, or there is none and the value is the one at the start.
abbrev pub Told : Setting → Option Bytes → Value → Type 0
Told s none x = x ≡ value s initial
Told s (some v) x = reading s v ≡ returned x

-- Every setting is what its raw text is read as, or has its first value where it has no text.
abbrev pub Agrees : Config → Type 0
Agrees c = All (λ s. Told s (c.raw (codes (word s))) (value s c)) settings

pub all_of : (P : Setting → Type 0) → ((s : Setting) → P s) → All P settings
all_of P f = (
  f of_mudlib_root,
  (
    f of_master_file,
    (
      f of_port,
      (
        f of_heartbeat_interval_ms,
        (
          f of_max_eval_cost,
          (
            f of_max_string_length,
            (
              f of_include_dir,
              (
                f of_simul_efun_file,
                (
                  f of_mud_name,
                  (f of_global_include_file, (f of_dialect, (f of_auto_trust_backbone, tt))),
                ),
              ),
            ),
          ),
        ),
      ),
    ),
  ),
)

-- Two settings have one word exactly if they are one.
pub words_differ :
    (s : Setting)
    → All (λ r. same (codes (word s)) (codes (word r)) ≡ (place r == place s)) settings
unfolding same
words_differ of_mudlib_root = (
  refl,
  (refl, (refl, (refl, (refl, (refl, (refl, (refl, (refl, (refl, (refl, (refl, tt))))))))))),
)
words_differ of_master_file = (
  refl,
  (refl, (refl, (refl, (refl, (refl, (refl, (refl, (refl, (refl, (refl, (refl, tt))))))))))),
)
words_differ of_port = (
  refl,
  (refl, (refl, (refl, (refl, (refl, (refl, (refl, (refl, (refl, (refl, (refl, tt))))))))))),
)
words_differ of_heartbeat_interval_ms = (
  refl,
  (refl, (refl, (refl, (refl, (refl, (refl, (refl, (refl, (refl, (refl, (refl, tt))))))))))),
)
words_differ of_max_eval_cost = (
  refl,
  (refl, (refl, (refl, (refl, (refl, (refl, (refl, (refl, (refl, (refl, (refl, tt))))))))))),
)
words_differ of_max_string_length = (
  refl,
  (refl, (refl, (refl, (refl, (refl, (refl, (refl, (refl, (refl, (refl, (refl, tt))))))))))),
)
words_differ of_include_dir = (
  refl,
  (refl, (refl, (refl, (refl, (refl, (refl, (refl, (refl, (refl, (refl, (refl, tt))))))))))),
)
words_differ of_simul_efun_file = (
  refl,
  (refl, (refl, (refl, (refl, (refl, (refl, (refl, (refl, (refl, (refl, (refl, tt))))))))))),
)
words_differ of_mud_name = (
  refl,
  (refl, (refl, (refl, (refl, (refl, (refl, (refl, (refl, (refl, (refl, (refl, tt))))))))))),
)
words_differ of_global_include_file = (
  refl,
  (refl, (refl, (refl, (refl, (refl, (refl, (refl, (refl, (refl, (refl, (refl, tt))))))))))),
)
words_differ of_dialect = (
  refl,
  (refl, (refl, (refl, (refl, (refl, (refl, (refl, (refl, (refl, (refl, (refl, tt))))))))))),
)
words_differ of_auto_trust_backbone = (
  refl,
  (refl, (refl, (refl, (refl, (refl, (refl, (refl, (refl, (refl, (refl, (refl, tt))))))))))),
)

pub nth : ℕ → Setting
nth zero = of_mudlib_root
nth (suc zero) = of_master_file
nth (suc (suc zero)) = of_port
nth (suc (suc (suc zero))) = of_heartbeat_interval_ms
nth (suc (suc (suc (suc zero)))) = of_max_eval_cost
nth (suc (suc (suc (suc (suc zero))))) = of_max_string_length
nth (suc (suc (suc (suc (suc (suc zero)))))) = of_include_dir
nth (suc (suc (suc (suc (suc (suc (suc zero))))))) = of_simul_efun_file
nth (suc (suc (suc (suc (suc (suc (suc (suc zero)))))))) = of_mud_name
nth (suc (suc (suc (suc (suc (suc (suc (suc (suc zero))))))))) = of_global_include_file
nth (suc (suc (suc (suc (suc (suc (suc (suc (suc (suc zero)))))))))) = of_dialect
nth _ = of_auto_trust_backbone

pub nth-place : (s : Setting) → nth (place s) ≡ s
unfolding nth
nth-place of_mudlib_root = refl
nth-place of_master_file = refl
nth-place of_port = refl
nth-place of_heartbeat_interval_ms = refl
nth-place of_max_eval_cost = refl
nth-place of_max_string_length = refl
nth-place of_include_dir = refl
nth-place of_simul_efun_file = refl
nth-place of_mud_name = refl
nth-place of_global_include_file = refl
nth-place of_dialect = refl
nth-place of_auto_trust_backbone = refl

pub place_injective : (r s : Setting) → place r ≡ place s → r ≡ s
place_injective r s e = sym (nth-place r) ∙ (ap nth e ∙ nth-place s)

pub value-with_raw :
    (r : Setting) (key v : Bytes) (c : Config) → value r (with_raw key v c) ≡ value r c
value-with_raw of_mudlib_root key v c = refl
value-with_raw of_master_file key v c = refl
value-with_raw of_port key v c = refl
value-with_raw of_heartbeat_interval_ms key v c = refl
value-with_raw of_max_eval_cost key v c = refl
value-with_raw of_max_string_length key v c = refl
value-with_raw of_include_dir key v c = refl
value-with_raw of_simul_efun_file key v c = refl
value-with_raw of_mud_name key v c = refl
value-with_raw of_global_include_file key v c = refl
value-with_raw of_dialect key v c = refl
value-with_raw of_auto_trust_backbone key v c = refl
