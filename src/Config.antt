-- ===== src/Config.antt =====
-- src/config/Config.cpp and include/amlp/config/Config.hpp: the reader of the configuration.
-- A file is its bytes, and none if it does not open.
pub mod Settings
pub mod Assignments
pub mod Trims
pub mod Says
pub mod Raw
pub mod Agrees
mod Examples
use amlp.Base.Result.{◌>>=◌, returned, Result, thrown}
use amlp.Persist.{stoi}
use amlp.Base.Int.{pos, ℤ}
use amlp.Persist.{Error}
use amlp.Base.{
  ◌==◌, ◌||◌, Bool, if◌then◌else◌, Bytes, List, Option, codes, same, ℕ, [], false, none, some, true,
  ◌∷◌,
}

-- `raw_` is the map of its keys.
pub record Config : Type 0 where
  pub mudlib_root : Bytes
  pub master_file : Bytes
  pub port : ℤ
  pub heartbeat_interval_ms : ℤ
  pub max_eval_cost : ℤ
  pub max_string_length : ℤ
  pub include_dir : Bytes
  pub simul_efun_file : Bytes
  pub mud_name : Bytes
  pub global_include_file : Bytes
  pub dialect : Bytes
  pub auto_trust_backbone : Bool
  pub raw : Bytes → Option Bytes

abbrev pub initial : Config
initial = record {
  mudlib_root = codes "./test/mudlib_stub";
  master_file = codes "/master";
  port = pos 1129;
  heartbeat_interval_ms = pos 2000;
  max_eval_cost = pos 10000000;
  max_string_length = pos 200000;
  include_dir = codes "secure/include";
  simul_efun_file = [];
  mud_name = codes "AMLP";
  global_include_file = [];
  dialect = codes "fluffos";
  auto_trust_backbone = false;
  raw = λ key. none;
}

abbrev is_space : ℕ → Bool
is_space c = c == 32 || c == 9 || c == 13 || c == 10

unfoldable pub trim_front : Bytes → Bytes
trim_front [] = []
trim_front (c ∷ s) = let rest = trim_front s in if is_space c then rest else c ∷ s

abbrev trim_byte : ℕ → Bytes → Bytes
trim_byte c [] = if is_space c then [] else c ∷ []
trim_byte c (d ∷ s) = c ∷ d ∷ s

unfoldable pub trim_back : Bytes → Bytes
trim_back [] = []
trim_back (c ∷ s) = trim_byte c (trim_back s)

unfoldable pub trim : Bytes → Bytes
unfolding trim_front trim_back
trim s = trim_back (trim_front s)

-- `find(':')` and the two `substr`.
unfoldable pub split_colon : Bytes → Option (Bytes × Bytes)
split_colon [] = none
split_colon (c ∷ s) =
    let rest = split_colon s in
    if c == b':' then some ([], s) else elim rest [ none ↦ none | some kv ↦ some (c ∷ kv.0, kv.1) ]

unfoldable pub is_on : Bytes → Bool
unfolding same
is_on val =
    same val (codes "1")
    || same val (codes "true")
    || same val (codes "yes")
    || same val (codes "on")

-- `std::stoi(val)` in a member.
unfoldable pub to_int : Bytes → (ℤ → Config) → Result Error Config
unfolding stoi
to_int val set = stoi val >>= λ n. returned (set n)

-- The chain of tests on the key.
unfoldable pub assign : Bytes → Bytes → Config → Result Error Config
unfolding same to_int is_on
assign key val c =
    if same key (codes "mudlib_root")
    then returned (record c { mudlib_root = val })
    else if same key (codes "master_file")
    then returned (record c { master_file = val })
    else if same key (codes "port")
    then to_int val (λ n. record c { port = n })
    else if same key (codes "heartbeat_interval_ms")
    then to_int val (λ n. record c { heartbeat_interval_ms = n })
    else if same key (codes "max_eval_cost")
    then to_int val (λ n. record c { max_eval_cost = n })
    else if same key (codes "max_string_length")
    then to_int val (λ n. record c { max_string_length = n })
    else if same key (codes "include_dir")
    then returned (record c { include_dir = val })
    else if same key (codes "simul_efun_file")
    then returned (record c { simul_efun_file = val })
    else if same key (codes "mud_name")
    then returned (record c { mud_name = val })
    else if same key (codes "global_include_file")
    then returned (record c { global_include_file = val })
    else if same key (codes "dialect")
    then returned (record c { dialect = val })
    else if same key (codes "auto_trust_backbone")
    then returned (record c { auto_trust_backbone = is_on val })
    else returned c

abbrev pub with_raw : Bytes → Bytes → Config → Config
with_raw key val c = record c { raw = λ k. if same key k then some val else c.raw k }

-- What loading comes to; `std::stoi` may throw, and the lines before have had their effect.
pub data Loading : Type 0 where
  not_opened : Loading
  stopped : Error → Config → Loading
  loaded : Config → Loading

abbrev pub is_empty : Bytes → Bool
is_empty [] = true
is_empty (_ ∷ _) = false

abbrev pub is_comment : Bytes → Bool
is_comment [] = true
is_comment (c ∷ _) = c == b'#'

abbrev pub ended : Config → Result Error Config → Loading
ended c (thrown e) = stopped e c
ended c (returned d) = loaded d

unfoldable pub set_pair : Bytes → Bytes → Config → Loading
unfolding assign
set_pair key val c =
    if is_empty key
    then loaded c
    else ended (with_raw key val c) (assign key val (with_raw key val c))

abbrev pub set_split : Option (Bytes × Bytes) → Config → Loading
set_split none c = loaded c
set_split (some kv) c = set_pair (trim kv.0) (trim kv.1) c

unfoldable pub load_line : Bytes → Config → Loading
unfolding split_colon trim set_pair
load_line line c = if is_comment line then loaded c else set_split (split_colon line) c

abbrev pub and_then : Loading → (Config → Loading) → Loading
and_then not_opened f = not_opened
and_then (stopped e c) f = stopped e c
and_then (loaded c) f = f c

unfoldable pub load_lines : List Bytes → Config → Loading
unfolding load_line
load_lines [] c = loaded c
load_lines (line ∷ lines) c = and_then (load_line line c) (load_lines lines)

abbrev onto_line : ℕ → List Bytes → List Bytes
onto_line c [] = (c ∷ []) ∷ []
onto_line c (line ∷ lines) = (c ∷ line) ∷ lines

-- The lines that `std::getline` reads.
unfoldable pub lines_of : Bytes → List Bytes
lines_of [] = []
lines_of (c ∷ s) = let rest = lines_of s in if c == 10 then [] ∷ rest else onto_line c rest

unfoldable pub load_from_file : Option Bytes → Config → Loading
unfolding lines_of load_lines
load_from_file none c = not_opened
load_from_file (some text) c = load_lines (lines_of text) c
