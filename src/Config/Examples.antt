-- ===== src/Config/Examples.antt =====
-- src/config/Config.cpp: a file at concrete input.
use amlp.Config.Settings.{Agrees}
use amlp.Config.Says.{Lines}
use amlp.Config.Raw.{Last}
use amlp.Config.{Config}
use amlp.Base.Int.{pos}
use amlp.Config.{loaded, initial, Loading, load_from_file}
use amlp.Config.Agrees.{load_from_file-Agrees}
use amlp.Base.{List, none, ◌++◌, codes, ◌≡◌, Bytes, refl, some, ◌∷◌}

-- A comment, a key twice, and a line with no colon.
abbrev sample : Bytes
sample =
    codes "# x: 1" ++ 10 ∷ (codes " port : 80 " ++ 10 ∷ (codes "none" ++ 10 ∷ codes "port:4000"))

abbrev config_of : Loading → Config
config_of (loaded c) = c
config_of _ = initial

abbrev sample_config : Config
sample_config = config_of (load_from_file (some sample) initial)

load_from_file-Agrees_example :
    (lines : List Bytes) × Lines sample lines
    × ((key : Bytes) → Last key lines none (sample_config.raw key))
    × Agrees sample_config
unfolding load_from_file
load_from_file-Agrees_example = load_from_file-Agrees sample sample_config refl

last_port : sample_config.port ≡ pos 4000
unfolding load_from_file
last_port = refl
