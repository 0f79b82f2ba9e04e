-- ===== src/Net/Interactive.antt =====
-- src/net/InteractiveRegistry.cpp, and attach() and close() of src/net/Connection.cpp: the objects
-- that are bound to connections. Objects and connections are named by numbers.
pub mod Sync
pub mod Reaches
pub mod Users
mod Examples
use amlp.Base.{
  Bytes, false, ◌||◌, not, ◌&&◌, ◌==◌, if◌then◌else◌, ◌++◌, Bool, List, Option, ℕ, [], none, some,
  true, ◌∷◌,
}

-- What the code reads and writes of an object. `alive`: some `shared_ptr` still holds it.
pub record Body : Type 0 where
  pub alive : Bool
  pub ever_interactive : Bool
  pub snooped_by : Option ℕ
  pub snooping : Option ℕ

pub record Entry : Type 0 where
  pub obj : ℕ
  pub conn : ℕ

abbrev pub Bodies : Type 0
Bodies = ℕ → Body

-- `weak_ptr::lock`
unfoldable pub locked : Bodies → Option ℕ → Option ℕ
locked bodies none = none
locked bodies (some o) = if (bodies o).alive then some o else none

unfoldable pub add : Option ℕ → ℕ → List Entry → List Entry
add none conn registry = registry
add (some obj) conn registry = registry ++ (record { obj = obj; conn = conn }) ∷ []

unfoldable pub remove_all : Bodies → ℕ → List Entry → List Entry
remove_all bodies obj [] = []
remove_all bodies obj (e ∷ registry) =
    let left = remove_all bodies obj registry in
    if not (bodies e.obj).alive || e.obj == obj then left else e ∷ left

unfoldable pub remove : Bodies → Option ℕ → List Entry → List Entry
unfolding remove_all
remove bodies none registry = registry
remove bodies (some obj) registry = remove_all bodies obj registry

unfoldable pub all : Bodies → List Entry → List ℕ
all bodies [] = []
all bodies (e ∷ registry) =
    let later = all bodies registry in if (bodies e.obj).alive then e.obj ∷ later else later

unfoldable pub find_first : Bodies → ℕ → List Entry → Option ℕ
find_first bodies obj [] = none
find_first bodies obj (e ∷ registry) =
    let later = find_first bodies obj registry in
    if (bodies e.obj).alive && e.obj == obj then some e.conn else later

unfoldable pub find : Bodies → Option ℕ → List Entry → Option ℕ
unfolding find_first
find bodies none registry = none
find bodies (some obj) registry = find_first bodies obj registry

-- The objects, the connections' `boundObject_`, `closed_` and whether `fd_` is one, and the registry.
pub record World : Type 0 where
  pub bodies : Bodies
  pub bound : ℕ → Option ℕ
  pub closed : ℕ → Bool
  pub has_fd : ℕ → Bool
  pub registry : List Entry

abbrev pub put : {A : Type 0} → ℕ → A → (ℕ → A) → ℕ → A
put k a f j = if j == k then a else f j

abbrev pub change : ℕ → (Body → Body) → Bodies → Bodies
change k f bodies j = if j == k then f (bodies j) else bodies j

unfoldable pub unbind : ℕ → World → World
unfolding remove
unbind conn w = record w { registry = remove w.bodies (w.bound conn) w.registry }

unfoldable pub bind : ℕ → Option ℕ → World → World
unfolding add
bind conn none w = record w { bound = put conn none w.bound }
bind conn (some obj) w = record w {
  bound = put conn (some obj) w.bound;
  registry = add (some obj) conn w.registry;
  bodies = change obj (λ b. record b { ever_interactive = true }) w.bodies;
}

unfoldable pub attach : ℕ → Option ℕ → World → World
unfolding unbind bind
attach conn obj w = bind conn obj (unbind conn w)

-- The snooper of a closing object lets go of it.
unfoldable pub stop_snooper : Option ℕ → Bodies → Bodies
stop_snooper none bodies = bodies
stop_snooper (some snooper) bodies = change snooper (λ b. record b { snooping = none }) bodies

unfoldable pub unsnoop : ℕ → Bodies → Bodies
unfolding stop_snooper locked
unsnoop obj bodies =
    change obj (λ b. record b { snooped_by = none })
      (stop_snooper (locked bodies (bodies obj).snooped_by) bodies)

unfoldable pub release : ℕ → Option ℕ → World → World
unfolding unsnoop remove
release conn none w = w
release conn (some obj) w =
    let bodies = unsnoop obj w.bodies in
    record w {
      bodies = bodies;
      registry = remove bodies (some obj) w.registry;
      bound = put conn none w.bound;
    }

unfoldable pub close : ℕ → World → World
unfolding release
close conn w =
    let left = release conn (w.bound conn) w in
    record left { closed = put conn true left.closed; has_fd = put conn false left.has_fd }

-- What an output leads to: bytes for a connection, and a call of `receive_snoop`.
pub data Delivery : Type 0 where
  sent : (conn : ℕ) (text : Bytes) → Delivery
  receive_snoop : (snooper : ℕ) (text : Bytes) → Delivery

unfoldable pub to_snooper : Option ℕ → Bytes → List Delivery
to_snooper none text = []
to_snooper (some snooper) text = receive_snoop snooper text ∷ []

unfoldable pub to_victim : World → Option ℕ → Bytes → List Delivery
unfolding to_snooper locked
to_victim w none text = []
to_victim w (some victim) text = to_snooper (locked w.bodies (w.bodies victim).snooped_by) text

-- `send` does nothing once the descriptor is closed.
unfoldable pub deliver_to_connection : World → Option ℕ → Bytes → List Delivery
unfolding to_victim
deliver_to_connection w none text = []
deliver_to_connection w (some conn) text =
    (if w.has_fd conn then sent conn text ∷ [] else []) ++ to_victim w (w.bound conn) text
