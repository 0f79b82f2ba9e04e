-- ===== src/Object/LiveObjects/Release.antt =====
-- src/object/LiveObjectRegistry.cpp: what releaseAll leaves of the objects.
use amlp.Base.{Bool, has, if◌then◌else◌, ◌&&◌, List, ℕ}
use amlp.Object.LiveObjects.{Holder, update, cleared}

module _ {V : Type 0} (z : V) where
  abbrev pub settle : Bool → Holder V → Holder V
  settle registered h = if registered && h.alive then cleared z h else h

  abbrev pub released : List ℕ → (ℕ → Holder V) → ℕ → Holder V
  released registry holders o = settle (has o registry) (holders o)

  abbrev stepped : ℕ → (ℕ → Holder V) → ℕ → Holder V
  stepped p holders = if (holders p).alive then update p (cleared z) holders else holders
