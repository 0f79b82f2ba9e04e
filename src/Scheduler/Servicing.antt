-- ===== src/Scheduler/Servicing.antt =====
-- src/scheduler/Scheduler.cpp: the calls that `tickResetsAndCleanup` makes in one object.
use amlp.Dialect.{fluff_os, ld_mud, dgd}
use amlp.Base.{
  leb, ◌-◌, Option, ltb, ℕ, Bool, true, false, ◌&&◌, not, List, [], ◌∷◌, some, none, if◌then◌else◌,
  Bytes, codes,
}
use amlp.Object.{LpcObject}
use amlp.Dialect.{LpcDialect}
use amlp.Scheduler.Ticks.{driver}
use amlp.Scheduler.Recorder.{Call, calls, Script}

module _ {V : Type 0} (script : Script V) where
  -- The name of a hook's function.
  abbrev pub hook_name : Bytes → Bytes
  hook_name fallback = elim (script.text script.hook) [ some name ↦ name | none ↦ fallback ]

  -- Whether a time is set and has come.
  abbrev pub has_come : ℕ → Option ℕ → Bool
  has_come now none = false
  has_come now (some t) = leb t now

  -- A reset is called if one is due and the object was touched since the last.
  abbrev pub is_touched_and_due : ℕ → LpcObject → Bool
  is_touched_and_due now x = has_come now x.time_reset && not x.reset_state

  -- It asked for a clean_up and was not used for more than 3600 seconds, in nanoseconds.
  abbrev pub is_unused : ℕ → LpcObject → Bool
  is_unused now x = x.will_clean_up && ltb 3600000000000 (now - x.time_of_ref)

  abbrev pub is_ld_mud : LpcDialect → Bool
  is_ld_mud fluff_os = false
  is_ld_mud ld_mud = true
  is_ld_mud dgd = false

  abbrev pub reset_calls : ℕ → ℕ → LpcObject → List (Call V)
  reset_calls now obj x =
      if is_touched_and_due now x && script.has_function obj (hook_name (codes "reset"))
      then calls obj (hook_name (codes "reset")) [] driver ∷ []
      else []

  abbrev pub clean_up_calls : LpcDialect → ℕ → ℕ → LpcObject → List (Call V)
  clean_up_calls dialect now obj x =
      if is_unused now x && not (is_touched_and_due now x && is_ld_mud dialect)
      then calls obj (hook_name (codes "clean_up"))
          (script.number (if x.is_clone then 0 else 1) ∷ []) driver
        ∷ []
      else []
