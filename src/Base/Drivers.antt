-- ===== src/Base/Drivers.antt =====
-- What a driver's call may answer, on what the server holds under one key.
use mathlib.Core.Path.{◌≡◌}
use mathlib.Core.Logic.{◌⊎◌}
use mathlib.Core.Bool.{true}
use mathlib.Core.Option.{Option, none, some}
use contact_server.Base.Actions.{is_not_found, Result, ok, err, panic}

module _ {D : Type 0} where
  -- A read that succeeds returns what is held; `NotFound` is only said of what is missing.
  abbrev pub ReadOf : Option D → Result D → Type 0
  ReadOf held (ok d) = held ≡ some d
  ReadOf held (err e) = is_not_found e ≡ true → held ≡ none
  ReadOf held (panic w) = ⊥

  -- A write that succeeds is seen; one that fails, as by its deadline, may have been made or not.
  abbrev pub WriteOf : Option D → Option D → Option D → Result (Unit {0}) → Type 0
  WriteOf before written after (ok _) = after ≡ written
  WriteOf before written after (err e) = (after ≡ before) ⊎ (after ≡ written)
  WriteOf before written after (panic w) = ⊥

  -- The same for `Delete`, for which `NotFound` says that nothing was there.
  abbrev pub DeleteOf : Option D → Option D → Option D → Result (Unit {0}) → Type 0
  DeleteOf before written after (ok _) = after ≡ written
  DeleteOf before written after (err e) =
      ((after ≡ before) ⊎ (after ≡ written)) × (is_not_found e ≡ true → after ≡ written)
  DeleteOf before written after (panic w) = ⊥
