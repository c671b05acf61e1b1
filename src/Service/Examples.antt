-- ===== src/Service/Examples.antt =====
-- Runs of `raises` of service.py, and an instance of what is proved about it.
use grapec.Base.{◌≡◌, refl, List, [], ◌∷◌, none, some}
use grapec.Errors.{ok, err, schema_error, duplicate_number}
use grapec.Service.{Declared, raises}
use grapec.Service.Laws.{AreNumbered, AreDistinct, raises-AreNumbered}

abbrev three : List Declared
three =
    record { exception = some 7; pinned = none }
    ∷ record { exception = some 8; pinned = some 5 }
    ∷ record { exception = some 9; pinned = none }
    ∷ []

raises_run : raises three ≡ ok ((1, 7) ∷ (5, 8) ∷ (6, 9) ∷ [])
unfolding raises
raises_run = refl

twice_run :
    raises (
      record { exception = some 7; pinned = none }
      ∷ record { exception = some 8; pinned = some 1 }
      ∷ [])
    ≡ err (schema_error duplicate_number)
unfolding raises
twice_run = refl

raises-AreNumbered_example :
    AreNumbered 0 three ((1, 7) ∷ (5, 8) ∷ (6, 9) ∷ [])
    × AreDistinct ((1, 7) ∷ (5, 8) ∷ (6, 9) ∷ [])
raises-AreNumbered_example = raises-AreNumbered three ((1, 7) ∷ (5, 8) ∷ (6, 9) ∷ []) raises_run
