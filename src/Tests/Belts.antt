-- ===== src/Tests/Belts.antt =====
-- The train's mover, at the transition of the beat P3.
use finishing_line.Common.{Bool, List, [], some, false, refl, true, ◌∷◌, ◌≡◌}
use finishing_line.Model.{Direction, Move, Station, Zone}
use finishing_line.Train.{BeltCall, Presence, advance, wait_zone_ready}
use finishing_line.Train.Handoff.{IsArrived, Polled, advance-confirms}
use finishing_line.Train.Stops.{advance-idles, after, at_rest}

abbrev p3_moves : List Move
p3_moves = (Station.f1, Station.o) ∷ (Station.inq, Station.f1) ∷ []

abbrev all_return : BeltCall → Bool
all_return c = true

-- The second belt does not get ready in time.
abbrev jammed : BeltCall → Bool
jammed (wait_zone_ready Zone.z2) = false
jammed c = true

-- What the second poll sees: parts at F2, O and F1.
abbrev arrived : Presence
arrived station = true

abbrev empty_line : Presence
empty_line station = false

advance-confirms_example :
    (shows : Presence) × Polled shows (some empty_line ∷ some arrived ∷ [])
    × IsArrived ((Station.o, Station.f2) ∷ p3_moves) shows
unfolding advance
advance-confirms_example =
    advance-confirms all_return (some empty_line ∷ some arrived ∷ []) Direction.downstream
      (Station.o, Station.f2) p3_moves refl

advance-idles_example :
    after (advance jammed [] Direction.downstream ((Station.o, Station.f2) ∷ p3_moves)).0 at_rest
    ≡ at_rest
advance-idles_example =
    advance-idles jammed [] Direction.downstream ((Station.o, Station.f2) ∷ p3_moves) refl
      (λ zone. refl) (λ feeds. refl)
