-- ===== src/Dict/Durations/Examples.antt =====
-- Runs of the durations of dict.py, and an instance of what is proved about them.
use grapec.Base.{◌≡◌, refl}
use grapec.Base.Int.{pos, negsuc}
use grapec.Dict.Durations.{format_duration, parse_duration}
use grapec.Dict.Durations.RoundTrip.{parse_duration-format_duration}
use grapec.Errors.{ok, err, value_error}
use grapec.Text.{codes}

format_run : format_duration (negsuc 1499999) ≡ codes "-1.500s"
unfolding format_duration
format_run = refl

parse_run : parse_duration (codes "1.5s") ≡ ok (pos 1500000)
unfolding parse_duration
parse_run = refl

refused_run : parse_duration (codes "1.s") ≡ err value_error
unfolding parse_duration
refused_run = refl

parse_duration-format_duration_example :
    parse_duration (format_duration (negsuc 41)) ≡ ok (negsuc 41)
parse_duration-format_duration_example = parse_duration-format_duration (negsuc 41) refl
