-- ===== src/Examples/Settings.antt =====
-- The configuration of an environment with nothing in it, and of one with a single run.
use queryforge.Prelude.{◌≡◌, refl, if◌then◌else◌, [], none, some, Bytes, codes, bytes_eq}
use queryforge.Prelude.Float.{thousandths}
use queryforge.Prelude.Int.{ℤ, pos}
use queryforge.Engine.{done, fault}
use queryforge.Config.{Parsers, settings, load}

abbrev parsers : Parsers ℤ
parsers = record {
  atoi = λ s. if bytes_eq s (codes "2") then some (pos 2) else none;
  parse_float = λ s. none;
  parse_bool = λ s. none;
  parse_duration = λ s. none;
}

abbrev nothing_set : Bytes → Bytes
nothing_set key = []

abbrev two_runs : Bytes → Bytes
two_runs key = if bytes_eq key (codes "MEASUREMENT_RUNS") then codes " 2 " else []

load_nothing :
    load thousandths parsers nothing_set ≡ done (settings thousandths parsers nothing_set)
unfolding load settings
load_nothing = refl

load_two :
    load thousandths parsers two_runs ≡ fault (codes "MEASUREMENT_RUNS must be at least 3, got 2")
unfolding load settings bytes_eq
load_two = refl
