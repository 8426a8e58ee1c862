-- ===== src/Scanner/Tests.antt =====
-- Scans of one service, and a sweep that finds one device.
use see_no_evil.Prelude.{◌≡◌, ◌≤◌, refl, true, Option, none, some, List, [], ◌∷◌, if◌then◌else◌}
use see_no_evil.Text.{Text, codes, eqb, split, strip, lower, starts_with, drop}
use see_no_evil.Scanner.{
  NmapLib, Headers, read_lines, parse_nmap_output, device_of, check_auth, expected_token,
  provided_token,
}
use see_no_evil.Text.Number.{pos, int}
use see_no_evil.Scanner.Config.{Value, null, number, text, list, parse_duration, scan_cidr}
use see_no_evil.Scanner.Control.{
  Event, post, turn, ended, idle, do_post, run, authorised_count, run-authorised_count,
}

-- Lines of one letter: a report, then a MAC line.
abbrev letters : NmapLib
letters = record {
  splitlines = split b'|';
  report = λ line. if eqb line (codes "r") then some (none, codes "10.0.0.9") else none;
  mac = λ line. if eqb line (codes "m") then some (codes "AA:BB", codes " ") else none;
}

-- A MAC line without a report before it is nothing.
parsed_tests :
    parse_nmap_output letters (codes "m|r|x|m|m")
    ≡ device_of (codes "AA:BB") [] (codes "10.0.0.9") none ∷ []
unfolding parse_nmap_output read_lines split eqb lower strip
parsed_tests = refl

abbrev tokens : List (Option Text)
tokens = none ∷ some [] ∷ some (codes "t") ∷ []

abbrev headers : Text → Headers
headers auth = record { authorization = auth; scanner_token = [] }

abbrev events : List Event
events =
    turn
    ∷ post (codes "/scan") (headers (codes "Bearer t"))
    ∷ ended
    ∷ post (codes "/scan") (headers (codes "Bearer t"))
    ∷ post (codes "/scan") (headers [])
    ∷ []

run_tests :
    ((run tokens true events idle).running ≡ 1) × ((run tokens true events idle).started ≡ 2)
unfolding run do_post check_auth expected_token provided_token eqb starts_with strip drop
run_tests = (refl, refl)

run-authorised_count_example :
    ((run tokens true events idle).running ≤ 1)
    × ((run tokens true events idle).started ≤ authorised_count tokens true events)
run-authorised_count_example = run-authorised_count tokens true events

abbrev no_text : Value → Text
no_text v = []

-- A pause of no time is accepted as a number.
parse_duration_tests :
    (parse_duration no_text (text (codes " 2 h ")) (pos 5) ≡ pos 7200)
    × (parse_duration no_text (text (codes "2x")) (pos 5) ≡ pos 5)
    × (parse_duration no_text (number (pos 0)) (pos 5) ≡ pos 0)
unfolding parse_duration strip int
parse_duration_tests = (refl, refl, refl)

scan_cidr_tests :
    (scan_cidr no_text none (text (codes "192.168.1.0/24")) null (some (codes "10.0.0.0/24"))
      ≡ codes "10.0.0.0/24")
    × (scan_cidr no_text none null (list (codes "10.1.0.0/16" ∷ [])) none ≡ codes "10.1.0.0/16")
unfolding scan_cidr eqb
scan_cidr_tests = (refl, refl)
