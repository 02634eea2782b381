-- ===== src/Http/Examples.antt =====
-- A server that refuses HEAD, on which the theorem about probes is used.
use bootup.Http.{Http, absent, probe}
use bootup.Http.Laws.{Counts, IsVerdict, probe_iff}
use bootup.Common.{String, [], false, if◌then◌else◌, none, ok, refl, some, ℕ, ◌==◌, ◌↔◌, ◌≡◌}

abbrev answer_of : String → ℕ
answer_of method = if method == "HEAD" then 405 else 404

abbrev http : Http
http = record {
  parse_url = λ _. none;
  path_unescape = λ s. some s;
  file_url = λ s. s;
  request = λ method _. some (ok (record { status = answer_of method; body = ok [] }));
  stat = λ _. absent;
  read_file = λ _. absent;
}

missing : probe http "https://m/a" ≡ ok false
unfolding probe
missing = refl

probe_iff_example :
    (probe http "https://m/a" ≡ ok false)
    ↔ ((answer : ℕ) × Counts http "https://m/a" answer × IsVerdict http answer false)
probe_iff_example = probe_iff http "https://m/a" false
