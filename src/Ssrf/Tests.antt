-- ===== src/Ssrf/Tests.antt =====
-- Addresses of the private ranges.
use see_no_evil.Prelude.{◌≡◌, ◌*◌, ◌+◌, ◌^◌, true, arith}
use see_no_evil.Ssrf.{v4, v6, quad, is_private_ip}
use see_no_evil.Ssrf.Ranges.{is_private_ip-quad}

is_private_ip-quad_example :
    (is_private_ip (v4 (quad 172 31 0 1)) ≡ true)
    × (is_private_ip (v6 (65535 * 2 ^ 32 + quad 172 31 0 1)) ≡ true)
unfolding is_private_ip
is_private_ip-quad_example =
    is_private_ip-quad 172 31 0 1 (omega arith) (omega arith) (omega arith) (omega arith)
