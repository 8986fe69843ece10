-- ===== src/Route/Tests.antt =====
-- A lookup in the table of `route_init`.
use toy_ip.Base.{◌≡◌, refl, [], some}
use toy_ip.Route.{default_route, route_init, route_add, device_addr, lookup_from, route_lookup}

-- 10.0.1.7
found : route_lookup 0x0a000107 (route_init 0x0a000105 []) ≡ some (default_route 0x0a000105)
unfolding route_lookup route_init lookup_from route_add device_addr
found = refl
