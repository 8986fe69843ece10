-- ===== src/Route.antt =====
-- toy_src/route.c, with the addresses that `netdev_init` of toy_src/netdev.c sets.
use Prim.Native.Nat.{bit_and}
use toy_ip.Base.{ℕ, Option, none, some, List, [], ◌∷◌, ◌++◌, ◌==◌, if◌then◌else◌}
pub mod Lookup
mod Tests

-- `loop` and `netdev`
pub data Device : Type 0 where
  loop netdev : Device

-- The address of a device: 127.0.0.1 and 10.0.1.4.
unfoldable pub device_addr : Device → ℕ
device_addr loop = 0x7f000001
device_addr netdev = 0x0a000104

-- `struct rtentry`
pub record RtEntry : Type 0 where
  pub dst : ℕ
  pub gateway : ℕ
  pub netmask : ℕ
  pub flags : ℕ
  pub metric : ℕ
  pub dev : Device

unfoldable pub route_add : RtEntry → List RtEntry → List RtEntry
route_add rt routes = routes ++ (rt ∷ [])

-- The default route, to the gateway at `tapaddr`.
abbrev pub default_route : ℕ → RtEntry
default_route tapaddr = record {
  dst = 0;
  gateway = tapaddr;
  netmask = 0;
  flags = 2;
  metric = 0;
  dev = netdev;
}

unfoldable pub route_init : ℕ → List RtEntry → List RtEntry
route_init tapaddr routes =
    let local : RtEntry = record {
      dst = device_addr loop;
      gateway = 0;
      netmask = 0xff000000;
      flags = 1;
      metric = 0;
      dev = loop;
    } in
    let host : RtEntry = record {
      dst = device_addr netdev;
      gateway = 0;
      netmask = 0xffffff00;
      flags = 3;
      metric = 0;
      dev = netdev;
    } in
    route_add (default_route tapaddr) (route_add host (route_add local routes))

-- The loop of `route_lookup`; `rt` is what the variable holds when the walk starts.
unfoldable pub lookup_from : ℕ → Option RtEntry → List RtEntry → Option RtEntry
lookup_from daddr rt [] = rt
lookup_from daddr rt (r ∷ routes) =
    let rest = lookup_from daddr (some r) routes in
    if bit_and r.netmask daddr == r.dst then some r else rest

unfoldable pub route_lookup : ℕ → List RtEntry → Option RtEntry
route_lookup daddr routes = lookup_from daddr none routes
