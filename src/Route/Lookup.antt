-- ===== src/Route/Lookup.antt =====
-- What a lookup finds, in any table and in the one that `route_init` sets up.
use Prim.Native.Nat.{bit_and, bit_and-bitwise, digits, min}
use toy_ip.Base.{
  ℕ, zero, suc, ◌/◌, ◌%◌, ◌≡◌, ◌≢◌, refl, Option, none, some, List, [], ◌∷◌, ◌++◌, arith, All, ◌⊎◌,
  inl, inr,
}
use toy_ip.Route.{
  loop, netdev, device_addr, RtEntry, route_add, default_route, route_init, lookup_from,
  route_lookup,
}

-- The entry is not for the address.
abbrev pub Misses : ℕ → RtEntry → Type 0
Misses daddr r = bit_and r.netmask daddr ≢ r.dst

-- `route_lookup` finds the first entry for the address; if no entry of the table is for it, the
-- last one.
pub route_lookup_lem :
    (daddr : ℕ) (r : RtEntry) (xs ys : List RtEntry)
    → All (Misses daddr) xs
    → (bit_and r.netmask daddr ≡ r.dst) ⊎ (ys ≡ [])
    → route_lookup daddr (xs ++ (r ∷ ys)) ≡ some r
unfolding route_lookup lookup_from
route_lookup_lem daddr r xs ys m h = from none xs m
  where
    here : (rt : Option RtEntry) → lookup_from daddr rt (r ∷ ys) ≡ some r
    here rt = elim h [ inl e ↦ ground (arith, e) | inr e ↦ rw e (ground arith) ]

    from :
        (rt : Option RtEntry) (zs : List RtEntry)
        → All (Misses daddr) zs
        → lookup_from daddr rt (zs ++ (r ∷ ys)) ≡ some r
    from rt [] m = here rt
    from rt (z ∷ zs) m = ground (arith, m.0, from (some z) zs m.1)

-- The digits that a mask does not have are 0 in the result.
and_even : (n a b : ℕ) → a % 2 ≡ 0 → digits (λ b. zero) min n a b % 2 ≡ 0
and_even zero a b e = refl
and_even (suc n) zero b e = refl
and_even (suc n) (suc a) b e = omega arith

and_fourth : (n a b : ℕ) → a % 4 ≡ 0 → digits (λ b. zero) min n a b % 4 ≡ 0
and_fourth zero a b e = refl
and_fourth (suc n) zero b e = refl
and_fourth (suc n) (suc a) b e = omega (arith, and_even n (suc a / 2) (b / 2) (omega arith))

and_eighth : (n a b : ℕ) → a % 8 ≡ 0 → digits (λ b. zero) min n a b % 8 ≡ 0
and_eighth zero a b e = refl
and_eighth (suc n) zero b e = refl
and_eighth (suc n) (suc a) b e = omega (arith, and_fourth n (suc a / 2) (b / 2) (omega arith))

masked : (a b : ℕ) → a % 8 ≡ 0 → bit_and a b % 8 ≡ 0
masked a b e = omega (arith, bit_and-bitwise a b, and_eighth a a b e)

-- In the table that `route_init` sets up, every address is routed to the gateway, those of the
-- loopback network and of the local network too.
pub route_init-default :
    (tapaddr daddr : ℕ) → route_lookup daddr (route_init tapaddr []) ≡ some (default_route tapaddr)
unfolding route_init route_add device_addr
route_init-default tapaddr daddr =
    let missed : All (Misses daddr) locals = (
      (λ e. absurd (omega (arith, e, masked 0xff000000 daddr refl))),
      ((λ e. absurd (omega (arith, e, masked 0xffffff00 daddr refl))), tt),
    ) in
    route_lookup_lem daddr (default_route tapaddr) locals [] missed (inr refl)
  where
    locals : List RtEntry
    locals =
        record {
          dst = device_addr loop;
          gateway = 0;
          netmask = 0xff000000;
          flags = 1;
          metric = 0;
          dev = loop;
        }
        ∷ record {
          dst = device_addr netdev;
          gateway = 0;
          netmask = 0xffffff00;
          flags = 3;
          metric = 0;
          dev = netdev;
        }
        ∷ []
