-- ===== src/Router/Routing.antt =====
-- stub_sr/sr_router.c (get_interface, if_dst_check, rt_match), sr_rt.c and sr_if.c: the tables.
pub mod Longest
use uchi_networks.Common.{
  ℕ, Bool, ltb, ◌==◌, ◌&&◌, if◌then◌else◌, bit_and, List, [], ◌∷◌, ◌++◌, Option, none, some, find,
  text_eq, take,
}
use uchi_networks.Router.Bytes.{Bytes}
use uchi_networks.Router.Types.{Iface, Route}

-- `!strncmp(a, b, sr_IFACE_NAMELEN)`
unfoldable pub name_eq : List ℕ → List ℕ → Bool
name_eq a b = text_eq (take 32 a) (take 32 b)

unfoldable pub get_interface : List Iface → List ℕ → Option Iface
get_interface ifs name = find (λ i. name_eq i.name name) ifs

-- The source asserts that there is an interface.
unfoldable pub if_dst_check : List Iface → ℕ → Option (Option Iface)
if_dst_check [] ip = none
if_dst_check (i ∷ is) ip = some (find (λ j. ip == j.ip) (i ∷ is))

-- `subnet == (addr & mask)`
unfoldable pub route_matches : ℕ → Route → Bool
route_matches addr r = bit_and r.dest r.mask == bit_and addr r.mask

-- The body of the loop: the new `best`.
unfoldable pub consider : ℕ → Route → Option Route → Option Route
consider addr curr none = if route_matches addr curr then some curr else none
consider addr curr (some best) =
    if route_matches addr curr && ltb best.mask curr.mask then some curr else some best

unfoldable pub rt_walk : ℕ → List Route → Option Route → Option Route
rt_walk addr [] best = best
rt_walk addr (curr ∷ rest) best = rt_walk addr rest (consider addr curr best)

unfoldable pub rt_match : List Route → ℕ → Option Route
rt_match table addr = rt_walk addr table none

-- The walk to the last entry and the link behind it.
unfoldable pub sr_add_rt_entry : List Route → (dest gw mask : ℕ) → List ℕ → List Route
sr_add_rt_entry [] dest gw mask name =
    record { dest = dest; gw = gw; mask = mask; interface = take 32 name } ∷ []
sr_add_rt_entry (r ∷ rs) dest gw mask name = r ∷ sr_add_rt_entry rs dest gw mask name

-- The address and number of a new interface are not set: they are the arguments.
unfoldable pub sr_add_interface : Bytes → ℕ → List Iface → List ℕ → List Iface
sr_add_interface mac ip [] name = record { name = take 32 name; addr = mac; ip = ip } ∷ []
sr_add_interface mac ip (i ∷ is) name = i ∷ sr_add_interface mac ip is name

-- On the last interface; the source asserts that there is one.
unfoldable pub sr_set_ether_addr : List Iface → Bytes → Option (List Iface)
sr_set_ether_addr [] mac = none
sr_set_ether_addr (i ∷ []) mac = some (record i { addr = take 6 mac } ∷ [])
sr_set_ether_addr (i ∷ (j ∷ is)) mac = elim (sr_set_ether_addr (j ∷ is) mac) [
  | none ↦ none
  | some ls ↦ some (i ∷ ls)
]

unfoldable pub sr_set_ether_ip : List Iface → ℕ → Option (List Iface)
sr_set_ether_ip [] ip = none
sr_set_ether_ip (i ∷ []) ip = some (record i { ip = ip } ∷ [])
sr_set_ether_ip (i ∷ (j ∷ is)) ip = elim (sr_set_ether_ip (j ∷ is) ip) [
  | none ↦ none
  | some ls ↦ some (i ∷ ls)
]
