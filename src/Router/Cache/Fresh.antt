-- ===== src/Router/Cache/Fresh.antt =====
-- stub_sr/sr_router.c: the ARP cache as a map from addresses to entries.
use uchi_networks.Common.{
  ℕ, ◌+◌, ◌≡◌, ◌≢◌, refl, subst, sym, arith, ◌==◌, ◌||◌, not, ltb, if◌then◌else◌, List, [], ◌∷◌,
  Option, none, some, find, keep_if, All, All-append, keep_if-All,
}
use uchi_networks.Router.Bytes.{Bytes}
use uchi_networks.Router.Types.{CacheEntry}
use uchi_networks.Router.Cache.{
  cache_timeout, arp_cache_lookup, arp_cache_update, arp_cache_add, is_kept, arp_cache_flush,
}

-- No two entries have the same address.
abbrev pub IsDistinct : List CacheEntry → Type 0
IsDistinct [] = Unit {0}
IsDistinct (e ∷ es) = All (λ x. x.ip ≢ e.ip) es × IsDistinct es

-- An entry whose time-out is 0, which never ends, or has not passed.
abbrev pub only_fresh : ℕ → Option CacheEntry → Option CacheEntry
only_fresh now none = none
only_fresh now (some e) = if e.timeout == 0 || not (ltb e.timeout now) then some e else none

lookup_absent :
    (a : ℕ) (es : List CacheEntry) → All (λ x. x.ip ≢ a) es → arp_cache_lookup es a ≡ none
unfolding arp_cache_lookup find
lookup_absent a [] h = refl
lookup_absent a (e ∷ es) h = ground (arith, h.0, lookup_absent a es h.1)

pub absent_lookup :
    (a : ℕ) (es : List CacheEntry) → arp_cache_lookup es a ≡ none → All (λ x. x.ip ≢ a) es
unfolding arp_cache_lookup find
absent_lookup a [] h = tt
absent_lookup a (e ∷ es) h = (λ p. ground arith, absent_lookup a es (ground arith))

-- After a flush the lookup of an address gives its entry, if the time-out of that is 0 or not before
-- now, and nothing otherwise, provided that no address has two entries.
pub lookup-flush :
    (now a : ℕ) (cache : List CacheEntry)
    → IsDistinct cache
    → arp_cache_lookup (arp_cache_flush now cache) a ≡ only_fresh now (arp_cache_lookup cache a)
unfolding arp_cache_lookup arp_cache_flush is_kept keep_if find
lookup-flush now a [] d = refl
lookup-flush now a (e ∷ es) d = ground (arith, lookup-flush now a es d.1, alone)
  where
    alone : a ≡ e.ip → arp_cache_lookup es a ≡ none
    alone p = lookup_absent a es (subst (λ t. All (λ (x : CacheEntry). x.ip ≢ t) es) (sym p) d.0)

pub flush-IsDistinct :
    (now : ℕ) (cache : List CacheEntry) → IsDistinct cache → IsDistinct (arp_cache_flush now cache)
unfolding arp_cache_flush keep_if
flush-IsDistinct now [] d = tt
flush-IsDistinct now (e ∷ es) d = ground (
  arith,
  flush-IsDistinct now es d.1,
  keep_if-All (λ (x : CacheEntry). x.ip ≢ e.ip) (is_kept now) es d.0,
)

update-ne :
    (now b : ℕ) (mac : Bytes) (a : ℕ) (es : List CacheEntry)
    → All (λ x. x.ip ≢ b) es
    → All (λ x. x.ip ≢ b) (arp_cache_update now es mac a)
unfolding arp_cache_update
update-ne now b mac a [] h = tt
update-ne now b mac a (e ∷ es) h = ground (arith, update-ne now b mac a es h.1)

pub update-IsDistinct :
    (now : ℕ) (mac : Bytes) (a : ℕ) (cache : List CacheEntry)
    → IsDistinct cache
    → IsDistinct (arp_cache_update now cache mac a)
unfolding arp_cache_update
update-IsDistinct now mac a [] d = tt
update-IsDistinct now mac a (e ∷ es) d =
    ground (arith, update-IsDistinct now mac a es d.1, update-ne now e.ip mac a es d.0)

-- A lookup after a refresh: the address has the new hardware address and a full term, if it had
-- an entry, and any other address has what it had.
pub lookup-update :
    (now : ℕ) (mac : Bytes) (a b : ℕ) (cache : List CacheEntry)
    → arp_cache_lookup (arp_cache_update now cache mac a) b ≡ (
        if a == b
        then elim (arp_cache_lookup cache b) [
          | none ↦ none
          | some e ↦ some (record e { mac = mac; timeout = now + cache_timeout })
        ]
        else arp_cache_lookup cache b)
unfolding arp_cache_lookup arp_cache_update find
lookup-update now mac a b [] = ground arith
lookup-update now mac a b (e ∷ es) = ground (arith, lookup-update now mac a b es)

pub add-IsDistinct :
    (now : ℕ) (mac : Bytes) (a : ℕ) (cache : List CacheEntry)
    → All (λ x. x.ip ≢ a) cache
    → IsDistinct cache
    → IsDistinct (arp_cache_add now cache mac a)
unfolding arp_cache_add
add-IsDistinct now mac a [] h d = (tt, tt)
add-IsDistinct now mac a (e ∷ es) h d = (
  All-append (λ (x : CacheEntry). x.ip ≢ e.ip) es _ d.0 ((λ p. h.0 (omega arith)), tt),
  add-IsDistinct now mac a es h.1 d.1,
)
