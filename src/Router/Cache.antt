-- ===== src/Router/Cache.antt =====
-- stub_sr/sr_router.c: the ARP cache.
pub mod Fresh
use uchi_networks.Common.{
  ℕ, zero, ◌+◌, Bool, ltb, leb, ◌==◌, ◌||◌, if◌then◌else◌, List, [], ◌∷◌, ◌++◌, Option, find,
  keep_if,
}
use uchi_networks.Router.Bytes.{Bytes}
use uchi_networks.Router.Types.{CacheEntry}

-- ARP_CACHE_TIMEOUT
abbrev pub cache_timeout : ℕ
cache_timeout = 15

-- The cache half of sr_init: one entry that never times out.
unfoldable pub init_cache : List CacheEntry
init_cache = record { ip = 0; mac = 255 ∷ 255 ∷ 255 ∷ 255 ∷ 255 ∷ 255 ∷ []; timeout = 0 } ∷ []

unfoldable pub arp_cache_lookup : List CacheEntry → ℕ → Option CacheEntry
arp_cache_lookup cache ip = find (λ e. ip == e.ip) cache

-- On the entry that the lookup of `ip` finds.
unfoldable pub arp_cache_update : ℕ → List CacheEntry → Bytes → ℕ → List CacheEntry
arp_cache_update now [] mac ip = []
arp_cache_update now (e ∷ es) mac ip =
    if ip == e.ip
    then record e { mac = mac; timeout = now + cache_timeout } ∷ es
    else e ∷ arp_cache_update now es mac ip

-- `malloc` is taken to succeed.
unfoldable pub arp_cache_add : ℕ → List CacheEntry → Bytes → ℕ → List CacheEntry
arp_cache_add now cache mac ip =
    cache ++ (record { ip = ip; mac = mac; timeout = now + cache_timeout } ∷ [])

-- `arpc_timeout && now > arpc_timeout` unlinks the entry.
unfoldable pub is_kept : ℕ → CacheEntry → Bool
is_kept now e = e.timeout == 0 || leb now e.timeout

unfoldable pub arp_cache_flush : ℕ → List CacheEntry → List CacheEntry
arp_cache_flush now cache = keep_if (is_kept now) cache
