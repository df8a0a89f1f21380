-- ===== src/Receiver/Cache.antt =====
-- The bounded caches that suppress repeated log lines: `_expire_cache_locked` and
-- `_remember_cache_entry_locked` of pc-server/pc_server/receiver.py. An `OrderedDict` is the list
-- of its entries, the oldest first; times are microseconds.

pub mod Laws
use niw_pspto_pc.Base.{
  ℕ, ◌+◌, Bool, true, false, List, [], ◌∷◌, ◌++◌, Option, none, some, Eq, ltb, length,
  if◌then◌else◌,
}
use niw_pspto_pc.Base.Dict.{Dict, lookup, remove}

abbrev pub rejection_cache_max_entries : ℕ
rejection_cache_max_entries = 128

abbrev pub rejection_cache_ttl : ℕ
rejection_cache_ttl = 10_000_000

module _ {K : Type 0} where
  -- Entries are popped from the front until one is younger than the time to live.
  unfoldable pub expire : Dict K ℕ → ℕ → Dict K ℕ
  expire [] now = []
  expire ((k, seen_at) ∷ cache) now =
      if ltb now (seen_at + rejection_cache_ttl) then (k, seen_at) ∷ cache else expire cache now

  -- `while len(cache) > REJECTION_CACHE_MAX_ENTRIES: cache.popitem(last=False)`
  unfoldable pub trim : Dict K ℕ → Dict K ℕ
  trim [] = []
  trim (entry ∷ cache) =
      if ltb rejection_cache_max_entries (length (entry ∷ cache)) then trim cache else entry ∷ cache

module _ {K : Type 0} ⦃e : Eq K⦄ where
  -- The new cache, and whether the key was not there: `true` means that the caller logs.
  unfoldable pub remember : Dict K ℕ → K → ℕ → Dict K ℕ × Bool
  unfolding expire trim
  remember cache key now =
      let live = expire cache now in
      elim (lookup key live) [
        | some _ ↦ (remove key live ++ (key, now) ∷ [], false)
        | none ↦ (trim (live ++ (key, now) ∷ []), true)
      ]
