-- ===== src/Receiver/Cache/Laws.antt =====
-- The caches stay small and in order of time, and suppress repetitions.
use niw_pspto_pc.Base.{
  ℕ, ◌+◌, ◌≤◌, ◌<◌, ◌≡◌, refl, true, false, [], ◌∷◌, ◌++◌, some, Eq, equals, ltb, length,
  length-append, arith, inl, inr, Option-cases, Bool-cases,
}
use niw_pspto_pc.Base.Dict.{Dict, lookup, remove}
use niw_pspto_pc.Receiver.Cache.{
  rejection_cache_max_entries, rejection_cache_ttl, expire, trim, remember,
}

-- The times do not fall, begin at `lo` and end by `hi`.
abbrev pub IsTimely : {K : Type 0} → ℕ → ℕ → Dict K ℕ → Type 0
IsTimely lo hi [] = lo ≤ hi
IsTimely lo hi ((k, t) ∷ cache) = (lo ≤ t) × IsTimely t hi cache

module _ {K : Type 0} where
  weaken : (lo lo' hi : ℕ) (c : Dict K ℕ) → lo ≤ lo' → IsTimely lo' hi c → IsTimely lo hi c
  weaken lo lo' hi [] le h = omega arith
  weaken lo lo' hi ((k, t) ∷ c) le h = (omega arith, h.1)

  lo-le-hi : (lo hi : ℕ) (c : Dict K ℕ) → IsTimely lo hi c → lo ≤ hi
  lo-le-hi lo hi [] h = h
  lo-le-hi lo hi ((k, t) ∷ c) h = omega (arith, lo-le-hi t hi c h.1)

  IsTimely-append :
      (lo hi now : ℕ) (k : K) (c : Dict K ℕ)
      → hi ≤ now
      → IsTimely lo hi c
      → IsTimely lo now (c ++ (k, now) ∷ [])
  IsTimely-append lo hi now k [] le h = omega arith
  IsTimely-append lo hi now k ((j, t) ∷ c) le h = (h.0, IsTimely-append t hi now k c le h.1)

  IsTimely-expire :
      (lo hi now : ℕ) (c : Dict K ℕ) → IsTimely lo hi c → IsTimely lo hi (expire c now)
  unfolding expire
  IsTimely-expire lo hi now [] h = h
  IsTimely-expire lo hi now ((k, t) ∷ c) h = elim (Bool-cases (ltb now (t + rejection_cache_ttl))) [
    | inl live ↦ rw live h
    | inr old ↦ rw old (weaken lo t hi (expire c now) h.0 (IsTimely-expire t hi now c h.1))
  ]

  IsTimely-trim : (lo hi : ℕ) (c : Dict K ℕ) → IsTimely lo hi c → IsTimely lo hi (trim c)
  unfolding trim
  IsTimely-trim lo hi [] h = h
  IsTimely-trim lo hi ((k, t) ∷ c) h =
      elim (Bool-cases (ltb rejection_cache_max_entries (length ((k, t) ∷ c)))) [
        | inl large ↦ rw large (weaken lo t hi (trim c) h.0 (IsTimely-trim t hi c h.1))
        | inr fits ↦ rw fits h
      ]

  length-expire : (c : Dict K ℕ) (now : ℕ) → length (expire c now) ≤ length c
  unfolding expire
  length-expire [] now = omega arith
  length-expire ((k, t) ∷ c) now = ground (arith, length-expire c now)

  length-trim : (c : Dict K ℕ) → length (trim c) ≤ rejection_cache_max_entries
  unfolding trim
  length-trim [] = omega arith
  length-trim (e ∷ c) = ground (arith, length-trim c)

  -- The newest entry survives.
  trim_last : (c : Dict K ℕ) (e : K × ℕ) → (d : Dict K ℕ) × (trim (c ++ e ∷ []) ≡ d ++ e ∷ [])
  unfolding trim
  trim_last [] e = ([], refl)
  trim_last (x ∷ c) e =
      elim (Bool-cases (ltb rejection_cache_max_entries (length (x ∷ (c ++ e ∷ []))))) [
        | inl large ↦ let (d, p) = trim_last c e in (d, rw large p)
        | inr fits ↦ (x ∷ c, rw fits refl)
      ]

module _ {K : Type 0} ⦃e : Eq K⦄ where
  length-remove : (k : K) (c : Dict K ℕ) → length (remove k c) ≤ length c
  unfolding remove
  length-remove k [] = omega arith
  length-remove k ((j, t) ∷ c) = ground (arith, length-remove k c)

  length-remove_found :
      (k : K) (c : Dict K ℕ) (t : ℕ) → lookup k c ≡ some t → length (remove k c) < length c
  unfolding lookup remove
  length-remove_found k [] t h = cc
  length-remove_found k ((j, u) ∷ c) t h =
      ground (arith, length-remove k c, length-remove_found k c t)

  IsTimely-remove :
      (lo hi : ℕ) (k : K) (c : Dict K ℕ) → IsTimely lo hi c → IsTimely lo hi (remove k c)
  unfolding remove
  IsTimely-remove lo hi k [] h = h
  IsTimely-remove lo hi k ((j, t) ∷ c) h = elim (Bool-cases (equals j k)) [
    | inl same ↦ rw same (weaken lo t hi (remove k c) h.0 (IsTimely-remove t hi k c h.1))
    | inr other ↦ rw other (h.0, IsTimely-remove t hi k c h.1)
  ]

  -- A cache in order of time with at most 128 entries is so again after `remember`, at any later
  -- time.
  pub remember-IsTimely :
      (c : Dict K ℕ) (key : K) (hi now : ℕ)
      → hi ≤ now
      → IsTimely 0 hi c
      → length c ≤ rejection_cache_max_entries
      → IsTimely 0 now (remember c key now).0
        × (length (remember c key now).0 ≤ rejection_cache_max_entries)
  unfolding remember
  remember-IsTimely c key hi now le timely small =
      let live = expire c now in
      let timely_live = IsTimely-expire 0 hi now c timely in
      elim (Option-cases (lookup key live)) [
        | inl absent ↦
            rw (absent, remember)
              (
                IsTimely-trim 0 now _ (IsTimely-append 0 hi now key live le timely_live),
                length-trim (live ++ (key, now) ∷ []),
              )
        | inr (t, present) ↦
            rw (present, remember)
              (
                IsTimely-append 0 hi now key (remove key live) le
                    (IsTimely-remove 0 hi key live timely_live),
                omega (
                  arith,
                  length-append (remove key live) ((key, now) ∷ []),
                  length-remove_found key live t present,
                  length-expire c now,
                ),
              )
      ]

  lookup-append_last :
      (k : K) (t : ℕ) (c : Dict K ℕ) → (u : ℕ) × (lookup k (c ++ (k, t) ∷ []) ≡ some u)
  unfolding lookup
  lookup-append_last k t [] = (t, rw ((e.beq_iff k k).1 refl) refl)
  lookup-append_last k t ((j, s) ∷ c) = elim (Bool-cases (equals j k)) [
    | inl same ↦ (s, rw same refl)
    | inr other ↦ let (u, p) = lookup-append_last k t c in (u, rw other p)
  ]

  -- An entry that is young enough is found, whatever stands before it.
  expire_keeps :
      (k : K) (t now : ℕ) (c : Dict K ℕ)
      → now < t + rejection_cache_ttl
      → (u : ℕ) × (lookup k (expire (c ++ (k, t) ∷ []) now) ≡ some u)
  unfolding expire lookup
  expire_keeps k t now [] h =
      let live : ltb now (t + rejection_cache_ttl) ≡ true = ground arith in
      (t, rw (live, (e.beq_iff k k).1 refl) refl)
  expire_keeps k t now ((j, s) ∷ c) h = elim (Bool-cases (ltb now (s + rejection_cache_ttl))) [
    | inl live ↦ rw live (lookup-append_last k t ((j, s) ∷ c))
    | inr old ↦ rw old (expire_keeps k t now c h)
  ]

  remember_last :
      (c : Dict K ℕ) (key : K) (now : ℕ)
      → (d : Dict K ℕ) × ((remember c key now).0 ≡ d ++ (key, now) ∷ [])
  unfolding remember
  remember_last c key now = elim (Option-cases (lookup key (expire c now))) [
    | inl absent ↦ rw (absent, remember) (trim_last (expire c now) (key, now))
    | inr (t, present) ↦ rw (present, remember) (remove key (expire c now), refl)
  ]

  -- A key that has just been remembered is known for the whole time to live: a repetition before
  -- that is over is not logged again, however full the cache was.
  pub remember_suppresses :
      (c : Dict K ℕ) (key : K) (now later : ℕ)
      → later < now + rejection_cache_ttl
      → (remember (remember c key now).0 key later).1 ≡ false
  unfolding remember
  remember_suppresses c key now later h =
      let (d, last) = remember_last c key now in
      let (u, found) = expire_keeps key now later d h in rw (last, remember, found) refl
