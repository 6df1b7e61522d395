-- ===== src/Cache/Expiry.antt =====
-- What the TTL cache gives back.
use jean_bot.Common.{
  ℕ, ◌+◌, ◌≤◌, ◌<◌, ◌≡◌, refl, ap, ◌∙◌, String, true, false, Option, none, some, arith, ltb,
  string_eq, beq_refl,
}
use jean_bot.Cache.{CacheEntry, set, get, read_entry, put}

module _ {T : Type 0} (key : String) where
  put-same :
      (store : String → Option (CacheEntry T)) (e : Option (CacheEntry T)) → put store key e key ≡ e
  put-same store e = rw (beq_refl key) refl

  get-none :
      (store : String → Option (CacheEntry T)) (now : ℕ)
      → store key ≡ none
      → (get store key now).1 ≡ none
  unfolding get read_entry
  get-none store now h = ap (λ e. (read_entry store key now e).1) h

  get-live :
      (store : String → Option (CacheEntry T)) (now : ℕ) (e : CacheEntry T)
      → store key ≡ some e
      → now ≤ e.expires_at
      → (get store key now).1 ≡ some e.value
  unfolding get read_entry
  get-live store now e h live =
      let fresh : ltb e.expires_at now ≡ false = ground (arith, live) in
      ap (λ x. (read_entry store key now x).1) h ∙ rw fresh refl

  get-dead :
      (store : String → Option (CacheEntry T)) (now : ℕ) (e : CacheEntry T)
      → store key ≡ some e
      → e.expires_at < now
      → ((get store key now).1 ≡ none) × ((get store key now).0 key ≡ none)
  unfolding get read_entry
  get-dead store now e h old =
      let stale : ltb e.expires_at now ≡ true = ground (arith, old) in
      (
        ap (λ x. (read_entry store key now x).1) h ∙ rw stale refl,
        ap (λ x. (read_entry store key now x).0 key) h ∙ rw stale (put-same store none),
      )

  -- A value that was set is read until its time to live is over, and then no more: neither at the
  -- first reading after that nor, as that one drops it, at a second reading by any clock.
  pub get-set :
      (store : String → Option (CacheEntry T)) (value : T) (ttl start now : ℕ)
      → (now ≤ start + ttl → (get (set store key value ttl start) key now).1 ≡ some value)
        × (start + ttl < now
            → ((get (set store key value ttl start) key now).1 ≡ none)
              × ((again : ℕ)
                  → (get (get (set store key value ttl start) key now).0 key again).1 ≡ none))
  unfolding set
  get-set store value ttl start now =
      let e : CacheEntry T = record { expires_at = start + ttl; value = value } in
      let stored = set store key value ttl start in
      let here = put-same store (some e) in
      (
        λ fresh. get-live stored now e here fresh,
        λ old. (
          (get-dead stored now e here old).0,
          λ again. get-none (get stored key now).0 again (get-dead stored now e here old).1,
        ),
      )
