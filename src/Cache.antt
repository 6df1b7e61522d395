-- ===== src/Cache.antt =====
-- packages/cache/src/index.ts: the TTL cache and the local side of the rate limiter. A `Map` is a
-- function; the clock's reading is an argument, in milliseconds.
pub mod Expiry
pub mod Windows
use jean_bot.Common.{
  ℕ, ◌+◌, ◌-◌, String, Bool, true, false, Option, none, some, List, [], ◌∷◌, ◌++◌, if◌then◌else◌,
  ltb, leb, ◌==◌, string_eq, length, filter, or_default, template,
}

-- `map.set(key, …)`, and with `none` `map.delete(key)`.
abbrev pub put {ℓ} : {A : Type ℓ} → (String → Option A) → String → Option A → String → Option A
put map key entry other = if key == other then entry else map other

pub record CacheEntry {ℓ} (T : Type ℓ) : Type ℓ where
  pub expires_at : ℕ
  pub value : T

module _ {ℓ} {T : Type ℓ} where
  unfoldable pub set :
      (String → Option (CacheEntry T)) → String → T → ℕ → ℕ → String → Option (CacheEntry T)
  set store key value ttl_ms now =
      put store key (some (record { expires_at = now + ttl_ms; value = value }))

  -- An entry that has expired is dropped where it is read.
  unfoldable pub read_entry :
      (String → Option (CacheEntry T))
      → String
      → ℕ
      → Option (CacheEntry T)
      → (String → Option (CacheEntry T)) × Option T
  read_entry store key now none = (store, none)
  read_entry store key now (some entry) =
      if ltb entry.expires_at now then (put store key none, none) else (store, some entry.value)

  unfoldable pub get :
      (String → Option (CacheEntry T)) → String → ℕ → (String → Option (CacheEntry T)) × Option T
  unfolding read_entry
  get store key now = read_entry store key now (store key)

  unfoldable pub delete : (String → Option (CacheEntry T)) → String → String → Option (CacheEntry T)
  delete store key = put store key none

pub record SlidingWindowLimit : Type 0 where
  pub limit : ℕ
  pub window_ms : ℕ
  pub segment : Option String

-- No `retryAfterMs` is negative, so it is a natural number.
pub record SlidingWindowDecision : Type 0 where
  pub allowed : Bool
  pub identifier : String
  pub limit : ℕ
  pub remaining : ℕ
  pub reset_at : ℕ
  pub retry_after_ms : ℕ

unfoldable pub key_for : String → String → SlidingWindowLimit → String
key_for prefix identifier limit =
    template (prefix ∷ ":" ∷ or_default limit.segment "default" ∷ ":" ∷ identifier ∷ [])

abbrev pub head_or : List ℕ → ℕ → ℕ
head_or [] now = now
head_or (t ∷ ts) now = t

abbrev pub at_least_one : ℕ → ℕ
at_least_one n = if leb n 1 then 1 else n

-- The times in the window: `value > now - windowMs`, written without a negative number.
unfoldable pub in_window : ℕ → ℕ → List ℕ → List ℕ
in_window window_ms now times = filter (λ t. ltb now (t + window_ms)) times

-- `localConsume` on the window of its key.
unfoldable pub consume_window :
    String → SlidingWindowLimit → ℕ → List ℕ → List ℕ × SlidingWindowDecision
unfolding in_window
consume_window identifier limit now times =
    let existing = in_window limit.window_ms now times in
    let pushed = existing ++ now ∷ [] in
    let refused : List ℕ × SlidingWindowDecision = (
      existing,
      record {
        allowed = false;
        identifier = identifier;
        limit = limit.limit;
        remaining = 0;
        reset_at = head_or existing now + limit.window_ms;
        retry_after_ms = at_least_one (head_or existing now + limit.window_ms - now);
      },
    ) in
    let granted : List ℕ × SlidingWindowDecision = (
      pushed,
      record {
        allowed = true;
        identifier = identifier;
        limit = limit.limit;
        remaining = limit.limit - length pushed;
        reset_at = head_or pushed now + limit.window_ms;
        retry_after_ms = 0;
      },
    ) in
    if leb limit.limit (length existing) then refused else granted

unfoldable pub local_consume :
    String
    → String
    → SlidingWindowLimit
    → ℕ
    → (String → Option (List ℕ))
    → (String → Option (List ℕ)) × SlidingWindowDecision
unfolding key_for consume_window
local_consume prefix identifier limit now windows =
    let key = key_for prefix identifier limit in
    let after = consume_window identifier limit now (or_default (windows key) []) in
    (put windows key (some after.0), after.1)
