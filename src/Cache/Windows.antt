-- ===== src/Cache/Windows.antt =====
-- The rate limiter's promise, for any sequence of requests: never more than the limit in a window.
use jean_bot.Common.{
  ℕ, ◌+◌, ◌≤◌, ◌≡◌, refl, sym, ap, ◌∙◌, String, Bool, true, false, List, [], ◌∷◌, ◌++◌, arith,
  if◌then◌else◌, ltb, leb, if-cases, length, filter, length-append, length-filter-le,
}
use mathlib.Core.List.{append-nil}
use jean_bot.Cache.{SlidingWindowLimit, SlidingWindowDecision, in_window, consume_window}

-- The clock does not run backwards: the times ascend from `start`.
abbrev pub IsAscending : ℕ → List ℕ → Type 0
IsAscending start [] = Unit
IsAscending start (t ∷ ts) = (start ≤ t) × IsAscending t ts

abbrev pub last_of : ℕ → List ℕ → ℕ
last_of start [] = start
last_of start (t ∷ ts) = last_of t ts

filter-append : (p : ℕ → Bool) (xs ys : List ℕ) → filter p (xs ++ ys) ≡ filter p xs ++ filter p ys
filter-append p [] ys = refl
filter-append p (x ∷ xs) ys = ground (arith, filter-append p xs ys)

in_window-narrow :
    (w now later : ℕ) (times : List ℕ)
    → now ≤ later
    → in_window w later (in_window w now times) ≡ in_window w later times
unfolding in_window
in_window-narrow w now later [] h = refl
in_window-narrow w now later (t ∷ ts) h = ground (arith, in_window-narrow w now later ts h)

in_window-append :
    (w now : ℕ) (xs ys : List ℕ)
    → in_window w now (xs ++ ys) ≡ in_window w now xs ++ in_window w now ys
unfolding in_window
in_window-append w now xs ys = filter-append (λ t. ltb now (t + w)) xs ys

length-in_window : (w now : ℕ) (xs : List ℕ) → length (in_window w now xs) ≤ length xs
unfolding in_window
length-in_window w now xs = length-filter-le (λ t. ltb now (t + w)) xs

module _ (identifier : String) (limit : SlidingWindowLimit) where
  abbrev answer : ℕ → List ℕ → SlidingWindowDecision
  answer now times = (consume_window identifier limit now times).1

  -- The times of the requests that were granted so far, whether in the window or before it.
  unfoldable pub granted : List ℕ → List ℕ → List ℕ → List ℕ
  granted history times [] = history
  granted history times (now ∷ later) =
      granted (if (answer now times).allowed then history ++ now ∷ [] else history)
        (consume_window identifier limit now times).0 later

  consume-cases :
      (now : ℕ) (times : List ℕ)
      → length times ≤ limit.limit
      → ((consume_window identifier limit now times).0
          ≡ in_window limit.window_ms now times
            ++ (if (answer now times).allowed then now ∷ [] else []))
        × (length (consume_window identifier limit now times).0 ≤ limit.limit)
  unfolding consume_window
  consume-cases now times h =
      let existing = in_window limit.window_ms now times in
      let shorter = length-in_window limit.window_ms now times in
      if-cases
        (λ (r : List ℕ × SlidingWindowDecision).
          (r.0 ≡ existing ++ (if r.1.allowed then now ∷ [] else [])) × (length r.0 ≤ limit.limit))
        (leb limit.limit (length existing))
        (λ full. (sym (append-nil existing), omega (arith, shorter, h)))
        (λ free. (refl, ground (arith, free, length-append existing (now ∷ []))))

  -- The window and the history show the same times to every later request.
  SameRecent : ℕ → List ℕ → List ℕ → Type 0
  SameRecent now times history =
      (later : ℕ)
      → now ≤ later
      → in_window limit.window_ms later times ≡ in_window limit.window_ms later history

  history-if :
      (b : Bool) (now : ℕ) (history : List ℕ)
      → (if b then history ++ now ∷ [] else history) ≡ history ++ (if b then now ∷ [] else [])
  history-if true now history = refl
  history-if false now history = sym (append-nil history)

  consume-SameRecent :
      (start now : ℕ) (times history : List ℕ)
      → length times ≤ limit.limit
      → start ≤ now
      → SameRecent start times history
      → SameRecent now
          (consume_window identifier limit now times).0
          (if (answer now times).allowed then history ++ now ∷ [] else history)
  unfolding SameRecent
  consume-SameRecent start now times history h ordered same later k =
      let w = limit.window_ms in
      let new = if (answer now times).allowed then now ∷ [] else [] in
      ap (in_window w later) (consume-cases now times h).0
      ∙ in_window-append w later (in_window w now times) new
      ∙ ap (λ l. l ++ in_window w later new)
          (in_window-narrow w now later times k ∙ same later (omega (arith, ordered, k)))
      ∙ sym (in_window-append w later history new)
      ∙ ap (in_window w later) (sym (history-if (answer now times).allowed now history))

  granted-recent :
      (start now : ℕ) (requests times history : List ℕ)
      → IsAscending start requests
      → last_of start requests ≤ now
      → length times ≤ limit.limit
      → SameRecent start times history
      → length (in_window limit.window_ms now (granted history times requests)) ≤ limit.limit
  unfolding granted SameRecent
  granted-recent start now [] times history up h few same =
      rw (sym (same now h)) (omega (arith, length-in_window limit.window_ms now times, few))
  granted-recent start now (t ∷ ts) times history up h few same =
      granted-recent t now ts (consume_window identifier limit t times).0
        (if (answer t times).allowed then history ++ t ∷ [] else history) up.1 h
        (consume-cases t times few).1 (consume-SameRecent start t times history few up.0 same)

  -- Of requests that come in the order of the clock, those that were granted in the window that
  -- ends at any time after the last of them are no more than the limit.
  pub granted-bounds :
      (requests : List ℕ) (now : ℕ)
      → IsAscending 0 requests
      → last_of 0 requests ≤ now
      → length (in_window limit.window_ms now (granted [] [] requests)) ≤ limit.limit
  unfolding SameRecent
  granted-bounds requests now up h =
      granted-recent 0 now requests [] [] up h (omega arith) (λ later k. refl)
