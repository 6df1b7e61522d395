-- ===== src/Common/Texts.antt =====
-- JavaScript's strings: template literals, `join`, `includes`, and the host's functions on them.
use Prim.Native.Nat.{ℕ, ◌-◌}
use Prim.Native.String
use Prim.Native.String.{String}
use mathlib.Core.Bool.{Bool}
use mathlib.Core.List.{List, [], ◌∷◌}
use text.Mathlib.Text.{find?}
use jean_bot.Common.Tests.{if◌then◌else◌, is_some, leb}

-- A template literal, by its parts.
abbrev pub template : List String → String
template [] = ""
template (s ∷ ss) = String.◌++◌ s (template ss)

abbrev join_after : String → List String → String
join_after separator [] = ""
join_after separator (s ∷ ss) = String.◌++◌ separator (String.◌++◌ s (join_after separator ss))

-- `ss.join(separator)`.
abbrev pub join : String → List String → String
join separator [] = ""
join separator (s ∷ ss) = String.◌++◌ s (join_after separator ss)

-- `text.includes(part)`.
abbrev pub contains : String → String → Bool
contains text part = is_some (find? text part)

-- What the host's strings do: `toLowerCase`, `replace(/\s+/g, " ")`, `trim`, `length` in UTF-16
-- units, and `slice(0, n)`.
pub record JsText : Type 0 where
  pub to_lower : String → String
  pub collapse : String → String
  pub trim : String → String
  pub length : String → ℕ
  pub take : ℕ → String → String

-- `summarizeText` of the executor's files.
unfoldable pub summarize_text : JsText → String → ℕ → String
summarize_text js value max_length =
    let normalized = js.trim (js.collapse value) in
    if leb (js.length normalized) max_length
    then normalized
    else template (js.take (max_length - 3) normalized ∷ "..." ∷ [])
