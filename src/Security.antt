-- ===== src/Security.antt =====
-- internal/security: the authorization header of a request, from the environment or a credential.
-- The environment and the reading of a private file are parameters: `none` is a file that cannot be
-- opened or read, or that is too long.
pub mod Wellformed
mod Tests
use observe_agent.Base.{
  ℕ, String, Bool, not, ◌&&◌, ◌||◌, Option, none, some, str_eq, ltb, leb, ◌==◌, if◌then◌else◌,
  slice, text_append, starts_with, len, any_char, all_chars, is_break,
}

abbrev pub is_blank_or_break : ℕ → Bool
is_blank_or_break c = c == 32 || c == 9 || is_break c

abbrev pub prefix : String
prefix = "ApiKey "

-- strings.TrimPrefix for the prefix.
unfoldable pub trim_prefix : String → String
trim_prefix v = if starts_with v prefix then slice v 7 (len v) else v

-- The test of a full header, in `Environment.Authorization` and in exporter.Request.
unfoldable pub is_header : String → Bool
is_header v = not (
    not (starts_with v prefix)
    || leb (len v) 7
    || ltb 4096 (len v)
    || any_char is_blank_or_break (slice v 7 (len v)))

-- `Environment.Authorization`; `value` is the variable's.
unfoldable pub from_environment : Bool → String → Option String
from_environment ended value = if ended then none else if is_header value then some value else none

-- `Credential`
pub record Credential : Type 0 where
  pub inline : String
  pub env : String
  pub file : String

-- The value that a credential refers to; `trim` is strings.TrimSpace.
unfoldable pub value_of :
    (String → String) → (String → Option String) → (String → String) → Credential → Option String
value_of getenv read_file trim c =
    if not (str_eq c.env "")
    then some (getenv c.env)
    else if not (str_eq c.file "")
    then elim (read_file c.file) [ none ↦ none | some v ↦ some (trim v) ]
    else some c.inline

-- The tests of the key, behind its prefix.
unfoldable pub is_key : String → Bool
is_key v =
    all_chars (λ c. leb 33 c && leb c 126) v
    && not (str_eq v "" || ltb 4089 (len v) || any_char is_blank_or_break v)
    && not (any_char (λ c. c == 60 || c == 62) v)

unfoldable pub header_of : Option String → Option String
header_of none = none
header_of (some v) =
    let key = trim_prefix v in if is_key key then some (text_append prefix key) else none

-- `Credential.Authorization`
unfoldable pub authorization :
    (String → String)
    → (String → Option String)
    → (String → String)
    → Bool
    → Credential
    → Option String
authorization getenv read_file trim ended c =
    if ended then none else header_of (value_of getenv read_file trim c)
