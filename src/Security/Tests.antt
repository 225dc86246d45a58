-- ===== src/Security/Tests.antt =====
-- A credential, and the theorems of internal/security at it.
use observe_agent.Base.{◌≡◌, refl, false, none, some}
use observe_agent.Security.{Credential, authorization, header_of, value_of, is_key, trim_prefix}

abbrev inline_key : Credential
inline_key = record { inline = "ApiKey abc"; env = ""; file = "" }

inline_header : authorization (λ _. "") (λ _. none) (λ s. s) false inline_key ≡ some "ApiKey abc"
unfolding authorization header_of value_of is_key trim_prefix
inline_header = refl

angle_refused :
    authorization
      (λ _. "")
      (λ _. none)
      (λ s. s)
      false
      (record { inline = "<key>"; env = ""; file = "" })
    ≡ none
unfolding authorization header_of value_of is_key trim_prefix
angle_refused = refl
