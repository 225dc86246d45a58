-- ===== src/Queue/Scope/Tests.antt =====
-- The hashes of a scope.
use observe_agent.Base.{ap, inr, ◌≢◌, String, ◌≡◌, refl, none, some, List, [], ◌∷◌, text_append}
use observe_agent.Queue.Scope.{
  Scope, Hashing, hash_with, hash_injective, metrics, is_identified, bad_value, metrics_prefix,
  hash, logs_hash,
}

abbrev joined : List String → String
joined [] = ""
joined (v ∷ vs) = text_append v (text_append "," (joined vs))

-- Texts are their own digests.
abbrev open_hashing : Hashing
open_hashing = record { digest = λ s. s; marshal = joined; trim_space = λ s. s }

abbrev owner : Scope
owner = record { backend_id = "b"; organization_id = "o"; host_id = "h"; account = ""; region = "" }

owner_hashed : hash open_hashing owner ≡ some (text_append metrics_prefix "b,o,h,,,")
unfolding hash_with is_identified bad_value
owner_hashed = refl

no_host : logs_hash open_hashing (record owner { host_id = "" }) ≡ none
unfolding hash_with is_identified bad_value
no_host = refl

-- Another region.
abbrev moved : Scope
moved = record owner { region = "r" }

moved_hashed : hash open_hashing moved ≡ some (text_append metrics_prefix "b,o,h,,r,")
unfolding hash_with is_identified bad_value
moved_hashed = refl

moved_differs : owner ≢ moved
moved_differs e = cc (ap (λ (s : Scope). s.region) e)

hash_injective_example :
    text_append metrics_prefix "b,o,h,,," ≢ text_append metrics_prefix "b,o,h,,r,"
hash_injective_example =
    hash_injective open_hashing metrics metrics owner moved (text_append metrics_prefix "b,o,h,,,")
      (text_append metrics_prefix "b,o,h,,r,") (λ e. e) (λ e. cc e) owner_hashed moved_hashed
      (inr moved_differs)
