-- ===== src/Queue/Scope.antt =====
-- internal/queue/scope.go: the identity of a queue's owner, and its hashes.
-- sha256 with its hexadecimal text and json.Marshal of a list of texts are parameters.
mod Tests
use observe_agent.Base.{
  refl, ◌≢◌, ◌⊎◌, ◌-◌, String, ◌≡◌, sym, ap, ◌∙◌, inl, inr, Bool, true, false, not, ◌&&◌, ◌||◌,
  Option, none, some, List, [], ◌∷◌, str_eq, ltb, if◌then◌else◌, Bool-cases, slice, text_append,
  len, any_char, is_break,
}
use text.Mathlib.TextLemmas.{append_assoc}
use text.Mathlib.TextPositions.{slice-append_left, slice-append_right, len-append}

pub record Scope : Type 0 where
  pub backend_id : String
  pub organization_id : String
  pub host_id : String
  pub account : String
  pub region : String

pub record Hashing : Type 0 where
  pub digest : String → String
  pub marshal : List String → String
  pub trim_space : String → String

abbrev pub values : Scope → List String
values s = s.backend_id ∷ s.organization_id ∷ s.host_id ∷ s.account ∷ s.region ∷ []

-- The test of a value; the first three must not be blank.
unfoldable pub bad_value : (String → String) → Bool → String → Bool
bad_value trim required v =
    ltb 256 (len v) || any_char is_break v || (required && str_eq (trim v) "")

unfoldable pub is_identified : Hashing → Scope → Bool
is_identified h s = not (
    bad_value h.trim_space true s.backend_id
    || bad_value h.trim_space true s.organization_id
    || bad_value h.trim_space true s.host_id
    || bad_value h.trim_space false s.account
    || bad_value h.trim_space false s.region)

-- `Hash` and `LogsHash`, by their prefix.
unfoldable pub hash_with : Hashing → String → Scope → Option String
hash_with h prefix s =
    if is_identified h s then some (h.digest (text_append prefix (h.marshal (values s)))) else none

abbrev pub metrics_prefix : String
metrics_prefix = "observe-metrics-scope-v2\0"

abbrev pub logs_prefix : String
logs_prefix = "observe-logs-scope-v2\0"

-- The two namespaces of hashes.
pub data Namespace : Type 0 where
  metrics logs : Namespace

abbrev pub prefix_of : Namespace → String
prefix_of metrics = metrics_prefix
prefix_of logs = logs_prefix

abbrev pub hash : Hashing → Scope → Option String
hash h s = hash_with h metrics_prefix s

abbrev pub logs_hash : Hashing → Scope → Option String
logs_hash h s = hash_with h logs_prefix s

-- `legacyHash`
abbrev pub legacy_hash : Hashing → String → Scope → String
legacy_hash h endpoint s = h.digest (
    text_append endpoint (
      text_append "\0" (
        text_append s.host_id
          (text_append "\0" (text_append s.account (text_append "\0" s.region))))))

text_append-cancel : (p a b : String) → text_append p a ≡ text_append p b → a ≡ b
text_append-cancel p a b e =
    sym (slice-append_right p a)
    ∙ ap (λ n. slice (text_append p a) (len p) n) (sym (len-append p a))
    ∙ ap (λ t. slice t (len p) (len t)) e
    ∙ ap (λ n. slice (text_append p b) (len p) n) (len-append p b)
    ∙ slice-append_right p b

hash_parts :
    (h : Hashing) (prefix : String) (s : Scope) (x : String)
    → hash_with h prefix s ≡ some x
    → (is_identified h s ≡ true) × (h.digest (text_append prefix (h.marshal (values s))) ≡ x)
unfolding hash_with
hash_parts h prefix s x e = elim (Bool-cases (is_identified h s)) [
  | inl b ↦ (b, inj (rw b at e))
  | inr b ↦ cc (rw b at e)
]
  where
    inj : {y : String} → some y ≡ some x → y ≡ x
    inj z = cc

slice-append_assoc : (s t u : String) → slice (text_append (text_append s t) u) 0 (len s) ≡ s
slice-append_assoc s t u =
    ap (λ v. slice v 0 (len s)) (append_assoc s t u) ∙ slice-append_left s (text_append t u)

-- The prefixes differ in their ninth byte.
prefixes_apart : (a b : String) → text_append metrics_prefix a ≡ text_append logs_prefix b → ⊥
prefixes_apart a b e = differ (
    sym (slice-append_assoc "observe-m" "etrics-scope-v2\0" a)
    ∙ ap (λ v. slice v 0 9) e
    ∙ slice-append_assoc "observe-l" "ogs-scope-v2\0" b)
  where
    differ : ◌≡◌ {A = String} "observe-m" "observe-l" → ⊥
    differ x = let t : true ≡ false = ap (λ v. str_eq v "observe-m") x in cc

same_namespace :
    (n m : Namespace) (a b : String)
    → text_append (prefix_of n) a ≡ text_append (prefix_of m) b
    → n ≡ m
same_namespace metrics metrics a b e = refl
same_namespace logs logs a b e = refl
same_namespace metrics logs a b e = absurd (prefixes_apart a b e)
same_namespace logs metrics a b e = absurd (prefixes_apart b a (sym e))

-- The scope of a list of five values.
abbrev of_values : List String → Scope
of_values (b ∷ o ∷ h ∷ a ∷ r ∷ []) = record {
  backend_id = b;
  organization_id = o;
  host_id = h;
  account = a;
  region = r;
}
of_values _ = record {
  backend_id = "";
  organization_id = "";
  host_id = "";
  account = "";
  region = "";
}

values_injective : (s t : Scope) → values s ≡ values t → s ≡ t
values_injective s t e = ap of_values e

-- The text of a scope, behind its namespace.
abbrev pub hashed_text : Hashing → Namespace → Scope → String
hashed_text h n s = text_append (prefix_of n) (h.marshal (values s))

-- If the digest does not collide on the two texts that are hashed, and json.Marshal does not on the
-- two lists of values, then the hashes of two scopes, in the namespaces of the metrics or the logs,
-- differ if the namespaces differ or if the scopes differ in any of their five members.
pub hash_injective :
    (h : Hashing) (n m : Namespace) (s t : Scope) (x y : String)
    → (h.digest (hashed_text h n s) ≡ h.digest (hashed_text h m t)
        → hashed_text h n s ≡ hashed_text h m t)
    → (h.marshal (values s) ≡ h.marshal (values t) → values s ≡ values t)
    → hash_with h (prefix_of n) s ≡ some x
    → hash_with h (prefix_of m) t ≡ some y
    → ((n ≢ m) ⊎ (s ≢ t))
    → x ≢ y
hash_injective h n m s t x y no_collision injective e f apart same =
    let text =
      no_collision
        ((hash_parts h (prefix_of n) s x e).1 ∙ same ∙ sym (hash_parts h (prefix_of m) t y f).1) in
    let one = same_namespace n m (h.marshal (values s)) (h.marshal (values t)) text in
    elim apart [
      | inl other ↦ other one
      | inr other ↦ other (
          values_injective s t (
            injective (
              text_append-cancel (prefix_of n) (h.marshal (values s)) (h.marshal (values t))
                (text ∙ ap (λ k. text_append (prefix_of k) (h.marshal (values t))) (sym one)))))
    ]
