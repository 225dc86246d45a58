-- ===== src/Sender/Request.antt =====
-- internal/exporter/exporter.go: `Request`, the building of a request.
use observe_agent.Base.{
  ℕ, zero, suc, ◌-◌, ◌≤◌, String, ◌≡◌, refl, sym, ap, ◌∙◌, inl, inr, Bool, true, false, not, ◌||◌,
  Option, none, some, [], ◌∷◌, arith, str_eq, ltb, if◌then◌else◌, Option-cases, length, take, Bytes,
  slice, text_append, len, ℤ, pos, negsuc,
}
use Prim.Native.String.{slice}
use observe_agent.Policy
use observe_agent.Policy.{Capability, is_on}
use observe_agent.Config
use observe_agent.Config.{Library, Config}
use observe_agent.Config.Validate.{validate_config, authorization_env}
use observe_agent.Security.{is_header}

pub record HttpRequest : Type 0 where
  pub url : String
  pub authorization : String
  pub body : Bytes

pub data RequestError : Type 0 where
  bad_config bad_signal disabled no_payload bad_payload no_secrets : RequestError
  no_authorization bad_authorization not_built : RequestError

pub data Built : Type 0 where
  request_of : HttpRequest → Built
  refused : RequestError → Built

-- A limit after the validation, which refuses the negative ones.
abbrev pub limit_of : ℤ → ℕ
limit_of (pos n) = n
limit_of (negsuc n) = 0

-- strings.TrimSuffix(s, "/")
abbrev pub trim_slash : String → String
trim_slash s = if str_eq (slice s (len s - 1) (len s)) "/" then slice s 0 (len s - 1) else s

abbrev pub is_signal : Capability → Bool
is_signal c = str_eq c Policy.metrics || str_eq c Policy.logs || str_eq c Policy.traces

-- What `Request` meets: the JSON test of encoding/json, a failed read of the body, the secrets by
-- the name of a variable, and whether http.NewRequest takes the URL.
pub record Means : Type 0 where
  pub json_valid : Bytes → Bool
  pub read_fails : Bool
  pub secrets : Option (String → Option String)
  pub takes_url : Bool

module _ (lib : Library) (m : Means) (c : Config) (signal : Capability) where
  abbrev pub limit : ℕ
  limit = limit_of c.limits.request_bytes

  -- The end of `Request`, from the test of the header on.
  unfoldable pub authorize : Bytes → String → Built
  authorize raw auth =
      if not (is_header auth)
      then refused bad_authorization
      else if not m.takes_url
      then refused not_built
      else request_of (record {
        url = text_append (trim_slash c.exporter.endpoint) (text_append "/v1/" signal);
        authorization = auth;
        body = raw;
      })

  unfoldable pub with_secrets : Bytes → Option (String → Option String) → Built
  with_secrets raw none = refused no_secrets
  with_secrets raw (some provider) = elim (provider (authorization_env c.exporter)) [
    | none ↦ refused no_authorization
    | some auth ↦ authorize raw auth
  ]

  unfoldable pub with_body : Option Bytes → Built
  with_body none = refused no_payload
  with_body (some body) =
      let raw = take (suc limit) body in
      if m.read_fails || ltb limit (length raw) || not (m.json_valid raw)
      then refused bad_payload
      else with_secrets raw m.secrets

  -- `Request`
  unfoldable pub request : Option Bytes → Built
  request body =
      let rest = with_body body in
      elim (validate_config lib c) [
        | some e ↦ refused bad_config
        | none ↦
            if not (is_signal signal)
            then refused bad_signal
            else if is_on c.policy signal
            then rest
            else refused disabled
      ]

  -- A request that was built carries the whole payload, which is within the limit and valid, and a
  -- well-formed header; the configuration is valid and its policy enables the signal.
  pub record Carries (body : Bytes) (r : HttpRequest) : Type 0 where
    pub config : validate_config lib c ≡ none
    pub signal_known : is_signal signal ≡ true
    pub enabled : is_on c.policy signal ≡ true
    pub whole : r.body ≡ body
    pub bounded : length body ≤ limit
    pub valid : m.json_valid body ≡ true
    pub header : is_header r.authorization ≡ true

  authorized :
      (raw : Bytes) (auth : String) (r : HttpRequest)
      → authorize raw auth ≡ request_of r
      → (r.body ≡ raw) × (r.authorization ≡ auth) × (is_header auth ≡ true)
  unfolding authorize
  authorized raw auth r h = go (is_header auth) m.takes_url refl h
    where
      inj : (q : HttpRequest) → request_of q ≡ request_of r → q ≡ r
      inj q x = cc

      go :
          (b t : Bool)
          → is_header auth ≡ b
          → (if not b
              then refused bad_authorization
              else if not t
              then refused not_built
              else request_of (record {
                url = text_append (trim_slash c.exporter.endpoint) (text_append "/v1/" signal);
                authorization = auth;
                body = raw;
              }))
            ≡ request_of r
          → (r.body ≡ raw) × (r.authorization ≡ auth) × (is_header auth ≡ true)
      go false t e x = cc
      go true false e x = cc
      go true true e x =
          let same = inj _ x in
          (
            sym (ap (λ (q : HttpRequest). q.body) same),
            sym (ap (λ (q : HttpRequest). q.authorization) same),
            e,
          )

  secrets_authorized :
      (raw : Bytes) (p : Option (String → Option String)) (r : HttpRequest)
      → with_secrets raw p ≡ request_of r
      → (r.body ≡ raw) × (is_header r.authorization ≡ true)
  unfolding with_secrets
  secrets_authorized raw none r h = cc
  secrets_authorized raw (some provider) r h =
      elim (Option-cases (provider (authorization_env c.exporter))) [
        | inl e ↦ cc (rw e at h)
        | inr (auth, e) ↦ let a = authorized raw auth r (rw e at h) in (a.0, rw a.1 a.2)
      ]

  take_whole : (n : ℕ) (b : Bytes) → ltb n (length (take (suc n) b)) ≡ false → take (suc n) b ≡ b
  take_whole n [] h = refl
  take_whole zero (x ∷ b) h = ground arith
  take_whole (suc n) (x ∷ b) h = ap (λ r. x ∷ r) (take_whole n b (ground arith))

  body_carried :
      (body : Bytes) (r : HttpRequest)
      → with_body (some body) ≡ request_of r
      → (r.body ≡ body)
        × (length body ≤ limit)
        × (m.json_valid body ≡ true)
        × (is_header r.authorization ≡ true)
  unfolding with_body
  body_carried body r h =
      go m.read_fails (ltb limit (length (take (suc limit) body)))
        (m.json_valid (take (suc limit) body)) refl refl h
    where
      go :
          (f long v : Bool)
          → ltb limit (length (take (suc limit) body)) ≡ long
          → m.json_valid (take (suc limit) body) ≡ v
          → (if f || long || not v
              then refused bad_payload
              else with_secrets (take (suc limit) body) m.secrets)
            ≡ request_of r
          → (r.body ≡ body)
            × (length body ≤ limit)
            × (m.json_valid body ≡ true)
            × (is_header r.authorization ≡ true)
      go true long v e e' x = cc
      go false true v e e' x = cc
      go false false false e e' x = cc
      go false false true e e' x =
          let (b, a) = secrets_authorized (take (suc limit) body) m.secrets r x in
          let whole = take_whole limit body e in
          (b ∙ whole, fits (rw whole at e), rw whole at e', a)
        where
          fits : ltb limit (length body) ≡ false → length body ≤ limit
          fits y = ground arith

  request_parts :
      (body : Option Bytes) (r : HttpRequest)
      → request body ≡ request_of r
      → (validate_config lib c ≡ none)
        × (is_signal signal ≡ true)
        × (is_on c.policy signal ≡ true)
        × (with_body body ≡ request_of r)
  unfolding request
  request_parts body r h = go (validate_config lib c) (is_signal signal) (is_on c.policy signal) h
    where
      go :
          (o : Option Config.Error) (k on : Bool)
          → (elim o [
            | some e ↦ refused bad_config
            | none ↦
                if not k
                then refused bad_signal
                else if on
                then with_body body
                else refused disabled
          ])
            ≡ request_of r
          → (o ≡ none) × (k ≡ true) × (on ≡ true) × (with_body body ≡ request_of r)
      go (some e) k on x = cc
      go none false on x = cc
      go none true false x = cc
      go none true true x = (refl, refl, refl, x)

  -- A request that is built carries the whole payload, within the limit and valid, and a well-formed
  -- header; its configuration is valid, and the policy enables its signal.
  pub request-Carries :
      (body : Bytes) (r : HttpRequest) → request (some body) ≡ request_of r → Carries body r
  request-Carries body r h =
      let p = request_parts (some body) r h in
      let b = body_carried body r p.3 in
      record {
        config = p.0;
        signal_known = p.1;
        enabled = p.2;
        whole = b.0;
        bounded = b.1;
        valid = b.2;
        header = b.3;
      }
