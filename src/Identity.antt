-- ===== src/Identity.antt =====
-- internal/identity/identity.go and internal/cloud/cloud.go: the identity of an agent and its host.
pub mod Resolved
mod Tests
use observe_agent.Base.{
  ◌-◌, String, Bool, false, not, ◌&&◌, ◌||◌, Option, none, some, str_eq, ltb, leb, ◌==◌,
  if◌then◌else◌, slice, starts_with, len, any_char, all_chars, is_break,
}

pub record Evidence : Type 0 where
  pub verified : Bool
  pub provider : String
  pub platform : String
  pub account : String
  pub region : String
  pub availability_zone : String
  pub instance_id : String
  pub instance_type : String
  pub resource_id : String

abbrev pub no_evidence : Evidence
no_evidence = record {
  verified = false;
  provider = "";
  platform = "";
  account = "";
  region = "";
  availability_zone = "";
  instance_id = "";
  instance_type = "";
  resource_id = "";
}

pub record Identity : Type 0 where
  pub agent_id : String
  pub host_id : String
  pub cloud : Evidence

pub data Resolution : Type 0 where
  resolved : Identity → Resolution
  bad_configured no_identity : Resolution

-- `instanceID`: ^i-([0-9a-f]{8}|[0-9a-f]{17})$
unfoldable pub is_instance_id : String → Bool
is_instance_id s =
    starts_with s "i-"
    && all_chars (λ c. (leb 48 c && leb c 57) || (leb 97 c && leb c 102)) (slice s 2 (len s))
    && (len s == 10 || len s == 19)

-- `safe`
unfoldable pub is_safe : String → Bool
is_safe s = ltb 0 (len s) && leb (len s) 256 && not (any_char is_break s)

unfoldable pub is_instance : Evidence → Bool
is_instance e =
    e.verified
    && str_eq e.provider "aws"
    && str_eq e.platform "aws_ec2"
    && is_instance_id e.instance_id

-- The machine identifier as the host's, if it can be read and is safe. `trim` is strings.TrimSpace.
unfoldable pub machine_host : (String → String) → Option String → String
machine_host trim none = ""
machine_host trim (some value) = let v = trim value in if is_safe v then v else ""

-- The end of `Resolve`.
unfoldable pub named : String → String → Evidence → Resolution
named configured host evidence =
    let agent = if str_eq configured "" then host else configured in
    if str_eq agent ""
    then no_identity
    else resolved (record { agent_id = agent; host_id = host; cloud = evidence })

-- `Resolve`; `machine` is what the reader gives, `none` also without a reader.
unfoldable pub resolve : (String → String) → String → Evidence → Option String → Resolution
resolve trim text evidence machine =
    let configured = trim text in
    if not (str_eq configured "") && not (is_safe configured)
    then bad_configured
    else if is_instance evidence
    then named configured evidence.instance_id evidence
    else named configured (machine_host trim machine) no_evidence

-- `RequireHost`
unfoldable pub has_host : Identity → Bool
has_host r = not (str_eq r.host_id "")
