-- ===== src/Identity/Tests.antt =====
-- The identity of an instance.
use observe_agent.Base.{◌≡◌, refl, true, none}
use observe_agent.Identity.{
  Evidence, no_identity, resolve, named, is_safe, is_instance, is_instance_id, machine_host,
  no_evidence,
}

abbrev ec2 : Evidence
ec2 = record no_evidence {
  verified = true;
  provider = "aws";
  platform = "aws_ec2";
  instance_id = "i-0123abcd";
}

nothing_known : resolve (λ s. s) "" no_evidence none ≡ no_identity
unfolding resolve named is_safe is_instance is_instance_id machine_host
nothing_known = refl
