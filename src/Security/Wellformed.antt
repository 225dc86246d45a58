-- ===== src/Security/Wellformed.antt =====
-- internal/security/credential.go: the headers that credentials give.
use observe_agent.Base.{
  ℕ, ◌+◌, ◌≤◌, ◌<◌, String, ◌≡◌, refl, subst, inl, inr, Bool, true, false, not, ◌&&◌, ◌||◌, Option,
  none, some, arith, str_eq, ltb, leb, ◌==◌, if◌then◌else◌, Bool-cases, len-nonzero, text_append,
  len, any_char, all_chars,
}
use text.Mathlib.TextPositions.{starts_with-append, slice-append_right, len-append}
use observe_agent.Security.{
  Credential, authorization, header_of, value_of, is_key, is_header, prefix, trim_prefix,
  is_blank_or_break,
}

header_test :
    (n : ℕ) (blank : Bool)
    → 0 < n
    → n ≤ 4089
    → blank ≡ false
    → not (leb (7 + n) 7 || ltb 4096 (7 + n) || blank) ≡ true
header_test n blank some_key short e = ground arith

key_parts :
    (k : String)
    → is_key k ≡ true
    → (str_eq k "" ≡ false) × (len k ≤ 4089) × (any_char is_blank_or_break k ≡ false)
unfolding is_key
key_parts k h =
    go (all_chars (λ c. leb 33 c && leb c 126) k) (str_eq k "") (ltb 4089 (len k))
      (any_char is_blank_or_break k) (any_char (λ c. c == 60 || c == 62) k) refl h
  where
    go :
        (a b l c d : Bool)
        → ltb 4089 (len k) ≡ l
        → (a && not (b || l || c) && not d) ≡ true
        → (b ≡ false) × (len k ≤ 4089) × (c ≡ false)
    go a b true c d e x = ground arith
    go a b false c d e x = ground arith

-- What a key and its prefix make passes the test of a full header.
key_header : (k : String) → is_key k ≡ true → is_header (text_append prefix k) ≡ true
unfolding is_header
key_header k h =
    let p = key_parts k h in
    rw (starts_with-append prefix k, len-append prefix k, slice-append_right prefix k)
      (header_test (len k) (any_char is_blank_or_break k) (len-nonzero k p.0) p.1 p.2)

-- A header that a credential gives passes the test that a request makes of it, so that a request
-- never fails on a header that the agent made itself.
pub authorization-is_header :
    (getenv : String → String) (read_file : String → Option String) (trim : String → String)
    (ended : Bool) (c : Credential) (header : String)
    → authorization getenv read_file trim ended c ≡ some header
    → is_header header ≡ true
unfolding authorization header_of
authorization-is_header getenv read_file trim true c header h = cc
authorization-is_header getenv read_file trim false c header h =
    go (value_of getenv read_file trim c) h
  where
    keyed :
        (k : String)
        → (if is_key k then some (text_append prefix k) else none) ≡ some header
        → is_header header ≡ true
    keyed k x = elim (Bool-cases (is_key k)) [
      | inl e ↦ subst (λ v. is_header v ≡ true) (made (rw e at x)) (key_header k e)
      | inr e ↦ cc (rw e at x)
    ]
      where
        made : some (text_append prefix k) ≡ some header → text_append prefix k ≡ header
        made y = cc

    go : (o : Option String) → header_of o ≡ some header → is_header header ≡ true
    go none x = cc
    go (some v) x = keyed (trim_prefix v) x
