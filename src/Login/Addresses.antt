-- ===== src/Login/Addresses.antt =====
-- ip_login_allowed of grouppolicy.py: the addresses from which an account may log in.
use seyal_run.Prelude.{◌≡◌, true, not, ◌&&◌, List, null, All}
use seyal_run.Login.{User, World, matches_any_cidr, Group}

-- The address matches every restriction that is on for the account and has entries.
abbrev pub MatchesOwn : World → User → Type 0
MatchesOwn w u =
    (u.ip_restriction_enabled && not (null u.allowed_ips)) ≡ true
    → matches_any_cidr w w.client_ip u.allowed_ips ≡ true

abbrev pub MatchesGroups : World → List Group → Type 0
MatchesGroups w groups =
    All
      (λ g.
        (g.ip_restriction_enabled && not (null g.cidrs)) ≡ true
        → matches_any_cidr w w.client_ip g.cidrs ≡ true)
      groups
