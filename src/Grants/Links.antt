-- ===== src/Grants/Links.antt =====
-- What a link must satisfy to act: _validate_email_token of authorizations.py.
use seyal_run.Prelude.{
  not-true, ℕ, zero, suc, ◌+◌, ◌-◌, ◌*◌, ◌/◌, ◌≤◌, ◌<◌, min, max, String, ◌≡◌, refl, sym, subst, ap,
  fun_ext, ◌∙◌, ◌≢◌, ◌↔◌, ◌⊎◌, inl, inr, Bool, true, false, not, ◌&&◌, ◌||◌, false≢true, Option,
  none, some, List, [], ◌∷◌, ◌++◌, map, arith, ◌==◌, eq_iff, eq_refl, ltb, leb, eqb, if◌then◌else◌,
  ltb→lt, leb→le, Bool-cases, Option-cases, is_some, or_else, and_true, or_true, length, drop, any,
  all, keep, null, length-append, length-drop, any-append, All, All-keep, any_mono, mem,
  after_prefix, strip, lower_is, first_segment, ends_with, strip_slashes, codes, upper_code,
  mem-append, mem-cons_self, keep_nil, all_of_mem, mem-keep, any_of_mem, Dict, lookup, insert,
  erase, keys, lookup-insert, lookup-erase, dict_laws, All-insert, Result, ok, err, ◌>>=◌, ◌>>◌,
  guard, guard-eq-ok, ok-injective, bind-eq-ok, Result-cases,
}
use seyal_run.Rbac.{bypasses_authz}
use seyal_run.Identity.Effective.{effective_roles}
use seyal_run.Grants.{Authorization, System, World, Account, Token, is_pending, is_requester}
use seyal_run.Grants.Mail.{
  LinkError, already_used, expired, already_handled, no_privilege, own_request, is_unused,
  request_of, validate_email_token, active, account, token_with,
}
pub mod Stale

-- The conditions under which a link acts, on the link, the request and the approver.
pub record IsLive (w : World) (raw : String) (s : System) (link : Token × Authorization × Account)
    : Type 0 where
  pub is_stored : token_with (w.digest raw) s.tokens ≡ ok link.0
  pub is_fresh : is_unused link.0 ≡ true
  pub in_time : leb w.now link.0.expires_at ≡ true
  pub is_row : lookup link.0.authorization_id s.rows ≡ some link.1
  pub waits : is_pending link.1 ≡ true
  pub is_account : active (account link.0.approver_user_id w.accounts) ≡ ok link.2
  pub may_approve : bypasses_authz (effective_roles w.tables link.2.id) ≡ true
  pub is_other : is_requester link.2.id link.1 ≡ false

request-ok : (o : Option Authorization) (a : Authorization) → request_of o ≡ ok a → o ≡ some a
request-ok none a h = cc
request-ok (some b) a h = cc

pub validated :
    (w : World) (raw : String) (s : System) (link : Token × Authorization × Account)
    → validate_email_token w raw s ≡ ok link
    → IsLive w raw s link
unfolding validate_email_token
validated w raw s link v =
    let (tok, et, v1) = bind-eq-ok (token_with (w.digest raw) s.tokens) _ v in
    let (p, v2) = guard-eq-ok (is_unused tok) already_used _ v1 in
    let (q, v3) = guard-eq-ok (leb w.now tok.expires_at) expired _ v2 in
    let (a, ea, v4) = bind-eq-ok (request_of (lookup tok.authorization_id s.rows)) _ v3 in
    let (r, v5) = guard-eq-ok (is_pending a) already_handled _ v4 in
    let (u, eu, v6) = bind-eq-ok (active (account tok.approver_user_id w.accounts)) _ v5 in
    let (b, v7) = guard-eq-ok (bypasses_authz (effective_roles w.tables u.id)) no_privilege _ v6 in
    let (n, v8) = guard-eq-ok (not (is_requester u.id a)) own_request _ v7 in
    subst (IsLive w raw s) (ok-injective v8) record {
      is_stored = et;
      is_fresh = p;
      in_time = q;
      is_row = request-ok _ a ea;
      waits = r;
      is_account = eu;
      may_approve = b;
      is_other = not-true _ n;
    }

-- The conditions are enough.
pub live-validates :
    (w : World) (raw : String) (s : System) (link : Token × Authorization × Account)
    → IsLive w raw s link
    → validate_email_token w raw s ≡ ok link
unfolding validate_email_token
live-validates w raw s (tok, a, u) h =
    rw
      (
        validate_email_token, h.is_stored, h.is_fresh, h.in_time, h.is_row, h.waits, h.is_account,
        h.may_approve, h.is_other,
      )
      refl
