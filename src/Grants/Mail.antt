-- ===== src/Grants/Mail.antt =====
-- The links that ask an approver by mail, and the handlers of the links: authorizations.py.
use seyal_run.Prelude.{
  ℕ, ◌+◌, ◌*◌, String, Bool, false, not, ◌&&◌, ◌||◌, Option, none, some, List, [], ◌∷◌, ◌++◌, ◌==◌,
  leb, if◌then◌else◌, is_some, keep, mem, lookup, insert, Result, ok, err, ◌>>=◌, ◌>>◌, guard,
}
use seyal_run.Rbac.{bypasses_authz}
use seyal_run.Identity.Effective.{effective_roles, users_with_bypass_role}
use seyal_run.Grants.{
  Authorization, Token, System, Account, World, Payload, day, apply, is_admin, actor_of, found,
  entry, commit, is_pending, decided, is_requester,
}

abbrev pub has_email : Account → Bool
has_email u = elim u.email [ none ↦ false | some e ↦ not (e == "") ]

abbrev pub is_user : Option String → String → Bool
is_user none id = false
is_user (some u) id = id == u

unfoldable pub approver_candidates : World → Option String → List Account
unfolding users_with_bypass_role mem
approver_candidates w exclude =
    let bypass = users_with_bypass_role w.tables in
    keep (λ u. u.is_active && (not (is_user exclude u.id) && (has_email u && mem u.id bypass)))
      w.accounts

abbrev pub token_for : World → String → String → String → Token
token_for w authz_id action user_id = record {
  id = (w.drawn user_id action).0;
  authorization_id = authz_id;
  approver_user_id = user_id;
  action = action;
  token_hash = w.digest (w.drawn user_id action).1;
  expires_at = w.now + 7 * day;
  used_at = none;
}

abbrev pub tokens_for : World → String → List Account → List Token
tokens_for w authz_id [] = []
tokens_for w authz_id (u ∷ us) =
    token_for w authz_id "approve" u.id
    ∷ token_for w authz_id "reject" u.id
    ∷ tokens_for w authz_id us

-- `_send_approval_request_emails`, as far as it changes the tables
unfoldable pub send_approval_request_emails : World → String → Authorization → System → System
unfolding approver_candidates
send_approval_request_emails w id a s =
    if w.links_stored
    then record s { tokens = s.tokens ++ tokens_for w id (approver_candidates w a.requested_by) }
    else s

-- What `create_authorization` and `update_authorization` do with the row.
unfoldable pub submit : World → String → String → String → Authorization → System → System
unfolding commit send_approval_request_emails
submit w action actor id a s =
    let s' = commit id a (entry actor action id) s in
    if is_pending a then send_approval_request_emails w id a s' else s'

-- The new row's id is drawn by the database layer.
unfoldable pub create_authorization :
    World → String → Option String → Option String → String → Payload → System → Result ℕ System
unfolding is_admin apply submit
create_authorization w role actor_id actor_role id p s =
    guard (is_admin role) 403
    >> (actor_of actor_id >>= λ actor.
        apply w p actor actor_role >>= λ a. ok (submit w "authorization.create" actor id a s))

unfoldable pub update_authorization :
    World → String → Option String → Option String → String → Payload → System → Result ℕ System
unfolding is_admin apply submit lookup
update_authorization w role actor_id actor_role id p s =
    guard (is_admin role) 403
    >> (actor_of actor_id >>= λ actor. found (lookup id s.rows) >>= λ old.
        apply w p actor actor_role >>= λ a. ok (submit w "authorization.update" actor id a s))

-- The pages of a link that is refused.
pub data LinkError : Type 0 where
  not_found already_used expired no_request already_handled : LinkError
  inactive no_privilege own_request : LinkError

abbrev pub token_with : String → List Token → Result LinkError Token
token_with hash [] = err not_found
token_with hash (t ∷ ts) = if t.token_hash == hash then ok t else token_with hash ts

abbrev pub request_of : Option Authorization → Result LinkError Authorization
request_of none = err no_request
request_of (some a) = ok a

abbrev pub account : String → List Account → Option Account
account id [] = none
account id (u ∷ us) = if u.id == id then some u else account id us

abbrev pub active : Option Account → Result LinkError Account
active none = err inactive
active (some u) = if u.is_active then ok u else err inactive

abbrev pub is_unused : Token → Bool
is_unused t = not (is_some t.used_at)

-- `_validate_email_token`
unfoldable pub validate_email_token :
    World → String → System → Result LinkError (Token × Authorization × Account)
unfolding lookup effective_roles bypasses_authz
validate_email_token w raw s = token_with (w.digest raw) s.tokens >>= λ tok.
    guard (is_unused tok) already_used
    >> (guard (leb w.now tok.expires_at) expired
        >> (request_of (lookup tok.authorization_id s.rows) >>= λ a.
            guard (is_pending a) already_handled
            >> (active (account tok.approver_user_id w.accounts) >>= λ u.
                guard (bypasses_authz (effective_roles w.tables u.id)) no_privilege
                >> (guard (not (is_requester u.id a)) own_request >> ok (tok, a, u)))))

-- The page that `authorization_email_action` shows on GET: the action and the name.
unfoldable pub email_action : World → String → System → Result LinkError (String × String)
unfolding validate_email_token
email_action w raw s = validate_email_token w raw s >>= λ (tok, a, u). ok (tok.action, a.rule.name)

-- The link that was used, and every unused link of the request, are used now.
abbrev pub burn : ℕ → String → String → List Token → List Token
burn now id authz_id [] = []
burn now id authz_id (t ∷ ts) =
    (if t.id == id || t.authorization_id == authz_id && is_unused t
      then record t { used_at = some now }
      else t)
    ∷ burn now id authz_id ts

abbrev pub approves : Token → Bool
approves t = t.action == "approve"

-- `authorization_email_action_confirm`
unfoldable pub confirm : World → String → System → Result LinkError System
unfolding validate_email_token insert
confirm w raw s = validate_email_token w raw s >>= λ (tok, a, u). ok record {
  rows = insert tok.authorization_id (decided w.now (approves tok) u.id a) s.rows;
  tokens = burn w.now tok.id tok.authorization_id s.tokens;
  log =
      entry u.id
        (if approves tok
          then "authorization.approve_via_email"
          else "authorization.reject_via_email")
        tok.authorization_id
      ∷ s.log;
}
