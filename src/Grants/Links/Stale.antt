-- ===== src/Grants/Links/Stale.antt =====
-- Links that are spent, and links that outlive an edit: authorizations.py.
use seyal_run.Prelude.{
  ℕ, String, ◌≡◌, refl, sym, subst, ap, ◌∙◌, ◌≢◌, inl, inr, true, false, ◌&&◌, ◌||◌, Option, some,
  List, [], ◌∷◌, ◌++◌, arith, ◌==◌, eq_iff, eq_refl, if◌then◌else◌, Bool-cases, All, Dict, lookup,
  insert, lookup-insert, ok, guard-eq-ok, ok-injective, bind-eq-ok,
}
use seyal_run.Identity.Authz.{Rule}
use seyal_run.Grants.{
  entry, Authorization, System, World, Payload, Account, Token, apply, submitted, is_exempt,
  is_admin, actor_of, found, decided, rule_of, is_pending, commit,
}
use seyal_run.Grants.Mail.{
  update_authorization, submit, send_approval_request_emails, validate_email_token, confirm,
  token_with, approves, burn, is_unused,
}
use seyal_run.Grants.Links.{IsLive, validated, live-validates}
use seyal_run.Grants.Workflow.Turns.{apply-ok, actor-ok, rows-submit}

-- No link of the request can be used.
abbrev AreSpent : String → List Token → Type 0
AreSpent authz_id tokens =
    All (λ t. t.authorization_id == authz_id ≡ true → is_unused t ≡ false) tokens

burn-AreSpent :
    (now : ℕ) (id authz_id : String) (tokens : List Token)
    → AreSpent authz_id (burn now id authz_id tokens)
burn-AreSpent now id authz_id [] = tt
burn-AreSpent now id authz_id (t ∷ ts) =
    elim (Bool-cases (t.id == id || t.authorization_id == authz_id && is_unused t)) [
      | inl e ↦ rw (e) (λ h. refl, burn-AreSpent now id authz_id ts)
      | inr e ↦ rw (e) (λ h. ground (arith, e, h), burn-AreSpent now id authz_id ts)
    ]

token_with-All :
    (P : Token → Type 0) (hash : String) (tokens : List Token) (t : Token)
    → All P tokens
    → token_with hash tokens ≡ ok t
    → P t
token_with-All P hash [] t h e = cc
token_with-All P hash (u ∷ us) t (p, h) e = elim (Bool-cases (u.token_hash == hash)) [
  | inl g ↦
      subst P (ok-injective (subst (λ b. (if b then ok u else token_with hash us) ≡ ok t) g e)) p
  | inr g ↦
      token_with-All P hash us t h
        (subst (λ b. (if b then ok u else token_with hash us) ≡ ok t) g e)
]

-- Once a link was confirmed, no link of the same request passes the validation of the page or of
-- the confirmation, at any time and whatever became of the row, until new links are stored.
pub confirmed_links_spent :
    (w later : World) (raw raw' : String) (s t : System)
    (link link' : Token × Authorization × Account) (rows : Dict Authorization)
    → validate_email_token w raw s ≡ ok link
    → confirm w raw s ≡ ok t
    → validate_email_token later raw' (record t { rows = rows }) ≡ ok link'
    → link'.0.authorization_id ≢ link.0.authorization_id
unfolding confirm
confirmed_links_spent w later raw raw' s t link link' rows v h v' same =
    let ((tok, a, u), e, h1) = bind-eq-ok (validate_email_token w raw s) _ h in
    let one : tok ≡ link.0 = ap (λ l. l.0) (ok-injective (sym e ∙ v)) in
    let live = validated later raw' (record t { rows = rows }) link' v' in
    let left : burn w.now tok.id tok.authorization_id s.tokens ≡ t.tokens =
      ap (λ t. t.tokens) (ok-injective h1) in
    let spent : AreSpent tok.authorization_id t.tokens =
      subst (AreSpent tok.authorization_id) left
        (burn-AreSpent w.now tok.id tok.authorization_id s.tokens) in
    let stored : token_with (later.digest raw') t.tokens ≡ ok link'.0 = live.is_stored in
    let used = token_with-All _ (later.digest raw') t.tokens link'.0 spent stored in
    let ids : link'.0.authorization_id ≡ tok.authorization_id =
      same ∙ ap (λ t. t.authorization_id) (sym one) in
    let unused : is_unused link'.0 ≡ true = live.is_fresh in
    ground (arith, used, unused, eq_iff link'.0.authorization_id tok.authorization_id, ids)

token_with-append :
    (hash : String) (xs ys : List Token) (t : Token)
    → token_with hash xs ≡ ok t
    → token_with hash (xs ++ ys) ≡ ok t
token_with-append hash [] ys t e = cc
token_with-append hash (u ∷ us) ys t e = elim (Bool-cases (u.token_hash == hash)) [
  | inl g ↦ rw (g) (subst (λ b. (if b then ok u else token_with hash us) ≡ ok t) g e)
  | inr g ↦ rw (g) (
      token_with-append hash us ys t
        (subst (λ b. (if b then ok u else token_with hash us) ≡ ok t) g e))
]

submit-keeps_link :
    (w : World) (action actor id hash : String) (a : Authorization) (s : System) (t : Token)
    → token_with hash s.tokens ≡ ok t
    → token_with hash (submit w action actor id a s).tokens ≡ ok t
unfolding submit commit send_approval_request_emails
submit-keeps_link w action actor id hash a s t e = elim (Bool-cases (is_pending a)) [
  | inr p ↦ rw (p) e
  | inl p ↦ elim (Bool-cases w.links_stored) [
    | inl l ↦ rw (p, l) (token_with-append hash s.tokens _ t e)
    | inr l ↦ rw (p, l) e
  ]
]

lookup-submit :
    (w : World) (action actor id : String) (a : Authorization) (s : System)
    → lookup id (submit w action actor id a s).rows ≡ some a
lookup-submit w action actor id a s =
    rw (rows-submit w action actor id a s, lookup-insert id id a s.rows, eq_refl id) refl

-- The link that acted before an edit by somebody else acts after it.
edited-IsLive :
    (w : World) (raw actor : String) (p : Payload) (s : System)
    (link : Token × Authorization × Account)
    → IsLive w raw s link
    → link.2.id == actor ≡ false
    → IsLive w raw
        (submit w "authorization.update" actor link.0.authorization_id
          (submitted w p actor false)
          s)
        (link.0, submitted w p actor false, link.2)
unfolding rule_of
edited-IsLive w raw actor p s link h n = record {
  is_stored =
      submit-keeps_link w "authorization.update" actor link.0.authorization_id (w.digest raw)
        (submitted w p actor false) s link.0 h.is_stored;
  is_fresh = h.is_fresh;
  in_time = h.in_time;
  is_row =
      lookup-submit w "authorization.update" actor link.0.authorization_id
        (submitted w p actor false) s;
  waits = refl;
  is_account = h.is_account;
  may_approve = h.may_approve;
  is_other = n;
}

-- What confirming a live link leaves.
abbrev pub after_link : World → System → Token × Authorization × Account → System
after_link w s link = record {
  rows = insert link.0.authorization_id (decided w.now (approves link.0) link.2.id link.1) s.rows;
  tokens = burn w.now link.0.id link.0.authorization_id s.tokens;
  log =
      entry link.2.id
        (if approves link.0
          then "authorization.approve_via_email"
          else "authorization.reject_via_email")
        link.0.authorization_id
      ∷ s.log;
}

confirm-live :
    (w : World) (raw : String) (s : System) (link : Token × Authorization × Account)
    → IsLive w raw s link
    → confirm w raw s ≡ ok (after_link w s link)
unfolding confirm
confirm-live w raw s link h = rw (confirm, live-validates w raw s link h) refl

update-accepted :
    (w : World) (role actor : String) (actor_role : Option String) (id : String) (p : Payload)
    (s t : System)
    → is_exempt w actor_role ≡ false
    → update_authorization w role (some actor) actor_role id p s ≡ ok t
    → submit w "authorization.update" actor id (submitted w p actor false) s ≡ t
unfolding update_authorization
update-accepted w role actor actor_role id p s t x h =
    let (_, h1) = guard-eq-ok (is_admin role) 403 _ h in
    let (actor', ea, h2) = bind-eq-ok (actor_of (some actor)) _ h1 in
    let (old, eo, h3) = bind-eq-ok (found (lookup id s.rows)) _ h2 in
    let (a, eb, h4) = bind-eq-ok (apply w p actor' actor_role) _ h3 in
    let who : some actor ≡ some actor' = actor-ok (some actor) actor' ea in
    let who' : actor ≡ actor' = cc in
    let row : submitted w p actor' false ≡ a =
      ap (submitted w p actor') (sym x) ∙ apply-ok w p actor' actor_role a eb in
    ap (λ b. submit w "authorization.update" b id (submitted w p b false) s) who'
    ∙ (ap (λ a. submit w "authorization.update" actor' id a s) row ∙ ok-injective h4)

-- What a link leaves that enables a rule.
abbrev pub Enables : World → String → System → String → Rule → String → Type 0
Enables w raw t id rule approver =
    (done : System) × (a : Authorization) × (confirm w raw t ≡ ok done)
    × (lookup id done.rows ≡ some a)
    × (a.rule ≡ rule)
    × (a.approved_by ≡ some approver)

live-Enables :
    (w : World) (raw actor : String) (p : Payload) (t : System)
    (link : Token × Authorization × Account)
    → IsLive w raw t (link.0, submitted w p actor false, link.2)
    → approves link.0 ≡ true
    → Enables w raw t link.0.authorization_id (rule_of w p true) link.2.id
unfolding rule_of
live-Enables w raw actor p t link h y = (
  after_link w t (link.0, submitted w p actor false, link.2),
  decided w.now true link.2.id (submitted w p actor false),
  confirm-live w raw t (link.0, submitted w p actor false, link.2) h,
  rw (y, lookup-insert, eq_refl) refl,
  refl,
  refl,
)

-- A link that was mailed for one version of a request approves a later one: when somebody who is
-- neither exempt nor the link's approver edits the request, the approving link still acts, and it
-- enables the rule of the new payload, with the approver of the link.
pub stale_link_grants_edit :
    (w : World) (raw role actor : String) (actor_role : Option String) (p : Payload) (s t : System)
    (link : Token × Authorization × Account)
    → validate_email_token w raw s ≡ ok link
    → approves link.0 ≡ true
    → link.2.id == actor ≡ false
    → is_exempt w actor_role ≡ false
    → update_authorization w role (some actor) actor_role link.0.authorization_id p s ≡ ok t
    → Enables w raw t link.0.authorization_id (rule_of w p true) link.2.id
stale_link_grants_edit w raw role actor actor_role p s t link v y n x h =
    let id = link.0.authorization_id in
    let live = edited-IsLive w raw actor p s link (validated w raw s link v) n in
    subst (λ t. Enables w raw t id (rule_of w p true) link.2.id)
      (update-accepted w role actor actor_role id p s t x h)
      (live-Enables w raw actor p
        (submit w "authorization.update" actor id (submitted w p actor false) s) link live y)
