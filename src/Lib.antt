-- ===== src/Lib.antt =====
-- SeyalRun, a platform for privileged access and automation: Python services behind a gateway.
--
-- The parts and how they interact. A browser or an API client speaks to the gateway only. The
-- gateway resolves the caller from a Redis session or a token, checks the request against the
-- caller's roles and scopes, and proxies it with identity headers that the services trust. The
-- identity service writes the sessions, keeps the audit chain and the login lockout, and
-- resolves which user may do what on which host. It opens sessions for passwords and for other
-- identity providers, keeps accounts, roles and groups, and has each authorization approved by a
-- second administrator. The Zabbix service takes signed events and hands the playbooks that are
-- bound to them to the automation service. The automation service starts job runs by hand, by
-- webhook and by schedule, holds those that need an approver, and executes the others.
--
-- Where each part is modelled, with the source it follows:
-- Prelude and its children: helpers on numbers, lists, texts, dicts and results.
-- Rbac: core/libs/rbaccore/__init__.py. A permission document is a record of its keys.
--   Merge is about merge_roles, Capability about what the built-in documents grant.
-- Scopes: core/libs/apiscopes/__init__.py; Confinement is about the scopes of agents.
-- Sessions: create_session and elevate of core/services/identity-service/app/sessions.py,
--   lookup_session of core/services/api-gateway/app/security.py, and auth_logout of its main.py,
--   as functions on the state of a Redis. The Redis is a record of GET, SET EX and DEL with the
--   laws that Redis documents for them; Sessions/Tests.antt has an instance. Lifetime and Single
--   are about one session and about one session per user.
-- Gateway/Access: core/services/api-gateway/app/rbac.py; its children are about the roles and
--   about the paths.
-- Gateway/Resolve: resolve_identity, _live_roles and verify_pat of security.py there, over the
--   answers of the identity service.
-- Gateway/Admission: the catch-all route `gateway` of main.py there, each check in its order.
-- Gateway/Proxy: proxy.py there; Headers is about the identity headers.
-- Audit: core/libs/audithash/__init__.py, audit_payload and log_action of
--   core/services/identity-service/app/audit.py, and /audit/verify of api/audit.py there, which
--   computes the payloads anew from the columns; Chain is about the written chain.
-- Identity/Lockout: core/services/identity-service/app/_lockout.py, the table as a dict;
--   Counting is about failures in a row.
-- Identity/Authz: the authorization rules of core/services/identity-service/app/api/internal.py;
--   Best is about the rules of the best rank, Sweep about the expiry sweep.
-- Identity/LoginAcl: login_acls_check of the same file; Laws is about the rule that decides.
-- Identity/Effective: rbacresolve.py there, on the link tables as rows; Bulk is about its bulk
--   query.
-- Grants: api/authorizations.py there, the request and the decision of an authorization, with
--   require_admin of deps.py. Mail has the links by mail and the handlers that send them; Workflow
--   has all of them as steps of one system, and the phases that an authorization takes; Refine,
--   FourEyes and Links are about the phases, the two people and the links.
-- Login: api/auth.py there, with _pwpolicy.py, grouppolicy.py and plugins/idp. Otp has the mailed
--   codes over a Redis as a record, Mint the one place that opens sessions, Provider the identity
--   providers, Password the ways to log in, Mfa the handlers of the second factor. Budget, Gate,
--   Access and Addresses are about the codes, the second factor, who is let in, and from where.
-- Accounts: api/users.py there. Handlers has the changes of the directory, Guards what they keep.
-- Zabbix: core/services/zabbix-integration-service/app/api/webhook.py, over a Redis as a record;
--   Replay is about repeated requests, with the Redis steps of others in between; Chunks has the
--   packing of the output.
-- Terminal: the typed input of core/services/terminal-service/app/ws/terminal.py and its command
--   filters. Tty has the line editing of the shell's side, a record of what a printed character, a
--   newline and Ctrl-U do; Lines is about the lines that it enters.
-- Automation: core/services/automation-service/app/_params.py; Params is about its allowlist.
-- Automation/Runs: api/job_runs.py, _concurrency.py and _production_gate.py there.
-- Automation/Dispatch: run_template of api/job_templates.py, create_run_internal of
--   api/internal.py and one schedule of scheduler.py there; Gate is about when they start a
--   run, Code about the script that they hand over.
-- Automation/Runner: runner.py and integration_state.py there. An executor is a function from the
--   number of an attempt to what it prints and how it ends; Attempts and Execute are about the
--   retries and about the row of a run.
-- Automation/Chain: plugins/executors/chain.py there; Order is about the steps that it reaches.
-- Automation/Approval: the handlers and the runner as a step relation on the rows and the tasks,
--   in any order; Handlers, Safety and Roles are about the runs that wait.
-- Each part has a module Tests with runs at concrete inputs.
--
-- Bounds. One loop runs on fuel: split_long of Zabbix/Chunks takes 1900 characters off a line in
-- each turn, and the length of the line is enough. The retry loop of the runner recurses on the
-- attempts that are left, of which max(1, retry_count + 1) is the number in the source; every
-- other loop recurses on its list. Numbers are natural: times are seconds or microseconds since
-- the epoch, and Python's integers do not overflow.
--
-- Not modelled: the hashes, bcrypt, pyotp, `ipaddress`, HMAC, the Redis servers, the replies of
-- other services, the line editing of a shell, what a database column keeps of a time, `str`,
-- regular expressions and shell quoting are parameters. HTTP, websockets,
-- SSH, SQL sessions and their transactions are not modelled: a handler runs on the rows as a
-- whole, and concurrency is the order of handlers and runner steps. Sets of ids are lists read
-- by membership. The cron arithmetic, notifications, listing endpoints, templates' editing, the
-- credential vault, the rest of the terminal service, recordings, metrics, the import of users
-- from Zabbix, the post-back of results and the wording of pages and mails are left out.
pub mod Prelude
pub mod Rbac
pub mod Scopes
pub mod Audit
pub mod Sessions
pub mod Gateway
pub mod Identity
pub mod Grants
pub mod Login
pub mod Accounts
pub mod Terminal
pub mod Zabbix
pub mod Automation
