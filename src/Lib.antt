-- ===== src/Lib.antt =====
-- A model of the core of a platform that turns sales calls into customer stories and landing
-- pages: who may do what in an organization, how a landing page gets published, how use is
-- limited, how AI providers are called, how the setup of an organization proceeds, how two
-- accounts become one, which calls a merged transcript has, and what the public sees of a landing
-- page.
--
-- The parts and the files that model them; paths are from the repository's root, and a child
-- module Laws, or one named for what it proves, holds the theorems on its parent:
--
-- Common: comparisons, equality, lists and the result of a call that may throw (`await` is a bind,
--   `try`/`catch` is `catch`).
-- Access: `Roles` and `Schema` are the enumerations and rows of prisma/schema.prisma;
--   `RoleProfiles` and `Assignments` are src/services/role-profiles.ts, `Accounts` is
--   src/services/account-access.ts, `Policy` src/services/policy-engine.ts and `Middleware`
--   src/middleware/permissions.ts. The guards ask the policy engine, which asks the role profiles
--   and the account grants.
-- Publishing: `Eligibility` and `NamedStories` are src/services/landing-page-approval.ts, with
--   `canReviewPublishApprovals` of src/api/landing-page/publish-routes.ts. `Review` is the review
--   handler of src/api/landing-page/publish-routes-approvals.ts: `Handler` follows it part by
--   part, down from `review`, and returns its effects in order; `Invariant` has the reviews of a
--   request one after another. The other route that reviews the same requests, in
--   src/api/lifecycle-queue-routes.ts, is not modelled, and the publish route makes its requests
--   without steps.
-- Limits: `TokenBucket` is src/services/rate-limiter.ts, with its clock and its timer as events;
--   `HttpWindow` is src/middleware/rate-limiter.ts; `Usage` is src/services/ai-usage-logic.ts.
-- Ai: `Breaker` is src/services/ai-resilience.ts without Redis: the circuit of each key and the
--   loop of `chatCompletion`, which calls its providers as arguments.
-- Setup: `Wizard` is src/services/setup-wizard.ts on the database of one organization;
--   `Wizard.Status` is its `getStatus`, and `Wizard.Steps` has the operations one after another.
-- Merging: src/services/account-merge.ts. `Database` has the tables that a merge touches and the
--   writes that the database may refuse, `Merge` is `executeMerge` and `Undo` is `undoMerge`;
--   `Moves`, `Effect`, `Contacts` and `Passing` follow a merge step by step, and `Mergeable` says
--   which accounts can be merged. The calls are those of `Setup` and the grants those of `Access`.
-- Pages: `Editor` is the publication of a page in src/services/landing-page-editor.ts with
--   src/services/landing-page-editor-helpers.ts, `Changes` its other operations and the rollback
--   of src/services/landing-page-editor-admin.ts, `Public` what the public gets and
--   src/services/scheduled-page-publish.ts. `Viewers` and `Shown` say who gets which texts.
--   `Route` is the publish route of src/api/landing-page/publish-routes.ts with
--   src/services/publish-approval-policy.ts, behind the guards of `Access`, on its role profiles
--   and the governance of `Publishing`, and `Publishers` says who may publish by it. `Reach` has
--   the operations in any order, and an update is a read and a later write, so that other requests
--   may come between.
-- Transcripts: src/services/transcript-merger.ts, the choice of the calls that are merged.
-- Lifecycle: src/services/lifecycle-stage.ts with src/services/lifecycle-stage-service.ts, the
--   stage of a story or page from its approvals.
--
-- A function has the name of the source's in snake_case; what stands between two early returns of
-- a long function has a name of its own, and a comment says from where on it runs. The database is
-- a state, in Setup, Merging and Pages, or an argument, each query a function into a result, so
-- that it can throw; all other code outside is an argument. A clock reading is an argument `now`.
-- All numbers that the modelled code reads are counts, limits and times in milliseconds, at most 2
-- ^ 53 in the source, and are natural numbers here; a difference that may be below 0 is said where
-- it stands. Every loop runs over a list or a count of attempts and is structural, so nothing
-- needs fuel.
--
-- The review handler's writes succeed here, one after another; the setup wizard's and the pages'
-- fail where a row is missing, with what was written before left in place; a merge and its undoing
-- are each a transaction. The scrubber of a company's name, the search for names it left, the
-- checks of a text before it is published and the hash of a password are the arguments `Texts` of
-- `Pages`.
--
-- Not modelled: logging, telemetry and message texts; Redis and Prisma; the other routes, the
-- workers, the integrations with call recorders and CRMs, prompts and model output, and the web
-- client.
pub mod Common
pub mod Access
pub mod Publishing
pub mod Limits
pub mod Ai
pub mod Setup
pub mod Merging
pub mod Pages
pub mod Transcripts
pub mod Lifecycle
