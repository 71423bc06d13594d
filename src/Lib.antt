-- ===== src/Lib.antt =====
-- Glasir Control is the control plane in front of Glasir Core: it signs callers in, decides which trees
-- they may reach, forwards their requests to the tree's backend, and keeps the rights, the policy
-- proposals and the audit log. This library models its decisions and proves what makes them correct.
--
-- The parts, and the files that model them:
--
--   Prelude, Text, HashMap   what the Rust standard library gives: Results (Result), Lists, Text (a str
--              is the list of its code points, with lines, trim, split, UTF-8), HashMap (an
--              association list of distinct keys).
--   FileCache  what Tokens and Watched keep of a file, behind its modification time.
--   Rights     src/rights.rs. Rights and its queries (tree, may, may_with_groups, roles_for,
--              may_tool_with_groups, admin_scope, …); Rights/Parse is `parse`, as a list of directives
--              that are applied in order; Rights/Restrict is `restricted_to`; Rights/Scope is
--              `scoped_text` and `compose`, the view and the edit of a tenant's administrator;
--              Rights/Validate is `validate_text`; Rights/Review is `access_review`;
--              Rights/Watched the rights that are in force.
--   Security   src/security.rs: the comparison of secrets, url_decode, the names that may become a
--              path or a principal, and the check against request smuggling.
--   Proxy      src/proxy.rs: tree_of, route, the head of the request to a backend, and the status of
--              its reply, with `forward` (Proxy/Reply).
--   Auth       src/auth.rs: the token file (Entry::parse, read, identify), the cache of
--              Tokens, and the report on the file, `validate_text`.
--   Crypto     src/auth.rs (sha256) and src/sync.rs (hmac_sha256, and the signatures of webhooks).
--   Crossrepo  src/crossrepo.rs: the requests of one tree that reach a route of another.
--   Sync       src/sync.rs: the mapping of repositories to trees; Sync/Payload, what a webhook of GitHub
--              or GitLab asks for; Sync/Mutate, what that makes of the rights file; Sync/Events, the
--              pull and merge requests; Sync/Reconcile, the members that the code hosts list. Grants,
--              Kept, Written and Rewrite have the lemmas on the map of grants, on the lines that stay,
--              on the lines that are written and on the names in them, which Applied puts together.
--   Json       serde_json::Value and the accessors that the program calls.
--   Audit      src/audit.rs. Audit is format_jsonl and escape_json; Audit/Log the segments on disk:
--              write_record, rotation, verify, recent, append_remote_event; Audit/Queue the bounded
--              queue and the writer thread as a machine whose actions are submitting a record and
--              writing one; Audit/Escaping, Line, Chain and Verify have the proofs.
--   Http       src/main.rs: `handle` as a function from the configuration, the moment (clock, limiter,
--              files), the request and the policy's store to the answer, the store behind it, and the
--              audit records. Http/Console, Admin, Surfaces, Review, Provider and Webhooks are the
--              handlers, Http/Guards is what comes before them, and Http/Handler puts them together in
--              the order of the source; Endings, Dispatch and Paths are the case distinctions that the
--              proofs in Changes, Requests (sequences of requests), Answers, Denials, Reach and
--              Isolation use; Codes reads the status code off an answer as a client does.
--   Policy     src/policy.rs: proposals of a new rights file, their approval by a second
--              administrator, and what each administrator sees (View, Listing, with the order of the list in Ordering).
--
-- How they interact. `route` asks the Rights that `parse` builds from the rights file. A tenant's
-- administrator edits that file through Policy: `create` composes their lines with the active file,
-- and `approve` installs the composed file; Rights/Scope says what that may change. Names that come
-- from outside pass the tests of Security first. The signatures of webhooks are compared by Security's
-- constant_time_eq, and Policy names the file that a proposal was made against by its SHA-256.
-- `handle` calls all of them: it identifies the caller through Auth, asks Rights for the scope, lets
-- Policy create and approve, applies the actions of Sync to the rights file, routes through Proxy, and
-- hands a Record to Audit. The rights that a request sees are those that `cfg.rights.current()` gives
-- at its start, a field of the moment, and need not be the store's.
--
-- Bounds and fuel. A u32 of SHA-256 is a number below 2 ^ 32, every addition and rotation is reduced
-- modulo 2 ^ 32, and the length in bits modulo 2 ^ 64. The padding loop has 64 rounds of fuel, which
-- is enough since the length modulo 64 goes round in 64 steps. Printing a number n has n + 1 rounds,
-- since each divides it by ten. The queue of the audit log holds 2048 records, the counter of dropped
-- ones wraps modulo 2 ^ 64, and a segment is rotated at 10 MiB. Of a code host's list at most 1000
-- pages are read, as in the source, and more of them is an error. All other functions recurse on the
-- structure of their input.
--
-- What is not modelled. The files and sockets are not: a function that reads a file is modelled on the
-- text that it read, and an error of reading or writing has no counterpart, except that a missing file
-- is a missing entry. serde_json, jsonwebtoken, rustls and the system clock are code of others:
-- serde_json's parser (`from_str`, `from_slice`) and printer (`to_string`), `String::from_utf8_lossy`
-- (`lossy`), the verification of an OIDC token, the connection to a backend (`exchange`) and the posts
-- to the code hosts (`post_check`, `post_status`) with the pages of members that these answer
-- (`github_page`, `gitlab_page`) are parameters, and a remote collector's answer is part of the
-- writer's action. The headers of an answer are left out, and so is a failure to write it. A HashMap's
-- order is not observed: the program sorts, collects or asks for membership. The rate limiter counts
-- in floating point. Reading a request from the socket, the start of the service in main.rs (options,
-- threads), the audit ingest listener, backend_tls.rs and the OIDC sign-in of auth.rs are outside of
-- this library. The service handles each connection in a thread of its own; `serve` takes the requests
-- one after the other, as if each handler's reading and change of the store were one step.
pub mod Prelude
pub mod Text
pub mod HashMap
pub mod FileCache
pub mod Rights
pub mod Security
pub mod Proxy
pub mod Crypto
pub mod Policy
pub mod Auth
pub mod Crossrepo
pub mod Sync
pub mod Json
pub mod Audit
pub mod Http
