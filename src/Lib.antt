-- ===== src/Lib.antt =====
-- The authentication platform: a GraphQL gateway (federation/apollo-gateway) in front of an
-- authentication service (mu-auth), both on a library of clients and services (smp-auth-ts) that
-- talks to a policy server (OPA), Redis and an identity server.
--
-- How the parts interact: the gateway asks smp-auth-ts for permission before it passes an operation
-- on; smp-auth-ts asks the policy server through its client, which keeps decisions for five
-- minutes; second factors and magic links live in Redis; mu-auth checks the data of a registration
-- before it makes an account.
--
-- Which file models which part:
--   Base               Shared names: Base/Lists (tests on numbers, lists), Base/Result (what a call
--                      returns or throws), Base/Exec (async methods as state passing),
--                      Base/JsMap (a JavaScript Map).
--   Redis              The commands of the Redis server as an interface with its documented laws
--                      (Redis/Laws), and a server in memory that meets them (Redis/Memory);
--                      Redis/Expiry adds times to live, with a server in memory whose keys expire. It
--                      is a parameter wherever smp-auth-ts/src/clients/redis.client.ts reaches it.
--   Gateway            federation/apollo-gateway/src/index.ts: isIntrospectionQuery,
--                      isPublicOperation, buildAuthorizationContext, didResolveOperation;
--                      Gateway/Resource is extractResourceInfo. The parsed operation is data;
--                      checkPermission is a parameter, for which Gateway/Composed takes that of
--                      Auth.
--   Mfa                smp-auth-ts/src/services/mfa.service.ts and its types. Mfa/State is the
--                      state in Redis, one keyspace for each key template, and the accesses of the
--                      Redis client; Mfa/Setup, Mfa/Methods, Mfa/Challenges (with
--                      Mfa/Challenges/Verify), Mfa/Backup, Mfa/Devices and Mfa/Resend have the
--                      operations; their child modules what holds of them.
--   MagicLink          smp-auth-ts/src/services/magic-link.service.ts: MagicLink/State is the state in
--                      Redis and the answers of the identity server and the mail service; MagicLink
--                      marks and revokes links, MagicLink/Generate issues and MagicLink/Verify
--                      redeems them; MagicLink/Links, MagicLink/Redemption, MagicLink/Fate,
--                      MagicLink/Over, MagicLink/Quiet and MagicLink/Counting say what a call does to
--                      the links and the counters, MagicLink/SingleUse and MagicLink/Daily what
--                      follows for sequences of calls.
--   Opa                smp-auth-ts/src/clients/opa.client.ts: checkPermission with its cache; Opa
--                      has the state and the operations, Opa/Decision how a response is read,
--                      Opa/Cache the cache, Opa/Runs sequences of calls.
--   RedisClient        smp-auth-ts/src/clients/redis.client.ts: RedisClient/Cache has getCache and
--                      setCache, RedisClient/Sessions the sessions with the index of each user's;
--                      Sessions/Index is the invariant of that index, Sessions/Runs what follows
--                      for sequences of calls.
--   Auth               smp-auth-ts/src/services/auth.service.ts: Auth/State is what it keeps in Redis
--                      and asks of the servers, Auth has tokens, users and logout, Auth/Permission
--                      checkPermissionDetailed; Permission/Evaluation and Permission/Steps say what a
--                      check does, Permission/Checks, Permission/Traces, Permission/Provenance and
--                      Permission/Fresh where a permission comes from, Auth/Logout what a logout
--                      ends. It uses RedisClient and the client of Opa.
--   Extended           smp-auth-ts/src/services/auth-extended.service.ts: loginWithMFA (Extended/Login,
--                      with Extended/Stored) and completeMFALogin (Extended/Completion), on the
--                      state of Auth and that of Mfa together.
--   Oauth              smp-auth-ts/src/services/oauth.service.ts: Oauth/State is the state in Redis and
--                      the answers of providers and identity server, Oauth the authorization and
--                      its callback, Oauth/Accounts the linked accounts; Oauth/Keeps,
--                      Oauth/Callback, Oauth/Redeem and Oauth/Consumption say what a callback needs
--                      and changes, Oauth/SingleUse what follows for sequences of calls,
--                      Oauth/Lifetime how long a state lasts, Oauth/Race what two callbacks at the
--                      same time may do, Oauth/Linking what
--                      linking and unlinking do.
--   SessionCookie      mu-auth/src/session/session.service.ts, in SessionCookie/Controller also
--                      session.controller.ts and guards/session.guard.ts; SessionCookie/Laws says
--                      what a cookie counts as, SessionCookie/Renewals how long a session lasts,
--                      SessionCookie/Access who gets and keeps one.
--   Validation         mu-auth/src/auth/services/user-registration-validation.service.ts: the rules
--                      for passwords, user names and emails (Password, Username, Email, with their
--                      regular expressions as functions over Text) and for the whole input
--                      (Registration).
--
-- Conventions: a method that reads and writes Redis is a function of the state, and what was
-- written before a throw stays written. The clock, random codes and fresh identifiers are arguments
-- of each call. Times are milliseconds. Whether the connection to Redis works is a field of the
-- state, fixed during a call. Texts are strings where they are only compared, and lists of code
-- units where they are walked. All loops are structural recursion, so nothing runs on fuel.
-- Between two calls any key may be gone; only where a statement says how long something lasts does a
-- key live exactly for its time to live (Redis/Expiry).
--
-- Parameters, for code that is not in the repository: the Redis server, the answers of the policy
-- server, of the identity server and of the mail service, toLowerCase with the Unicode tables,
-- SHA-256, MD5 and base64 of a key, the cipher of cookies, and the check of time-based codes (otplib).
-- The gateway takes checkPermission of the authentication service as a function; Gateway/Composed puts
-- that of Auth there, and leaves a request without a token, a resource, its type or an action to a
-- parameter.
--
-- Not modelled: the other controllers, resolvers and transfer objects (glue), the identity server's and
-- the database's clients (remote calls), the sending of mails, configuration, mu-organization, and the
-- policies; the stored flows and loginWithOptions of auth-extended.service.ts, the log of decisions
-- with its indices and the remaining commands of the Redis client have no model yet.
pub mod Base
pub mod Mfa
pub mod Opa
pub mod Validation
pub mod Redis
pub mod Extended
pub mod Gateway
pub mod MagicLink
pub mod RedisClient
pub mod SessionCookie
pub mod Auth
pub mod Oauth
