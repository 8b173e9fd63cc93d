-- ===== src/Redis.antt =====
-- What the services of smp-auth-ts rely on of the Redis server, which is no part of the repository.
-- The keys that one template such as `mfa:method:${id}` makes form a keyspace, named by what
-- stands in the template's hole; templates of the program differ in their fixed parts, so a
-- command on one keyspace leaves the others alone. A stored text is the value that JSON.stringify
-- was given and that JSON.parse gives back.
pub mod Laws
pub mod Memory
pub mod Expiry
