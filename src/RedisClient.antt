-- ===== src/RedisClient.antt =====
-- smp-auth-ts/src/clients/redis.client.ts: what the client builds from the commands of the server,
-- which are in Redis. Whether the connection works during a call is the argument `up`.
pub mod Cache
pub mod Sessions
mod Tests
