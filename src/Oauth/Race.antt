-- ===== src/Oauth/Race.antt =====
-- Two callbacks of smp-auth-ts/src/services/oauth.service.ts at the same time.
use anticipation.Redis.Laws.{Redis}
