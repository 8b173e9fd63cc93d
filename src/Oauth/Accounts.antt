-- ===== src/Oauth/Accounts.antt =====
-- Linked accounts and the refresh of tokens in smp-auth-ts/src/services/oauth.service.ts.
use anticipation.Base.{ℕ, String, List, [], ◌∷◌, Bool, true, false, Option, none, some}
use anticipation.Base.Result.{Result}
use anticipation.Base.Exec.{pure, ◌>>=◌, ◌>>◌, try}
use anticipation.Base.JsMap.{map_get}
use anticipation.Redis.Laws.{Redis}
use anticipation.Oauth.State.{
  Tokens, LinkedAccount, Provider, account_linked, account_unlinked, token_refreshed, pair_key, M,
  answer, get_linked, set_linked, delete_linked, set_owner, delete_owner, get_tokens, set_tokens,
  emit,
}
use anticipation.Oauth.{OauthSetup, require_provider, or_hour, present}

abbrev pub push_account : Option LinkedAccount → List LinkedAccount → List LinkedAccount
push_account none accounts = accounts
push_account (some a) accounts = a ∷ accounts

module _ (redis : Redis) (setup : OauthSetup) where
  unfoldable pub link_account : String → String → String → ℕ → M redis Bool
  link_account user provider provider_user now =
      try
        (do
          found ← require_provider redis setup (map_get provider setup.providers)
          set_linked redis (pair_key user provider) (record {
            user_id = user;
            provider = provider;
            provider_user_id = provider_user;
            email = "";
            linked_at = now;
          })
          set_owner redis (pair_key provider provider_user) user
          emit redis (account_linked provider user provider_user)
          pure true)
        (λ e. pure false)

  -- getLinkedAccount: an error gives nothing.
  abbrev pub get_linked_account : String → String → M redis (Option LinkedAccount)
  get_linked_account user provider =
      try (get_linked redis (pair_key user provider)) (λ e. pure none)

  abbrev pub unlink : String → String → Option LinkedAccount → M redis Bool
  unlink user provider none = pure false
  unlink user provider (some account) = do
    delete_linked redis (pair_key user provider)
    delete_owner redis (pair_key provider account.provider_user_id)
    emit redis (account_unlinked provider user account.provider_user_id)
    pure true

  unfoldable pub unlink_account : String → String → M redis Bool
  unlink_account user provider =
      try (get_linked_account user provider >>= unlink user provider) (λ e. pure false)

  unfoldable pub load_accounts : String → List (String × Provider) → M redis (List LinkedAccount)
  load_accounts user [] = pure []
  load_accounts user (p ∷ providers) = do
    found ← get_linked redis (pair_key user p.0)
    rest ← load_accounts user providers
    pure (push_account found rest)

  unfoldable pub get_linked_accounts : String → M redis (List LinkedAccount)
  unfolding load_accounts
  get_linked_accounts user = try (load_accounts user setup.providers) (λ e. pure [])

  abbrev pub refresh_with :
      String → String → (String → Result String Tokens) → Option String → M redis (Option Tokens)
  refresh_with user provider refresh none = pure none
  refresh_with user provider refresh (some token) = do
    tokens ← answer redis (refresh token)
    set_tokens redis (pair_key user provider) tokens (or_hour tokens.expires_in)
    emit redis (token_refreshed provider user tokens.expires_in)
    pure (some tokens)

  abbrev pub stored_refresh : Option Tokens → Option String
  stored_refresh none = none
  stored_refresh (some tokens) = present tokens.refresh_token

  abbrev pub refresh_at :
      String → String → Option (String → Result String Tokens) → M redis (Option Tokens)
  refresh_at user provider none = pure none
  refresh_at user provider (some refresh) = do
    found ← get_tokens redis (pair_key user provider)
    refresh_with user provider refresh (stored_refresh found)

  abbrev pub refresh_of : Option Provider → Option (String → Result String Tokens)
  refresh_of none = none
  refresh_of (some p) = p.refresh

  unfoldable pub refresh_provider_token : String → String → M redis (Option Tokens)
  refresh_provider_token user provider =
      try (refresh_at user provider (refresh_of (map_get provider setup.providers)))
        (λ e. pure none)
