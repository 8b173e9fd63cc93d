-- ===== src/Oauth/Tests.antt =====
-- Runs of the OAuth service, on a Redis server in memory.
use anticipation.Base.{
  ◌<◌, ◌≡◌, ◌≢◌, ◌↔◌, refl, String, [], ◌∷◌, true, false, none, some, arith, eq_iff, Bool,
  if◌then◌else◌, str_eq,
}
use anticipation.Base.Result.{ok, err}
use anticipation.Base.JsMap.{map_get}
use anticipation.Redis.Expiry.{timed, clock}
use anticipation.Oauth.Lifetime.{wait, handle_callback-authorize_iff}
use anticipation.Redis.Memory.{memory, write}
use anticipation.Oauth.State.{Tokens, OauthUser, OauthState, Provider, Keycloak, Store, pair_key}
use anticipation.Oauth.{
  AuthRequest, OauthSetup, CallbackRequest, get_authorization_url, handle_callback,
}
use anticipation.Oauth.Accounts.{link_account, unlink_account}
use anticipation.Oauth.Callback.{IsKnown}
use anticipation.Oauth.Redeem.{Succeeds, IsAccepted, handle_callback-Succeeds_iff}
use anticipation.Oauth.SingleUse.{here, handle_callback_once}
use anticipation.Oauth.Linking.{account_of, unlink-link_account, unlink_account-steals}

abbrev tokens : Tokens
tokens = record {
  access_token = "a";
  token_type = "bearer";
  expires_in = 3600;
  refresh_token = none;
}

abbrev ada : OauthUser
ada = record {
  id = "7";
  email = "ada@example.org";
  username = some "ada";
  verified = some true;
  provider = "github";
}

abbrev github : Provider
github = record {
  auth_url = λ state. state;
  exchange_code = λ code state. ok tokens;
  user_info = λ token. ok ada;
  refresh = none;
}

-- An identity server that is down.
abbrev keycloak : Keycloak
keycloak = record {
  user_by_email = λ email. err "down";
  register = λ user. err "down";
  registered_user = λ email. err "down";
  admin_token = err "down";
  client_token = err "down";
}

abbrev setup : OauthSetup
setup = record { providers = ("github", github) ∷ []; keycloak = keycloak; auto_create_user = true }

abbrev state : OauthState
state = record {
  provider = "github";
  redirect_uri = none;
  timestamp = 0;
  nonce = "n";
  original_url = none;
}

abbrev empty : Store memory
empty = record {
  up = true;
  states = λ k. none;
  linked = λ k. none;
  owners = λ k. none;
  tokens = λ k. none;
  emitted = [];
  stored = [];
}

abbrev store : Store memory
store = record empty { states = write "s" (some state) (λ k. none) }

abbrev callback : CallbackRequest
callback = record { provider = "github"; code = "c"; state = "s"; error = none }

enabled : map_get "github" setup.providers ≡ some github
unfolding map_get
enabled = refl

has_code : callback.code ≢ ""
has_code e = let bad : ◌≡◌ {A = Bool} false true = (eq_iff "c" "").1 e in cc

known : IsKnown memory setup callback state
known = record {
  same_provider = refl;
  provider = github;
  enabled = enabled;
  tokens = tokens;
  exchanged = refl;
  user = ada;
  found = refl;
}

accepted : IsAccepted memory setup callback 1000 store
accepted = record {
  no_error = refl;
  has_code = has_code;
  state = state;
  stored = refl;
  young = omega arith;
  known = known;
}

handle_callback-Succeeds_iff_example :
    Succeeds (handle_callback memory setup callback "p" 1000 store)
    ↔ IsAccepted memory setup callback 1000 store
handle_callback-Succeeds_iff_example =
    handle_callback-Succeeds_iff memory setup callback "p" 1000 store refl

-- The identity server is down, and still the callback succeeds.
signs_in : Succeeds (handle_callback memory setup callback "p" 1000 store)
signs_in = (handle_callback-Succeeds_iff memory setup callback "p" 1000 store refl).1 accepted

connected : (handle_callback memory setup callback "p" 1000 store).1.up ≡ true
unfolding handle_callback map_get
connected = refl

handle_callback_once_example : ¬ Succeeds (
    handle_callback memory setup callback "p" 2000
      (handle_callback memory setup callback "p" 1000 store).1)
handle_callback_once_example =
    handle_callback_once memory setup callback callback "p" "p" 1000 2000 store
      (handle_callback memory setup callback "p" 1000 store).1 refl connected refl has_code refl
      here

abbrev fresh : Store timed
fresh = record {
  up = true;
  states = λ k. none;
  linked = λ k. none;
  owners = λ k. none;
  tokens = λ k. none;
  emitted = [];
  stored = [];
}

known_later : IsKnown timed setup callback state
known_later = record {
  same_provider = known.same_provider;
  provider = known.provider;
  enabled = known.enabled;
  tokens = known.tokens;
  exchanged = known.exchanged;
  user = known.user;
  found = known.found;
}

abbrev sign_in : AuthRequest
sign_in = record { provider = "github"; redirect_uri = none; original_url = none }

handle_callback-authorize_iff_example :
    Succeeds (
      handle_callback timed setup callback "p" 599999 (
        wait timed clock setup 599999
          (get_authorization_url timed setup sign_in "s" "n" 0 fresh).1))
    ↔ (599999 < 600000)
handle_callback-authorize_iff_example =
    handle_callback-authorize_iff timed clock setup sign_in callback "n" "p" 0 599999 fresh refl
      refl has_code known_later

unlink-link_account_example :
    ((unlink_account memory setup "ada" "github"
        (link_account memory setup "ada" "github" "7" 0 empty).1).0
      ≡ ok true)
    × ((k : String)
        → (unlink_account memory setup "ada" "github"
              (link_account memory setup "ada" "github" "7" 0 empty).1).1.linked
            k
          ≡ (if str_eq (pair_key "ada" "github") k then none else none))
    × ((k : String)
        → (unlink_account memory setup "ada" "github"
              (link_account memory setup "ada" "github" "7" 0 empty).1).1.owners
            k
          ≡ (if str_eq (pair_key "github" "7") k then none else none))
unlink-link_account_example =
    unlink-link_account memory setup "ada" "github" "7" 0 empty github refl enabled

differ : pair_key "ada" "github" ≢ pair_key "bob" "github"
differ e =
    let bad : ◌≡◌ {A = Bool} false true =
      (eq_iff (pair_key "ada" "github") (pair_key "bob" "github")).1 e in
    cc

unlink_account-steals_example :
    let w1 = (link_account memory setup "ada" "github" "7" 0 empty).1 in
    let w2 = (link_account memory setup "bob" "github" "7" 1 w1).1 in
    let w3 = (unlink_account memory setup "ada" "github" w2).1 in
    (w1.owners (pair_key "github" "7") ≡ some "ada")
    × (w2.owners (pair_key "github" "7") ≡ some "bob")
    × ((unlink_account memory setup "ada" "github" w2).0 ≡ ok true)
    × (w3.owners (pair_key "github" "7") ≡ none)
    × (w3.linked (pair_key "bob" "github") ≡ some (account_of memory setup "bob" "github" "7" 1))
unlink_account-steals_example =
    unlink_account-steals memory setup "ada" "bob" "github" "7" 0 1 empty github refl enabled differ
