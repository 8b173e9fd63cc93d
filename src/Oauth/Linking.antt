-- ===== src/Oauth/Linking.antt =====
-- What linking and unlinking accounts does to the two indices of linked accounts.
use anticipation.Base.{
  ℕ, ◌≡◌, ◌≢◌, refl, inl, inr, String, Bool, true, false, Option, none, some, str_eq, if◌then◌else◌,
  arith, Bool-cases, ap, ◌∙◌, sym, eq_refl, eq_iff,
}
use anticipation.Base.Result.{Result, ok}
use anticipation.Base.JsMap.{map_get}
use anticipation.Redis.Laws.{Redis}
use anticipation.Oauth.State.{LinkedAccount, OauthError, Provider, pair_key, Store}
use anticipation.Oauth.{OauthSetup}
use anticipation.Oauth.Accounts.{link_account, unlink_account}

module _ (redis : Redis) (setup : OauthSetup) where
  open redis use {Strings, get, set, del, get-set, get-del}

  abbrev pub account_of : String → String → String → ℕ → LinkedAccount
  account_of user provider provider_user now = record {
    user_id = user;
    provider = provider;
    provider_user_id = provider_user;
    email = "";
    linked_at = now;
  }

  -- A call that returned `true`, and the indices after it.
  record Leaves (x : Result OauthError Bool × Store redis) (linked : Strings LinkedAccount)
      (owners : Strings String) : Type 0 where
    told : x.0 ≡ ok true
    linked_after : x.1.linked ≡ linked
    owners_after : x.1.owners ≡ owners
    up_after : x.1.up ≡ true

  link_account-Leaves :
      (user provider provider_user : String) (now : ℕ) (w : Store redis) (p : Provider)
      → w.up ≡ true
      → map_get provider setup.providers ≡ some p
      → Leaves
          (link_account redis setup user provider provider_user now w)
          (set LinkedAccount
            (pair_key user provider)
            (account_of user provider provider_user now)
            none
            w.linked)
          (set String (pair_key provider provider_user) user none w.owners)
  unfolding link_account
  link_account-Leaves user provider provider_user now w p up enabled = record {
    told = ground arith;
    linked_after = ground arith;
    owners_after = ground arith;
    up_after = ground arith;
  }

  unlink_account-Leaves :
      (user provider : String) (w : Store redis) (a : LinkedAccount)
      → w.up ≡ true
      → get LinkedAccount (pair_key user provider) w.linked ≡ some a
      → Leaves
          (unlink_account redis setup user provider w)
          (del LinkedAccount (pair_key user provider) w.linked)
          (del String (pair_key provider a.provider_user_id) w.owners)
  unfolding unlink_account
  unlink_account-Leaves user provider w a up found = record {
    told = ground arith;
    linked_after = ground arith;
    owners_after = ground arith;
    up_after = ground arith;
  }

  stored :
      (key : String) (a : LinkedAccount) (before after : Strings LinkedAccount)
      → after ≡ set LinkedAccount key a none before
      → get LinkedAccount key after ≡ some a
  stored key a before after written =
      ap (λ z. get LinkedAccount key z) written
      ∙ get-set LinkedAccount key key a none before
      ∙ ap (λ b. if b then some a else get LinkedAccount key before) (eq_refl key)

  if_twice :
      {A : Type 0} (b : Bool) (x y : Option A)
      → (if b then none else (if b then x else y)) ≡ (if b then none else y)
  if_twice true x y = refl
  if_twice false x y = refl

  differs : (a b : String) → a ≢ b → str_eq a b ≡ false
  differs a b h = elim (Bool-cases (str_eq a b)) [
    | inl hit ↦ absurd (h ((eq_iff a b).0 hit))
    | inr miss ↦ miss
  ]

  -- With the connection up and the provider enabled, an account that was just linked is unlinked
  -- with success, and then both indices are as before the link, but for the two keys of the account,
  -- which hold nothing.
  pub unlink-link_account :
      (user provider provider_user : String) (now : ℕ) (w : Store redis) (p : Provider)
      → w.up ≡ true
      → map_get provider setup.providers ≡ some p
      → ((unlink_account redis setup user provider
            (link_account redis setup user provider provider_user now w).1).0
          ≡ ok true)
        × ((k : String)
            → get LinkedAccount k
                (unlink_account redis setup user provider
                  (link_account redis setup user provider provider_user now w).1).1.linked
              ≡ (if str_eq (pair_key user provider) k then none else get LinkedAccount k w.linked))
        × ((k : String)
            → get String k
                (unlink_account redis setup user provider
                  (link_account redis setup user provider provider_user now w).1).1.owners
              ≡ (if str_eq (pair_key provider provider_user) k
                  then none
                  else get String k w.owners))
  unlink-link_account user provider provider_user now w p up enabled = (
    after.told,
    (λ k.
        ap (λ z. get LinkedAccount k z) after.linked_after
        ∙ get-del LinkedAccount key k s.linked
        ∙ ap (λ o. if str_eq key k then none else o)
            (ap (λ z. get LinkedAccount k z) before.linked_after
              ∙ get-set LinkedAccount key k account none w.linked)
        ∙ if_twice (str_eq key k) (some account) (get LinkedAccount k w.linked)),
    (λ k.
        ap (λ z. get String k z) after.owners_after
        ∙ get-del String owner k s.owners
        ∙ ap (λ o. if str_eq owner k then none else o)
            (ap (λ z. get String k z) before.owners_after
              ∙ get-set String owner k user none w.owners)
        ∙ if_twice (str_eq owner k) (some user) (get String k w.owners)),
  )
    where
      key : String
      key = pair_key user provider

      owner : String
      owner = pair_key provider provider_user

      account : LinkedAccount
      account = account_of user provider provider_user now

      s : Store redis
      s = (link_account redis setup user provider provider_user now w).1

      before :
          Leaves
            (link_account redis setup user provider provider_user now w)
            (set LinkedAccount key account none w.linked)
            (set String owner user none w.owners)
      before = link_account-Leaves user provider provider_user now w p up enabled

      after :
          Leaves
            (unlink_account redis setup user provider s)
            (del LinkedAccount key s.linked)
            (del String owner s.owners)
      after =
          unlink_account-Leaves user provider s account before.up_after
            (stored key account w.linked s.linked before.linked_after)

  -- With the connection up and the provider enabled, a provider's account that one user links and
  -- then a second user belongs to the first after the first link and to the second after the second;
  -- when the first user then unlinks, with success, the account has no owner, though the second user
  -- is still linked to it. The two users have different keys.
  pub unlink_account-steals :
      (first second provider provider_user : String) (now later : ℕ) (w : Store redis)
      (p : Provider)
      → w.up ≡ true
      → map_get provider setup.providers ≡ some p
      → pair_key first provider ≢ pair_key second provider
      → let w1 = (link_account redis setup first provider provider_user now w).1 in
        let w2 = (link_account redis setup second provider provider_user later w1).1 in
        let w3 = (unlink_account redis setup first provider w2).1 in
        (get String (pair_key provider provider_user) w1.owners ≡ some first)
        × (get String (pair_key provider provider_user) w2.owners ≡ some second)
        × ((unlink_account redis setup first provider w2).0 ≡ ok true)
        × (get String (pair_key provider provider_user) w3.owners ≡ none)
        × (get LinkedAccount (pair_key second provider) w3.linked
            ≡ some (account_of second provider provider_user later))
  unlink_account-steals first second provider provider_user now later w p up enabled differ = (
    owned first w.owners w1.owners first_link.owners_after,
    owned second w1.owners w2.owners second_link.owners_after,
    third.told,
    ap (λ z. get String owner z) third.owners_after
        ∙ get-del String owner owner w2.owners
        ∙ ap (λ b. if b then none else get String owner w2.owners) (eq_refl owner),
    ap (λ z. get LinkedAccount (pair_key second provider) z) third.linked_after
        ∙ get-del LinkedAccount (pair_key first provider) (pair_key second provider) w2.linked
        ∙ ap (λ b. if b then none else get LinkedAccount (pair_key second provider) w2.linked)
            (differs (pair_key first provider) (pair_key second provider) differ)
        ∙ stored (pair_key second provider) account w1.linked w2.linked second_link.linked_after,
  )
    where
      owner : String
      owner = pair_key provider provider_user

      owned :
          (user : String) (before after : Strings String)
          → after ≡ set String owner user none before
          → get String owner after ≡ some user
      owned user before after written =
          ap (λ z. get String owner z) written
          ∙ get-set String owner owner user none before
          ∙ ap (λ b. if b then some user else get String owner before) (eq_refl owner)

      account : LinkedAccount
      account = account_of second provider provider_user later

      former : LinkedAccount
      former = account_of first provider provider_user now

      w1 : Store redis
      w1 = (link_account redis setup first provider provider_user now w).1

      w2 : Store redis
      w2 = (link_account redis setup second provider provider_user later w1).1

      first_link :
          Leaves
            (link_account redis setup first provider provider_user now w)
            (set LinkedAccount (pair_key first provider) former none w.linked)
            (set String owner first none w.owners)
      first_link = link_account-Leaves first provider provider_user now w p up enabled

      second_link :
          Leaves
            (link_account redis setup second provider provider_user later w1)
            (set LinkedAccount (pair_key second provider) account none w1.linked)
            (set String owner second none w1.owners)
      second_link =
          link_account-Leaves second provider provider_user later w1 p first_link.up_after enabled

      still : get LinkedAccount (pair_key first provider) w2.linked ≡ some former
      still =
          ap (λ z. get LinkedAccount (pair_key first provider) z) second_link.linked_after
          ∙ get-set LinkedAccount (pair_key second provider) (pair_key first provider) account none
              w1.linked
          ∙ ap
              (λ b.
                if b then some account else get LinkedAccount (pair_key first provider) w1.linked)
              (differs (pair_key second provider) (pair_key first provider) (λ e. differ (sym e)))
          ∙ stored (pair_key first provider) former w.linked w1.linked first_link.linked_after

      third :
          Leaves
            (unlink_account redis setup first provider w2)
            (del LinkedAccount (pair_key first provider) w2.linked)
            (del String owner w2.owners)
      third = unlink_account-Leaves first provider w2 former second_link.up_after still
