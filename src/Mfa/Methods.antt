-- ===== src/Mfa/Methods.antt =====
-- getUserMFAMethods, setPrimaryMFAMethod and removeMFAMethod of
-- smp-auth-ts/src/services/mfa.service.ts.
pub mod Loads
pub mod Primary
pub mod Removal
use anticipation.Base.{
  ℕ, String, List, [], ◌∷◌, Bool, true, false, ◌&&◌, not, Option, none, some, leb, is_nil, str_eq,
  if◌then◌else◌,
}
use anticipation.Base.Exec.{pure, throw, ◌>>=◌, ◌>>◌}
use anticipation.Redis.Laws.{Redis}
use anticipation.Mfa.State.{
  Method, World, M, get_method, set_method, delete_method, method_ids, remove_method_id, emit,
  method_not_found, last_method, method_removed,
}
use anticipation.Mfa.Backup.{one_year}

-- The comparison of the sort is not positive: a primary method first, then the newer one.
abbrev pub not_after : Method → Method → Bool
not_after a b =
    if a.is_primary && not b.is_primary
    then true
    else if not a.is_primary && b.is_primary
    then false
    else leb b.created_at a.created_at

unfoldable pub insert_sorted : Method → List Method → List Method
insert_sorted m [] = m ∷ []
insert_sorted m (n ∷ ms) = if not_after m n then m ∷ n ∷ ms else n ∷ insert_sorted m ms

-- Array.sort is stable, and so is this one.
unfoldable pub sort_methods : List Method → List Method
unfolding insert_sorted
sort_methods [] = []
sort_methods (m ∷ ms) = insert_sorted m (sort_methods ms)

abbrev pub push_found : Option Method → List Method → List Method
push_found none ms = ms
push_found (some m) ms = m ∷ ms

-- The methods that are enabled, without one id.
unfoldable pub active_except : String → List Method → List Method
active_except id [] = []
active_except id (m ∷ ms) =
    if m.is_enabled && not (str_eq m.id id) then m ∷ active_except id ms else active_except id ms

module _ (redis : Redis) where
  unfoldable pub load_methods : List String → M redis (List Method)
  load_methods [] = pure []
  load_methods (id ∷ ids) = do
    found ← get_method redis id
    rest ← load_methods ids
    pure (push_found found rest)

  unfoldable pub get_user_methods : String → M redis (List Method)
  unfolding load_methods sort_methods
  get_user_methods user = do
    ids ← method_ids redis user
    methods ← load_methods ids
    pure (sort_methods methods)

  unfoldable pub save_primary : String → List Method → M redis (Unit {0})
  save_primary id [] = pure tt
  save_primary id (m ∷ ms) = do
    set_method redis m.id (record m { is_primary = str_eq m.id id }) one_year
    save_primary id ms

  unfoldable pub set_primary_method : String → String → M redis (Unit {0})
  unfolding get_user_methods save_primary
  set_primary_method user id = do methods ← get_user_methods user; save_primary id methods

  unfoldable pub new_primary : Method → List Method → M redis (Unit {0})
  unfolding set_primary_method
  new_primary method [] = pure tt
  new_primary method (first ∷ rest) =
      if method.is_primary then set_primary_method method.user_id first.id else pure tt

  unfoldable pub remove_found : String → Method → List Method → M redis (Unit {0})
  unfolding new_primary
  remove_found id method active = if is_nil active then throw last_method else do
    delete_method redis id
    remove_method_id redis method.user_id id
    new_primary method active
    emit redis (method_removed method.user_id method.kind method.id)

  unfoldable pub remove_known : String → Option Method → M redis (Unit {0})
  unfolding get_user_methods remove_found
  remove_known id none = throw method_not_found
  remove_known id (some method) = do
    methods ← get_user_methods method.user_id
    remove_found id method (active_except id methods)

  unfoldable pub remove_method : String → M redis (Unit {0})
  unfolding remove_known
  remove_method id = do found ← get_method redis id; remove_known id found
