-- ===== src/Engine/Users/Privileges/Reach.antt =====
-- What CREATE USER, DROP USER, GRANT and REVOKE can do to the accounts, in any order.
use run_alex_db.Common.{
  ℕ, Option, none, some, List, [], ◌∷◌, Bool, true, false, ◌≡◌, ◌≢◌, refl, ◌⊎◌, inl, inr,
  Bool-cases, ◌>>=◌, if◌then◌else◌, ap, none-ne-some, sym, ◌∙◌,
}
use run_alex_db.Common.Dict.{Str, str, str_eq, lookup, lookup-insert, lookup-remove, str_eq_sound}
use run_alex_db.Common.Ascii.{find, to_upper}
use run_alex_db.Engine.Value.{QueryResult, err}
use run_alex_db.Engine.Store.{DbUser, Engine, is_there, bump_write_gen}
use run_alex_db.Engine.Users.{put_user, add_user, remove_user, exec_create_user, exec_drop_user}
use run_alex_db.Engine.Users.Grants.{
  unwrap_err, exec_grant, exec_revoke, revoke_from, revoke_in, revoke_access, drop_name,
  syntax_error,
}

-- The find of `exec_grant` is made twice, and whichever way it goes the statement does not succeed.
grant_either :
    {A : Type 0} (o : Option ℕ) (x : Option A) (f : ℕ → Option A)
    → ((unwrap_err o >>= (λ z. elim o as (λ _. Option A) [ none ↦ x | some i ↦ f i ])) ≡ none)
      ⊎ ((unwrap_err o >>= (λ z. elim o as (λ _. Option A) [ none ↦ x | some i ↦ f i ])) ≡ x)
unfolding unwrap_err
grant_either none x f = inr refl
grant_either (some i) x f = inl refl

module _ {F : Type 0} (sha1 : List ℕ → List ℕ) where
  -- GRANT never succeeds: it panics, or ends with error 1064 and an engine that is as it was.
  pub exec_grant_fails :
      (sql : Str) (e : Engine F)
      → (exec_grant sha1 sql e ≡ none)
        ⊎ (exec_grant sha1 sql e ≡ some (e, err 1064 (syntax_error (str "GRANT") (str "TO"))))
  unfolding exec_grant
  exec_grant_fails sql e = grant_either (find (str " TO ") (to_upper sql)) _ _

-- What an account has that nothing was granted to.
abbrev pub IsLocked : DbUser → Type 0
IsLocked u = (u.allowed_dbs ≡ some []) × (u.can_write ≡ false) × (u.is_root ≡ false)

revoke_access-IsLocked : (db : Option Str) (u : DbUser) → IsLocked u → IsLocked (revoke_access db u)
unfolding revoke_access
revoke_access-IsLocked none u (hd, hw, hr) = (refl, refl, hr)
revoke_access-IsLocked (some db) u (hd, hw, hr) = (
  ap
        (λ (o : Option (List Str)). elim o as (λ _. Option (List Str)) [
          | none ↦ none
          | some set ↦ some (drop_name db set)
        ])
        hd
      ∙ ap some (unfold drop_name in refl),
  hw,
  hr,
)

kept : (b : Bool) {o : Option DbUser} (v : DbUser) → (if b then none else o) ≡ some v → o ≡ some v
kept true v h = absurd (none-ne-some h)
kept false v h = h

either_case :
    (b : Bool) (u v : DbUser) (o : Option DbUser)
    → (if b then some u else o) ≡ some v
    → (b ≡ true → IsLocked u)
    → (o ≡ some v → IsLocked v)
    → IsLocked v
either_case true u v o found new old =
    let same : u ≡ v =
      ap (λ (w : Option DbUser). elim w as (λ _. DbUser) [ none ↦ u | some x ↦ x ]) found in
    rw (← same) (new refl)
either_case false u v o found new old = old found

module _ {F : Type 0} where
  -- Every account but root's.
  abbrev pub AllLocked : Engine F → Type 0
  AllLocked e =
      (name : Str) (u : DbUser) → name ≢ str "root" → lookup name e.users ≡ some u → IsLocked u

  put_user-AllLocked :
      (name : Str) (u : DbUser) (e : Engine F)
      → (name ≢ str "root" → IsLocked u)
      → AllLocked e
      → AllLocked (put_user name u e)
  unfolding put_user
  put_user-AllLocked name u e h locked other v ne found =
      either_case (str_eq name other) u v (lookup other e.users)
        (sym (lookup-insert name other u e.users) ∙ found)
        (λ same. h (λ root. ne (sym (str_eq_sound name other same) ∙ root))) (locked other v ne)

  add_user-AllLocked :
      (name : Str) (hash : List ℕ) (e : Engine F) → AllLocked e → AllLocked (add_user name hash e).0
  unfolding add_user
  add_user-AllLocked name hash e locked = elim (Bool-cases (str_eq name [])) [
    | inl empty ↦ rw empty locked
    | inr named ↦ elim (Bool-cases (str_eq name (str "root"))) [
      | inl root ↦ rw (named, root) locked
      | inr user ↦ elim (Bool-cases (is_there (lookup name e.users))) [
        | inl there ↦ rw (named, user, there) locked
        | inr absent ↦
            rw (named, user, absent) (put_user-AllLocked name _ e (λ _. (refl, refl, refl)) locked)
      ]
    ]
  ]

  remove_user-AllLocked :
      (name : Str) (e : Engine F) → AllLocked e → AllLocked (remove_user name e).0
  unfolding remove_user
  remove_user-AllLocked name e locked = elim (Bool-cases (str_eq name (str "root"))) [
    | inl root ↦ rw root locked
    | inr user ↦ elim (Bool-cases (is_there (lookup name e.users))) [
      | inl there ↦
          rw (user, there)
            (λ other v ne found.
              locked other v ne
                (kept (str_eq name other) v (sym (lookup-remove name other e.users) ∙ found)))
      | inr absent ↦ rw (user, absent) locked
    ]
  ]

  revoke_in-AllLocked :
      (name : Str) (db : Option Str) (found : Option DbUser) (e : Engine F)
      → lookup name e.users ≡ found
      → AllLocked e
      → AllLocked (revoke_in name db found e).0
  unfolding revoke_in bump_write_gen
  revoke_in-AllLocked name db none e h locked = locked
  revoke_in-AllLocked name db (some u) e h locked =
      put_user-AllLocked name (revoke_access db u) e
        (λ ne. revoke_access-IsLocked db u (locked name u ne h)) locked

-- The accounts that an engine has after any number of these statements, from the one that it starts with.
pub data Reached {F : Type 0} (sha1 : List ℕ → List ℕ) : Engine F → Type 0 where
  started : (e : Engine F) (root : DbUser) → e.users ≡ (str "root", root) ∷ [] → Reached sha1 e
  kept_users : (e e' : Engine F) → Reached sha1 e → e.users ≡ e'.users → Reached sha1 e'
  created :
      (sql : Str) (e e' : Engine F) (r : QueryResult F)
      → Reached sha1 e
      → exec_create_user sha1 sql e ≡ some (e', r)
      → Reached sha1 e'
  dropped :
      (sql : Str) (e e' : Engine F) (r : QueryResult F)
      → Reached sha1 e
      → exec_drop_user sql e ≡ some (e', r)
      → Reached sha1 e'
  granted :
      (sql : Str) (e e' : Engine F) (r : QueryResult F)
      → Reached sha1 e
      → exec_grant sha1 sql e ≡ some (e', r)
      → Reached sha1 e'
  revoked :
      (sql : Str) (e e' : Engine F) (r : QueryResult F)
      → Reached sha1 e
      → exec_revoke sql e ≡ some (e', r)
      → Reached sha1 e'

of_some {ℓ} : {A : Type ℓ} {a b : A} → some a ≡ some b → a ≡ b
of_some {A = A} {a = a} h = ap (λ (o : Option A). elim o as (λ _. A) [ none ↦ a | some x ↦ x ]) h

only_root :
    (root : DbUser) (name : Str) (u : DbUser)
    → lookup name ((str "root", root) ∷ []) ≡ some u
    → str "root" ≡ name
unfolding lookup
only_root root name u found = elim (Bool-cases (str_eq (str "root") name)) [
  | inl same ↦ str_eq_sound (str "root") name same
  | inr apart ↦ absurd (none-ne-some (sym (rw apart refl) ∙ found))
]

module _ {F : Type 0} where
  moved-AllLocked : (e e' : Engine F) → e.users ≡ e'.users → AllLocked e → AllLocked e'
  moved-AllLocked e e' h locked name u ne found = locked name u ne (ap (lookup name) h ∙ found)

  -- A statement that panics or keeps what the accounts have.
  keeps :
      {A : Type 0} (o : Option A) (f : A → Engine F × QueryResult F) (e' : Engine F)
      (r : QueryResult F)
      → ((a : A) → AllLocked (f a).0)
      → (o >>= (λ a. some (f a))) ≡ some (e', r)
      → AllLocked e'
  keeps none f e' r h found = absurd (none-ne-some found)
  keeps (some a) f e' r h found =
      moved-AllLocked (f a).0 e' (ap (λ p. p.0.users) (of_some found)) (h a)

  keeps_either :
      {A : Type 0} (o : Option ℕ) (e e' : Engine F) (r r' : QueryResult F) (g : ℕ → Option A)
      (f : ℕ → A → Engine F × QueryResult F)
      → AllLocked e
      → ((i : ℕ) (a : A) → AllLocked (f i a).0)
      → (elim o as (λ _. Option (Engine F × QueryResult F)) [
        | none ↦ some (e, r')
        | some i ↦ (g i >>= (λ a. some (f i a)))
      ])
        ≡ some (e', r)
      → AllLocked e'
  keeps_either none e e' r r' g f locked h found =
      moved-AllLocked e e' (ap (λ p. p.0.users) (of_some found)) locked
  keeps_either (some i) e e' r r' g f locked h found = keeps (g i) (f i) e' r (h i) found

  revoke-AllLocked :
      (sql : Str) (e e' : Engine F) (r : QueryResult F)
      → AllLocked e
      → exec_revoke sql e ≡ some (e', r)
      → AllLocked e'
  unfolding exec_revoke revoke_from
  revoke-AllLocked sql e e' r locked h =
      keeps_either (find (str " FROM ") (to_upper sql)) e e' r _ _ _ locked
        (λ i a. revoke_in-AllLocked _ _ _ e refl locked) h

module _ {F : Type 0} (sha1 : List ℕ → List ℕ) where
  create-AllLocked :
      (sql : Str) (e e' : Engine F) (r : QueryResult F)
      → AllLocked e
      → exec_create_user sha1 sql e ≡ some (e', r)
      → AllLocked e'
  unfolding exec_create_user
  create-AllLocked sql e e' r locked h = keeps _ _ e' r (λ a. add_user-AllLocked a.0 _ e locked) h

  drop-AllLocked :
      (sql : Str) (e e' : Engine F) (r : QueryResult F)
      → AllLocked e
      → exec_drop_user sql e ≡ some (e', r)
      → AllLocked e'
  unfolding exec_drop_user
  drop-AllLocked sql e e' r locked h = keeps _ _ e' r (λ a. remove_user-AllLocked _ e locked) h

  grant-AllLocked :
      (sql : Str) (e e' : Engine F) (r : QueryResult F)
      → AllLocked e
      → exec_grant sha1 sql e ≡ some (e', r)
      → AllLocked e'
  grant-AllLocked sql e e' r locked h = elim (exec_grant_fails sha1 sql e) [
    | inl panic ↦ absurd (none-ne-some (sym panic ∙ h))
    | inr fails ↦ moved-AllLocked e e' (ap (λ p. p.0.users) (of_some (sym fails ∙ h))) locked
  ]

  pub Reached-AllLocked : (e : Engine F) → Reached sha1 e → AllLocked e
  Reached-AllLocked e (started _ root h) =
      moved-AllLocked (record e { users = (str "root", root) ∷ [] }) e (sym h)
        (λ name u ne found. absurd (ne (sym (only_root root name u found))))
  Reached-AllLocked e' (kept_users e _ before h) =
      moved-AllLocked e e' h (Reached-AllLocked e before)
  Reached-AllLocked e' (created sql e _ r before h) =
      create-AllLocked sql e e' r (Reached-AllLocked e before) h
  Reached-AllLocked e' (dropped sql e _ r before h) =
      drop-AllLocked sql e e' r (Reached-AllLocked e before) h
  Reached-AllLocked e' (granted sql e _ r before h) =
      grant-AllLocked sql e e' r (Reached-AllLocked e before) h
  Reached-AllLocked e' (revoked sql e _ r before h) =
      revoke-AllLocked sql e e' r (Reached-AllLocked e before) h
