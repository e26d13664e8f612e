-- ===== src/Teams/Reach.antt =====
-- What a caller who is no super admin can do to the users and teams, through every operation of
-- app/application/teams.py.
use ai_agents_carrier.Base.{
  String, Bool, true, false, not, ◌&&◌, ◌||◌, Option, none, some, List, [], ◌∷◌, ◌≡◌, refl, sym,
  subst, ◌⊎◌, inl, inr, find?, str_eq, opt_eq, is_set, eq_iff, Bool-cases, true_of_not, or_true,
  left_of_and_true,
}
use ai_agents_carrier.Auth.Principal.{Subject}
use ai_agents_carrier.Visibility.Model.{
  Resource, not_owner, resource_not_found, team_conflict, Result, ok, ◌>>◌, raise_if, >>=-eq-ok,
  raise_if-ok,
}
use ai_agents_carrier.Teams.Directory.{
  Directory, UserRecord, new_user, change_user, get_user, set_membership,
}
use ai_agents_carrier.Teams.Managing.{
  is_team_admin, require_team_manager, require_super_admin, team_or_404, team_now, role_now, leads,
  elsewhere, checked_role, check_team_admin, create_team, rename_team, delete_team, set_member,
  remove_member, set_user_team, delete_user,
}
use text.Mathlib.TextPositions.{eq_refl}

-- a request that may change the directory
pub data Request : Type 0 where
  create : String → String → Request
  rename : String → String → Request
  dissolve : String → List (List Resource) → Request
  set : String → String → Option String → Request
  remove : String → String → Request
  place : String → Option String → Option String → Request
  forget : String → Request

unfoldable pub perform : Option Subject → Request → Directory → Result Directory
unfolding create_team rename_team delete_team set_member remove_member set_user_team delete_user
perform who (create fresh name) directory = create_team who fresh name directory
perform who (rename team_id name) directory = rename_team who team_id name directory
perform who (dissolve team_id backends) directory = delete_team who team_id backends directory
perform who (set team_id sub role) directory = set_member who team_id sub role directory
perform who (remove team_id sub) directory = remove_member who team_id sub directory
perform who (place sub team_id role) directory = set_user_team who sub team_id role directory
perform who (forget sub) directory = delete_user who sub directory

-- in no team, or a member of this team who is no admin
abbrev pub is_plain : String → Option UserRecord → Bool
is_plain team_id user =
    not (is_set (team_now user))
    || opt_eq (team_now user) (some team_id) && not (leads team_id user)

-- A user who was and is in no team or a plain member of the one team that the caller administers.
pub record IsMoved (s : Subject) (before after : Option UserRecord) : Type 0 where
  pub team : String
  pub administers : is_team_admin team (some s) ≡ true
  pub plain_before : is_plain team before ≡ true
  pub plain_after : is_plain team after ≡ true

-- ─── the store ───

find-change_same :
    (sub : String) (change : UserRecord → UserRecord) (users : List UserRecord)
    → ((u : UserRecord) → (change u).sub ≡ u.sub)
    → (u : UserRecord) × (find? (λ x. str_eq x.sub sub) (change_user sub change users)
        ≡ some (change u))
unfolding change_user
find-change_same sub change [] same =
    (new_user sub, rw (same (new_user sub)) (rw (eq_refl sub) refl))
find-change_same sub change (u ∷ users) same = elim (Bool-cases (str_eq u.sub sub)) [
  | inl t ↦ (u, rw t (rw (same u) (rw t refl)))
  | inr f ↦ let r = find-change_same sub change users same in (r.0, rw f (rw f r.1))
]

find-change_other :
    (sub other : String) (change : UserRecord → UserRecord) (users : List UserRecord)
    → ((u : UserRecord) → (change u).sub ≡ u.sub)
    → str_eq sub other ≡ false
    → find? (λ x. str_eq x.sub other) (change_user sub change users)
      ≡ find? (λ x. str_eq x.sub other) users
unfolding change_user
find-change_other sub other change [] same h = rw (same (new_user sub)) (rw h refl)
find-change_other sub other change (u ∷ users) same h = elim (Bool-cases (str_eq u.sub sub)) [
  | inl t ↦
      let f : str_eq u.sub other ≡ false =
        subst (λ i. str_eq i other ≡ false) (sym ((eq_iff u.sub sub).0 t)) h in
      rw t (rw (same u) (rw f refl))
  | inr f ↦ rw f (rw (find-change_other sub other change users same h) refl)
]

-- a user after a change of membership
get-set_same :
    (directory : Directory) (sub : String) (team_id role : Option String)
    → (team_now (get_user (set_membership directory sub team_id role) sub) ≡ team_id)
      × (role_now (get_user (set_membership directory sub team_id role) sub) ≡ role)
unfolding set_membership get_user
get-set_same directory sub team_id role =
    let r =
      find-change_same sub (λ u. record u { team_id = team_id; team_role = role }) directory.users
        (λ u. refl) in
    (rw r.1 refl, rw r.1 refl)

get-set_other :
    (directory : Directory) (sub other : String) (team_id role : Option String)
    → str_eq sub other ≡ false
    → get_user (set_membership directory sub team_id role) other ≡ get_user directory other
unfolding set_membership get_user
get-set_other directory sub other team_id role h =
    find-change_other sub other (λ u. record u { team_id = team_id; team_role = role })
      directory.users (λ u. refl) h

plain_of : (a b l : Bool) → (a && not b) ≡ false → l ≡ false → (not a || b && not l) ≡ true
plain_of true true l h e = rw e refl
plain_of true false l h e = cc
plain_of false b l h e = refl

-- ─── one caller ───

ok_inj {ℓ} : {A : Type ℓ} {a b : A} → ok a ≡ ok b → a ≡ b
ok_inj h = cc

module _ (s : Subject) (plain : s.is_super_admin ≡ false) where
  -- the two ways in which a user is found after a request
  abbrev Reached : Directory → Directory → String → Type 0
  Reached before after sub =
      (get_user after sub ≡ get_user before sub)
      ⊎ IsMoved s (get_user before sub) (get_user after sub)

  at_after :
      (directory : Directory) (other : String) {x after : Directory}
      → x ≡ after
      → (x.teams ≡ directory.teams) × Reached directory x other
      → (after.teams ≡ directory.teams) × Reached directory after other
  at_after directory other e r =
      subst (λ x. (x.teams ≡ directory.teams) × Reached directory x other) e r

  set-Reached :
      (directory : Directory) (target sub : String) (team_id role : Option String)
      → IsMoved s
          (get_user directory target)
          (get_user (set_membership directory target team_id role) target)
      → Reached directory (set_membership directory target team_id role) sub
  set-Reached directory target sub team_id role moved = elim (Bool-cases (str_eq target sub)) [
    | inl t ↦
        subst (λ i. Reached directory (set_membership directory target team_id role) i)
          ((eq_iff target sub).0 t) (inr moved)
    | inr f ↦ inl (get-set_other directory target sub team_id role f)
  ]

  manages :
      (team_id : String) {t : Unit {0}}
      → raise_if (not (s.is_super_admin || is_team_admin team_id (some s))) not_owner ≡ ok t
      → is_team_admin team_id (some s) ≡ true
  manages team_id h =
      let t : (s.is_super_admin || is_team_admin team_id (some s)) ≡ true =
        true_of_not _ (raise_if-ok _ _ h) in
      rw plain at t

  check_team_admin-plain :
      (team_id asked : String) (user : Option UserRecord) {t : Unit {0}}
      → check_team_admin (some s) team_id asked user ≡ ok t
      → (str_eq asked "admin" ≡ false) × (is_plain team_id user ≡ true)
  unfolding check_team_admin
  check_team_admin-plain team_id asked user h =
      let a =
        >>=-eq-ok (raise_if (elsewhere team_id user && not s.is_super_admin) team_conflict) _ h in
      let b = >>=-eq-ok (raise_if (not s.is_super_admin && str_eq asked "admin") not_owner) _ a.2 in
      let away : (elsewhere team_id user && not s.is_super_admin) ≡ false = raise_if-ok _ _ a.1 in
      let admin : (not s.is_super_admin && str_eq asked "admin") ≡ false = raise_if-ok _ _ b.1 in
      let leading : (not s.is_super_admin && leads team_id user) ≡ false = raise_if-ok _ _ b.2 in
      (
        rw plain at admin,
        plain_of (is_set (team_now user)) (opt_eq (team_now user) (some team_id))
            (leads team_id user) (left_of_and_true (elsewhere team_id user) (rw plain at away))
            (rw plain at leading),
      )

  set_member-Reached :
      (team_id sub other : String) (role : Option String) (directory : Directory)
      {after : Directory}
      → set_member (some s) team_id sub role directory ≡ ok after
      → (after.teams ≡ directory.teams) × Reached directory after other
  unfolding set_member
  set_member-Reached team_id sub other role directory {after} h =
      let a = >>=-eq-ok (require_team_manager (some s) team_id) _ h in
      let b = >>=-eq-ok (team_or_404 directory team_id) _ a.2 in
      let c = >>=-eq-ok (checked_role role) _ b.2 in
      let d = >>=-eq-ok (check_team_admin (some s) team_id c.0 (get_user directory sub)) _ c.2 in
      let p = check_team_admin-plain team_id c.0 (get_user directory sub) d.1 in
      let g = get-set_same directory sub (some team_id) (some c.0) in
      at_after directory other (ok_inj d.2) (
        refl,
        set-Reached directory sub other (some team_id) (some c.0) record {
          team = team_id;
          administers = manages team_id a.1;
          plain_before = p.1;
          plain_after =
              rw (g.0, g.1) (rw (eq_refl team_id) (rw p.0 (or_true (not (is_set (some team_id))))));
        },
      )

  remove_member-Reached :
      (team_id sub other : String) (directory : Directory) {after : Directory}
      → remove_member (some s) team_id sub directory ≡ ok after
      → (after.teams ≡ directory.teams) × Reached directory after other
  unfolding remove_member
  remove_member-Reached team_id sub other directory {after} h =
      let user = get_user directory sub in
      let a = >>=-eq-ok (require_team_manager (some s) team_id) _ h in
      let b = >>=-eq-ok (team_or_404 directory team_id) _ a.2 in
      let c =
        >>=-eq-ok (raise_if (not (opt_eq (team_now user) (some team_id))) resource_not_found) _
          b.2 in
      let d =
        >>=-eq-ok
          (raise_if (opt_eq (role_now user) (some "admin") && not s.is_super_admin) not_owner) _
          c.2 in
      let inside : opt_eq (team_now user) (some team_id) ≡ true =
        true_of_not _ (raise_if-ok _ _ c.1) in
      let led : (opt_eq (role_now user) (some "admin") && not s.is_super_admin) ≡ false =
        raise_if-ok _ _ d.1 in
      let no_admin : opt_eq (role_now user) (some "admin") ≡ false =
        left_of_and_true _ (rw plain at led) in
      let g = get-set_same directory sub none none in
      at_after directory other (ok_inj d.2) (
        refl,
        set-Reached directory sub other none none record {
          team = team_id;
          administers = manages team_id a.1;
          plain_before = rw (inside, no_admin) (or_true (not (is_set (team_now user))));
          plain_after = rw g.0 refl;
        },
      )

  no_super :
      {A : Type 0} (next : Result A) {a : A} → (require_super_admin (some s) >> next) ≡ ok a → ⊥
  no_super next h = cc (rw plain at h)

-- A request of a caller who is no super admin, where it succeeds, leaves the teams as they are, and each user
-- too, unless the caller administers a team and the user was and is in no team or a member of that team
-- who is no admin.
pub perform-Reached :
    (s : Subject) (request : Request) (directory after : Directory) (sub : String)
    → s.is_super_admin ≡ false
    → perform (some s) request directory ≡ ok after
    → (after.teams ≡ directory.teams)
      × ((get_user after sub ≡ get_user directory sub)
          ⊎ IsMoved s (get_user directory sub) (get_user after sub))
unfolding perform create_team rename_team delete_team set_user_team delete_user
perform-Reached s (create fresh name) directory after sub plain h = absurd (no_super s plain _ h)
perform-Reached s (rename team_id name) directory after sub plain h = absurd (no_super s plain _ h)
perform-Reached s (dissolve team_id backends) directory after sub plain h =
    absurd (no_super s plain _ h)
perform-Reached s (set team_id target role) directory after sub plain h =
    set_member-Reached s plain team_id target sub role directory h
perform-Reached s (remove team_id target) directory after sub plain h =
    remove_member-Reached s plain team_id target sub directory h
perform-Reached s (place target team_id role) directory after sub plain h =
    absurd (no_super s plain _ h)
perform-Reached s (forget target) directory after sub plain h = absurd (no_super s plain _ h)
