-- ===== src/Teams/Managing.antt =====
-- Who may change which team: app/application/teams.py over the directory. The caller is `none` where
-- nothing is bound. The cache of the teams' names, and the dicts that are returned for display, are left
-- out; an operation gives the directory that it leaves, or the error that it raises before it writes.
use ai_agents_carrier.Base.{
  String, Bool, true, false, not, ◌&&◌, ◌||◌, Option, none, some, List, [], ◌∷◌, filter, any,
  contains, str_eq, opt_eq, is_set, or_else, truthy, strip, if◌then◌else◌,
}
use ai_agents_carrier.Auth.Principal.{Subject}
use ai_agents_carrier.Visibility.Model.{
  Resource, not_owner, resource_not_found, team_conflict, team_invalid, Result, ok, err, ◌>>=◌,
  ◌>>◌, raise_if, lift_option,
}
use ai_agents_carrier.Teams.Directory.{
  Directory, UserRecord, TeamRecord, Renamed, taken, missing, renamed, get_user, get_team,
  upsert_seen, set_membership, clear_team, create_team as add_team, rename_team as change_name,
  delete_team as drop_team, delete_user as forget_user,
}

abbrev pub is_super_admin : Option Subject → Bool
is_super_admin none = true
is_super_admin (some s) = s.is_super_admin

abbrev pub is_team_admin : String → Option Subject → Bool
is_team_admin team_id none = false
is_team_admin team_id (some s) =
    opt_eq s.team_id (some team_id) && opt_eq s.team_role (some "admin")

abbrev pub require_super_admin : Option Subject → Result (Unit {0})
require_super_admin who = raise_if (not (is_super_admin who)) not_owner

abbrev pub require_team_manager : Option Subject → String → Result (Unit {0})
require_team_manager who team_id =
    raise_if (not (is_super_admin who || is_team_admin team_id who)) not_owner

unfoldable pub team_or_404 : Directory → String → Result TeamRecord
unfolding get_team
team_or_404 directory team_id = lift_option (get_team directory team_id) resource_not_found

unfoldable pub user_or_404 : Directory → String → Result UserRecord
unfolding get_user
user_or_404 directory sub = lift_option (get_user directory sub) resource_not_found

-- `_clean_name`
unfoldable pub clean_name : String → Result String
unfolding strip
clean_name name = if truthy (strip name) then ok (strip name) else err team_invalid

-- `ROLES`
abbrev pub roles : List String
roles = "member" ∷ "admin" ∷ []

-- the role that is asked for, or `member`
abbrev pub role_or_member : Option String → String
role_or_member none = "member"
role_or_member (some role) = if truthy role then role else "member"

-- a role in `ROLES`
unfoldable pub checked_role : Option String → Result String
checked_role role =
    raise_if (not (contains roles (role_or_member role))) team_invalid >> ok (role_or_member role)

-- ─── teams ───

unfoldable pub list_teams : Option Subject → Directory → List TeamRecord
list_teams who directory =
    if is_super_admin who
    then directory.teams
    else filter (λ t. (elim who [ none ↦ false | some s ↦ opt_eq s.team_id (some t.id) ]))
        directory.teams

unfoldable pub create_team : Option Subject → String → String → Directory → Result Directory
unfolding clean_name add_team
create_team who fresh name directory =
    require_super_admin who
    >> (clean_name name >>= λ clean.
        (lift_option (add_team directory fresh clean) team_conflict >>= λ added. ok added.0))

abbrev outcome : Renamed → Result Directory
outcome taken = err team_conflict
outcome missing = err resource_not_found
outcome (renamed directory team) = ok directory

unfoldable pub rename_team : Option Subject → String → String → Directory → Result Directory
unfolding clean_name change_name
rename_team who team_id name directory =
    require_super_admin who
    >> (clean_name name >>= λ clean. outcome (change_name directory team_id clean))

abbrev owns_any : String → List (List Resource) → Bool
owns_any team_id backends = any (λ store. any (λ r. opt_eq r.team_id (some team_id)) store) backends

unfoldable pub delete_team :
    Option Subject → String → List (List Resource) → Directory → Result Directory
unfolding team_or_404 clear_team drop_team
delete_team who team_id backends directory =
    require_super_admin who
    >> (team_or_404 directory team_id >>= λ team.
        (raise_if (owns_any team_id backends) team_conflict
          >> ok (drop_team (clear_team directory team_id) team_id)))

-- ─── members ───

-- the team and the role of a user who may be unknown
abbrev pub team_now : Option UserRecord → Option String
team_now none = none
team_now (some user) = user.team_id

abbrev pub role_now : Option UserRecord → Option String
role_now none = none
role_now (some user) = user.team_role

abbrev pub elsewhere : String → Option UserRecord → Bool
elsewhere team_id user = is_set (team_now user) && not (opt_eq (team_now user) (some team_id))

abbrev pub leads : String → Option UserRecord → Bool
leads team_id user = opt_eq (team_now user) (some team_id) && opt_eq (role_now user) (some "admin")

-- the checks of `set_member` on a caller who is no super admin
unfoldable pub check_team_admin :
    Option Subject → String → String → Option UserRecord → Result (Unit {0})
check_team_admin who team_id role user =
    raise_if (elsewhere team_id user && not (is_super_admin who)) team_conflict
    >> (raise_if (not (is_super_admin who) && str_eq role "admin") not_owner
        >> raise_if (not (is_super_admin who) && leads team_id user) not_owner)

unfoldable pub set_member :
    Option Subject → String → String → Option String → Directory → Result Directory
unfolding team_or_404 checked_role check_team_admin set_membership
set_member who team_id sub role directory =
    require_team_manager who team_id
    >> (team_or_404 directory team_id >>= λ team.
        (checked_role role >>= λ asked.
        (check_team_admin who team_id asked (get_user directory sub)
          >> ok (set_membership directory sub (some team_id) (some asked)))))

unfoldable pub remove_member : Option Subject → String → String → Directory → Result Directory
unfolding team_or_404 set_membership
remove_member who team_id sub directory =
    require_team_manager who team_id
    >> (team_or_404 directory team_id >>= λ team.
        (raise_if (not (opt_eq (team_now (get_user directory sub)) (some team_id)))
            resource_not_found
          >> (raise_if
                (opt_eq (role_now (get_user directory sub)) (some "admin")
                  && not (is_super_admin who))
                not_owner
              >> ok (set_membership directory sub none none))))

-- ─── users ───

abbrev in_reach : Option String → UserRecord → Bool
in_reach own user = not (is_set user.team_id) || opt_eq user.team_id own

unfoldable pub list_users : Option Subject → Directory → Result (List UserRecord)
list_users none directory = ok directory.users
list_users (some s) directory =
    if s.is_super_admin
    then ok directory.users
    else raise_if (not (opt_eq s.team_role (some "admin")) || not (is_set s.team_id)) not_owner
      >> ok (filter (in_reach s.team_id) directory.users)

unfoldable pub place : String → Option String → Option String → Directory → Result Directory
unfolding team_or_404 checked_role set_membership
place sub none role directory = ok (set_membership directory sub none none)
place sub (some team_id) role directory =
    if truthy team_id
    then (team_or_404 directory team_id >>= λ team.
        (checked_role role >>= λ asked.
        ok (set_membership directory sub (some team_id) (some asked))))
    else ok (set_membership directory sub none none)

unfoldable pub set_user_team :
    Option Subject → String → Option String → Option String → Directory → Result Directory
unfolding user_or_404 place
set_user_team who sub team_id role directory =
    require_super_admin who
    >> (user_or_404 directory sub >>= λ user. place sub team_id role directory)

unfoldable pub delete_user : Option Subject → String → Directory → Result Directory
unfolding forget_user
delete_user who sub directory =
    require_super_admin who
    >> (raise_if (not (forget_user directory sub).1) resource_not_found
        >> ok (forget_user directory sub).0)

-- `resolve_subject`, where the directory can be read; the caller, and the directory that has seen them
unfoldable pub resolve_subject : Directory → Subject → Subject × Directory
unfolding upsert_seen get_user
resolve_subject directory s = elim s.id [
  | none ↦ (s, directory)
  | some sub ↦
      if not (truthy sub)
      then (s, directory)
      else let seen = upsert_seen directory sub s.name in
        let user = get_user seen sub in
        if is_set (team_now user)
        then (
          record s { team_id = team_now user; team_role = or_else (role_now user) (some "member") },
          seen,
        )
        else (s, seen)
]
