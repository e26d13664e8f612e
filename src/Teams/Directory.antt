-- ===== src/Teams/Directory.antt =====
-- The users and teams of app/infrastructure/persistence/team_directory.py, as `InMemoryTeamDirectory`
-- keeps them. A dict is the list of its values, in the order of insertion, and each value holds its
-- key. The time of a user's last request, and the display fields `roles` and `email`, are left out.
use ai_agents_carrier.Base.{
  String, Bool, not, ◌&&◌, Option, none, some, List, [], ◌∷◌, ◌++◌, map, str_eq, opt_eq, or_else,
  is_set, any, find?, filter, if◌then◌else◌,
}

pub record UserRecord : Type 0 where
  pub sub : String
  pub name : Option String
  pub team_id : Option String
  pub team_role : Option String

pub record TeamRecord : Type 0 where
  pub id : String
  pub name : String

pub record Directory : Type 0 where
  pub users : List UserRecord
  pub teams : List TeamRecord

abbrev pub new_user : String → UserRecord
new_user sub = record { sub = sub; name = none; team_id = none; team_role = none }

unfoldable pub get_user : Directory → String → Option UserRecord
get_user directory sub = find? (λ u. str_eq u.sub sub) directory.users

unfoldable pub get_team : Directory → String → Option TeamRecord
get_team directory team_id = find? (λ t. str_eq t.id team_id) directory.teams

-- `self.users.setdefault(sub, UserRecord(sub=sub))`, then the change
unfoldable pub change_user : String → (UserRecord → UserRecord) → List UserRecord → List UserRecord
change_user sub change [] = change (new_user sub) ∷ []
change_user sub change (u ∷ users) =
    let later = change_user sub change users in
    if str_eq u.sub sub then change u ∷ users else u ∷ later

unfoldable pub upsert_seen : Directory → String → Option String → Directory
unfolding change_user
upsert_seen directory sub name = record directory {
  users = change_user sub (λ u. record u { name = or_else name u.name }) directory.users;
}

unfoldable pub set_membership : Directory → String → Option String → Option String → Directory
unfolding change_user
set_membership directory sub team_id role = record directory {
  users = change_user sub (λ u. record u { team_id = team_id; team_role = role }) directory.users;
}

unfoldable pub clear_team : Directory → String → Directory
clear_team directory team_id = record directory {
  users =
      map
        (λ u.
          if opt_eq u.team_id (some team_id)
          then record u { team_id = none; team_role = none }
          else u)
        directory.users;
}

-- the directory, and whether there was such a user
unfoldable pub delete_user : Directory → String → Directory × Bool
delete_user directory sub = (
  record directory { users = filter (λ u. not (str_eq u.sub sub)) directory.users },
  any (λ u. str_eq u.sub sub) directory.users,
)

-- `none` is TeamNameTaken; the id is the fresh one that `_new_team_id` gives
unfoldable pub create_team : Directory → String → String → Option (Directory × TeamRecord)
create_team directory fresh name =
    if any (λ t. str_eq t.name name) directory.teams
    then none
    else let team : TeamRecord = record { id = fresh; name = name } in
      some (record directory { teams = directory.teams ++ team ∷ [] }, team)

pub data Renamed : Type 0 where
  taken missing : Renamed
  renamed : Directory → TeamRecord → Renamed

unfoldable pub rename_team : Directory → String → String → Renamed
unfolding get_team
rename_team directory team_id name = elim (get_team directory team_id) [
  | none ↦ missing
  | some team ↦
      if any (λ t. str_eq t.name name && not (str_eq t.id team_id)) directory.teams
      then taken
      else renamed
          (record directory {
            teams =
                map (λ t. if str_eq t.id team_id then record t { name = name } else t)
                  directory.teams;
          })
          (record team { name = name })
]

unfoldable pub delete_team : Directory → String → Directory
delete_team directory team_id = record directory {
  teams = filter (λ t. not (str_eq t.id team_id)) directory.teams;
}

unfoldable pub members : Directory → String → List UserRecord
members directory team_id = filter (λ u. opt_eq u.team_id (some team_id)) directory.users

-- `team_of` of app/application/teams.py: the team a user is in now
unfoldable pub team_of : Option Directory → Option String → Option String
unfolding get_user
team_of none sub = none
team_of (some directory) none = none
team_of (some directory) (some sub) =
    if is_set (some sub)
    then elim (get_user directory sub) [ none ↦ none | some user ↦ user.team_id ]
    else none
