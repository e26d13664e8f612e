-- ===== src/Teams/Tests.antt =====
-- An admin of a team who takes somebody in.
use ai_agents_carrier.Base.{none, some, [], ◌∷◌, ◌≡◌, refl, false, ◌⊎◌}
use ai_agents_carrier.Auth.Principal.{Subject}
use ai_agents_carrier.Teams.Directory.{Directory, get_user, set_membership}
use ai_agents_carrier.Teams.Reach
use ai_agents_carrier.Teams.Reach.{IsMoved, perform, perform-Reached}

abbrev lead : Subject
lead = record {
  id = some "lea";
  name = none;
  is_super_admin = false;
  team_id = some "red";
  team_role = some "admin";
}

abbrev directory : Directory
directory = record {
  users =
      record { sub = "lea"; name = none; team_id = some "red"; team_role = some "admin" }
      ∷ record { sub = "bob"; name = none; team_id = none; team_role = none }
      ∷ [];
  teams = record { id = "red"; name = "Red" } ∷ [];
}

abbrev taken_in : Directory
taken_in = set_membership directory "bob" (some "red") (some "member")

perform-Reached_example :
    (taken_in.teams ≡ directory.teams)
    × ((get_user taken_in "bob" ≡ get_user directory "bob")
        ⊎ IsMoved lead (get_user directory "bob") (get_user taken_in "bob"))
unfolding perform
perform-Reached_example =
    perform-Reached lead (Reach.set "red" "bob" none) directory taken_in "bob" refl refl
