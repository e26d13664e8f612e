-- ===== src/Visibility/Scope.antt =====
-- The scope rules of `ReferenceGuard` do what they are for: nobody who sees a referrer by its scope is
-- kept from what it uses.
use ai_agents_carrier.Base.{
  String, ◌≡◌, refl, ◌⊎◌, inl, inr, true, false, none, some, arith, opt_eq, opt_eq_refl,
  eq_of_opt_eq, is_set, Bool-cases, Option-cases, one_value,
}
use ai_agents_carrier.Auth.Principal.{Subject}
use ai_agents_carrier.Teams.Directory.{team_of}
use ai_agents_carrier.Visibility.Model.{Visibility, public, team, private, Resource}
use ai_agents_carrier.Visibility.Predicates.{team_of_resource, in_team, owns, can_see_natively}
use ai_agents_carrier.Visibility.Guard.{Platform, scope_violation}
use ai_agents_carrier.Visibility.Sight.{sees_by_scope, can_see_natively-eq}

-- A resource that is shared with a team names one.
abbrev pub HasTeam : Resource → Type 0
HasTeam r = r.visibility ≡ team → is_set r.team_id ≡ true

-- The subject carries the team that the directory has for it.
abbrev pub IsCurrent : Platform → Subject → Type 0
IsCurrent p subject = subject.team_id ≡ team_of p.directory subject.id

-- An owner who shares a resource with a team is in that team still.
abbrev pub IsMember : Subject → Resource → Type 0
IsMember subject r = owns subject r ≡ true → r.visibility ≡ team → in_team subject r ≡ true

Visibility-cases : (v : Visibility) → (v ≡ public) ⊎ ((v ≡ team) ⊎ (v ≡ private))
Visibility-cases public = inl refl
Visibility-cases team = inr (inl refl)
Visibility-cases private = inr (inr refl)

module _ (p : Platform) (subject : Subject) (referrer used : Resource)
    (fits : scope_violation p referrer used ≡ none)
    (sees : sees_by_scope subject referrer ≡ true) where
  public_used : used.visibility ≡ public → sees_by_scope subject used ≡ true
  public_used e = rw e

  same_team :
      used.visibility ≡ team
      → referrer.visibility ≡ team
      → team_of_resource referrer ≡ team_of_resource used
  unfolding scope_violation
  same_team e f =
      let h : opt_eq (team_of_resource referrer) (team_of_resource used) ≡ true = ground arith in
      eq_of_opt_eq _ _ h

  team_used :
      used.visibility ≡ team
      → referrer.visibility ≡ team
      → IsMember subject referrer
      → sees_by_scope subject used ≡ true
  unfolding in_team
  team_used e f stays = ground (arith, same_team e f, stays)

  owners_team :
      used.visibility ≡ team
      → referrer.visibility ≡ private
      → team_of p.directory referrer.owner_id ≡ team_of_resource used
  unfolding scope_violation
  owners_team e f =
      let h : opt_eq (team_of p.directory referrer.owner_id) (team_of_resource used) ≡ true =
        ground arith in
      eq_of_opt_eq _ _ h

  owns-eq : owns subject referrer ≡ true → referrer.owner_id ≡ subject.id
  owns-eq h = elim (Option-cases subject.id) [
    | inl e ↦ absurd (one_value h (rw e))
    | inr (id, e) ↦ rw e (eq_of_opt_eq _ _ (rw e at h))
  ]

  private_sees :
      referrer.visibility ≡ private → subject.is_super_admin ≡ false → owns subject referrer ≡ true
  unfolding in_team
  private_sees f plain = ground arith

  in_team-used :
      (t : String)
      → used.visibility ≡ team
      → used.team_id ≡ some t
      → subject.team_id ≡ some t
      → in_team subject used ≡ true
  unfolding in_team
  in_team-used t e u m = rw (team_of_resource, e, u, m) (opt_eq_refl (some t))

  team_of_resource-used : used.visibility ≡ team → team_of_resource used ≡ used.team_id
  unfolding team_of_resource
  team_of_resource-used e = rw e

  team_used_privately :
      used.visibility ≡ team
      → referrer.visibility ≡ private
      → IsCurrent p subject
      → HasTeam used
      → sees_by_scope subject used ≡ true
  team_used_privately e f current named = elim (Bool-cases subject.is_super_admin) [
    | inl super ↦ ground arith
    | inr plain ↦ elim (Option-cases used.team_id) [
      | inl u ↦ absurd (one_value (named e) (rw u))
      | inr (t, u) ↦
          let owner = owns-eq (private_sees f plain) in
          let member : subject.team_id ≡ some t =
            cc (current, owner, owners_team e f, team_of_resource-used e) in
          let inside = in_team-used t e u member in ground arith
    ]
  ]

  owners_agree : used.visibility ≡ private → used.owner_id ≡ referrer.owner_id
  unfolding scope_violation
  owners_agree e =
      let h : opt_eq used.owner_id referrer.owner_id ≡ true = ground arith in eq_of_opt_eq _ _ h

  only_private : used.visibility ≡ private → referrer.visibility ≡ private
  unfolding scope_violation
  only_private e = ground arith

  private_used : used.visibility ≡ private → sees_by_scope subject used ≡ true
  private_used e = elim (Bool-cases subject.is_super_admin) [
    | inl super ↦ ground arith
    | inr plain ↦
        let own : owns subject used ≡ true =
          rw (owners_agree e) (private_sees (only_private e) plain) in
        ground arith
  ]

  sees_used :
      IsCurrent p subject
      → HasTeam used
      → IsMember subject referrer
      → sees_by_scope subject used ≡ true
  unfolding scope_violation
  sees_used current named stays = elim (Visibility-cases used.visibility) [
    | inl e ↦ public_used e
    | inr (inr e) ↦ private_used e
    | inr (inl e) ↦ elim (Visibility-cases referrer.visibility) [
      | inl f ↦ ground arith
      | inr (inl f) ↦ team_used e f stays
      | inr (inr f) ↦ team_used_privately e f current named
    ]
  ]

-- Where the scope rules let a referrer use a resource that names its team, a subject whose team is the
-- directory's, and who is in the team of a team resource it owns, sees what is used by its scope
-- whenever it sees the referrer so, that is, without a grant.
pub scope_violation_sound :
    (p : Platform) (subject : Subject) (referrer used : Resource)
    → scope_violation p referrer used ≡ none
    → IsCurrent p subject
    → HasTeam used
    → IsMember subject referrer
    → can_see_natively (some subject) referrer ≡ true
    → can_see_natively (some subject) used ≡ true
scope_violation_sound p subject referrer used fits current named stays sees =
    rw can_see_natively-eq
      (sees_used p subject referrer used fits (rw can_see_natively-eq at sees) current named stays)

team_of_resource-team :
    (r : Resource) (t : String)
    → r.visibility ≡ team
    → r.team_id ≡ some t
    → team_of_resource r ≡ some t
unfolding team_of_resource
team_of_resource-team r t e g = rw (e, g)

one_team :
    (p : Platform) (referrer used : Resource) (t : String)
    → referrer.visibility ≡ team
    → used.visibility ≡ team
    → referrer.team_id ≡ some t
    → used.team_id ≡ some t
    → scope_violation p referrer used ≡ none
unfolding scope_violation
one_team p referrer used t f e g u =
    let a = team_of_resource-team referrer t f g in
    let b = team_of_resource-team used t e u in
    let same : opt_eq (team_of_resource referrer) (team_of_resource used) ≡ true =
      rw (a, b) (opt_eq_refl (some t)) in
    ground arith

-- An owner who has left the team that a resource of theirs is shared with still sees it, and no longer
-- sees the team's resources that it uses, although the scope rules let it use them.
pub former_member :
    (p : Platform) (subject : Subject) (referrer used : Resource) (t : String)
    → referrer.visibility ≡ team
    → used.visibility ≡ team
    → referrer.team_id ≡ some t
    → used.team_id ≡ some t
    → owns subject referrer ≡ true
    → owns subject used ≡ false
    → subject.is_super_admin ≡ false
    → opt_eq subject.team_id (some t) ≡ false
    → (scope_violation p referrer used ≡ none)
      × (can_see_natively (some subject) referrer ≡ true)
      × (can_see_natively (some subject) used ≡ false)
former_member p subject referrer used t f e g u own other plain left = (
  one_team p referrer used t f e g u,
  rw can_see_natively-eq (ground arith),
  rw can_see_natively-eq (unfold in_team in ground arith),
)
