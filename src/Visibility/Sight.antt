-- ===== src/Visibility/Sight.antt =====
-- How the predicates of app/application/visibility.py stand to one another.
use ai_agents_carrier.Base.{
  String, ◌≡◌, refl, inl, inr, Bool, true, false, ◌||◌, Option, none, some, arith, opt_eq,
  opt_eq_refl, eq_of_opt_eq, is_set, truthy, Bool-cases, Option-cases, one_value,
}
use ai_agents_carrier.Auth.Principal.{Subject}
use ai_agents_carrier.Visibility.Model.{Resource}
use ai_agents_carrier.Visibility.Predicates.{
  in_team, grant_of, user_grant, present, is_public, owns, subject_sees, can_see, can_see_natively,
  can_manage, can_edit, can_change_visibility,
}

module _ (subject : Subject) (r : Resource) where
  -- what lets a subject see a resource without a grant
  abbrev pub sees_by_scope : Bool
  sees_by_scope =
      is_public r.visibility || subject.is_super_admin || owns subject r || in_team subject r

  pub subject_sees-eq :
      subject_sees subject r ≡ (sees_by_scope || present (user_grant r subject.id))
  unfolding subject_sees
  subject_sees-eq = ground arith

  owns-opt_eq : is_set subject.id ≡ true → opt_eq r.owner_id subject.id ≡ owns subject r
  owns-opt_eq h = elim (Option-cases subject.id) [
    | inl e ↦ absurd (one_value h (rw e))
    | inr (id, e) ↦ rw e
  ]

  present_needs_id : is_set subject.id ≡ false → present (user_grant r subject.id) ≡ false
  unfolding grant_of
  present_needs_id h = elim (Option-cases subject.id) [
    | inl e ↦ rw (e, grant_of)
    | inr (id, e) ↦ let f : truthy id ≡ false = rw e at h in rw (e, grant_of) (rw f)
  ]

  pub can_see_natively-eq : can_see_natively (some subject) r ≡ sees_by_scope
  unfolding can_see_natively
  can_see_natively-eq = elim (Bool-cases (is_set subject.id)) [
    | inr unset ↦ rw (unset, subject_sees-eq, present_needs_id unset) (ground arith)
    | inl set ↦ rw (set, owns-opt_eq set, subject_sees-eq) (ground arith)
  ]

  owner-owns :
      (owner : String) → r.owner_id ≡ some owner → subject.id ≡ some owner → owns subject r ≡ true
  owner-owns owner e f = rw f (rw e (opt_eq_refl (some owner)))

  manager_sees : can_manage (some subject) r ≡ true → sees_by_scope ≡ true
  unfolding can_manage
  manager_sees h = elim (Option-cases r.owner_id) [
    | inl e ↦ ground (arith, rw e at h)
    | inr (owner, e) ↦ elim (Bool-cases subject.is_super_admin) [
      | inl super ↦ ground arith
      | inr plain ↦
          let own = owner-owns owner e (eq_of_opt_eq _ _ (rw (plain, e) at h)) in ground arith
    ]
  ]

  manager-can_see : can_manage (some subject) r ≡ true → subject_sees subject r ≡ true
  manager-can_see h = ground (arith, subject_sees-eq, manager_sees h)

  editor-can_see : can_edit (some subject) r ≡ true → subject_sees subject r ≡ true
  unfolding can_edit
  editor-can_see h = ground (arith, subject_sees-eq, manager_sees)

  rescoper-can_see : can_change_visibility (some subject) r ≡ true → subject_sees subject r ≡ true
  unfolding can_change_visibility
  rescoper-can_see h = ground (arith, subject_sees-eq, manager_sees)

-- Whoever may manage a resource, edit it or change who sees it, can see it.
pub change_needs_sight :
    (who : Option Subject) (r : Resource)
    → (can_manage who r || can_edit who r || can_change_visibility who r) ≡ true
    → can_see who r ≡ true
unfolding can_see
change_needs_sight none r h = refl
change_needs_sight (some subject) r h =
    ground (arith, manager-can_see subject r, editor-can_see subject r, rescoper-can_see subject r)
