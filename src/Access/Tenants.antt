-- ===== src/Access/Tenants.antt =====
-- What an allowed request of internal/rbac/rbac.go rests on.
use mathlib.Core.List.{Memᴰ}
use xg_mangement.Base.{
  String, Bool, true, ◌||◌, Option, some, List, ◌⊎◌, inl, inr, ◌≡◌, ◌≢◌, refl, sym, ap, ◌∙◌,
  is_blank, arith, ⊎-cases, Option-cases, Bool-cases, first, first-append, append-cancel,
}
use xg_mangement.Errors.{GoError}
use xg_mangement.Sessions.Authenticators.{Principal}
use xg_mangement.Access.{
  RolePolicy, UserRole, PolicySnapshot, Grouping, Reaches, same, through, Casbin, user_subject,
  role_subject, new_engine, reload, enforced, is_allowed,
}
use xg_mangement.Access.Engine.{FromAssignments, IsBuilt, new_engine-IsBuilt}

user-role_subject : (a b : String) → user_subject a ≢ role_subject b
unfolding first
user-role_subject a b h = omega (
  arith,
  first-append "user::" a (omega arith),
  first-append "role::" b (omega arith),
  ap first h,
)

module _ {E : Type 0} (casbin : Casbin E) where
  -- a role has no role but itself
  Reaches-role :
      (lines : List Grouping) (assignments : List UserRole) (dom role : String) {a b : String}
      → ((line : Grouping) → Memᴰ line lines → FromAssignments casbin assignments line)
      → a ≡ role_subject role
      → Reaches lines dom a b
      → a ≡ b
  Reaches-role lines assignments dom role from is_role (same e) = e
  Reaches-role lines assignments dom role from is_role (through line m member in_dom rest) =
      let (q, _, s) = from line m in
      absurd (user-role_subject q.user_id role (ap (λ l. l.member) (sym s) ∙ member ∙ is_role))

  -- the only way from a user to a role is an assignment in the domain
  Reaches-assignment :
      (lines : List Grouping) (assignments : List UserRole) (dom user_id role_id : String)
      {a b : String}
      → ((line : Grouping) → Memᴰ line lines → FromAssignments casbin assignments line)
      → a ≡ user_subject user_id
      → b ≡ role_subject role_id
      → Reaches lines dom a b
      → (q : UserRole) × Memᴰ q assignments
        × (q.user_id ≡ user_id)
        × (q.role_id ≡ role_id)
        × (q.organization_id ≡ dom)
  Reaches-assignment lines assignments dom user_id role_id from is_user is_role (same e) =
      absurd (user-role_subject user_id role_id (sym is_user ∙ e ∙ is_role))
  Reaches-assignment lines assignments dom user_id role_id from is_user is_role
        (through line m member in_dom rest) =
      let (q, assigned, s) = from line m in
      let role = ap (λ l. l.role) s in
      let reached = Reaches-role lines assignments dom q.role_id from role rest in
      (
        q,
        assigned,
        append-cancel "user::" _ _ (ap (λ l. l.member) (sym s) ∙ member ∙ is_user),
        append-cancel "role::" _ _ (sym role ∙ reached ∙ is_role),
        ap (λ l. l.dom) (sym s) ∙ in_dom,
      )

  -- The records of a snapshot that let a principal do something.
  pub record IsGranted (snapshot : PolicySnapshot) (principal : Principal) (required : String)
      : Type 0 where
    pub assignment : UserRole
    pub policy : RolePolicy
    pub is_assigned : Memᴰ assignment snapshot.assignments
    pub is_policy : Memᴰ policy snapshot.policies
    pub user : assignment.user_id ≡ principal.user_id
    pub role : assignment.role_id ≡ policy.role_id
    pub assigned_in : assignment.organization_id ≡ principal.organization_id
    pub granted_in : policy.organization_id ≡ principal.organization_id
    pub permission : (policy.permission ≡ "*") ⊎ (policy.permission ≡ required)

  enforce-IsGranted :
      (snapshot : PolicySnapshot) (e : E) (principal : Principal) (required : String)
      → IsBuilt casbin snapshot e
      → casbin.enforce (user_subject principal.user_id) principal.organization_id required "use" e
        ≡ inr true
      → IsGranted snapshot principal required
  enforce-IsGranted snapshot e principal required built h =
      let (line, m, reaches, dom, obj, act) =
        casbin.enforce-allows (user_subject principal.user_id) principal.organization_id required
          "use" e h in
      let (policy, is_policy, s) = built.policies line m in
      let (assignment, is_assigned, user, role, assigned_in) =
        Reaches-assignment (casbin.groupings e) snapshot.assignments principal.organization_id
          principal.user_id policy.role_id built.groupings refl (ap (λ l. l.sub) s) reaches in
      record {
        assignment = assignment;
        policy = policy;
        is_assigned = is_assigned;
        is_policy = is_policy;
        user = user;
        role = role;
        assigned_in = assigned_in;
        granted_in = ap (λ l. l.dom) (sym s) ∙ dom;
        permission = elim obj [
          | inl star ↦ inl (ap (λ l. l.obj) (sym s) ∙ star)
          | inr exact ↦ inr (ap (λ l. l.obj) (sym s) ∙ exact)
        ];
      }

  enforced-true : (x : GoError ⊎ Bool) → enforced casbin x ≡ inr true → x ≡ inr true
  enforced-true (inl x) h = cc
  enforced-true (inr b) h = h

  -- an allowed request has asked the engine
  is_allowed-engine :
      (engine : Option E) (principal : Principal) (required : String)
      → is_allowed casbin engine principal required ≡ inr true
      → (e : E) × (engine ≡ some e)
        × (casbin.enforce
              (user_subject principal.user_id)
              principal.organization_id
              required
              "use"
              e
            ≡ inr true)
  unfolding is_allowed
  is_allowed-engine engine principal required h =
      elim (Bool-cases
        (is_blank principal.user_id || is_blank principal.organization_id || is_blank required)) [
          | inl b ↦ let stuck = rw b at h in cc stuck
          | inr b ↦ elim (Option-cases engine) [
            | inl n ↦ let stuck = rw (b, n) at h in cc stuck
            | inr (e, n) ↦ (e, n, enforced-true _ (rw (b, n) at h))
          ]
        ]

  reload-engine :
      (answer : GoError ⊎ PolicySnapshot) (before : Option E) (e : E)
      → (reload casbin answer before).1 ≡ some e
      → (snapshot : PolicySnapshot) × (answer ≡ inr snapshot) × (new_engine casbin snapshot ≡ inr e)
  unfolding reload
  reload-engine (inl x) before e h = cc
  reload-engine (inr snapshot) before e h = elim (⊎-cases (new_engine casbin snapshot)) [
    | inl (x, w) ↦ let stuck = rw w at h in cc stuck
    | inr (e', w) ↦ (snapshot, refl, w ∙ ap inr (injective (rw w at h)))
  ]
    where
      injective : {x y : E} → ◌≡◌ {A = Option E} (some x) (some y) → x ≡ y
      injective q = cc

  -- After a Reload, whatever the engine was before, a request is allowed only if the Reload had a
  -- policy from the store in which the principal's user has a role in the principal's organisation, and
  -- that role has, in the same organisation, the required permission or the one of all permissions.
  -- Rows of other organisations allow nothing, and after a Reload that failed nothing is allowed.
  pub is_allowed-IsGranted :
      (answer : GoError ⊎ PolicySnapshot) (before : Option E) (principal : Principal)
      (required : String)
      → is_allowed casbin (reload casbin answer before).1 principal required ≡ inr true
      → (snapshot : PolicySnapshot) × (answer ≡ inr snapshot)
        × IsGranted snapshot principal required
  is_allowed-IsGranted answer before principal required h =
      let (e, engine, allowed) =
        is_allowed-engine (reload casbin answer before).1 principal required h in
      let (snapshot, found, built) = reload-engine answer before e engine in
      (
        snapshot,
        found,
        enforce-IsGranted snapshot e principal required (new_engine-IsBuilt casbin snapshot e built)
            allowed,
      )
