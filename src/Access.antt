-- ===== src/Access.antt =====
-- internal/rbac/rbac.go: the permission check. Casbin is an argument, the interface `Casbin`, whose
-- laws are what its documentation says of the model text that newEngine gives it.
pub mod Engine
pub mod Tenants
use mathlib.Core.List.{Memᴰ}
use xg_mangement.Base.{
  String, Bool, true, false, not, ◌||◌, Option, none, some, List, [], ◌∷◌, ◌⊎◌, inl, inr, ◌≡◌,
  if◌then◌else◌, ◌=ₛ◌, is_blank,
}
use xg_mangement.Errors.{GoError, plain, wrap, ◌⁀◌}
use xg_mangement.Sessions.Authenticators.{Principal}

pub record RolePolicy : Type 0 where
  pub role_id : String
  pub organization_id : String
  pub permission : String

pub record UserRole : Type 0 where
  pub user_id : String
  pub role_id : String
  pub organization_id : String

pub record PolicySnapshot : Type 0 where
  pub policies : List RolePolicy
  pub assignments : List UserRole

-- A line `p` of a policy: sub, dom, obj, act; and a line `g`: user, role, domain.
pub record Policy : Type 0 where
  pub sub : String
  pub dom : String
  pub obj : String
  pub act : String

pub record Grouping : Type 0 where
  pub member : String
  pub role : String
  pub dom : String

-- g(a, b, dom): `b` is `a`, or a role of `a` in the domain through a chain of lines.
pub data Reaches (lines : List Grouping) (dom : String) : String → String → Type 0 where
  same : {a b : String} → a ≡ b → Reaches lines dom a b
  through :
      {a b : String} (line : Grouping)
      → Memᴰ line lines
      → line.member ≡ a
      → line.dom ≡ dom
      → Reaches lines dom line.role b
      → Reaches lines dom a b

-- A casbin.Enforcer with the model text of rbac.go: its lines are those added, and it allows a
-- request only by the matcher
--   g(r.sub, p.sub, r.dom) && r.dom == p.dom && (p.obj == "*" || r.obj == p.obj) && r.act == p.act
pub record Casbin (E : Type 0) : Type 0 where
  pub new_enforcer : GoError ⊎ E
  pub add_policy : Policy → E → GoError ⊎ E
  pub add_grouping_policy : Grouping → E → GoError ⊎ E
  pub enforce : (sub dom obj act : String) → E → GoError ⊎ Bool
  pub policies : E → List Policy
  pub groupings : E → List Grouping
  pub new_enforcer-empty : (e : E) → new_enforcer ≡ inr e → (policies e ≡ []) × (groupings e ≡ [])
  pub add_policy-lines :
      (p : Policy) (e e' : E)
      → add_policy p e ≡ inr e'
      → (policies e' ≡ p ∷ policies e) ⊎ (policies e' ≡ policies e)
  pub add_policy-groupings :
      (p : Policy) (e e' : E) → add_policy p e ≡ inr e' → groupings e' ≡ groupings e
  pub add_grouping-lines :
      (g : Grouping) (e e' : E)
      → add_grouping_policy g e ≡ inr e'
      → (groupings e' ≡ g ∷ groupings e) ⊎ (groupings e' ≡ groupings e)
  pub add_grouping-policies :
      (g : Grouping) (e e' : E) → add_grouping_policy g e ≡ inr e' → policies e' ≡ policies e
  pub enforce-allows :
      (sub dom obj act : String) (e : E)
      → enforce sub dom obj act e ≡ inr true
      → (p : Policy) × Memᴰ p (policies e)
        × Reaches (groupings e) dom sub p.sub
        × (p.dom ≡ dom)
        × ((p.obj ≡ "*") ⊎ (p.obj ≡ obj))
        × (p.act ≡ act)

abbrev pub user_subject : String → String
user_subject id = "user::" ⁀ id

abbrev pub role_subject : String → String
role_subject id = "role::" ⁀ id

module _ {E : Type 0} (casbin : Casbin E) where
  abbrev pub policy_line : RolePolicy → Policy
  policy_line p = record {
    sub = role_subject p.role_id;
    dom = p.organization_id;
    obj = p.permission;
    act = "use";
  }

  abbrev pub grouping_line : UserRole → Grouping
  grouping_line a = record {
    member = user_subject a.user_id;
    role = role_subject a.role_id;
    dom = a.organization_id;
  }

  -- the first loop of newEngine
  unfoldable pub add_policies : List RolePolicy → E → GoError ⊎ E
  add_policies [] e = inr e
  add_policies (p ∷ ps) e =
      if p.role_id =ₛ "" || p.organization_id =ₛ "" || p.permission =ₛ ""
      then inl (plain "invalid role policy")
      else elim (casbin.add_policy (policy_line p) e) [
        | inl x ↦ inl (wrap "add role policy" x)
        | inr e' ↦ add_policies ps e'
      ]

  -- the second loop
  unfoldable pub add_assignments : List UserRole → E → GoError ⊎ E
  add_assignments [] e = inr e
  add_assignments (a ∷ rest) e =
      if a.user_id =ₛ "" || a.role_id =ₛ "" || a.organization_id =ₛ ""
      then inl (plain "invalid user role assignment")
      else elim (casbin.add_grouping_policy (grouping_line a) e) [
        | inl x ↦ inl (wrap "add user role assignment" x)
        | inr e' ↦ add_assignments rest e'
      ]

  -- newEngine; the model text is a constant, which Casbin reads
  unfoldable pub new_engine : PolicySnapshot → GoError ⊎ E
  new_engine snapshot = elim casbin.new_enforcer [
    | inl x ↦ inl (wrap "create Casbin enforcer" x)
    | inr e ↦ elim (add_policies snapshot.policies e) [
      | inl x ↦ inl x
      | inr e' ↦ add_assignments snapshot.assignments e'
    ]
  ]

  -- what Reload makes of the answer of LoadRBACPolicy
  abbrev pub loaded : GoError ⊎ PolicySnapshot → GoError ⊎ E
  loaded (inl x) = inl (wrap "load RBAC policy" x)
  loaded (inr snapshot) = new_engine snapshot

  abbrev pub installed : GoError ⊎ E → Option GoError × Option E
  installed (inl x) = (some x, none)
  installed (inr e) = (none, some e)

  -- Reload: the engine is cleared before the policy is loaded, and set when a new one is built
  unfoldable pub reload : GoError ⊎ PolicySnapshot → Option E → Option GoError × Option E
  reload answer engine = installed (loaded answer)

  abbrev pub enforced : GoError ⊎ Bool → GoError ⊎ Bool
  enforced (inl x) = inl (wrap "enforce RBAC policy" x)
  enforced (inr b) = inr b

  -- Authorizer.Allowed
  unfoldable pub is_allowed : Option E → Principal → String → GoError ⊎ Bool
  is_allowed engine principal required =
      if is_blank principal.user_id || is_blank principal.organization_id || is_blank required
      then inr false
      else elim engine [
        | none ↦ inl (plain "RBAC policy is not loaded")
        | some e ↦ enforced (
            casbin.enforce (user_subject principal.user_id) principal.organization_id required "use"
              e)
      ]
