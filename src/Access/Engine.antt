-- ===== src/Access/Engine.antt =====
-- The lines of an engine that newEngine of internal/rbac/rbac.go builds.
use mathlib.Core.List.{Memᴰ}
use mathlib.Core.Path.{subst}
use xg_mangement.Base.{
  ◌||◌, List, [], ◌∷◌, ◌⊎◌, inl, inr, ◌≡◌, refl, ◌∙◌, ◌=ₛ◌, ⊎-cases, Bool-cases,
}
use xg_mangement.Errors.{GoError}
use xg_mangement.Access.{
  RolePolicy, UserRole, PolicySnapshot, Policy, Grouping, Casbin, policy_line, grouping_line,
  add_policies, add_assignments, new_engine,
}

some_injective : {A : Type 0} {x y : A} → ◌≡◌ {A = GoError ⊎ A} (inr x) (inr y) → x ≡ y
some_injective q = cc

module _ {E : Type 0} (casbin : Casbin E) where
  -- A line that one of the records stands for.
  abbrev pub FromPolicies : List RolePolicy → Policy → Type 0
  FromPolicies ps line = (q : RolePolicy) × Memᴰ q ps × (line ≡ policy_line casbin q)

  abbrev pub FromAssignments : List UserRole → Grouping → Type 0
  FromAssignments rest line = (a : UserRole) × Memᴰ a rest × (line ≡ grouping_line casbin a)

  add_policies-lines :
      (ps : List RolePolicy) (e e' : E)
      → add_policies casbin ps e ≡ inr e'
      → (casbin.groupings e' ≡ casbin.groupings e)
        × ((line : Policy)
            → Memᴰ line (casbin.policies e')
            → Memᴰ line (casbin.policies e) ⊎ FromPolicies ps line)
  unfolding add_policies
  add_policies-lines [] e e' h =
      let same_engine = some_injective h in rw (← same_engine) (refl, λ line m. inl m)
  add_policies-lines (p ∷ ps) e e' h =
      elim (Bool-cases (p.role_id =ₛ "" || p.organization_id =ₛ "" || p.permission =ₛ "")) [
        | inl b ↦ let stuck = rw b at h in cc stuck
        | inr b ↦ elim (⊎-cases (casbin.add_policy (policy_line casbin p) e)) [
          | inl (x, w) ↦ let stuck = rw (b, w) at h in cc stuck
          | inr (e1, w) ↦
              let (kept, lines) = add_policies-lines ps e1 e' (rw (b, w) at h) in
              (
                kept ∙ casbin.add_policy-groupings (policy_line casbin p) e e1 w,
                λ line m.
                    widen line (lines line m)
                      (casbin.add_policy-lines (policy_line casbin p) e e1 w),
              )
        ]
      ]
    where
      widen :
          {e1 : E} (line : Policy)
          → Memᴰ line (casbin.policies e1) ⊎ FromPolicies ps line
          → (casbin.policies e1 ≡ policy_line casbin p ∷ casbin.policies e)
            ⊎ (casbin.policies e1 ≡ casbin.policies e)
          → Memᴰ line (casbin.policies e) ⊎ FromPolicies (p ∷ ps) line
      widen line (inr (q, m, s)) added = inr (q, Memᴰ.tail m, s)
      widen line (inl m) (inr unchanged) = inl (subst (λ l. Memᴰ line l) unchanged m)
      widen line (inl m) (inl added) = head_or (subst (λ l. Memᴰ line l) added m)
        where
          head_or :
              Memᴰ line (policy_line casbin p ∷ casbin.policies e)
              → Memᴰ line (casbin.policies e) ⊎ FromPolicies (p ∷ ps) line
          head_or (Memᴰ.head s) = inr (p, Memᴰ.head refl, s)
          head_or (Memᴰ.tail m) = inl m

  add_assignments-lines :
      (assignments : List UserRole) (e e' : E)
      → add_assignments casbin assignments e ≡ inr e'
      → (casbin.policies e' ≡ casbin.policies e)
        × ((line : Grouping)
            → Memᴰ line (casbin.groupings e')
            → Memᴰ line (casbin.groupings e) ⊎ FromAssignments assignments line)
  unfolding add_assignments
  add_assignments-lines [] e e' h =
      let same_engine = some_injective h in rw (← same_engine) (refl, λ line m. inl m)
  add_assignments-lines (a ∷ rest) e e' h =
      elim (Bool-cases (a.user_id =ₛ "" || a.role_id =ₛ "" || a.organization_id =ₛ "")) [
        | inl b ↦ let stuck = rw b at h in cc stuck
        | inr b ↦ elim (⊎-cases (casbin.add_grouping_policy (grouping_line casbin a) e)) [
          | inl (x, w) ↦ let stuck = rw (b, w) at h in cc stuck
          | inr (e1, w) ↦
              let (kept, lines) = add_assignments-lines rest e1 e' (rw (b, w) at h) in
              (
                kept ∙ casbin.add_grouping-policies (grouping_line casbin a) e e1 w,
                λ line m.
                    widen line (lines line m)
                      (casbin.add_grouping-lines (grouping_line casbin a) e e1 w),
              )
        ]
      ]
    where
      widen :
          {e1 : E} (line : Grouping)
          → Memᴰ line (casbin.groupings e1) ⊎ FromAssignments rest line
          → (casbin.groupings e1 ≡ grouping_line casbin a ∷ casbin.groupings e)
            ⊎ (casbin.groupings e1 ≡ casbin.groupings e)
          → Memᴰ line (casbin.groupings e) ⊎ FromAssignments (a ∷ rest) line
      widen line (inr (q, m, s)) added = inr (q, Memᴰ.tail m, s)
      widen line (inl m) (inr unchanged) = inl (subst (λ l. Memᴰ line l) unchanged m)
      widen line (inl m) (inl added) = head_or (subst (λ l. Memᴰ line l) added m)
        where
          head_or :
              Memᴰ line (grouping_line casbin a ∷ casbin.groupings e)
              → Memᴰ line (casbin.groupings e) ⊎ FromAssignments (a ∷ rest) line
          head_or (Memᴰ.head s) = inr (a, Memᴰ.head refl, s)
          head_or (Memᴰ.tail m) = inl m

  -- An engine whose lines all stand for records of a snapshot.
  pub record IsBuilt (snapshot : PolicySnapshot) (e : E) : Type 0 where
    pub policies :
        (line : Policy) → Memᴰ line (casbin.policies e) → FromPolicies snapshot.policies line
    pub groupings :
        (line : Grouping)
        → Memᴰ line (casbin.groupings e)
        → FromAssignments snapshot.assignments line

  pub new_engine-IsBuilt :
      (snapshot : PolicySnapshot) (e : E) → new_engine casbin snapshot ≡ inr e → IsBuilt snapshot e
  unfolding new_engine
  new_engine-IsBuilt snapshot e h = elim (⊎-cases casbin.new_enforcer) [
    | inl (x, w) ↦ let stuck = rw w at h in cc stuck
    | inr (e0, w) ↦ elim (⊎-cases (add_policies casbin snapshot.policies e0)) [
      | inl (x, v) ↦ let stuck = rw (w, v) at h in cc stuck
      | inr (e1, v) ↦
          let (no_policy, no_grouping) = casbin.new_enforcer-empty e0 w in
          let (groupings, policies) = add_policies-lines snapshot.policies e0 e1 v in
          let (kept, assigned) = add_assignments-lines snapshot.assignments e1 e (rw (w, v) at h) in
          record {
            policies =
                λ line m. from_empty no_policy (policies line (subst (λ l. Memᴰ line l) kept m));
            groupings = λ line m. from_empty (groupings ∙ no_grouping) (assigned line m);
          }
    ]
  ]
    where
      from_empty : {A B : Type 0} {x : A} {xs : List A} → xs ≡ [] → Memᴰ x xs ⊎ B → B
      from_empty none_left (inr b) = b
      from_empty {x = x} none_left (inl m) = elim (subst (λ l. Memᴰ x l) none_left m) [ ]
