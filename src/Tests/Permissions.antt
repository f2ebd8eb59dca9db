-- ===== src/Tests/Permissions.antt =====
-- A Casbin that keeps its lines in two lists and follows one assignment.
use mathlib.Core.List.{Memᴰ}
use xg_mangement.Base.{
  ◌≡◌, refl, sym, ap, String, Bool, true, false, ◌&&◌, ◌||◌, none, List, [], ◌∷◌, ◌⊎◌, inl, inr,
  ◌=ₛ◌, eq_iff, any, Bool-cases, trim_space, both,
}
use xg_mangement.Errors.{GoError}
use xg_mangement.Sessions.Authenticators.{Principal}
use xg_mangement.Access.{
  PolicySnapshot, Policy, Grouping, Reaches, same, through, Casbin, new_engine, add_policies,
  add_assignments, reload, is_allowed,
}
use xg_mangement.Access.Tenants.{IsGranted, is_allowed-IsGranted}

abbrev Lines : Type 0
Lines = List Policy × List Grouping

abbrev leads : (sub dom : String) → Policy → Grouping → Bool
leads sub dom p g = g.member =ₛ sub && (g.dom =ₛ dom && g.role =ₛ p.sub)

abbrev grants : (sub dom obj act : String) → List Grouping → Policy → Bool
grants sub dom obj act gs p =
    any (leads sub dom p) gs && (p.dom =ₛ dom && ((p.obj =ₛ "*" || p.obj =ₛ obj) && p.act =ₛ act))

found :
    {A : Type 0} (test : A → Bool) (xs : List A)
    → any test xs ≡ true
    → (x : A) × Memᴰ x xs × (test x ≡ true)
found test [] h = cc
found test (x ∷ xs) h = elim (Bool-cases (test x)) [
  | inl e ↦ (x, Memᴰ.head refl, e)
  | inr e ↦ let (y, m, t) = found test xs (rw e at h) in (y, Memᴰ.tail m, t)
]

one_of : (a b : Bool) → (a || b) ≡ true → (a ≡ true) ⊎ (b ≡ true)
one_of true b h = inl refl
one_of false true h = inr refl
one_of false false h = cc

allows :
    (sub dom obj act : String) (e : Lines)
    → ◌≡◌ {A = GoError ⊎ Bool} (inr (any (grants sub dom obj act e.1) e.0)) (inr true)
    → (p : Policy) × Memᴰ p e.0
      × Reaches e.1 dom sub p.sub
      × (p.dom ≡ dom)
      × ((p.obj ≡ "*") ⊎ (p.obj ≡ obj))
      × (p.act ≡ act)
allows sub dom obj act (ps, gs) h =
    let (p, is_line, t) = found (grants sub dom obj act gs) ps (injective h) in
    let (led, t1) = both (any (leads sub dom p) gs) _ t in
    let (in_dom, t2) = both (p.dom =ₛ dom) _ t1 in
    let (object, action) = both (p.obj =ₛ "*" || p.obj =ₛ obj) _ t2 in
    let (g, is_grouping, u) = found (leads sub dom p) gs led in
    let (member, u1) = both (g.member =ₛ sub) _ u in
    let (g_dom, role) = both (g.dom =ₛ dom) _ u1 in
    (
      p,
      is_line,
      through g is_grouping ((eq_iff g.member sub).0 member) ((eq_iff g.dom dom).0 g_dom)
          (same ((eq_iff g.role p.sub).0 role)),
      (eq_iff p.dom dom).0 in_dom,
      elim (one_of (p.obj =ₛ "*") (p.obj =ₛ obj) object) [
        | inl e ↦ inl ((eq_iff p.obj "*").0 e)
        | inr e ↦ inr ((eq_iff p.obj obj).0 e)
      ],
      (eq_iff p.act act).0 action,
    )
  where
    injective : {x y : Bool} → ◌≡◌ {A = GoError ⊎ Bool} (inr x) (inr y) → x ≡ y
    injective q = cc

lines_injective : {x y : Lines} → ◌≡◌ {A = GoError ⊎ Lines} (inr x) (inr y) → x ≡ y
lines_injective q = cc

casbin : Casbin Lines
casbin = record {
  new_enforcer = inr ([], []);
  add_policy = λ p e. inr (p ∷ e.0, e.1);
  add_grouping_policy = λ g e. inr (e.0, g ∷ e.1);
  enforce = λ sub dom obj act e. inr (any (grants sub dom obj act e.1) e.0);
  policies = λ e. e.0;
  groupings = λ e. e.1;
  new_enforcer-empty =
      λ e h. (ap (λ l. l.0) (sym (lines_injective h)), ap (λ l. l.1) (sym (lines_injective h)));
  add_policy-lines = λ p e e' h. inl (ap (λ l. l.0) (sym (lines_injective h)));
  add_policy-groupings = λ p e e' h. ap (λ l. l.1) (sym (lines_injective h));
  add_grouping-lines = λ g e e' h. inl (ap (λ l. l.1) (sym (lines_injective h)));
  add_grouping-policies = λ g e e' h. ap (λ l. l.0) (sym (lines_injective h));
  enforce-allows = allows;
}

abbrev snapshot : PolicySnapshot
snapshot = record {
  policies =
      record { role_id = "editor"; organization_id = "o"; permission = "stores:read" }
      ∷ record { role_id = "editor"; organization_id = "other"; permission = "rbac:manage" }
      ∷ [];
  assignments = record { user_id = "u"; role_id = "editor"; organization_id = "o" } ∷ [];
}

abbrev principal : Principal
principal = record { user_id = "u"; organization_id = "o"; display_name = "U"; permissions = [] }

allowed : is_allowed casbin (reload casbin (inr snapshot) none).1 principal "stores:read" ≡ inr true
unfolding is_allowed reload new_engine add_policies add_assignments casbin trim_space
allowed = refl

-- the policy of another organisation does not help
denied : is_allowed casbin (reload casbin (inr snapshot) none).1 principal "rbac:manage" ≡ inr false
unfolding is_allowed reload new_engine add_policies add_assignments casbin trim_space
denied = refl

is_allowed-IsGranted_example :
    (s : PolicySnapshot) × (◌≡◌ {A = GoError ⊎ PolicySnapshot} (inr snapshot) (inr s))
    × IsGranted casbin s principal "stores:read"
is_allowed-IsGranted_example =
    is_allowed-IsGranted casbin (inr snapshot) none principal "stores:read" allowed
