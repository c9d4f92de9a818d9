-- ===== src/Authorization/Permissions/Grant.antt =====
-- Granting permissions: what `NormalizePermissions` and `CanGrant` let through.
use mujeeb24_backend_go.Common.{
  String, ◌==◌, ==_iff, ◌≡◌, inl, inr, true, List, [], ◌∷◌, arith, Bool-cases,
}
use mujeeb24_backend_go.Authorization.Permissions.{
  ActorContext, permission_all, granted, has_permission, can_grant,
}

-- Who holds "*" holds every permission.
granted_all :
    (gs : List String) (p : String) → granted gs permission_all ≡ true → granted gs p ≡ true
unfolding granted
granted_all [] p h = cc
granted_all (g ∷ gs) p h = ground (arith, ==_iff g permission_all, granted_all gs p)

-- A member who is given the requested permissions holds no permission that the one who granted them
-- lacks.
pub can_grant-has_permission :
    (actor member : ActorContext) (requested : List String) (p : String)
    → can_grant actor requested ≡ true
    → has_permission (record member { permissions = requested }) p ≡ true
    → has_permission actor p ≡ true
unfolding can_grant has_permission granted
can_grant-has_permission actor member [] p h m = cc
can_grant-has_permission actor member (q ∷ requested) p h m =
    elim (Bool-cases (granted actor.permissions q)) [
      | inr lacks ↦ absurd (cc (h, lacks))
      | inl holds ↦ elim (Bool-cases (q == permission_all)) [
        | inl every ↦
            granted_all actor.permissions p (rw ((==_iff q permission_all).0 every) at holds)
        | inr not_every ↦ elim (Bool-cases (q == p)) [
          | inl same_one ↦ rw ((==_iff q p).0 same_one) at holds
          | inr other ↦
              can_grant-has_permission actor member requested p (rw holds at h)
                (rw (not_every, other) at m)
        ]
      ]
    ]
