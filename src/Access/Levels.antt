-- ===== src/Access/Levels.antt =====
-- The folds of permission levels compute maxima (permLevelRank, foldMax, foldPermissions,
-- GetPermissions, teams.MergePermissions).
use team_manager.Base.{
  ℕ, ◌≤◌, max, ◌≡◌, refl, ap, ◌∙◌, ◌⊎◌, ◌↔◌, inl, inr, true, String, str_eq, str_eq_iff, List, [],
  ◌∷◌, In, arith,
}
use team_manager.Access.Permissions.{
  PermissionsJson, Module, level, all_none, perm_level_rank, fold_max, fold_permissions,
  effective_from, effective_permissions, order, merge, merge_permissions, merge_from, merge_role,
}

pub rank-fold_max :
    (a b : String) → perm_level_rank (fold_max a b) ≡ max (perm_level_rank a) (perm_level_rank b)
unfolding fold_max
rank-fold_max a b = ground arith

pub fold_max_either : (a b : String) → (fold_max a b ≡ a) ⊎ (fold_max a b ≡ b)
unfolding fold_max
fold_max_either a b = ground arith

level-fold_permissions :
    (a b : PermissionsJson) (m : Module)
    → level (fold_permissions a b) m ≡ fold_max (level a m) (level b m)
unfolding fold_permissions
level-fold_permissions a b Module.events = refl
level-fold_permissions a b Module.members = refl
level-fold_permissions a b Module.finances = refl
level-fold_permissions a b Module.news = refl
level-fold_permissions a b Module.polls = refl
level-fold_permissions a b Module.settings = refl
level-fold_permissions a b Module.stats = refl

order-eq-rank : (l : String) → order l ≡ perm_level_rank l
unfolding order perm_level_rank
order-eq-rank l = ground (
  arith,
  str_eq_iff l "write",
  str_eq_iff l "read",
  str_eq_iff "write" l,
  str_eq_iff "read" l,
  str_eq_iff "none" l,
  str_eq_iff "none" "read",
  str_eq_iff "none" "write",
  str_eq_iff "read" "write",
)

merge-eq-fold_max : (a b : String) → merge a b ≡ fold_max a b
unfolding merge fold_max
merge-eq-fold_max a b = rw (order-eq-rank a, order-eq-rank b)

merge_from-eq :
    (eff : PermissionsJson) (ps : List PermissionsJson) → merge_from eff ps ≡ effective_from eff ps
unfolding merge_from effective_from merge_role fold_permissions
merge_from-eq eff [] = refl
merge_from-eq eff (p ∷ ps) = simp merge-eq-fold_max (merge_from-eq (fold_permissions eff p) ps)

-- teams.MergePermissions, which the team list and team page report, and the fold of
-- members.GetPermissions, which the middleware enforces, give the same permissions for the same
-- roles.
pub merge_permissions-eq-effective :
    (ps : List PermissionsJson) → merge_permissions ps ≡ effective_permissions ps
unfolding merge_permissions effective_permissions
merge_permissions-eq-effective ps = merge_from-eq all_none ps

-- The rank of a level, as the folds compare it.
abbrev pub rank_at : PermissionsJson → Module → ℕ
rank_at p m = perm_level_rank (level p m)

rank_at-fold :
    (a b : PermissionsJson) (m : Module)
    → rank_at (fold_permissions a b) m ≡ max (rank_at a m) (rank_at b m)
rank_at-fold a b m =
    ap perm_level_rank (level-fold_permissions a b m) ∙ rank-fold_max (level a m) (level b m)

effective_from_ge :
    (eff : PermissionsJson) (ps : List PermissionsJson) (m : Module)
    → rank_at eff m ≤ rank_at (effective_from eff ps) m
unfolding effective_from
effective_from_ge eff [] m = omega arith
effective_from_ge eff (p ∷ ps) m =
    omega (arith, effective_from_ge (fold_permissions eff p) ps m, rank_at-fold eff p m)

effective_from_upper :
    (eff : PermissionsJson) (ps : List PermissionsJson) (m : Module) (p : PermissionsJson)
    → In p ps
    → rank_at p m ≤ rank_at (effective_from eff ps) m
unfolding effective_from
effective_from_upper eff [] m p i = elim i [ ]
effective_from_upper eff (q ∷ ps) m p (inl e) =
    rw e (omega (arith, effective_from_ge (fold_permissions eff q) ps m, rank_at-fold eff q m))
effective_from_upper eff (q ∷ ps) m p (inr i) =
    effective_from_upper (fold_permissions eff q) ps m p i

effective_from_attained :
    (eff : PermissionsJson) (ps : List PermissionsJson) (m : Module)
    → (level (effective_from eff ps) m ≡ level eff m)
      ⊎ ((p : PermissionsJson) × In p ps × (level (effective_from eff ps) m ≡ level p m))
unfolding effective_from
effective_from_attained eff [] m = inl refl
effective_from_attained eff (q ∷ ps) m =
    elim (effective_from_attained (fold_permissions eff q) ps m) [
      | inl e ↦ elim (fold_max_either (level eff m) (level q m)) [
        | inl k ↦ inl (e ∙ level-fold_permissions eff q m ∙ k)
        | inr k ↦ inr (q, inl refl, e ∙ level-fold_permissions eff q m ∙ k)
      ]
      | inr (p, i, e) ↦ inr (p, inr i, e)
    ]

-- On every module the effective level of a member is the greatest level that any role grants: it
-- ranks at least as high as each role's level, and it is "none" or the level of one of the roles.
pub effective_permissions_greatest :
    (ps : List PermissionsJson) (m : Module)
    → ((p : PermissionsJson) → In p ps → rank_at p m ≤ rank_at (effective_permissions ps) m)
      × ((level (effective_permissions ps) m ≡ "none")
          ⊎ ((p : PermissionsJson) × In p ps × (level (effective_permissions ps) m ≡ level p m)))
unfolding effective_permissions
effective_permissions_greatest ps m = (
  effective_from_upper all_none ps m,
  elim (effective_from_attained all_none ps m) [ inl e ↦ inl (e ∙ none_level m) | inr w ↦ inr w ],
)
  where
    none_level : (k : Module) → level all_none k ≡ "none"
    none_level Module.events = refl
    none_level Module.members = refl
    none_level Module.finances = refl
    none_level Module.news = refl
    none_level Module.polls = refl
    none_level Module.settings = refl
    none_level Module.stats = refl

pub rank_write : (l : String) → (str_eq l "write" ≡ true) ↔ (perm_level_rank l ≡ 2)
unfolding perm_level_rank
rank_write l = ground arith
