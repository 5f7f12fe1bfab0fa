-- ===== src/Scheduler/Groups.antt =====
-- src/scheduler.js: `byTenant`, the due schedules grouped by their tenants.
use mathlib.Core.List.{Perm, perm_middle}
use mathlib.Core.List.Perm
use web_resource_ledger.Prelude.{
  ◌≡◌, refl, sym, subst, List, [], ◌∷◌, ◌++◌, true, false, inl, inr, All, All-append, Bool-cases,
  append_assoc,
}
use web_resource_ledger.Prelude.Texts.{Text, text_eq, text_eq_iff}
use web_resource_ledger.Scheduler.{Schedule, add_to_group, group_by_tenant}

module _ {A B : Type 0} where
  -- The lists of the elements, one after the other.
  abbrev pub flat_map : (A → List B) → List A → List B
  flat_map f [] = []
  flat_map f (x ∷ xs) = f x ++ flat_map f xs

abbrev pub schedules_of : List (Text × List Schedule) → List Schedule
schedules_of groups = flat_map (λ g. g.1) groups

-- A group has only schedules of its tenant, and no two groups have the same tenant.
abbrev pub IsOwn : Text × List Schedule → Type 0
IsOwn (tenant, schedules) = All (λ s. text_eq tenant s.tenant_id ≡ true) schedules

abbrev pub AreDistinct : List (Text × List Schedule) → Type 0
AreDistinct [] = Unit
AreDistinct ((tenant, schedules) ∷ groups) =
    All (λ g. text_eq tenant g.0 ≡ false) groups × AreDistinct groups

add_to_group-perm :
    (s : Schedule) (groups : List (Text × List Schedule))
    → Perm (schedules_of (add_to_group s groups)) (s ∷ schedules_of groups)
unfolding add_to_group
add_to_group-perm s [] = Perm.refl (s ∷ [])
add_to_group-perm s ((tenant, schedules) ∷ groups) =
    elim (Bool-cases (text_eq tenant s.tenant_id)) [
      | inl same ↦ rw same (
          subst (λ l. Perm l (s ∷ (schedules ++ schedules_of groups)))
            (sym (append_assoc schedules (s ∷ []) (schedules_of groups)))
            (perm_middle schedules (schedules_of groups)))
      | inr other ↦ rw other (
          Perm.trans (Perm.append_left schedules (add_to_group-perm s groups))
            (perm_middle schedules (schedules_of groups)))
    ]

add_to_group-IsOwn :
    (s : Schedule) (groups : List (Text × List Schedule))
    → text_eq s.tenant_id s.tenant_id ≡ true
    → All IsOwn groups
    → All IsOwn (add_to_group s groups)
unfolding add_to_group
add_to_group-IsOwn s [] self h = ((self, tt), tt)
add_to_group-IsOwn s ((tenant, schedules) ∷ groups) self (this, others) =
    elim (Bool-cases (text_eq tenant s.tenant_id)) [
      | inl same ↦ rw same (
        All-append (λ s'. text_eq tenant s'.tenant_id ≡ true) schedules (s ∷ []) this (same, tt),
        others,
      )
      | inr other ↦ rw other (this, add_to_group-IsOwn s groups self others)
    ]

add_to_group-differs :
    (tenant : Text) (s : Schedule) (groups : List (Text × List Schedule))
    → text_eq tenant s.tenant_id ≡ false
    → All (λ g. text_eq tenant g.0 ≡ false) groups
    → All (λ g. text_eq tenant g.0 ≡ false) (add_to_group s groups)
unfolding add_to_group
add_to_group-differs tenant s [] differs h = (differs, tt)
add_to_group-differs tenant s ((owner, schedules) ∷ groups) differs (this, others) =
    elim (Bool-cases (text_eq owner s.tenant_id)) [
      | inl same ↦ rw same (this, others)
      | inr other ↦ rw other (this, add_to_group-differs tenant s groups differs others)
    ]

add_to_group-AreDistinct :
    (s : Schedule) (groups : List (Text × List Schedule))
    → AreDistinct groups
    → AreDistinct (add_to_group s groups)
unfolding add_to_group
add_to_group-AreDistinct s [] h = (tt, tt)
add_to_group-AreDistinct s ((tenant, schedules) ∷ groups) (this, others) =
    elim (Bool-cases (text_eq tenant s.tenant_id)) [
      | inl same ↦ rw same (this, others)
      | inr other ↦ rw other (
        add_to_group-differs tenant s groups other this,
        add_to_group-AreDistinct s groups others,
      )
    ]

pub group_by_tenant-perm :
    (due : List Schedule) (groups : List (Text × List Schedule))
    → Perm (schedules_of (group_by_tenant due groups)) (due ++ schedules_of groups)
unfolding group_by_tenant
group_by_tenant-perm [] groups = Perm.refl (schedules_of groups)
group_by_tenant-perm (s ∷ due) groups =
    Perm.trans (group_by_tenant-perm due (add_to_group s groups)) (
      Perm.trans (Perm.append_left due (add_to_group-perm s groups))
        (perm_middle due (schedules_of groups)))

pub group_by_tenant-IsOwn :
    (due : List Schedule) (groups : List (Text × List Schedule))
    → All IsOwn groups
    → All IsOwn (group_by_tenant due groups)
unfolding group_by_tenant
group_by_tenant-IsOwn [] groups h = h
group_by_tenant-IsOwn (s ∷ due) groups h =
    group_by_tenant-IsOwn due (add_to_group s groups)
      (add_to_group-IsOwn s groups ((text_eq_iff s.tenant_id s.tenant_id).1 refl) h)

pub group_by_tenant-AreDistinct :
    (due : List Schedule) (groups : List (Text × List Schedule))
    → AreDistinct groups
    → AreDistinct (group_by_tenant due groups)
unfolding group_by_tenant
group_by_tenant-AreDistinct [] groups h = h
group_by_tenant-AreDistinct (s ∷ due) groups h =
    group_by_tenant-AreDistinct due (add_to_group s groups) (add_to_group-AreDistinct s groups h)
