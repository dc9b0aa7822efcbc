-- ===== src/RemoteSteps/Search.antt =====
-- When the searches for containers found nothing.
use dijex_api.Prelude.{◌≡◌, refl, ◌↔◌, true, List, [], ◌∷◌, ◌++◌, ◌⊎◌, All, Bool-cases, inl, inr}
use dijex_api.Text.{Bytes, is_empty, trim_space, split}
use dijex_api.RemoteSteps.{collect_ids, container_ids, contains_id}

-- The output has nothing but white space on its lines.
abbrev pub IsBlank : Bytes → Type 0
IsBlank output = All (λ line. is_empty (trim_space line) ≡ true) (split 10 output)

collect_ids-cons :
    (lines : List Bytes) (x : Bytes) (xs : List Bytes) → collect_ids lines (x ∷ xs) ≡ [] → ⊥
unfolding collect_ids
collect_ids-cons [] x xs h = cc
collect_ids-cons (line ∷ lines) x xs h = elim (Bool-cases (is_empty (trim_space line))) [
  | inl e ↦ collect_ids-cons lines x xs (rw e at h)
  | inr e ↦ elim (Bool-cases (contains_id (trim_space line) (x ∷ xs))) [
    | inl f ↦ collect_ids-cons lines x xs (rw (e, f) at h)
    | inr f ↦ collect_ids-cons lines x (xs ++ trim_space line ∷ []) (rw (e, f) at h)
  ]
]

collect_ids-nil_iff :
    (lines : List Bytes)
    → (collect_ids lines [] ≡ []) ↔ All (λ line. is_empty (trim_space line) ≡ true) lines
unfolding collect_ids
collect_ids-nil_iff [] = (λ _. tt, λ _. refl)
collect_ids-nil_iff (line ∷ lines) = elim (Bool-cases (is_empty (trim_space line))) [
  | inl e ↦
      let (to, from) = collect_ids-nil_iff lines in
      (λ h. (e, to (rw e at h)), λ (_, k). rw e (from k))
  | inr e ↦ (
    λ h. absurd (collect_ids-cons lines (trim_space line) [] (rw e at h)),
    λ (k, _). absurd (let q = rw e at k in cc),
  )
]

pub nil_or_cons : (xs : List Bytes) → (xs ≡ []) ⊎ ((y : Bytes) × (ys : List Bytes) × (xs ≡ y ∷ ys))
nil_or_cons [] = inl refl
nil_or_cons (y ∷ ys) = inr (y, ys, refl)

container_ids-cons :
    (srcs : List Bytes) (x : Bytes) (xs : List Bytes) → container_ids srcs (x ∷ xs) ≡ [] → ⊥
unfolding container_ids
container_ids-cons [] x xs h = cc
container_ids-cons (src ∷ srcs) x xs h = elim (nil_or_cons (collect_ids (split 10 src) (x ∷ xs))) [
  | inl e ↦ collect_ids-cons (split 10 src) x xs e
  | inr (y, ys, e) ↦ container_ids-cons srcs y ys (rw e at h)
]

-- No container was found exactly if every search printed blank lines only.
pub container_ids-nil_iff : (srcs : List Bytes) → (container_ids srcs [] ≡ []) ↔ All IsBlank srcs
unfolding container_ids
container_ids-nil_iff [] = (λ _. tt, λ _. refl)
container_ids-nil_iff (src ∷ srcs) =
    let (blank, none) = collect_ids-nil_iff (split 10 src) in
    elim (nil_or_cons (collect_ids (split 10 src) [])) [
      | inl e ↦
          let (to, from) = container_ids-nil_iff srcs in
          (λ h. (blank e, to (rw e at h)), λ (_, k). rw e (from k))
      | inr (y, ys, e) ↦ (
        λ h. absurd (container_ids-cons srcs y ys (rw e at h)),
        λ (b, _). absurd (let q = none b in cc),
      )
    ]
