-- ===== src/RemotePurge/Verified.antt =====
-- What the last step of a purge establishes.
use dijex_api.Prelude.{◌≡◌, refl, ◌↔◌, ◌⊎◌, true, [], ◌++◌, inl, inr, Bool-cases, if◌then◌else◌}
use dijex_api.Text.{Bytes, codes, is_empty}
use dijex_api.Text.Equality.{is_empty_iff}
use dijex_api.Shell.{shell_quote}
use dijex_api.RemoteSession.{Remote, run_ssh, has_failed}
use dijex_api.RemoteSteps.{ok}
use dijex_api.RemoteSteps.Search.{IsBlank, nil_or_cons, container_ids-nil_iff}
use dijex_api.RemoteDeploy.Commands.{ps_command, check_image_command}
use dijex_api.RemotePurge.Types.{PurgeParams, image_ref}
use dijex_api.RemotePurge.Steps.{
  search_name, find_existing_container_ids, verify_image, step_verify_purged,
}

-- `docker ps` with a filter, as the shell gets it.
abbrev pub search_text : Bytes → Bytes
search_text filter =
    codes "docker ps -a --filter " ++ (shell_quote filter ++ codes " -q --no-trunc")

abbrev pub inspect_text : Bytes → Bytes
inspect_text ref = codes "docker image inspect " ++ (shell_quote ref ++ codes " >/dev/null 2>&1")

module _ {S : Type 0} (host : Remote S) (p : PurgeParams) (s : S) where
  abbrev pub name_text : Bytes
  name_text = search_text (codes "name=^" ++ (p.container_name ++ codes "$"))

  abbrev pub image_text : Bytes
  image_text = search_text (codes "ancestor=" ++ image_ref p)

  -- The server behind the search by name, which a purge without a name leaves out.
  abbrev pub behind_name : S
  behind_name = if is_empty p.container_name then s else (run_ssh host name_text s).0

  -- No container has the name, none descends from the image, and the image is not there.
  pub record IsPurged : Type 0 where
    pub no_name : (p.container_name ≡ []) ⊎ IsBlank (run_ssh host name_text s).1.stdout
    pub no_image : IsBlank (run_ssh host image_text behind_name).1.stdout
    pub gone :
        has_failed
          (run_ssh host (inspect_text (image_ref p)) (run_ssh host image_text behind_name).0).1
        ≡ true

module _ {S : Type 0} (lower : Bytes → Bytes) (host : Remote S) (p : PurgeParams) (s : S) where
  verify_image-ok :
      (t : S)
      → ((verify_image lower host p t).1.status ≡ ok)
        ↔ (has_failed (run_ssh host (inspect_text (image_ref p)) t).1 ≡ true)
  unfolding verify_image check_image_command
  verify_image-ok t =
      elim (Bool-cases (has_failed (run_ssh host (check_image_command (image_ref p)) t).1)) [
        | inl e ↦ rw (e, verify_image) (λ _. refl, λ _. refl)
        | inr e ↦ rw (e, verify_image) (λ h. absurd (cc), λ h. absurd (cc))
      ]

  step_verify_purged-found : ((step_verify_purged lower host p s).1.status ≡ ok) ↔ (
      ((find_existing_container_ids lower host p s).1 ≡ [])
      × (has_failed
            (run_ssh host
              (inspect_text (image_ref p))
              (find_existing_container_ids lower host p s).0).1
          ≡ true))
  unfolding step_verify_purged
  step_verify_purged-found = elim (nil_or_cons (find_existing_container_ids lower host p s).1) [
    | inl e ↦
        let (to, from) = verify_image-ok (find_existing_container_ids lower host p s).0 in
        rw (e, step_verify_purged) (λ h. (refl, to h), λ (_, h). from h)
    | inr (id, ids, e) ↦ rw (e, step_verify_purged) (λ h. absurd (cc), λ (h, _). absurd (cc))
  ]

  found_state :
      (find_existing_container_ids lower host p s).0
      ≡ (run_ssh host (image_text host p s) (behind_name host p s)).0
  unfolding find_existing_container_ids search_name ps_command
  found_state = elim (Bool-cases (is_empty p.container_name)) [
    | inl e ↦ rw e refl
    | inr e ↦ rw e refl
  ]

  found_none : ((find_existing_container_ids lower host p s).1 ≡ []) ↔ (
      ((p.container_name ≡ []) ⊎ IsBlank (run_ssh host (name_text host p s) s).1.stdout)
      × IsBlank (run_ssh host (image_text host p s) (behind_name host p s)).1.stdout)
  unfolding find_existing_container_ids search_name ps_command
  found_none = elim (Bool-cases (is_empty p.container_name)) [
    | inl e ↦
        let (to, from) = container_ids-nil_iff _ in
        rw e (λ h. (inl ((is_empty_iff p.container_name).0 e), (to h).0), λ (_, k). from (k, tt))
    | inr e ↦
        let (to, from) = container_ids-nil_iff _ in
        rw e (
          λ h. let (n, (i, _)) = to h in (inr n, i),
          λ (n, k). elim n [
            | inl q ↦ absurd (let z = (is_empty_iff p.container_name).1 q in cc)
            | inr b ↦ from (b, (k, tt))
          ],
        )
  ]

-- The last step reports `ok` exactly if `docker ps` by the name, unless there is none, and
-- `docker ps` by the image reference each printed nothing but blank lines, and `docker image inspect`
-- of the reference then failed.
pub step_verify_purged-ok :
    {S : Type 0} (lower : Bytes → Bytes) (host : Remote S) (p : PurgeParams) (s : S)
    → ((step_verify_purged lower host p s).1.status ≡ ok) ↔ IsPurged host p s
step_verify_purged-ok lower host p s =
    let (to, from) = step_verify_purged-found lower host p s in
    let (none, back) = found_none lower host p s in
    let q = found_state lower host p s in
    (
      λ h.
          let (e, g) = to h in
          let (n, i) = none e in record { no_name = n; no_image = i; gone = rw q at g },
      λ k. from (back (k.no_name, k.no_image), rw q k.gone),
    )
