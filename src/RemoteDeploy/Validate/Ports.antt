-- ===== src/RemoteDeploy/Validate/Ports.antt =====
-- The loop of `ValidateParams` over the ports.
use dijex_api.Prelude.{
  ℕ, ◌+◌, ◌≡◌, ◌≢◌, refl, sym, true, false, List, [], ◌∷◌, ◌↔◌, none, All, map, arith, Bool-cases,
  inl, inr,
}
use dijex_api.Prelude.Int.{ℤ, pos, negsuc, int_eq}
use dijex_api.RemoteDeploy.Types.{PortMapping}
use dijex_api.RemoteDeploy.Validate.{seen_port, out_of_range, check_ports}
use dijex_api.RemoteDeploy.Validate.Rules.{IsPort, Distinct}

int_eq_iff : (a b : ℤ) → (int_eq a b ≡ true) ↔ (a ≡ b)
int_eq_iff (pos a) (pos b) = ground arith
int_eq_iff (pos a) (negsuc b) = ground arith
int_eq_iff (negsuc a) (pos b) = ground arith
int_eq_iff (negsuc a) (negsuc b) = ground arith

out_of_range_iff : (n : ℤ) → (out_of_range n ≡ false) ↔ IsPort n
out_of_range_iff (pos n) = ground arith
out_of_range_iff (negsuc n) = ground arith

seen_port_iff : (n : ℤ) (ms : List ℤ) → (seen_port n ms ≡ false) ↔ All (λ m. n ≢ m) ms
seen_port_iff n [] = (λ _. tt, λ _. refl)
seen_port_iff n (m ∷ ms) =
    let (to, from) = seen_port_iff n ms in
    let (same, equal) = int_eq_iff n m in
    elim (Bool-cases (int_eq n m)) [
      | inl e ↦ rw e (λ h. absurd (cc), λ (h, _). absurd (h (same e)))
      | inr e ↦ rw e (λ h. ((λ q. absurd (cc (equal q))), to h), λ (_, h). from h)
    ]

abbrev pub host_of : PortMapping → ℤ
host_of m = m.host

abbrev pub InRange : PortMapping → Type 0
InRange m = IsPort m.host × IsPort m.container

-- What the loop finds out, with the host ports seen before.
abbrev PortsKeep : List ℤ → List PortMapping → Type 0
PortsKeep seen [] = Unit
PortsKeep seen (m ∷ ms) = InRange m × All (λ n. m.host ≢ n) seen × PortsKeep (m.host ∷ seen) ms

check_ports_iff :
    (i : ℕ) (seen : List ℤ) (ms : List PortMapping)
    → (check_ports i seen ms ≡ none) ↔ PortsKeep seen ms
unfolding check_ports
check_ports_iff i seen [] = (λ _. tt, λ _. refl)
check_ports_iff i seen (m ∷ ms) =
    let (to, from) = check_ports_iff (i + 1) (m.host ∷ seen) ms in
    let (host, host_back) = out_of_range_iff m.host in
    let (container, container_back) = out_of_range_iff m.container in
    let (unseen, unseen_back) = seen_port_iff m.host seen in
    (
      λ h. (
        (host (ground arith), container (ground arith)),
        unseen (ground arith),
        to (ground arith),
      ),
      λ ((h, c), u, k). rw (host_back h, container_back c, unseen_back u) (from k),
    )

-- The host port of each mapping differs from those.
abbrev Unseen : List ℤ → List PortMapping → Type 0
Unseen seen = All (λ m. All (λ n. host_of m ≢ n) seen)

Unseen-cons :
    (n : ℤ) (seen : List ℤ) (ms : List PortMapping)
    → Unseen (n ∷ seen) ms ↔ (All (λ m. n ≢ m) (map host_of ms) × Unseen seen ms)
Unseen-cons n seen [] = (λ _. (tt, tt), λ _. tt)
Unseen-cons n seen (m ∷ ms) =
    let (to, from) = Unseen-cons n seen ms in
    (
      λ ((d, u), k). let (ds, us) = to k in ((λ e. d (sym e), ds), (u, us)),
      λ ((d, ds), (u, us)). ((λ e. d (sym e), u), from (ds, us)),
    )

PortsKeep-iff :
    (seen : List ℤ) (ms : List PortMapping)
    → PortsKeep seen ms ↔ (All InRange ms × Unseen seen ms × Distinct (map host_of ms))
PortsKeep-iff seen [] = (λ _. (tt, tt, tt), λ _. tt)
PortsKeep-iff seen (m ∷ ms) =
    let (to, from) = PortsKeep-iff (host_of m ∷ seen) ms in
    let (apart, together) = Unseen-cons (host_of m) seen ms in
    (
      λ (r, u, k).
          let (rs, us, ds) = to k in let (d, us') = apart us in ((r, rs), (u, us'), (d, ds)),
      λ ((r, rs), (u, us), (d, ds)). (r, u, from (rs, together (d, us), ds)),
    )

Unseen-nil : (ms : List PortMapping) → Unseen [] ms
Unseen-nil [] = tt
Unseen-nil (m ∷ ms) = (tt, Unseen-nil ms)

-- The loop finds no fault exactly if all ports are in range and no host port comes twice.
pub check_ports_lem :
    (ms : List PortMapping)
    → (check_ports 0 [] ms ≡ none) ↔ (All InRange ms × Distinct (map host_of ms))
check_ports_lem ms =
    let (to, from) = check_ports_iff 0 [] ms in
    let (apart, together) = PortsKeep-iff [] ms in
    (λ h. let (r, _, d) = apart (to h) in (r, d), λ (r, d). from (together (r, Unseen-nil ms, d)))
