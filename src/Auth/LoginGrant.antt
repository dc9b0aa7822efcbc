-- ===== src/Auth/LoginGrant.antt =====
-- What a successful `Login` amounts to: whom it found, what it wrote and what it answered.
use dijex_api.Prelude.{◌≡◌, ℕ, ◌+◌, true, not, is_some, none, some, ◌∷◌, Option-cases, inl, inr}
use mathlib.Core.Bool.{and-eq-true_iff}
use dijex_api.Text.{codes, bytes_eq, trim_space, to_lower}
use dijex_api.Text.Equality.{bytes_eq_iff}
use dijex_api.Auth.Types.{AuthToken, Employee, can_work, enabled, LoginInput, LoginOutput}
use dijex_api.Auth.Tables.{Backend, World, matching, first}
use dijex_api.Auth.LoginTrace.{IsDrawn}

pub can_work-true :
    (e : Employee) → can_work e ≡ true → (e.status ≡ enabled) × (e.deleted_at ≡ none)
unfolding can_work
can_work-true e h =
    let (s, d) = (and-eq-true_iff (bytes_eq e.status enabled) (not (is_some e.deleted_at))).0 h in
    (
      (bytes_eq_iff e.status enabled).0 s,
      elim (Option-cases e.deleted_at) [
        | inl n ↦ n
        | inr (x, n) ↦ absurd (let q = rw n at d in cc)
      ],
    )

module _ {S : Type 0} (b : Backend S) where
  -- `emp` logged in: the employee, the new row `row`, and the answer.
  pub record IsSession (ttl : ℕ) (input : LoginInput) (w w' : World S) (out : LoginOutput)
      (emp : Employee) (row : AuthToken) : Type 0 where
    pub found :
        first
          (λ e. bytes_eq e.email (to_lower b.unicode_lower (trim_space input.email)))
          w.employees
        ≡ some emp
    pub matched : b.compare_password emp.password_hash input.password ≡ matching
    pub status : emp.status ≡ codes "ENABLED"
    pub undeleted : emp.deleted_at ≡ none
    pub drawn : IsDrawn b out.token
    pub tokens : w'.tokens ≡ row ∷ w.tokens
    pub employees : w'.employees ≡ w.employees
    pub owner : row.employee_id ≡ emp.id
    pub hash : row.token_hash ≡ b.hash_token out.token
    pub now : ℕ
    pub issued : row.issued_at ≡ b.column_instant now
    pub expiry : out.expires_at ≡ now + ttl
    pub row_expiry : row.expires_at ≡ b.column_instant out.expires_at
    pub unrevoked : row.revoked_at ≡ none
    pub answer_id : out.employee.id ≡ emp.id
    pub answer_name : out.employee.full_name ≡ emp.full_name
    pub answer_email : out.employee.email ≡ emp.email
    pub answer_role : out.employee.role ≡ emp.role
