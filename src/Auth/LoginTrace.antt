-- ===== src/Auth/LoginTrace.antt =====
-- What a successful `Login` has checked and what it has written.
use dijex_api.Prelude.{
  ap, ◌∙◌, sym, ◌≡◌, refl, ◌⊎◌, ℕ, true, ◌||◌, some, ◌∷◌, Bool-cases, inl, inr, Option-cases,
}
use dijex_api.Text.{Bytes, bytes_eq, is_empty}
use dijex_api.Auth.Types.{
  AuthToken, Employee, can_work, Outcome-cases, done-injective, done, LoginInput, LoginOutput,
}
use dijex_api.Auth.Tables.{
  Backend, World, PasswordCheck, matching, mismatched, broken, first, query, breaks_key, inserted,
  create, find_by_email,
}
use dijex_api.Auth.Base64.{encode}
use dijex_api.Auth.Service.{
  default_token_byte_length, is_not_found, tick, normalize_email, generate_opaque_token, new_token,
  login_output, persist_token, issue_token, check_password, login,
}

module _ {S : Type 0} (b : Backend S) where
  -- The row that a login wrote, and the answer made from it.
  pub record IsWritten (ttl : ℕ) (input : LoginInput) (emp : Employee) (raw : Bytes)
      (w w' : World S) (out : LoginOutput) : Type 0 where
    pub id : Bytes
    pub now : ℕ
    pub tokens :
        w'.tokens ≡ inserted b.column_instant (new_token b ttl raw now id input emp) ∷ w.tokens
    pub employees : w'.employees ≡ w.employees
    pub answer : out ≡ login_output b raw (new_token b ttl raw now id input emp) emp

  create-eq-done :
      (t : AuthToken) (w : World S)
      → (create b t w).1 ≡ done tt
      → create b t w ≡ (
        record w { env = (b.serve w.env).0; tokens = inserted b.column_instant t ∷ w.tokens },
        done tt,
      )
  unfolding create
  create-eq-done t w h = elim (Option-cases (b.serve w.env).1) [
    | inr (x, e) ↦ absurd (let q = rw (e, create, query) at h in cc)
    | inl e ↦ elim (Option-cases (b.column_error t)) [
      | inr (x, f) ↦ absurd (let q = rw (e, f, create, query) at h in cc)
      | inl f ↦ elim (Bool-cases (breaks_key t w.tokens w.employees)) [
        | inl g ↦ absurd (let q = rw (e, f, g, create, query) at h in cc)
        | inr g ↦ rw (e, f, g, create, query) refl
      ]
    ]
  ]

  persist-eq-done :
      (ttl : ℕ) (input : LoginInput) (emp : Employee) (raw : Bytes) (w : World S)
      (out : LoginOutput)
      → (persist_token b ttl input emp raw w).1 ≡ done out
      → IsWritten ttl input emp raw w (persist_token b ttl input emp raw w).0 out
  unfolding persist_token
  persist-eq-done ttl input emp raw w out h =
      let (w1, now) = tick b w in
      let (s, id) = b.new_uuid w1.env in
      let w2 = record w1 { env = s } in
      let token = new_token b ttl raw now id input emp in
      elim (Outcome-cases (create b token w2).1) [
        | inl (x, e) ↦ absurd (let q = rw (e, persist_token) at h in cc)
        | inr (u, e) ↦
            let c = create-eq-done token w2 e in
            let q : done (login_output b raw token emp) ≡ done out = rw (e, persist_token) at h in
            let world : (persist_token b ttl input emp raw w).0 ≡ (create b token w2).0 =
              rw (e, persist_token) refl in
            record {
              id = id;
              now = now;
              tokens = ap (λ x. x.tokens) (world ∙ ap (λ x. x.0) c);
              employees = ap (λ x. x.employees) (world ∙ ap (λ x. x.0) c);
              answer = sym (done-injective _ _ q);
            }
      ]

  -- What `rand.Read` put into the buffer.
  pub record IsDrawn (raw : Bytes) : Type 0 where
    pub before : S
    pub buffer : Bytes
    pub filled : (b.random default_token_byte_length before).1 ≡ done buffer
    pub encoded : raw ≡ encode buffer

  generate-eq-done :
      (w : World S) (raw : Bytes)
      → (generate_opaque_token b w).1 ≡ done raw
      → IsDrawn raw
        × (generate_opaque_token b w).0
          ≡ record w { env = (b.random default_token_byte_length w.env).0 }
  unfolding generate_opaque_token
  generate-eq-done w raw h = elim (Outcome-cases (b.random default_token_byte_length w.env).1) [
    | inl (x, e) ↦ absurd (let q = rw (e, generate_opaque_token) at h in cc)
    | inr (buf, e) ↦
        let q = rw (e, generate_opaque_token) at h in
        (
          record { before = w.env; buffer = buf; filled = e; encoded = sym (done-injective _ _ q) },
          rw (e, generate_opaque_token) refl,
        )
  ]

  -- What a successful login comes from: `raw` is the token in the answer.
  pub record IsLogin (ttl : ℕ) (input : LoginInput) (emp : Employee) (w w' : World S)
      (out : LoginOutput) : Type 0 where
    pub raw : Bytes
    pub drawn : IsDrawn raw
    pub written : IsWritten ttl input emp raw w w' out

  -- A login from a world with the same tables.
  IsLogin-world :
      (ttl : ℕ) (input : LoginInput) (emp : Employee) (w w1 w2 : World S) (out : LoginOutput)
      → w1.tokens ≡ w.tokens
      → w1.employees ≡ w.employees
      → IsLogin ttl input emp w1 w2 out
      → IsLogin ttl input emp w w2 out
  IsLogin-world ttl input emp w w1 w2 out ts es l =
      let p = l.written in
      let row = inserted b.column_instant (new_token b ttl l.raw p.now p.id input emp) in
      record {
        raw = l.raw;
        drawn = l.drawn;
        written = record {
          id = p.id;
          now = p.now;
          tokens = p.tokens ∙ ap (λ x. row ∷ x) ts;
          employees = p.employees ∙ es;
          answer = p.answer;
        };
      }

  issue-eq-done :
      (ttl : ℕ) (input : LoginInput) (emp : Employee) (w : World S) (out : LoginOutput)
      → (issue_token b ttl input emp w).1 ≡ done out
      → IsLogin ttl input emp w (issue_token b ttl input emp w).0 out
  unfolding issue_token
  issue-eq-done ttl input emp w out h = elim (Outcome-cases (generate_opaque_token b w).1) [
    | inl (x, e) ↦ absurd (let q = rw (e, issue_token) at h in cc)
    | inr (raw, e) ↦
        let (drawn, world) = generate-eq-done w raw e in
        let w1 = (generate_opaque_token b w).0 in
        let q : (persist_token b ttl input emp raw w1).1 ≡ done out = rw (e, issue_token) at h in
        let p = persist-eq-done ttl input emp raw w1 out q in
        rw (e, issue_token)
          (IsLogin-world ttl input emp w w1 _ out (ap (λ x. x.tokens) world)
            (ap (λ x. x.employees) world) (record { raw = raw; drawn = drawn; written = p }))
  ]

  check-cases :
      (c : PasswordCheck) → (c ≡ matching) ⊎ (c ≡ mismatched) ⊎ ((e : Bytes) × (c ≡ broken e))
  check-cases matching = inl refl
  check-cases mismatched = inr (inl refl)
  check-cases (broken e) = inr (inr (e, refl))

  check_password-eq-done :
      (ttl : ℕ) (input : LoginInput) (emp : Employee) (w : World S) (out : LoginOutput)
      → (check_password b ttl input emp w).1 ≡ done out
      → (b.compare_password emp.password_hash input.password ≡ matching)
        × (can_work emp ≡ true)
        × IsLogin ttl input emp w (check_password b ttl input emp w).0 out
  unfolding check_password
  check_password-eq-done ttl input emp w out h =
      elim (check-cases (b.compare_password emp.password_hash input.password)) [
        | inr (inl e) ↦ absurd (let q = rw (e, check_password) at h in cc)
        | inr (inr (x, e)) ↦ absurd (let q = rw (e, check_password) at h in cc)
        | inl e ↦ elim (Bool-cases (can_work emp)) [
          | inr f ↦ absurd (let q = rw (e, f, check_password) at h in cc)
          | inl f ↦
              let q = rw (e, f, check_password) at h in
              (e, f, rw (e, f, check_password) (issue-eq-done ttl input emp w out q))
        ]
      ]

  find_by_email-eq-done :
      (email : Bytes) (w : World S) (emp : Employee)
      → (find_by_email b email w).1 ≡ done emp
      → (first (λ e. bytes_eq e.email email) w.employees ≡ some emp)
        × ((find_by_email b email w).0 ≡ record w { env = (b.serve w.env).0 })
  unfolding find_by_email
  find_by_email-eq-done email w emp h = elim (Option-cases (b.serve w.env).1) [
    | inr (x, e) ↦ absurd (let q = rw (e, find_by_email, query) at h in cc)
    | inl e ↦ elim (Option-cases (first (λ x. bytes_eq x.email email) w.employees)) [
      | inl f ↦ absurd (let q = rw (e, f, find_by_email, query) at h in cc)
      | inr (x, f) ↦
          let q = rw (e, f, find_by_email, query) at h in
          (f ∙ ap some (done-injective _ _ q), rw (e, find_by_email, query) refl)
    ]
  ]

  -- The stages of a successful `Login`.
  pub login-IsLogin :
      (ttl : ℕ) (input : LoginInput) (w : World S) (out : LoginOutput)
      → (login b ttl input w).1 ≡ done out
      → (emp : Employee) × (first
            (λ e. bytes_eq e.email (normalize_email b input.email))
            w.employees
          ≡ some emp)
        × (b.compare_password emp.password_hash input.password ≡ matching)
        × (can_work emp ≡ true)
        × IsLogin ttl input emp w (login b ttl input w).0 out
  unfolding login
  login-IsLogin ttl input w out h =
      let email = normalize_email b input.email in
      elim (Bool-cases (is_empty email || is_empty input.password)) [
        | inl e ↦ absurd (let q = rw (e, login) at h in cc)
        | inr e ↦ elim (Outcome-cases (find_by_email b email w).1) [
          | inl (x, f) ↦ elim (Bool-cases (is_not_found x)) [
            | inl g ↦ absurd (let q = rw (e, f, g, login) at h in cc)
            | inr g ↦ absurd (let q = rw (e, f, g, login) at h in cc)
          ]
          | inr (emp, f) ↦
              let (found, world) = find_by_email-eq-done email w emp f in
              let q = rw (e, f, login) at h in
              let (matched, able, l) =
                check_password-eq-done ttl input emp (find_by_email b email w).0 out q in
              (
                emp,
                found,
                matched,
                able,
                rw (e, f, login)
                    (IsLogin-world ttl input emp w (find_by_email b email w).0 _ out
                      (ap (λ x. x.tokens) world) (ap (λ x. x.employees) world) l),
              )
        ]
      ]
