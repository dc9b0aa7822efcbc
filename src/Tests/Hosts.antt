-- ===== src/Tests/Hosts.antt =====
-- Two remote servers for the tests. The state counts the commands that were run.
use dijex_api.Prelude.{ℕ, ◌+◌, [], ◌∷◌, none, some, ◌==◌, if◌then◌else◌}
use dijex_api.Text.{Bytes, codes}
use dijex_api.RemoteSession.{Remote, RawOutput}

abbrev said : Bytes → RawOutput
said text = record { stdout = text ∷ []; stderr = []; exit_err = none }

-- Every command succeeds and prints "true".
abbrev pub willing : Remote ℕ
willing = record {
  ctx_err = λ _. none;
  new_session = λ n. (n, none);
  run = λ _ _ n. (n + 1, said (codes "true\n"));
  pause = λ n. (n, none);
}

-- The probe for docker succeeds, any other command fails and prints nothing.
abbrev pub stubborn : Remote ℕ
stubborn = record willing {
  run = λ _ _ n. (
    n + 1,
    if n == 0 then said (codes "/usr/bin/docker\n") else record {
      stdout = [];
      stderr = codes "Error: permission denied\n" ∷ [];
      exit_err = some (codes "exit status 1");
    },
  );
}

-- After the first command no session is granted.
abbrev pub closing : Remote ℕ
closing = record willing {
  new_session = λ n. (n, if n == 0 then none else some (codes "connection lost"));
}

abbrev pub same_text : Bytes → Bytes
same_text s = s
