-- ===== src/Services/Consistent.antt =====
-- The keys of the two tables and the one default registry, over all sequences of calls.
use dijex_api.Prelude.{refl, List}
use dijex_api.Platform.{World, Platform}
use dijex_api.Registry.Connection.{RegistryConnector}
use dijex_api.Registry.Rows as R
use dijex_api.Server.Rows as V
use dijex_api.Server.Connector.{Connector}
use dijex_api.Services.{Call}
use dijex_api.Services.Steps.{
  Tables, tables, Step, add_registry, clear_default, clear_other_default, replace_registry,
  delete_registry, note_registry, add_server, replace_server, delete_server, note_server,
  facts_of_server, key_of_server, Reach, here, next,
}
use dijex_api.Services.Every.{perform_all, perform_all-Reach}
use dijex_api.Services.Keys.{
  HasRegistryKeys, HasServerKeys, add_registry-keys, update-keys, replace_registry-keys,
  add_server-keys, change-keys, replace_server-keys,
}

abbrev pub IsConsistent : Tables → Type 0
IsConsistent t = HasRegistryKeys t.registries × HasServerKeys t.servers

Step-IsConsistent : {t u : Tables} → Step t u → IsConsistent t → IsConsistent u
unfolding R.clear_default R.clear_other_default R.deleted R.with_status V.updated V.deleted
    V.with_status V.with_facts V.with_key
Step-IsConsistent {t} (add_registry r e) (k, l) = (add_registry-keys t.registries k r e, l)
Step-IsConsistent {t} (clear_default now) (k, l) =
    (update-keys t.registries k _ _ (λ x. refl) (λ x. refl) (λ x e. refl), l)
Step-IsConsistent {t} (clear_other_default now id) (k, l) =
    (update-keys t.registries k _ _ (λ x. refl) (λ x. refl) (λ x e. refl), l)
Step-IsConsistent {t} (replace_registry now r old f e) (k, l) =
    (replace_registry-keys t.registries k now r old f e, l)
Step-IsConsistent {t} (delete_registry now id) (k, l) =
    (update-keys t.registries k _ _ (λ x. refl) (λ x. refl) (λ x e. refl), l)
Step-IsConsistent {t} (note_registry now id status err at active) (k, l) =
    (update-keys t.registries k _ _ (λ x. refl) (λ x. refl) (λ x e. e), l)
Step-IsConsistent {t} (add_server s e) (k, l) = (k, add_server-keys t.servers l s e)
Step-IsConsistent {t} (replace_server now s old f e) (k, l) =
    (k, replace_server-keys t.servers l now s old f e)
Step-IsConsistent {t} (delete_server now id) (k, l) =
    (k, change-keys t.servers l _ _ (λ x. refl) (λ x. refl))
Step-IsConsistent {t} (note_server now id status err at active) (k, l) =
    (k, change-keys t.servers l _ _ (λ x. refl) (λ x. refl))
Step-IsConsistent {t} (facts_of_server now id f) (k, l) =
    (k, change-keys t.servers l _ _ (λ x. refl) (λ x. refl))
Step-IsConsistent {t} (key_of_server now id) (k, l) =
    (k, change-keys t.servers l _ _ (λ x. refl) (λ x. refl))

Reach-IsConsistent : {t u : Tables} → Reach t u → IsConsistent t → IsConsistent u
Reach-IsConsistent here k = k
Reach-IsConsistent (next r s) k = Step-IsConsistent s (Reach-IsConsistent r k)

-- Whatever sequence of calls the services take, and however they fail, ids and names stay keys of
-- both tables, deleted rows included, and at most one live registry is the default, provided that
-- it was so at the start.
pub perform_all-IsConsistent :
    {S : Type 0} (p : Platform S) (rc : RegistryConnector S) (c : Connector S)
    (calls : List (Call S)) (w : World S)
    → IsConsistent (tables w)
    → IsConsistent (tables (perform_all p rc c calls w))
perform_all-IsConsistent p rc c calls w =
    Reach-IsConsistent (perform_all-Reach p rc c (tables w) calls w here)
