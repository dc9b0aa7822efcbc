-- ===== src/Services/Keys.antt =====
-- The keys of the tables of registries and of servers, and what one statement does to them.
use dijex_api.Prelude.{
  ◌≡◌, ◌≢◌, refl, sym, ℕ, Bool, true, false, not, ◌&&◌, ◌||◌, List, [], ◌∷◌, All, some,
}
use dijex_api.Text.{Bytes, bytes_eq}
use dijex_api.Text.Equality.{bytes_eq_iff}
use dijex_api.Auth.Tables.{first}
use dijex_api.Auth.Lookup.{IsKeyed, first-eq-some, bytes_eq-eq-false}
use dijex_api.Platform.Rows.{update_where, has_row}
use dijex_api.Platform.Keys.{
  All-map, has_row-false, AtMostOne, IsKeyed-update_where, AtMostOne-update_where, IsKeyed-replace,
  AtMostOne-replace,
}
use dijex_api.Registry.Types.{Registry}
use dijex_api.Registry.Rows as R
use dijex_api.Server.Types.{Server}
use dijex_api.Server.Rows as V

-- Ids and names are keys, of deleted rows too, and at most one live registry is the default.
pub record HasRegistryKeys (rows : List Registry) : Type 0 where
  pub ids : IsKeyed (λ r. r.id) rows
  pub names : IsKeyed (λ r. r.name) rows
  pub one_default : AtMostOne R.is_chosen rows

pub record HasServerKeys (rows : List Server) : Type 0 where
  pub ids : IsKeyed (λ s. s.id) rows
  pub names : IsKeyed (λ s. s.name) rows

and-true : (a b : Bool) → (a && b) ≡ true → (a ≡ true) × (b ≡ true)
and-true true b h = (refl, h)
and-true false b h = absurd (cc)

or-false : (a b : Bool) → (a || b) ≡ false → (a ≡ false) × (b ≡ false)
or-false false b h = (refl, h)
or-false true b h = absurd (cc)

-- No row has what the test looks for.
keyed_apart :
    {A : Type 0} (key : A → Bytes) (n : Bytes) (xs : List A)
    → All (λ x. bytes_eq (key x) n ≡ false) xs
    → All (λ x. n ≢ key x) xs
keyed_apart key n xs h =
    All-map (λ x. bytes_eq (key x) n ≡ false) (λ x. n ≢ key x) xs
      (λ x e q. let k = (bytes_eq_iff (key x) n).1 (sym q) in cc) h

id_and_name :
    {A : Type 0} (id name : A → Bytes) (i n : Bytes) (xs : List A)
    → has_row (λ x. bytes_eq (id x) i || bytes_eq (name x) n) xs ≡ false
    → All (λ x. i ≢ id x) xs × All (λ x. n ≢ name x) xs
id_and_name id name i n xs h =
    let none = has_row-false (λ x. bytes_eq (id x) i || bytes_eq (name x) n) xs h in
    let test : _ → Type 0 = λ x. (bytes_eq (id x) i || bytes_eq (name x) n) ≡ false in
    (
      keyed_apart id i xs
          (All-map test (λ x. bytes_eq (id x) i ≡ false) xs (λ x e. (or-false _ _ e).0) none),
      keyed_apart name n xs
          (All-map test (λ x. bytes_eq (name x) n ≡ false) xs (λ x e. (or-false _ _ e).1) none),
    )

-- `id <> $1 AND name = $2` is true of no row.
others_apart :
    {A : Type 0} (id name : A → Bytes) (i n : Bytes) (xs : List A)
    → has_row (λ x. not (bytes_eq (id x) i) && bytes_eq (name x) n) xs ≡ false
    → All (λ x. id x ≢ i → name x ≢ n) xs
others_apart id name i n xs h =
    All-map (λ x. (not (bytes_eq (id x) i) && bytes_eq (name x) n) ≡ false)
      (λ x. id x ≢ i → name x ≢ n) xs
      (λ x e d q.
        let k = bytes_eq-eq-false (id x) i d in
        let l = (bytes_eq_iff (name x) n).1 q in absurd (let m = rw (k, l) at e in cc))
      (has_row-false _ xs h)

and_unit : (b : Bool) → (b && true) ≡ b
and_unit true = refl
and_unit false = refl

All-always : {A : Type 0} (P : A → Type 0) (xs : List A) → ((x : A) → P x) → All P xs
All-always P [] h = tt
All-always P (x ∷ xs) h = (h x, All-always P xs h)

-- Where the row is the default, no other one is.
others_unchosen :
    (i : Bytes) (d : Bool) (rows : List Registry)
    → ((d && true) && has_row (λ x. not (bytes_eq x.id i) && R.is_chosen x) rows) ≡ false
    → All (λ x. x.id ≢ i → d ≡ true → R.is_chosen x ≡ false) rows
others_unchosen i false rows h =
    All-always (λ x. x.id ≢ i → false ≡ true → R.is_chosen x ≡ false) rows (λ x _ e. absurd (cc))
others_unchosen i true rows h =
    All-map (λ x. (not (bytes_eq x.id i) && R.is_chosen x) ≡ false)
      (λ x. x.id ≢ i → true ≡ true → R.is_chosen x ≡ false) rows
      (λ x e n _. rw (bytes_eq-eq-false x.id i n) at e) (has_row-false _ rows h)

-- Whoever is found by an id is live and has it.
found_live : (id : Bytes) (r : Registry) → R.is_row id r ≡ true → (r.id ≡ id) × (R.is_live r ≡ true)
found_live id r h = let (e, l) = and-true _ _ h in ((bytes_eq_iff r.id id).0 e, l)

found_server : (id : Bytes) (s : Server) → V.is_row id s ≡ true → s.id ≡ id
found_server id s h = (bytes_eq_iff s.id id).0 (and-true _ _ h).0

module _ (rows : List Registry) (k : HasRegistryKeys rows) where
  pub add_registry-keys :
      (r : Registry)
      → R.insert_clashes (R.inserted r) rows ≡ false
      → HasRegistryKeys (R.inserted r ∷ rows)
  unfolding R.insert_clashes R.inserted
  add_registry-keys r h =
      let (keys, chosen) = or-false _ _ h in
      let (ids, names) = id_and_name (λ x. x.id) (λ x. x.name) r.id r.name rows keys in
      record {
        ids = (ids, k.ids);
        names = (names, k.names);
        one_default = (λ e. has_row-false R.is_chosen rows (rw e at chosen), k.one_default);
      }

  -- An UPDATE that leaves id and name alone and makes no row the default.
  pub update-keys :
      (q : Registry → Bool) (f : Registry → Registry)
      → ((x : Registry) → (f x).id ≡ x.id)
      → ((x : Registry) → (f x).name ≡ x.name)
      → ((x : Registry) → R.is_chosen x ≡ false → R.is_chosen (f x) ≡ false)
      → HasRegistryKeys (update_where q f rows)
  update-keys q f same_id same_name less = record {
    ids = IsKeyed-update_where (λ x. x.id) q f rows same_id k.ids;
    names = IsKeyed-update_where (λ x. x.name) q f rows same_name k.names;
    one_default = AtMostOne-update_where R.is_chosen q f rows less k.one_default;
  }

  pub replace_registry-keys :
      (now : ℕ) (r old : Registry)
      → first (R.is_row r.id) rows ≡ some old
      → R.update_clashes (R.updated now r old) rows ≡ false
      → HasRegistryKeys (update_where (R.is_row r.id) (R.updated now r) rows)
  unfolding R.update_clashes R.updated
  replace_registry-keys now r old f h =
      let (_, row) = first-eq-some (R.is_row r.id) rows old f in
      let (id, live) = found_live r.id old row in
      let (keys, chosen) = or-false _ _ (rw (id, live) at h) in
      let at_id : (y : Registry) → R.is_row r.id y ≡ true → y.id ≡ r.id =
        λ y e. (found_live r.id y e).0 in
      record {
        ids =
            IsKeyed-update_where (λ x. x.id) (R.is_row r.id) (R.updated now r) rows (λ x. refl)
              k.ids;
        names =
            IsKeyed-replace (λ x. x.id) r.id (R.is_row r.id) (R.updated now r) (λ x. x.name) r.name
              rows at_id (λ y. refl) k.ids k.names
              (others_apart (λ x. x.id) (λ x. x.name) r.id r.name rows keys);
        one_default =
            AtMostOne-replace (λ x. x.id) r.id (R.is_row r.id) (R.updated now r) R.is_chosen
              r.is_default rows at_id (λ y e. rw ((found_live r.id y e).1) (and_unit r.is_default))
              k.ids k.one_default (others_unchosen r.id r.is_default rows chosen);
      }

module _ (rows : List Server) (k : HasServerKeys rows) where
  pub add_server-keys :
      (s : Server)
      → V.insert_clashes (V.inserted s) rows ≡ false
      → HasServerKeys (V.inserted s ∷ rows)
  unfolding V.insert_clashes V.inserted
  add_server-keys s h =
      let (ids, names) = id_and_name (λ x. x.id) (λ x. x.name) s.id s.name rows h in
      record { ids = (ids, k.ids); names = (names, k.names) }

  pub change-keys :
      (q : Server → Bool) (f : Server → Server)
      → ((x : Server) → (f x).id ≡ x.id)
      → ((x : Server) → (f x).name ≡ x.name)
      → HasServerKeys (update_where q f rows)
  change-keys q f same_id same_name = record {
    ids = IsKeyed-update_where (λ x. x.id) q f rows same_id k.ids;
    names = IsKeyed-update_where (λ x. x.name) q f rows same_name k.names;
  }

  pub replace_server-keys :
      (now : ℕ) (s old : Server)
      → first (V.is_row s.id) rows ≡ some old
      → V.update_clashes (V.updated now s old) rows ≡ false
      → HasServerKeys (update_where (V.is_row s.id) (V.updated now s) rows)
  unfolding V.update_clashes V.updated
  replace_server-keys now s old f h =
      let (_, row) = first-eq-some (V.is_row s.id) rows old f in
      let keys = rw (found_server s.id old row) at h in
      record {
        ids =
            IsKeyed-update_where (λ x. x.id) (V.is_row s.id) (V.updated now s) rows (λ x. refl)
              k.ids;
        names =
            IsKeyed-replace (λ x. x.id) s.id (V.is_row s.id) (V.updated now s) (λ x. x.name) s.name
              rows (found_server s.id) (λ y. refl) k.ids k.names
              (others_apart (λ x. x.id) (λ x. x.name) s.id s.name rows keys);
      }
