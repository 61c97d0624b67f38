-- ===== src/Storage/Catalogue/Refines.antt =====
-- src/storage/storage_engine.cpp against one abstract catalogue, a partial function from names.
use tiny_sql.Prelude.{
  Bool, true, false, Option, none, some, List, [], ◌∷◌, ◌≡◌, ◌⊎◌, refl, sym, ap, ap₂, ◌∙◌, inl, inr,
  if◌then◌else◌, Bytes, codes, str_eq, str_eq_iff, Bool-cases, Option-cases,
}
use tiny_sql.Maps.{
  find, assign, erase, find-assign, find-assign_other, find-erase, find-erase_other,
}
use tiny_sql.Storage.Catalogue.{
  Database, StorageEngine, is_some, get_table, has_table, drop_table, create_table, is_system,
  get_database, has_database, drop_database, create_database, get_or_create_database,
}

-- The requests, where `C` is what an entry is created from, and their replies.
pub data Request (C : Type 0) : Type 0 where
  create : C → Request C
  drop get has : Bytes → Request C

pub data Reply (A : Type 0) : Type 0 where
  answer : Bool → Reply A
  pointer : Option A → Reply A

module _ {A : Type 0} where
  pub set : Bytes → Option A → (Bytes → Option A) → Bytes → Option A
  set k v s j = if str_eq k j then v else s j

  -- An entry list that holds what the function gives.
  pub Holds : List (Bytes × A) → (Bytes → Option A) → Type 0
  Holds m s = (k : Bytes) → find k m ≡ s k

  Holds-assign :
      (k : Bytes) (a : A) (m : List (Bytes × A)) (s : Bytes → Option A)
      → Holds m s
      → Holds (assign k a m) (set k (some a) s)
  unfolding set Holds
  Holds-assign k a m s h j = elim (Bool-cases (str_eq k j)) [
    | inl e ↦
        rw e (ap (λ i. find i (assign k a m)) (sym ((str_eq_iff k j).0 e)) ∙ find-assign k a m)
    | inr e ↦ rw e (find-assign_other j k a m (λ z. cc (e, (str_eq_iff k j).1 z)) ∙ h j)
  ]

  Holds-erase :
      (k : Bytes) (m : List (Bytes × A)) (s : Bytes → Option A)
      → Holds m s
      → Holds (erase k m) (set k none s)
  unfolding set Holds
  Holds-erase k m s h j = elim (Bool-cases (str_eq k j)) [
    | inl e ↦ rw e (ap (λ i. find i (erase k m)) (sym ((str_eq_iff k j).0 e)) ∙ find-erase k m)
    | inr e ↦ rw e (find-erase_other j k m (λ z. cc (e, (str_eq_iff k j).1 z)) ∙ h j)
  ]

-- What a catalogue promises: a name is created once, a protected name is never dropped, a dropped
-- name is free again, and no request touches another name.
module _ {A C : Type 0} (key : C → Bytes) (value : C → A) (protected : Bytes → Bool) where
  pub promise : Request C → (Bytes → Option A) → Reply A × (Bytes → Option A)
  promise (create c) s =
      if is_some (s (key c))
      then (answer false, s)
      else (answer true, set (key c) (some (value c)) s)
  promise (drop k) s =
      if protected k
      then (answer false, s)
      else if is_some (s k)
      then (answer true, set k none s)
      else (answer false, s)
  promise (get k) s = (pointer (s k), s)
  promise (has k) s = (answer (is_some (s k)), s)

  pub promises : List (Request C) → (Bytes → Option A) → List (Reply A)
  promises [] s = []
  promises (r ∷ rs) s = (promise r s).0 ∷ promises rs (promise r s).1

-- A reply and the entries behind it, against what is promised.
record Matches {A : Type 0} (reply : Reply A) (m : List (Bytes × A))
    (p : Reply A × (Bytes → Option A)) : Type 0 where
  same_reply : reply ≡ p.0
  entries : Holds m p.1

module _ {T : Type 0} (get_name : T → Bytes) where
  -- A request to a database. A table is created under its own name.
  pub serve : Request T → Database T → Reply T × Database T
  serve (create table) db =
      (answer (create_table get_name table db).0, (create_table get_name table db).1)
  serve (drop k) db = (answer (drop_table k db).0, (drop_table k db).1)
  serve (get k) db = (pointer (get_table k db), db)
  serve (has k) db = (answer (has_table k db), db)

  pub serve_all : List (Request T) → Database T → List (Reply T)
  serve_all [] db = []
  serve_all (r ∷ rs) db = (serve r db).0 ∷ serve_all rs (serve r db).1

  serve-Matches :
      (r : Request T) (db : Database T) (s : Bytes → Option T)
      → Holds db.tables s
      → Matches (serve r db).0 (serve r db).1.tables (promise get_name (λ t. t) (λ _. false) r s)
  unfolding serve promise create_table drop_table get_table has_table Holds
  serve-Matches (create t) db s h = elim (Option-cases (s (get_name t))) [
    | inl e ↦
        rw (h (get_name t), e)
          (record { same_reply = refl; entries = Holds-assign (get_name t) t db.tables s h })
    | inr (u, e) ↦ rw (h (get_name t), e) (record { same_reply = refl; entries = h })
  ]
  serve-Matches (drop k) db s h = elim (Option-cases (s k)) [
    | inl e ↦ rw (h k, e) (record { same_reply = refl; entries = h })
    | inr (u, e) ↦ rw (h k, e) (record { same_reply = refl; entries = Holds-erase k db.tables s h })
  ]
  serve-Matches (get k) db s h = record { same_reply = ap pointer (h k); entries = h }
  serve-Matches (has k) db s h = record {
    same_reply = ap (λ o. answer (is_some o)) (h k);
    entries = h;
  }

  serve_all-Holds :
      (rs : List (Request T)) (db : Database T) (s : Bytes → Option T)
      → Holds db.tables s
      → serve_all rs db ≡ promises get_name (λ t. t) (λ _. false) rs s
  unfolding serve_all promises
  serve_all-Holds [] db s h = refl
  serve_all-Holds (r ∷ rs) db s h =
      let m = serve-Matches r db s h in
      ap₂ (λ x l. x ∷ l) m.same_reply (serve_all-Holds rs (serve r db).1 _ m.entries)

  -- Every sequence of requests to a database, from every state, gets the replies that the abstract
  -- catalogue promises from the tables that the database has: a table is created where its name is
  -- free and dropped where it is there, and no request touches another name.
  pub serve_all-promises :
      (rs : List (Request T)) (db : Database T)
      → serve_all rs db ≡ promises get_name (λ t. t) (λ _. false) rs (λ k. get_table k db)
  unfolding get_table Holds
  serve_all-promises rs db = serve_all-Holds rs db _ (λ k. refl)

-- The two databases that the server keeps for itself.
abbrev pub IsKept : Bytes → Type 0
IsKept k = (k ≡ codes "mysql") ⊎ (k ≡ codes "information_schema")

IsKept-is_system : (k : Bytes) → IsKept k → is_system k ≡ true
unfolding is_system str_eq
IsKept-is_system k (inl e) = ap is_system e
IsKept-is_system k (inr e) = ap is_system e

module _ {D : Type 0} (make : Bytes → D) where
  -- A request to the engine.
  pub serve_engine : Request Bytes → StorageEngine D → Reply D × StorageEngine D
  serve_engine (create k) e = (answer (create_database make k e).0, (create_database make k e).1)
  serve_engine (drop k) e = (answer (drop_database k e).0, (drop_database k e).1)
  serve_engine (get k) e = (pointer (get_database k e), e)
  serve_engine (has k) e = (answer (has_database k e), e)

  pub serve_engine_all : List (Request Bytes) → StorageEngine D → List (Reply D)
  serve_engine_all [] e = []
  serve_engine_all (r ∷ rs) e = (serve_engine r e).0 ∷ serve_engine_all rs (serve_engine r e).1

  serve_engine-Matches :
      (r : Request Bytes) (e : StorageEngine D) (s : Bytes → Option D)
      → Holds e.databases s
      → Matches
          (serve_engine r e).0
          (serve_engine r e).1.databases
          (promise (λ k. k) make is_system r s)
  unfolding serve_engine promise create_database drop_database get_database has_database Holds
  serve_engine-Matches (create k) e s h = elim (Option-cases (s k)) [
    | inl z ↦
        rw (h k, z)
          (record { same_reply = refl; entries = Holds-assign k (make k) e.databases s h })
    | inr (u, z) ↦ rw (h k, z) (record { same_reply = refl; entries = h })
  ]
  serve_engine-Matches (drop k) e s h = elim (Bool-cases (is_system k)) [
    | inl sys ↦ rw sys (record { same_reply = refl; entries = h })
    | inr free ↦ elim (Option-cases (s k)) [
      | inl z ↦ rw (free, h k, z) (record { same_reply = refl; entries = h })
      | inr (u, z) ↦
          rw (free, h k, z) (record { same_reply = refl; entries = Holds-erase k e.databases s h })
    ]
  ]
  serve_engine-Matches (get k) e s h = record { same_reply = ap pointer (h k); entries = h }
  serve_engine-Matches (has k) e s h = record {
    same_reply = ap (λ o. answer (is_some o)) (h k);
    entries = h;
  }

  serve_engine_all-Holds :
      (rs : List (Request Bytes)) (e : StorageEngine D) (s : Bytes → Option D)
      → Holds e.databases s
      → serve_engine_all rs e ≡ promises (λ k. k) make is_system rs s
  unfolding serve_engine_all promises
  serve_engine_all-Holds [] e s h = refl
  serve_engine_all-Holds (r ∷ rs) e s h =
      let m = serve_engine-Matches r e s h in
      ap₂ (λ x l. x ∷ l) m.same_reply (serve_engine_all-Holds rs (serve_engine r e).1 _ m.entries)

  -- The engine behind a sequence of requests.
  pub serve_engine_rest : List (Request Bytes) → StorageEngine D → StorageEngine D
  serve_engine_rest [] e = e
  serve_engine_rest (r ∷ rs) e = serve_engine_rest rs (serve_engine r e).1

  serve_engine-keeps :
      (r : Request Bytes) (e : StorageEngine D) (k : Bytes) (d : D)
      → IsKept k
      → get_database k e ≡ some d
      → get_database k (serve_engine r e).1 ≡ some d
  unfolding serve_engine create_database drop_database get_database
  serve_engine-keeps (create j) e k d s h = elim (Option-cases (find j e.databases)) [
    | inl z ↦ rw z (
        find-assign_other k j (make j) e.databases
          (λ p. let q : none ≡ some d = sym z ∙ ap (λ (i : Bytes). find i e.databases) p ∙ h in cc)
        ∙ h)
    | inr (u, z) ↦ rw z h
  ]
  serve_engine-keeps (drop j) e k d s h = elim (Bool-cases (is_system j)) [
    | inl sys ↦ rw sys h
    | inr free ↦ elim (Option-cases (find j e.databases)) [
      | inl z ↦ rw (free, z) h
      | inr (u, z) ↦
          rw (free, z)
            (find-erase_other k j e.databases
                (λ p. let q : is_system j ≡ true = ap is_system p ∙ IsKept-is_system k s in cc)
              ∙ h)
    ]
  ]
  serve_engine-keeps (get j) e k d s h = h
  serve_engine-keeps (has j) e k d s h = h

  -- The database `mysql` or `information_schema`, where it is there, is the same one after every
  -- sequence of requests to create, drop and look up databases, and a request to drop it is refused.
  pub serve_engine_rest-keeps :
      (rs : List (Request Bytes)) (e : StorageEngine D) (k : Bytes) (d : D)
      → IsKept k
      → get_database k e ≡ some d
      → (get_database k (serve_engine_rest rs e) ≡ some d)
        × ((drop_database k (serve_engine_rest rs e)).0 ≡ false)
  unfolding serve_engine_rest drop_database
  serve_engine_rest-keeps [] e k d s h = (h, rw (IsKept-is_system k s) refl)
  serve_engine_rest-keeps (r ∷ rs) e k d s h =
      serve_engine_rest-keeps rs (serve_engine r e).1 k d s (serve_engine-keeps r e k d s h)

  -- Every sequence of requests to the engine, from every state, gets the replies that the abstract
  -- catalogue promises from the databases that the engine has, where `mysql` and
  -- `information_schema` are protected: they are never dropped, whether they are there or not.
  pub serve_engine_all-promises :
      (rs : List (Request Bytes)) (e : StorageEngine D)
      → serve_engine_all rs e ≡ promises (λ k. k) make is_system rs (λ k. get_database k e)
  unfolding get_database Holds
  serve_engine_all-promises rs e = serve_engine_all-Holds rs e _ (λ k. refl)

  -- `getOrCreateDatabase` returns a database, never a null pointer: the one of that name where there
  -- is one, and else the new one, which is then found under the name.
  pub get_or_create_database-get :
      (k : Bytes) (e : StorageEngine D)
      → (d : D) × ((get_or_create_database make k e).0 ≡ some d)
        × (get_database k (get_or_create_database make k e).1 ≡ some d)
        × ((get_database k e ≡ some d) ⊎ ((get_database k e ≡ none) × (d ≡ make k)))
  unfolding get_or_create_database create_database get_database
  get_or_create_database-get k e = elim (Option-cases (find k e.databases)) [
    | inl z ↦
        let found = find-assign k (make k) e.databases in
        (
          make k,
          rw (z, z, get_or_create_database) found,
          rw (z, z, get_or_create_database) found,
          inr (z, refl),
        )
    | inr (d, z) ↦ (d, rw (z, get_or_create_database) refl, rw (z, get_or_create_database) z, inl z)
  ]
