-- ===== src/Db/Tables/Load.antt =====
-- What createTable stores is what NewDB loads.
use golang_db.Base.{
  ◌≡◌, ◌≢◌, refl, sym, ap, ◌∙◌, false, Bool-cases, inl, inr, none, some, List, [], ◌∷◌, ◌++◌,
  append-nil, append_assoc, All, length, ok,
}
use golang_db.Base.Bytes.{Bytes, IsU32, cmp, str_eq, str_eq-ne}
use golang_db.Base.Dict
use golang_db.Base.Dict.{Dict, lookup-put}
use golang_db.Memtable.{EntryTree}
use golang_db.Db.Schema.{
  CreateTable, serialise_create_table_input, serialise_secondary_index_catalog,
}
use golang_db.Db.Schema.RoundTrip.{create_table_round_trip}
use golang_db.Db.Schema.Catalog.{catalog_round_trip}
use golang_db.Db.Database.{Db, get}
use golang_db.Db.Rows.{Schemas}
use golang_db.Db.Tables.{
  catalog_key, schema_key, secondary_indexes_key, table_names, without_last, load_table,
  load_tables, get_table_name_vs_schema_map,
}
use golang_db.Db.Tables.Names.{
  HasNoComma, keys_of, joined, AreNamed, split-joined, table_names-joined, without_last-append,
}

put-absent :
    (name : Bytes) (table : CreateTable) (schemas : Schemas)
    → Dict.lookup name schemas ≡ none
    → Dict.put name table schemas ≡ schemas ++ (name, table) ∷ []
unfolding Dict.lookup Dict.put
put-absent name table [] h = refl
put-absent name table ((key, other) ∷ rest) h = elim (Bool-cases (str_eq key name)) [
  | inl e ↦ let found : some other ≡ none = rw e at h in cc
  | inr e ↦
      let absent : Dict.lookup name rest ≡ none = rw e at h in
      rw e (ap (λ (l : Schemas). (key, other) ∷ l) (put-absent name table rest absent))
]

module _ (bt : EntryTree) (db : Db bt) where
  -- The keys of a table hold what createTable puts there, and the lengths fit 32 bits.
  pub record IsCatalogued (name : Bytes) (table : CreateTable) : Type 0 where
    pub catalog : Bytes
    pub schema_held : get bt db (schema_key name) ≡ ok (serialise_create_table_input table)
    pub indexes_held : get bt db (secondary_indexes_key name) ≡ ok catalog
    pub serialised :
        serialise_secondary_index_catalog table.column_details table.secondary_indexes ≡ ok catalog
    pub key_fits : IsU32 table.primary_key_column_position
    pub schema_fits : IsU32 (length (serialise_create_table_input table))
    pub columns_fit : IsU32 (length table.column_details)
    pub catalog_fits : IsU32 (length catalog)

  abbrev pub AreCatalogued : Schemas → Type 0
  AreCatalogued schemas =
      All
        (λ (entry : Bytes × CreateTable).
          IsCatalogued entry.0 entry.1
          × (entry.1.table_name ≡ entry.0)
          × HasNoComma entry.0
          × (entry.0 ≢ []))
        schemas

  load_table-IsCatalogued :
      (name : Bytes) (table : CreateTable)
      → IsCatalogued name table
      → table.table_name ≡ name
      → load_table bt db name ≡ ok table
  unfolding load_table
  load_table-IsCatalogued name table h e =
      rw
        (
          h.schema_held,
          create_table_round_trip table h.key_fits h.schema_fits,
          h.indexes_held,
          catalog_round_trip table.column_details h.columns_fit table.secondary_indexes h.catalog
              h.serialised h.catalog_fits,
          sym e,
        )
        refl

  -- No name is twice.
  abbrev pub AreDistinct : Schemas → Type 0
  AreDistinct [] = Unit {0}
  AreDistinct ((name, table) ∷ rest) =
      All (λ (entry : Bytes × CreateTable). entry.0 ≢ name) rest × AreDistinct rest

  -- None of the names is in the map.
  AreNew : Schemas → Schemas → Type 0
  AreNew schemas rest =
      All (λ (entry : Bytes × CreateTable). Dict.lookup entry.0 schemas ≡ none) rest

  put-AreNew :
      (name : Bytes) (table : CreateTable) (loaded rest : Schemas)
      → All (λ (entry : Bytes × CreateTable). entry.0 ≢ name) rest
      → AreNew loaded rest
      → AreNew (Dict.put name table loaded) rest
  unfolding AreNew
  put-AreNew name table loaded [] h new = tt
  put-AreNew name table loaded ((next, table') ∷ rest) (ne, h) (absent, new) =
      let other : str_eq name next ≡ false = str_eq-ne name next (λ e. ne (sym e)) in
      (lookup-put next name table loaded ∙ rw other absent, put-AreNew name table loaded rest h new)

  load_tables-AreCatalogued :
      (rest loaded : Schemas)
      → AreCatalogued rest
      → AreDistinct rest
      → AreNew loaded rest
      → load_tables bt db (keys_of rest) loaded ≡ ok (loaded ++ rest)
  unfolding load_tables AreNew
  load_tables-AreCatalogued [] loaded h distinct new = rw (append-nil loaded) refl
  load_tables-AreCatalogued ((name, table) ∷ rest) loaded ((h, e, plain, filled), more)
        (ne, distinct) (absent, new) =
      rw (load_table-IsCatalogued name table h e) (
        load_tables-AreCatalogued rest (Dict.put name table loaded) more distinct
          (put-AreNew name table loaded rest ne new)
        ∙ ap (λ (l : Schemas). ok (l ++ rest)) (put-absent name table loaded absent)
        ∙ (rw (append_assoc loaded ((name, table) ∷ []) rest) refl))

  names-HasNoComma : (schemas : Schemas) → AreCatalogued schemas → All HasNoComma (keys_of schemas)
  names-HasNoComma [] h = tt
  names-HasNoComma ((name, table) ∷ rest) ((h, e, plain, filled), more) =
      (plain, names-HasNoComma rest more)

  names-AreNamed : (schemas : Schemas) → AreCatalogued schemas → AreNamed schemas
  names-AreNamed [] h = tt
  names-AreNamed ((name, table) ∷ rest) ((h, e, plain, filled), more) =
      (e, names-AreNamed rest more)

  joined-filled :
      (part : Bytes) (parts : List Bytes) → part ≢ [] → str_eq (joined part parts) [] ≡ false
  unfolding joined cmp
  joined-filled [] parts h = absurd (h refl)
  joined-filled (c ∷ part) [] h = refl
  joined-filled (c ∷ part) (next ∷ parts) h = refl

  new_in_empty : (schemas : Schemas) → AreNew [] schemas
  unfolding AreNew Dict.lookup
  new_in_empty [] = tt
  new_in_empty (entry ∷ rest) = (refl, new_in_empty rest)

  -- Where the catalog holds the names of some tables, in an order in which the map can be visited,
  -- and the keys of each table hold its schema and its indexes as createTable serialises them, the
  -- tables are loaded as they were: the names are not empty, have no comma and are all different, and
  -- the lengths fit 32 bits.
  pub get_table_name_vs_schema_map-AreCatalogued :
      (name : Bytes) (table : CreateTable) (rest : Schemas)
      → get bt db catalog_key ≡ ok (without_last (table_names ((name, table) ∷ rest)))
      → AreCatalogued ((name, table) ∷ rest)
      → AreDistinct ((name, table) ∷ rest)
      → get_table_name_vs_schema_map bt db ≡ ok ((name, table) ∷ rest)
  unfolding get_table_name_vs_schema_map AreNew Dict.lookup
  get_table_name_vs_schema_map-AreCatalogued name table rest held h distinct =
      let names : without_last (table_names ((name, table) ∷ rest)) ≡ joined name (keys_of rest) =
        ap without_last
          (table_names-joined name table rest (names-AreNamed ((name, table) ∷ rest) h))
        ∙ without_last-append (joined name (keys_of rest)) 44 in
      let split = split-joined name (keys_of rest) (h.0.2) (names-HasNoComma rest (h.1)) in
      let some_names = joined-filled name (keys_of rest) (h.0.3) in
      rw (held, names, some_names, split)
        (load_tables-AreCatalogued ((name, table) ∷ rest) [] h distinct
          (new_in_empty ((name, table) ∷ rest)))
