-- ===== src/Gateway/Reads.antt =====
-- crates/gateway/src/keys.rs: what a read finds after each write to the projects' rows.
use mathlib.Core.Option
use frontkeep.Base.{
  String, ◌≡◌, refl, inl, inr, some, ◌==◌, eq_refl, arith, if◌then◌else◌, Option-cases, row_of,
  row_of-update, row_of-key,
}
use frontkeep.Base.Float.{Float}
use frontkeep.Gateway.Keys.{
  runtime_key, update_project, get_project, add_spend, verify_key, resolve_key,
}
use frontkeep.Gateway.Tables.{ProjectRuntime, RuntimeRow, GatewayDb}
use frontkeep.Storage.Env.{Env}

module _ {F : Float} where
  pub get_project-update_project :
      (env : Env) (id other : String) (f : ProjectRuntime F → ProjectRuntime F) (db : GatewayDb F)
      → ((rt : ProjectRuntime F) → (f rt).project_id ≡ rt.project_id)
      → get_project other (update_project env id f db)
        ≡ (if other == id then Option.map f (get_project id db) else get_project other db)
  unfolding get_project
  get_project-update_project env id other f db keeps =
      let write : RuntimeRow F → RuntimeRow F =
        λ row. record row { runtime = f row.runtime; updated_at = env.now } in
      ground
        (arith, row_of-update runtime_key write id other db.runtimes (λ row. keeps row.runtime))

  pub get_project-project_id :
      (id : String) (db : GatewayDb F) (rt : ProjectRuntime F)
      → get_project id db ≡ some rt
      → rt.project_id ≡ id
  unfolding get_project
  get_project-project_id id db rt h = elim (Option-cases (row_of runtime_key id db.runtimes)) [
    | inl missing ↦ ground (arith, missing)
    | inr (row, found) ↦ ground (arith, found, row_of-key runtime_key id db.runtimes row found)
  ]

  -- The spend of a project that is there: the new total, and no other project's row changes.
  pub add_spend_lem :
      (env : Env) (id other : String) (amount : F.F64) (db : GatewayDb F) (rt : ProjectRuntime F)
      → get_project id db ≡ some rt
      → ((add_spend env id amount db).1 ≡ some (F.add rt.spent_usd amount))
        × (get_project other (add_spend env id amount db).0 ≡ (
            if other == id
            then some (record rt { spent_usd = F.add rt.spent_usd amount })
            else get_project other db))
  unfolding add_spend
  add_spend_lem env id other amount db rt found =
      let spend : ProjectRuntime F → ProjectRuntime F =
        λ rt. record rt { spent_usd = F.add rt.spent_usd amount } in
      let own = get_project-update_project env id id spend db (λ rt. refl) in
      let reads = get_project-update_project env id other spend db (λ rt. refl) in
      (ground (arith, own, found, eq_refl id), ground (arith, reads, found))

  pub resolve_key-project :
      (sha256_hex : String → String) (key : String) (db : GatewayDb F) (rt : ProjectRuntime F)
      → resolve_key sha256_hex key db ≡ some rt
      → (verify_key sha256_hex key db ≡ some rt.project_id)
        × (get_project rt.project_id db ≡ some rt)
  unfolding resolve_key
  resolve_key-project sha256_hex key db rt h = elim (Option-cases (verify_key sha256_hex key db)) [
    | inl missing ↦ ground (arith, missing)
    | inr (id, found) ↦
        let same = get_project-project_id id db rt (ground (arith, found)) in
        ground (arith, found, same)
  ]
